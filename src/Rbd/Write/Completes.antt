-- ===== src/Rbd/Write/Completes.antt =====
-- A write from its start to its end.
use xcp_ng_ceph_rbd.Base.{
  ℕ, ◌+◌, ◌≤◌, ◌≡◌, refl, ap, inl, inr, false, List, [], ◌∷◌, ◌++◌, Option, none, some, length, All,
  ℤ, pos, negsuc, zero, suc, Bool, true, arith,
}
use xcp_ng_ceph_rbd.Crush.Outcome.{Outcome, ok}
use xcp_ng_ceph_rbd.Rbd.Copyup.{
  WriteState, start, pre_object_map, object, copyup_wait, copyup, post_object_map, CopyupState,
  read_parent, maps_wait, object_maps, write_wait, write_object, copyup_start, WriteReq, Sent,
  Calls, is_clean,
}
use xcp_ng_ceph_rbd.Rbd.Write.{start_write, write_from, advance_write, Event, run, run_write}
use xcp_ng_ceph_rbd.Rbd.Write.Waits.{
  IsFresh, IsWaiting, IsWaitingIn, left_in, left, Rises, floor_in, floor, Rises-append, Rises-to,
}
use mathlib.Core.Path.{subst}
use xcp_ng_ceph_rbd.Rbd.Copyup.Stops.{IsResult}
use xcp_ng_ceph_rbd.Rbd.Copyup.Results.{IsSound}
use xcp_ng_ceph_rbd.Rbd.Write.Results.{start_write-IsSound, advance_write-IsSound, ended-ok}
use xcp_ng_ceph_rbd.Rbd.Write.Moves.{start_write-Goes, copyup_left-lt, advance_write-Goes}

-- A run that has sent `log` and has not faulted; with enough events it has ended.
abbrev Completes : (missing : ℕ) → Outcome (Option ℤ × List Sent) → List Event → Type 0
Completes missing outcome events =
    (answer : Option ℤ) × (log : List Sent) × (outcome ≡ ok (answer, log))
    × Rises 0 log 7
    × (missing ≤ length events → (result : ℤ) × (answer ≡ some result))

-- The events of an image with at most `k` snapshots.
abbrev pub IsFew : (k : ℕ) → Event → Type 0
IsFew k event = length event.calls.snaps ≤ k

floor-le : (w : WriteState) (c : CopyupState) → floor_in w c ≤ 7
floor-le start c = omega arith
floor-le pre_object_map c = omega arith
floor-le object c = omega arith
floor-le copyup_wait read_parent = omega arith
floor-le copyup_wait maps_wait = omega arith
floor-le copyup_wait copyup_start = omega arith
floor-le copyup_wait object_maps = omega arith
floor-le copyup_wait write_wait = omega arith
floor-le copyup_wait write_object = omega arith
floor-le copyup c = omega arith
floor-le post_object_map c = omega arith

left-pos : (k : ℕ) (w : WriteState) (req : WriteReq) → IsWaitingIn w req → 1 ≤ left_in k w req
left-pos k pre_object_map req h = omega arith
left-pos k object req h = omega arith
left-pos k copyup_wait req h =
    omega (arith, copyup_left-lt k req.copyup_state req.pending req.img_extents h)
left-pos k post_object_map req h = omega arith
left-pos k start req h = absurd h
left-pos k copyup req h = absurd h

run-Completes :
    (k : ℕ) (events : List Event) (req : WriteReq) (result : ℤ) (log : List Sent)
    → IsWaiting req
    → All (IsFew k) events
    → All (λ event. IsResult event.result) events
    → IsResult req.pending.result
    → Rises 0 log (floor req)
    → Completes (left k req) (run events (false, req, result, log)) events
unfolding run
run-Completes k [] req result log waits few fine kept rises = (
  none,
  log,
  refl,
  Rises-to 0 log (floor req) 7 (floor-le req.write_state req.copyup_state) rises,
  λ le. absurd (omega (arith, left-pos k req.write_state req waits)),
)
run-Completes k (event ∷ events) req result log waits few fine kept rises =
    elim (advance_write-Goes k event.calls req event.result waits few.0) [
      | inl (req', result', more, e, on) ↦
          rw (e, ended-ok result' (log ++ more) (sound e).0)
            (
              some result',
              log ++ more,
              refl,
              Rises-append 0 log (floor req) more 7 rises on,
              λ le. (result', refl),
            )
      | inr (req', result', more, e, waits', on, fewer) ↦
          let (answer, all, ran, sorted, ends) =
            run-Completes k events req' result' (log ++ more) waits' few.1 fine.1 (sound e).1
              (Rises-append 0 log (floor req) more (floor req') rises on) in
          rw e (answer, all, ran, sorted, λ le. ends (omega (arith, fewer)))
    ]
  where
    sound :
        {done : Bool} {req' : WriteReq} {result' : ℤ} {more : List Sent}
        → advance_write event.calls req event.result ≡ ok (done, req', result', more)
        → IsResult result' × IsResult req'.pending.result
    sound eq = subst IsSound eq (advance_write-IsSound event.calls req event.result fine.0 kept)

advance_write-start :
    (calls : Calls) (req : WriteReq)
    → req.write_state ≡ start
    → advance_write calls req (pos 0) ≡ start_write calls req (pos 0)
unfolding advance_write
advance_write-start calls req begun = ap (λ w. write_from w calls req (pos 0)) begun

-- A write that is started fresh, with any results after it that are 0 or errors, runs into no assertion; what it sends is in
-- order, and with k + 6 results, k the most snapshots that the image has in a step, it has ended.
pub run_write-Completes :
    (k : ℕ) (calls : Calls) (req : WriteReq) (events : List Event)
    → req.write_state ≡ start
    → IsFresh req
    → length calls.snaps ≤ k
    → All (IsFew k) events
    → All (λ event. IsResult event.result) events
    → (answer : Option ℤ) × (log : List Sent) × (run_write calls req events ≡ ok (answer, log))
      × Rises 0 log 7
      × (k + 6 ≤ length events → (result : ℤ) × (answer ≡ some result))
unfolding run_write run
run_write-Completes k calls req events begun fresh few all fine =
    elim (start_write-Goes k calls req fresh) [
      | inl (req', result, log, e, rises) ↦
          rw (advance_write-start calls req begun, e, ended-ok result log (sound e).0)
            (some result, log, refl, rises, λ le. (result, refl))
      | inr (req', result, log, e, waits, rises, lt) ↦
          let (answer, sent, ran, sorted, ends) =
            run-Completes k events req' result log waits all fine (sound e).1 rises in
          rw (advance_write-start calls req begun, e)
            (answer, sent, ran, sorted, λ le. ends (omega (arith, lt)))
    ]
  where
    clean : (r : ℤ) (n : ℕ) → is_clean (record { result = r; num_pending = n }) ≡ true → IsResult r
    clean (pos zero) n h = tt
    clean (pos (suc m)) n h = absurd cc
    clean (negsuc m) n h = tt

    sound :
        {done : Bool} {req' : WriteReq} {result' : ℤ} {more : List Sent}
        → start_write calls req (pos 0) ≡ ok (done, req', result', more)
        → IsResult result' × IsResult req'.pending.result
    sound eq = subst IsSound eq (
        start_write-IsSound calls req (pos 0) tt
          (clean req.pending.result req.pending.num_pending fresh.0))
