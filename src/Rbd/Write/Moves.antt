-- ===== src/Rbd/Write/Moves.antt =====
-- Each step of a write runs into no assertion, sends in order, and brings the write nearer to its end.
use xcp_ng_ceph_rbd.Base.{
  ℕ, zero, suc, ◌+◌, ◌≤◌, ◌<◌, ◌≡◌, refl, inl, inr, Bool, true, false, List, [], ◌∷◌, ◌++◌, Option,
  none, some, length, if◌then◌else◌, ℤ, pos, negsuc, arith, Bool-cases,
}
use xcp_ng_ceph_rbd.Crush.Outcome.{◌>>=◌}
use xcp_ng_ceph_rbd.Rbd.Pending.{Pending, is_zero}
use xcp_ng_ceph_rbd.Striper.FileExtents.{FileExtent}
use xcp_ng_ceph_rbd.Rbd.ObjectMap.{nonexistent, pending}
use xcp_ng_ceph_rbd.Rbd.Copyup.{
  WriteState, start, pre_object_map, object, copyup_wait, copyup, post_object_map, CopyupState,
  read_parent, maps_wait, object_maps, write_wait, write_object, copyup_start, WriteReq, Sent,
  map_update, write, Calls, Step, after, advance_copyup,
}
use xcp_ng_ceph_rbd.Rbd.Copyup.Copies.{advance_copyup-Copies, advance_copyup-start}
use xcp_ng_ceph_rbd.Rbd.Write.{
  may_exist_now, is_noop, pre_state, pre_answer, post_answer, tell_after, copyup_done, copyup_ended,
  copyup_step, object_written, no_object, object_done, ask_write, pre_done, tell_before,
  start_write, write_from, advance_write,
}
use xcp_ng_ceph_rbd.Rbd.Write.Waits.{
  IsFresh, IsCopying, IsWaiting, IsWaitingIn, copyup_left, left_in, left, Rises, copyup_floor,
  floor_in, floor, Rises-append, Goes, Copies,
}

-- A log in front of a step.
after-Goes :
    (k from via m : ℕ) (log : List Sent) (step : Step)
    → Rises from log via
    → Goes k via m step
    → Goes k from m (after log step)
after-Goes k from via m log step front (inl (req, result, more, e, rises)) =
    inl (req, result, log ++ more, rw e refl, Rises-append from log via more 7 front rises)
after-Goes k from via m log step front (inr (req, result, more, e, waits, rises, lt)) = inr (
  req,
  result,
  log ++ more,
  rw e refl,
  waits,
  Rises-append from log via more (floor req) front rises,
  lt,
)

-- A step on either side of a test.
if-Goes :
    (k from m : ℕ) (test : Bool) {yes_step no_step : Step}
    → (test ≡ true → Goes k from m yes_step)
    → (test ≡ false → Goes k from m no_step)
    → Goes k from m (if test then yes_step else no_step)
if-Goes k from m true good bad = good refl
if-Goes k from m false good bad = bad refl

tell_after-Goes :
    (k from m : ℕ) (answer : Option ℕ) (req : WriteReq)
    → from ≤ 6
    → 1 < m
    → Goes k from m (tell_after answer req)
tell_after-Goes k from m none req low lt =
    inl (record req { write_state = post_object_map }, pos 0, [], refl, omega arith)
tell_after-Goes k from m (some zero) req low lt = inr (
  record req { write_state = post_object_map },
  pos 0,
  map_update none nonexistent (some pending) ∷ [],
  refl,
  tt,
  (low, omega arith),
  lt,
)
tell_after-Goes k from m (some (suc n)) req low lt = inl (req, negsuc n, [], refl, omega arith)

copyup_done-Goes :
    (k from m : ℕ) (calls : Calls) (req : WriteReq) (result : ℤ)
    → from ≤ 6
    → 1 < m
    → Goes k from m (copyup_done calls req result)
unfolding copyup_done
copyup_done-Goes k from m calls req result low lt = elim (Bool-cases (is_zero result)) [
  | inl good ↦ rw good (tell_after-Goes k from m (post_answer calls req.deletion) req low lt)
  | inr bad ↦ rw bad (inl (req, result, [], refl, omega arith))
]

-- What waits in the copyup waits in the write.
in_copyup :
    (k : ℕ) (w : WriteState) (req : WriteReq) (from m : ℕ) (log : List Sent)
    → w ≡ copyup_wait
    → IsCopying req.copyup_state req.pending req.img_extents
    → Rises from log (copyup_floor req.copyup_state)
    → copyup_left k req.copyup_state req.pending.num_pending < m
    → IsWaitingIn w req × Rises from log (floor_in w req.copyup_state) × (left_in k w req < m)
in_copyup k copyup_wait req from m log e copying rises lt = (copying, rises, lt)
in_copyup k start req from m log e copying rises lt = absurd (cc e)
in_copyup k pre_object_map req from m log e copying rises lt = absurd (cc e)
in_copyup k object req from m log e copying rises lt = absurd (cc e)
in_copyup k copyup req from m log e copying rises lt = absurd (cc e)
in_copyup k post_object_map req from m log e copying rises lt = absurd (cc e)

copyup_ended-Goes :
    (k from m : ℕ) (calls : Calls) (step : Step)
    → 1 < m
    → Copies k from m step
    → Goes k from m (step >>= copyup_ended calls)
copyup_ended-Goes k from m calls step lt (inl (req, result, log, e, rises)) = rw e (
    after-Goes k from 6 m log (copyup_done calls req result) rises
      (copyup_done-Goes k 6 m calls req result (omega arith) lt))
copyup_ended-Goes k from m calls step lt (inr (req, result, log, e, at, copying, rises, less)) =
    let (waits, on, fewer) = in_copyup k req.write_state req from m log at copying rises less in
    inr (req, result, log, rw e refl, waits, on, fewer)

object_written-Goes :
    (k m : ℕ) (calls : Calls) (req : WriteReq) (result : ℤ)
    → 1 < m
    → Goes k 2 m (object_written calls req result)
object_written-Goes k m calls req result lt = elim (Bool-cases (is_zero result)) [
  | inl good ↦
      rw good
        (copyup_done-Goes k 2 m calls (record req { write_state = copyup }) result (omega arith) lt)
  | inr bad ↦ rw bad (inl (req, result, [], refl, omega arith))
]

no_object-Goes :
    (k : ℕ) (calls : Calls) (req : WriteReq) → IsFresh req → Goes k 2 (k + 5) (no_object calls req)
unfolding copyup_step
no_object-Goes k calls req (clean, unset, covered, small) =
    if-Goes k 2 (k + 5) req.copyup_enabled
      (λ on.
        copyup_ended-Goes k 2 (k + 5) calls
          (advance_copyup calls
            (record req { copyup_state = copyup_start; write_state = copyup_wait }) (pos 0))
          (omega arith)
          (advance_copyup-start k 2 (k + 5) calls (record req { write_state = copyup_wait }) refl
            unset clean (covered on) small (omega arith) (omega arith)))
      (λ off.
        object_written-Goes k (k + 5) calls req (if req.deletion then pos 0 else negsuc 1)
          (omega arith))

object_done-Goes :
    (k : ℕ) (calls : Calls) (req : WriteReq) (result : ℤ)
    → IsFresh req
    → Goes k 2 (k + 5) (object_done calls req result)
object_done-Goes k calls req (pos n) fresh =
    object_written-Goes k (k + 5) calls req (pos n) (omega arith)
object_done-Goes k calls req (negsuc (suc zero)) fresh = no_object-Goes k calls req fresh
object_done-Goes k calls req (negsuc zero) fresh =
    object_written-Goes k (k + 5) calls req (negsuc zero) (omega arith)
object_done-Goes k calls req (negsuc (suc (suc n))) fresh =
    object_written-Goes k (k + 5) calls req (negsuc (suc (suc n))) (omega arith)

ask_write-Goes :
    (k from m answer : ℕ) (req : WriteReq)
    → IsFresh req
    → from ≤ 1
    → k + 5 < m
    → Goes k from m (ask_write answer req)
ask_write-Goes k from m zero req fresh low lt =
    inr
      (record req { write_state = object }, pos 0, write ∷ [], refl, fresh, (low, omega arith), lt)
ask_write-Goes k from m (suc n) req fresh low lt = inl (req, negsuc n, [], refl, omega arith)

pre_done-Goes :
    (k from m : ℕ) (calls : Calls) (req : WriteReq) (result : ℤ)
    → IsFresh req
    → from ≤ 1
    → k + 5 < m
    → Goes k from m (pre_done calls req result)
unfolding pre_done
pre_done-Goes k from m calls req result fresh low lt =
    if-Goes k from m (is_zero result)
      (λ good. ask_write-Goes k from m (calls.sends write) req fresh low lt)
      (λ bad. inl (req, result, [], refl, omega arith))

tell_before-Goes :
    (k : ℕ) (answer : Option ℕ) (calls : Calls) (req : WriteReq)
    → IsFresh req
    → Goes k 0 (k + 7) (tell_before answer calls req)
tell_before-Goes k none calls req fresh =
    pre_done-Goes k 0 (k + 7) calls (record req { write_state = pre_object_map }) (pos 0) fresh
      (omega arith) (omega arith)
tell_before-Goes k (some zero) calls req fresh = inr (
  record req { write_state = pre_object_map },
  pos 0,
  map_update none (pre_state req.deletion) none ∷ [],
  refl,
  fresh,
  (omega arith, omega arith),
  omega arith,
)
tell_before-Goes k (some (suc n)) calls req fresh = inl (req, negsuc n, [], refl, omega arith)

pub start_write-Goes :
    (k : ℕ) (calls : Calls) (req : WriteReq)
    → IsFresh req
    → Goes k 0 (k + 7) (start_write calls req (pos 0))
unfolding start_write
start_write-Goes k calls req fresh =
    if-Goes k 0 (k + 7) (is_noop calls req)
      (λ noop.
        inl (record req { may_exist = may_exist_now calls req }, pos 0, [], refl, omega arith))
      (λ go.
        tell_before-Goes k (pre_answer calls req.deletion) calls
          (record req { may_exist = may_exist_now calls req }) fresh)

pub copyup_left-lt :
    (k : ℕ) (c : CopyupState) (p : Pending) (fes : List FileExtent)
    → IsCopying c p fes
    → 1 < copyup_left k c p.num_pending
copyup_left-lt k read_parent p fes h = omega arith
copyup_left-lt k maps_wait p fes h = omega arith
copyup_left-lt k write_wait p fes h = omega arith
copyup_left-lt k write_object p fes h = omega arith
copyup_left-lt k copyup_start p fes h = absurd h
copyup_left-lt k object_maps p fes h = absurd h

write_from-Goes :
    (k : ℕ) (w : WriteState) (calls : Calls) (req : WriteReq) (result : ℤ)
    → req.write_state ≡ w
    → IsWaitingIn w req
    → length calls.snaps ≤ k
    → Goes k (floor_in w req.copyup_state) (left_in k w req) (write_from w calls req result)
unfolding copyup_step
write_from-Goes k pre_object_map calls req result e h few =
    pre_done-Goes k 1 (k + 6) calls req result h (omega arith) (omega arith)
write_from-Goes k object calls req result e h few = object_done-Goes k calls req result h
write_from-Goes k copyup_wait calls req result e h few =
    copyup_ended-Goes k (copyup_floor req.copyup_state)
      (copyup_left k req.copyup_state req.pending.num_pending) calls
      (advance_copyup calls req result)
      (copyup_left-lt k req.copyup_state req.pending req.img_extents h)
      (advance_copyup-Copies k calls req result e h few)
write_from-Goes k post_object_map calls req result e h few =
    inl (req, result, [], refl, omega arith)
write_from-Goes k start calls req result e h few = absurd h
write_from-Goes k copyup calls req result e h few = absurd h

-- A request that waits takes any result: it ends, or waits for fewer results.
pub advance_write-Goes :
    (k : ℕ) (calls : Calls) (req : WriteReq) (result : ℤ)
    → IsWaiting req
    → length calls.snaps ≤ k
    → Goes k (floor req) (left k req) (advance_write calls req result)
unfolding advance_write
advance_write-Goes k calls req result h few =
    write_from-Goes k req.write_state calls req result refl h few
