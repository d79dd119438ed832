-- ===== src/Rbd/Copyup/Sends.antt =====
-- What a copyup sends to the object maps and to the object.
use xcp_ng_ceph_rbd.Base.{
  ℕ, zero, suc, ◌+◌, ◌≤◌, ◌<◌, ◌≡◌, refl, inl, inr, ◌&&◌, true, false, List, [], ◌∷◌, none, some,
  length, ltb, ◌==◌, arith, Bool-cases,
}
use xcp_ng_ceph_rbd.Crush.Outcome.{Outcome, ok}
use xcp_ng_ceph_rbd.Striper.FileExtents.{FileExtent}
use xcp_ng_ceph_rbd.Rbd.Pending.{Pending, is_zero}
use xcp_ng_ceph_rbd.Rbd.Extents.{file_extents_bytes}
use xcp_ng_ceph_rbd.Rbd.Copyup.{
  WriteReq, Sent, map_update, copyup_empty, copyup_current, Calls, mods_only, is_clean, one_more,
  with_error, snap_state, update_snaps, copyup_object_maps, current_snapc, empty_snapc, has_snaps,
  copyup_write_object,
}
use xcp_ng_ceph_rbd.Rbd.Write.Waits.{total_len, Rises, Rises-from}

-- What the loop over the snapshots leaves from `p` on.
abbrev pub Updates : Outcome (Pending × List Sent) → (bound : ℕ) → Type 0
Updates r bound =
    (p : Pending) × (log : List Sent) × (r ≡ ok (p, log)) × (p.num_pending ≤ bound) × Rises 3 log 3

pub file_extents_bytes-le : (fes : List FileExtent) → file_extents_bytes fes ≤ total_len fes
unfolding file_extents_bytes
file_extents_bytes-le [] = omega arith
file_extents_bytes-le (fe ∷ fes) = omega (arith, file_extents_bytes-le fes)

pub update_snaps-cons :
    (calls : Calls) (snap : ℕ) (later : List ℕ) (p : Pending) (bound n : ℕ)
    → p.num_pending ≤ bound
    → Updates (update_snaps calls later (one_more p)) bound
    → calls.sends (map_update (some snap) (snap_state calls.fast_diff later) none) ≡ n
    → Updates (update_snaps calls (snap ∷ later) p) bound
unfolding update_snaps
update_snaps-cons calls snap later p bound zero le (p', log, sent, few, rises) e = (
  p',
  map_update (some snap) (snap_state calls.fast_diff later) none ∷ log,
  rw (e, sent) refl,
  few,
  (omega arith, rises),
)
update_snaps-cons calls snap later p bound (suc n) le rest e =
    (with_error n p, [], rw e refl, le, omega arith)

pub update_snaps-Updates :
    (calls : Calls) (snaps : List ℕ) (p : Pending)
    → Updates (update_snaps calls snaps p) (p.num_pending + length snaps)
unfolding update_snaps
update_snaps-Updates calls [] p = (p, [], refl, omega arith, omega arith)
update_snaps-Updates calls (snap ∷ later) p =
    let (p', log, sent, few, rises) = update_snaps-Updates calls later (one_more p) in
    update_snaps-cons calls snap later p (p.num_pending + length (snap ∷ later))
      (calls.sends (map_update (some snap) (snap_state calls.fast_diff later) none)) (omega arith)
      (p', log, sent, omega arith, rises) refl

pub is_clean-num : (p : Pending) → is_clean p ≡ true → p.num_pending ≡ 0
is_clean-num p e = ground arith

pub is_clean-result :
    (p : Pending) → p.num_pending ≡ 0 → is_zero p.result ≡ true → is_clean p ≡ true
is_clean-result p e z = rw (e, z) refl

pub copyup_object_maps-Updates :
    (calls : Calls) (req : WriteReq)
    → is_clean req.pending ≡ true
    → Updates (copyup_object_maps calls req) (length calls.snaps)
unfolding copyup_object_maps update_snaps
copyup_object_maps-Updates calls req clean = rw clean (elim (Bool-cases calls.object_map) [
  | inl on ↦ elim (Bool-cases req.copyup_zeros) [
    | inl zeros ↦ rw (on, zeros) nothing
    | inr full ↦
        let (p, log, sent, few, rises) = update_snaps-Updates calls calls.snaps req.pending in
        rw (on, full) (p, log, sent, omega (arith, is_clean-num req.pending clean), rises)
  ]
  | inr off ↦ rw off nothing
])
  where
    nothing : Updates (ok (req.pending, [])) (length calls.snaps)
    nothing = (req.pending, [], refl, omega (arith, is_clean-num req.pending clean), omega arith)

pub current_snapc_lem :
    (answer bytes : ℕ) (p : Pending)
    → ((current_snapc answer bytes p).0.num_pending ≤ suc p.num_pending)
      × Rises 5 (current_snapc answer bytes p).1 6
current_snapc_lem zero bytes p = (omega arith, (omega arith, omega arith))
current_snapc_lem (suc n) bytes p = (omega arith, omega arith)

pub empty_snapc_lem :
    (calls : Calls) (answer bytes : ℕ) (p : Pending)
    → p.num_pending ≡ 0
    → ((empty_snapc calls answer bytes p).0.num_pending ≤ 2)
      × Rises 3 (empty_snapc calls answer bytes p).1 6
empty_snapc_lem calls zero bytes p e =
    let (few, rises) =
      current_snapc_lem (calls.sends (copyup_current mods_only)) mods_only (one_more p) in
    (omega arith, (omega arith, rises))
empty_snapc_lem calls (suc n) bytes p e = (omega arith, omega arith)

pub copyup_write_object_lem :
    (calls : Calls) (bytes : ℕ) (p : Pending)
    → is_clean p ≡ true
    → bytes < mods_only
    → (r : Pending × List Sent) × (copyup_write_object calls bytes p ≡ ok r)
      × (r.0.num_pending ≤ 2)
      × Rises 3 r.1 6
unfolding copyup_write_object
copyup_write_object_lem calls bytes p clean small =
    elim (Bool-cases (has_snaps calls.snaps && ltb 0 bytes)) [
      | inl both ↦
          let (few, rises) =
            empty_snapc_lem calls (calls.sends (copyup_empty bytes)) bytes p
              (is_clean-num p clean) in
          rw (clean, both, other)
            (empty_snapc calls (calls.sends (copyup_empty bytes)) bytes p, refl, few, rises)
      | inr one ↦
          let (few, rises) = current_snapc_lem (calls.sends (copyup_current bytes)) bytes p in
          rw (clean, one)
            (
              current_snapc (calls.sends (copyup_current bytes)) bytes p,
              refl,
              omega (arith, is_clean-num p clean),
              Rises-from 3 5 (current_snapc (calls.sends (copyup_current bytes)) bytes p).1 6
                  (omega arith) rises,
            )
    ]
  where
    other : (bytes == mods_only) ≡ false
    other = ground arith
