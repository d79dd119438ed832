-- ===== src/Rbd/Copyup/Copies.antt =====
-- A copyup runs into no assertion, sends in order, and waits for a bounded number of results.
use xcp_ng_ceph_rbd.Base.{
  ℕ, zero, suc, ◌+◌, ◌≤◌, ◌<◌, ◌≡◌, refl, sym, inl, inr, true, false, List, [], ◌∷◌, length, ℤ, pos,
  negsuc, arith, u32,
}
use mathlib.Core.Path.{subst}
use xcp_ng_ceph_rbd.Crush.Outcome.{◌>>=◌}
use xcp_ng_ceph_rbd.Striper.FileExtents.{FileExtent}
use xcp_ng_ceph_rbd.Rbd.Pending.{pending_result_dec}
use xcp_ng_ceph_rbd.Rbd.Extents.{trim, last_of, prune_extents, file_extents_bytes}
use xcp_ng_ceph_rbd.Rbd.Copyup.{
  copyup_wait, CopyupState, copyup_start, read_parent, maps_wait, object_maps, write_wait,
  write_object, WriteReq, copyup_current, Calls, mods_only, is_clean, write_again, read_or_write,
  is_none, copyup_read_parent, maps_ended, writes_ended, copyup_from, advance_copyup,
}
use xcp_ng_ceph_rbd.Rbd.Write.Waits.{total_len, IsCopying, copyup_left, next, copyup_floor, Copies}
use xcp_ng_ceph_rbd.Rbd.Copyup.Pends.{
  parent_read_done-Copies, maps_wait-Copies, write_wait-Copies, with_bvecs-Copies,
}

prune_extents-total :
    (fes : List FileExtent) (overlap : ℕ) → total_len (prune_extents fes overlap) ≤ total_len fes
unfolding prune_extents
prune_extents-total [] overlap = omega arith
prune_extents-total (fe ∷ rest) overlap =
    last (prune_extents rest overlap) (prune_extents-total rest overlap)
  where
    cut : total_len (trim fe overlap ∷ []) ≤ fe.len
    cut = ground arith

    last :
        (kept : List FileExtent)
        → total_len kept ≤ total_len rest
        → total_len (last_of fe overlap kept) ≤ fe.len + total_len rest
    last [] h = ground (arith, cut)
    last (next ∷ kept) h = omega (arith, h)

copyup_read_parent-Copies :
    (k from m : ℕ) (calls : Calls) (req : WriteReq)
    → req.write_state ≡ copyup_wait
    → req.has_bvecs ≡ false
    → is_clean req.pending ≡ true
    → is_none req.img_extents ≡ false
    → total_len req.img_extents < mods_only
    → from ≤ 2
    → k + 4 < m
    → Copies k from m (copyup_read_parent calls req (pos 0))
unfolding copyup_read_parent
copyup_read_parent-Copies k from m calls req at unset clean covered small low lt = rw covered (
    by (prune_extents req.img_extents calls.parent_overlap)
      (prune_extents-total req.img_extents calls.parent_overlap))
  where
    again : (n : ℕ) → Copies k from m (write_again n (record req { img_extents = [] }))
    again zero = inr (
      record req { img_extents = []; copyup_state = write_object },
      pos 0,
      copyup_current mods_only ∷ [],
      refl,
      at,
      tt,
      (omega arith, omega arith),
      omega arith,
    )
    again (suc n) = inl (record req { img_extents = [] }, negsuc n, [], refl, omega arith)

    by :
        (fes : List FileExtent)
        → total_len fes ≤ total_len req.img_extents
        → Copies k from m (read_or_write calls fes req)
    by [] le = again (calls.sends (copyup_current mods_only))
    by (fe ∷ rest) le =
        with_bvecs-Copies k from m calls (u32 (file_extents_bytes (fe ∷ rest)))
          (record req { img_extents = fe ∷ rest }) at unset clean (omega arith) low lt

pub positive : (n : ℕ) → 1 ≤ n → (m : ℕ) × (n ≡ suc m)
positive zero h = absurd (omega arith)
positive (suc m) h = (m, refl)

copyup_from-Copies :
    (k : ℕ) (c : CopyupState) (calls : Calls) (req : WriteReq) (result : ℤ)
    → req.copyup_state ≡ c
    → req.write_state ≡ copyup_wait
    → IsCopying c req.pending req.img_extents
    → length calls.snaps ≤ k
    → Copies k
        (copyup_floor c)
        (copyup_left k c req.pending.num_pending)
        (copyup_from c calls req result)
copyup_from-Copies k read_parent calls req result e at (clean, small) few =
    parent_read_done-Copies k (k + 4) calls req result at clean small few (omega arith)
copyup_from-Copies k maps_wait calls req result e at (any, small) few =
    let (n, eq) = positive req.pending.num_pending any in
    subst (λ i. Copies k 3 (i + 3) (pending_result_dec req.pending result >>= maps_ended calls req))
      (sym eq) (maps_wait-Copies k n calls req result at e eq small)
copyup_from-Copies k write_wait calls req result e at any few =
    let (n, eq) = positive req.pending.num_pending any in
    subst (λ i. Copies k 6 (i + 1) (pending_result_dec req.pending result >>= writes_ended req))
      (sym eq) (write_wait-Copies k n req result at e eq)
copyup_from-Copies k write_object calls req result e at h few =
    inl (req, result, [], refl, omega arith)
copyup_from-Copies k copyup_start calls req result e at h few = absurd h
copyup_from-Copies k object_maps calls req result e at h few = absurd h

pub advance_copyup-Copies :
    (k : ℕ) (calls : Calls) (req : WriteReq) (result : ℤ)
    → req.write_state ≡ copyup_wait
    → IsCopying req.copyup_state req.pending req.img_extents
    → length calls.snaps ≤ k
    → Copies k
        (copyup_floor req.copyup_state)
        (copyup_left k req.copyup_state req.pending.num_pending)
        (advance_copyup calls req result)
unfolding advance_copyup
advance_copyup-Copies k calls req result at h few =
    copyup_from-Copies k req.copyup_state calls req result refl at h few

-- The first step of a copyup.
pub advance_copyup-start :
    (k from m : ℕ) (calls : Calls) (req : WriteReq)
    → req.write_state ≡ copyup_wait
    → req.has_bvecs ≡ false
    → is_clean req.pending ≡ true
    → is_none req.img_extents ≡ false
    → total_len req.img_extents < mods_only
    → from ≤ 2
    → k + 4 < m
    → Copies k from m (advance_copyup calls (record req { copyup_state = copyup_start }) (pos 0))
unfolding advance_copyup
advance_copyup-start k from m calls req at unset clean covered small low lt =
    copyup_read_parent-Copies k from m calls (record req { copyup_state = copyup_start }) at unset
      clean covered small low lt
