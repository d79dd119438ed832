-- ===== src/Rbd/Copyup/Pends.antt =====
-- The states of a copyup in which requests are pending.
use xcp_ng_ceph_rbd.Base.{
  ℕ, zero, suc, ◌+◌, ◌-◌, ◌*◌, ◌/◌, ◌≤◌, ◌<◌, ◌≡◌, refl, sym, inl, inr, Bool, true, false, List, [],
  ◌∷◌, ◌++◌, length, min, if◌then◌else◌, ℤ, pos, negsuc, arith, Bool-cases,
}
use mathlib.Core.Path.{subst}
use xcp_ng_ceph_rbd.Crush.Outcome.{◌>>=◌}
use xcp_ng_ceph_rbd.Pagelist.{page_size}
use xcp_ng_ceph_rbd.Rbd.Pending.{
  Pending, is_zero, pending_result_dec, keep_first, pending_result_dec-cases,
}
use xcp_ng_ceph_rbd.Rbd.Copyup.{
  copyup_wait, read_parent, maps_wait, object_maps, write_wait, write_object, WriteReq, Sent,
  parent_read, Calls, Step, after, mods_only, is_clean, copyup_bytes, copyups_pending, maps_pending,
  object_maps_done, parent_read_done, bvecs_left, ask_parent, with_bvecs, maps_ended, writes_ended,
}
use xcp_ng_ceph_rbd.Rbd.Write.Waits.{
  total_len, IsCopying, copyup_left, Rises, copyup_floor, Rises-append, Copies,
}
use xcp_ng_ceph_rbd.Rbd.Copyup.Sends.{
  file_extents_bytes-le, is_clean-result, copyup_object_maps-Updates, copyup_write_object_lem,
}

-- The copyups after the updates of the object maps.
pub copyups_pending-Copies :
    (k m n : ℕ) (req : WriteReq) (p : Pending) (log : List Sent)
    → p.num_pending ≡ n
    → req.write_state ≡ copyup_wait
    → n ≤ 2
    → 3 < m
    → Rises 3 log 6
    → Copies k 3 m (copyups_pending n req p log)
copyups_pending-Copies k m zero req p log e at few lt rises =
    inl (record req { pending = p; copyup_state = write_object }, p.result, log, refl, rises)
copyups_pending-Copies k m (suc n) req p log e at few lt rises = inr (
  record req { pending = p; copyup_state = write_wait },
  pos 0,
  log,
  refl,
  at,
  omega (arith, e),
  rises,
  omega (arith, e),
)

pub object_maps_done-Copies :
    (k m : ℕ) (calls : Calls) (req : WriteReq) (result : ℤ)
    → req.write_state ≡ copyup_wait
    → 3 < m
    → total_len req.img_extents < mods_only
    → (is_zero result ≡ true → is_clean req.pending ≡ true)
    → Copies k 3 m (object_maps_done calls req result)
unfolding object_maps_done
object_maps_done-Copies k m calls req result at lt small clean =
    elim (Bool-cases (is_zero result)) [
      | inl good ↦
          let (r, sent, few, rises) =
            copyup_write_object_lem calls (copyup_bytes req.copyup_zeros req.img_extents)
              req.pending (clean good) (bytes_small req.copyup_zeros) in
          rw (good, sent)
            (copyups_pending-Copies k m r.0.num_pending req r.0 r.1 refl at few lt rises)
      | inr bad ↦ rw bad (inl (req, result, [], refl, omega arith))
    ]
  where
    bytes_small : (zeros : Bool) → copyup_bytes zeros req.img_extents < mods_only
    bytes_small true = omega arith
    bytes_small false = omega (arith, file_extents_bytes-le req.img_extents, small)

-- A log in front of a step.
pub after-Copies :
    (k m : ℕ) (log : List Sent) (step : Step)
    → Rises 3 log 3
    → Copies k 3 m step
    → Copies k 3 m (after log step)
after-Copies k m log step front (inl (req, result, more, e, rises)) =
    inl (req, result, log ++ more, rw e refl, Rises-append 3 log 3 more 6 front rises)
after-Copies k m log step front (inr (req, result, more, e, at, copying, rises, lt)) = inr (
  req,
  result,
  log ++ more,
  rw e refl,
  at,
  copying,
  Rises-append 3 log 3 more (copyup_floor req.copyup_state) front rises,
  lt,
)

pub maps_pending-Copies :
    (k m n : ℕ) (calls : Calls) (req : WriteReq) (p : Pending) (log : List Sent)
    → p.num_pending ≡ n
    → req.write_state ≡ copyup_wait
    → total_len req.img_extents < mods_only
    → n ≤ k
    → k + 3 < m
    → Rises 3 log 3
    → Copies k 3 m (maps_pending n calls req p log)
maps_pending-Copies k m zero calls req p log e at small few lt rises =
    after-Copies k m log
      (object_maps_done calls (record req { pending = p; copyup_state = object_maps }) p.result)
      rises
      (object_maps_done-Copies k m calls (record req { pending = p; copyup_state = object_maps })
        p.result at (omega arith) small (is_clean-result p e))
maps_pending-Copies k m (suc n) calls req p log e at small few lt rises = inr (
  record req { pending = p; copyup_state = maps_wait },
  pos 0,
  log,
  refl,
  at,
  (omega (arith, e), small),
  rises,
  omega (arith, e),
)

pub parent_read_done-Copies :
    (k m : ℕ) (calls : Calls) (req : WriteReq) (result : ℤ)
    → req.write_state ≡ copyup_wait
    → is_clean req.pending ≡ true
    → total_len req.img_extents < mods_only
    → length calls.snaps ≤ k
    → k + 3 < m
    → Copies k 3 m (parent_read_done calls req result)
unfolding parent_read_done
parent_read_done-Copies k m calls req result at clean small few lt =
    elim (Bool-cases (is_zero result)) [
      | inl good ↦
          let req' : WriteReq = record req {
            copyup_zeros = if calls.zero_data then true else req.copyup_zeros;
          } in
          let (p, log, sent, bound, rises) = copyup_object_maps-Updates calls req' clean in
          rw (good, sent)
            (maps_pending-Copies k m p.num_pending calls req' p log refl at small (omega arith) lt
              rises)
      | inr bad ↦ rw bad (inl (req, result, [], refl, omega arith))
    ]

-- A result among several.
pub maps_wait-Copies :
    (k n : ℕ) (calls : Calls) (req : WriteReq) (result : ℤ)
    → req.write_state ≡ copyup_wait
    → req.copyup_state ≡ maps_wait
    → req.pending.num_pending ≡ suc n
    → total_len req.img_extents < mods_only
    → Copies k 3 (suc n + 3) (pending_result_dec req.pending result >>= maps_ended calls req)
unfolding maps_ended
maps_wait-Copies k n calls req result at c e small =
    let kept = keep_first req.pending.result result in
    elim (pending_result_dec-cases req.pending n result e) [
      | inl last ↦ rw last (
          object_maps_done-Copies k (suc n + 3) calls
            (record req { pending = record { result = kept; num_pending = 0 } }) kept at
            (omega arith) small
            (λ z. is_clean-result (record { result = kept; num_pending = 0 }) refl z))
      | inr (m, eq, more) ↦ rw more (
          inr (
            record req { pending = record { result = kept; num_pending = suc m } },
            result,
            [],
            refl,
            at,
            subst (λ s. IsCopying s (record { result = kept; num_pending = suc m }) req.img_extents)
                (sym c) (omega arith, small),
            subst (λ s. Rises 3 [] (copyup_floor s)) (sym c) (omega arith),
            subst (λ s. copyup_left k s (suc m) < suc n + 3) (sym c) (omega (arith, eq)),
          ))
    ]

pub write_wait-Copies :
    (k n : ℕ) (req : WriteReq) (result : ℤ)
    → req.write_state ≡ copyup_wait
    → req.copyup_state ≡ write_wait
    → req.pending.num_pending ≡ suc n
    → Copies k 6 (suc n + 1) (pending_result_dec req.pending result >>= writes_ended req)
unfolding writes_ended
write_wait-Copies k n req result at c e =
    let kept = keep_first req.pending.result result in
    elim (pending_result_dec-cases req.pending n result e) [
      | inl last ↦ rw last (
          inl (
            record req { pending = record { result = kept; num_pending = 0 } },
            kept,
            [],
            refl,
            omega arith,
          ))
      | inr (m, eq, more) ↦ rw more (
          inr (
            record req { pending = record { result = kept; num_pending = suc m } },
            result,
            [],
            refl,
            at,
            subst (λ s. IsCopying s (record { result = kept; num_pending = suc m }) req.img_extents)
                (sym c) (omega arith),
            subst (λ s. Rises 6 [] (copyup_floor s)) (sym c) (omega arith),
            subst (λ s. copyup_left k s (suc m) < suc n + 1) (sym c) (omega (arith, eq)),
          ))
    ]

pub bvecs_left-zero : (n o : ℕ) → o ≤ n * page_size → bvecs_left n o ≡ 0
bvecs_left-zero zero o h = omega arith
bvecs_left-zero (suc n) o h = bvecs_left-zero n (o - min o page_size) (omega arith)

pub with_bvecs-Copies :
    (k from m : ℕ) (calls : Calls) (bytes : ℕ) (req : WriteReq)
    → req.write_state ≡ copyup_wait
    → req.has_bvecs ≡ false
    → is_clean req.pending ≡ true
    → total_len req.img_extents < mods_only
    → from ≤ 2
    → k + 4 < m
    → Copies k from m (with_bvecs calls bytes req)
with_bvecs-Copies k from m calls bytes req at unset clean small low lt =
    elim (Bool-cases calls.memory) [
      | inl memory ↦
          rw
            (
              unset,
              memory,
              bvecs_left-zero ((bytes + page_size - 1) / page_size) bytes (omega arith),
            )
            (by (calls.sends (parent_read bytes)))
      | inr full ↦
          rw (unset, full) (inl (record req { has_bvecs = true }, negsuc 11, [], refl, omega arith))
    ]
  where
    by : (n : ℕ) → Copies k from m (ask_parent n bytes (record req { has_bvecs = true }))
    by zero = inr (
      record req { has_bvecs = true; copyup_state = read_parent },
      pos 0,
      parent_read bytes ∷ [],
      refl,
      at,
      (clean, small),
      (omega arith, omega arith),
      omega arith,
    )
    by (suc n) = inl (record req { has_bvecs = true }, negsuc n, [], refl, omega arith)
