-- ===== src/Rbd/Copyup/Stops.antt =====
-- After an error a copyup sends nothing more.
use xcp_ng_ceph_rbd.Base.{
  ℕ, zero, suc, ◌≤◌, ◌≡◌, ◌⊎◌, refl, inl, inr, Bool, true, false, [], ℤ, pos, negsuc, arith,
}
use xcp_ng_ceph_rbd.Crush.Outcome.{ok, ◌>>=◌}
use xcp_ng_ceph_rbd.Rbd.Pending.{
  Pending, is_zero, pending_result_dec, keep_first, pending_result_dec-cases,
}
use xcp_ng_ceph_rbd.Rbd.Copyup.{
  copyup_wait, CopyupState, copyup_start, read_parent, maps_wait, object_maps, write_wait,
  write_object, WriteReq, Calls, Step, object_maps_done, parent_read_done, maps_ended, writes_ended,
  copyup_from, advance_copyup,
}
use xcp_ng_ceph_rbd.Rbd.Copyup.Copies.{positive}
use xcp_ng_ceph_rbd.Rbd.Write.Waits.{IsCopying}

-- A negative result, and one that is negative or 0.
abbrev pub IsError : ℤ → Type 0
IsError (pos n) = ⊥
IsError (negsuc n) = Unit

abbrev pub IsResult : ℤ → Type 0
IsResult (pos zero) = Unit
IsResult (pos (suc n)) = ⊥
IsResult (negsuc n) = Unit

-- A copyup that waits for further results, with an error among those that came.
abbrev pub IsDoomedIn : CopyupState → Pending → Type 0
IsDoomedIn maps_wait p = (1 ≤ p.num_pending) × IsError p.result
IsDoomedIn write_wait p = (1 ≤ p.num_pending) × IsError p.result
IsDoomedIn _ p = ⊥

pub record IsDoomed (req : WriteReq) : Type 0 where
  pub state : req.write_state ≡ copyup_wait
  pub error : IsDoomedIn req.copyup_state req.pending

-- A step that sends nothing, and ends with an error or goes on waiting with one.
abbrev pub IsStopped : Step → Type 0
IsStopped step =
    (done : Bool) × (req : WriteReq) × (result : ℤ) × (step ≡ ok (done, req, result, []))
    × (done ≡ true → IsError result)
    × (done ≡ false → IsDoomed req)

pub IsError-is_zero : (result : ℤ) → IsError result → is_zero result ≡ false
IsError-is_zero (pos n) h = absurd h
IsError-is_zero (negsuc n) h = refl

-- A request that ends with an error.
pub ends-IsStopped :
    (req : WriteReq) (result : ℤ) → IsError result → IsStopped (ok (true, req, result, []))
ends-IsStopped req result h = (true, req, result, refl, λ e. h, λ e. absurd cc)

-- An error that was kept, or that comes.
abbrev pub HasError : (kept result : ℤ) → Type 0
HasError kept result = IsError kept ⊎ (IsResult kept × IsError result)

keep_first-IsError : (kept result : ℤ) → HasError kept result → IsError (keep_first kept result)
keep_first-IsError kept result h = ground arith

object_maps_done-IsStopped :
    (calls : Calls) (req : WriteReq) (result : ℤ)
    → IsError result
    → IsStopped (object_maps_done calls req result)
unfolding object_maps_done
object_maps_done-IsStopped calls req result bad =
    rw (IsError-is_zero result bad) (ends-IsStopped req result bad)

maps-IsStopped :
    (calls : Calls) (req : WriteReq) (result : ℤ)
    → req.write_state ≡ copyup_wait
    → req.copyup_state ≡ maps_wait
    → 1 ≤ req.pending.num_pending
    → HasError req.pending.result result
    → IsStopped (pending_result_dec req.pending result >>= maps_ended calls req)
unfolding maps_ended
maps-IsStopped calls req result w c any bad =
    let (m, e) = positive req.pending.num_pending any in
    let error = keep_first-IsError req.pending.result result bad in
    elim (pending_result_dec-cases req.pending m result e) [
      | inl last ↦ rw last (object_maps_done-IsStopped calls _ _ error)
      | inr (l, eq, more) ↦ rw more (
        false,
        _,
        result,
        refl,
        λ other. absurd cc,
        λ other. record { state = w; error = rw c (omega arith, error) },
      )
    ]

writes-IsStopped :
    (req : WriteReq) (result : ℤ)
    → req.write_state ≡ copyup_wait
    → req.copyup_state ≡ write_wait
    → 1 ≤ req.pending.num_pending
    → HasError req.pending.result result
    → IsStopped (pending_result_dec req.pending result >>= writes_ended req)
unfolding writes_ended
writes-IsStopped req result w c any bad =
    let (m, e) = positive req.pending.num_pending any in
    let error = keep_first-IsError req.pending.result result bad in
    elim (pending_result_dec-cases req.pending m result e) [
      | inl last ↦ rw last (ends-IsStopped _ _ error)
      | inr (l, eq, more) ↦ rw more (
        false,
        _,
        result,
        refl,
        λ other. absurd cc,
        λ other. record { state = w; error = rw c (omega arith, error) },
      )
    ]

copyup_from-IsStopped :
    (c : CopyupState) (calls : Calls) (req : WriteReq) (n : ℕ)
    → req.write_state ≡ copyup_wait
    → req.copyup_state ≡ c
    → IsCopying c req.pending req.img_extents
    → IsResult req.pending.result
    → IsStopped (copyup_from c calls req (negsuc n))
unfolding parent_read_done
copyup_from-IsStopped read_parent calls req n w e h r = ends-IsStopped req (negsuc n) tt
copyup_from-IsStopped maps_wait calls req n w e h r =
    maps-IsStopped calls req (negsuc n) w e h.0 (inr (r, tt))
copyup_from-IsStopped write_wait calls req n w e h r =
    writes-IsStopped req (negsuc n) w e h (inr (r, tt))
copyup_from-IsStopped write_object calls req n w e h r = ends-IsStopped req (negsuc n) tt
copyup_from-IsStopped copyup_start calls req n w e h r = absurd h
copyup_from-IsStopped object_maps calls req n w e h r = absurd h

-- An error that comes to a copyup that waits.
pub advance_copyup-IsStopped :
    (calls : Calls) (req : WriteReq) (n : ℕ)
    → req.write_state ≡ copyup_wait
    → IsCopying req.copyup_state req.pending req.img_extents
    → IsResult req.pending.result
    → IsStopped (advance_copyup calls req (negsuc n))
unfolding advance_copyup
advance_copyup-IsStopped calls req n w h r =
    copyup_from-IsStopped req.copyup_state calls req n w refl h r

doomed-IsStopped :
    (c : CopyupState) (calls : Calls) (req : WriteReq) (result : ℤ)
    → req.write_state ≡ copyup_wait
    → req.copyup_state ≡ c
    → IsDoomedIn c req.pending
    → IsStopped (copyup_from c calls req result)
doomed-IsStopped maps_wait calls req result w e h =
    maps-IsStopped calls req result w e h.0 (inl h.1)
doomed-IsStopped write_wait calls req result w e h = writes-IsStopped req result w e h.0 (inl h.1)
doomed-IsStopped read_parent calls req result w e h = absurd h
doomed-IsStopped write_object calls req result w e h = absurd h
doomed-IsStopped copyup_start calls req result w e h = absurd h
doomed-IsStopped object_maps calls req result w e h = absurd h

-- Any result that comes after an error.
pub IsDoomed-IsStopped :
    (calls : Calls) (req : WriteReq) (result : ℤ)
    → IsDoomed req
    → IsStopped (advance_copyup calls req result)
unfolding advance_copyup
IsDoomed-IsStopped calls req result d =
    doomed-IsStopped req.copyup_state calls req result d.state refl d.error
