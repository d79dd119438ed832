-- ===== src/Rbd/Copyup/Results.antt =====
-- A copyup whose requests end with 0 or an error ends with 0 or an error.
use xcp_ng_ceph_rbd.Base.{
  ℕ, zero, suc, inl, inr, sym, if◌then◌else◌, Bool, true, false, List, [], ◌∷◌, ℤ, arith,
}
use mathlib.Core.Path.{subst}
use xcp_ng_ceph_rbd.Crush.Outcome.{Outcome, ok, fault, stuck, ◌>>=◌}
use xcp_ng_ceph_rbd.Rbd.Pending.{
  Pending, is_zero, keep_first, pending_result_dec, pending_result_dec-any,
}
use xcp_ng_ceph_rbd.Rbd.Copyup.{
  CopyupState, copyup_start, read_parent, maps_wait, object_maps, write_wait, write_object,
  WriteReq, Sent, Calls, Step, after, update_snaps, copyup_object_maps, copyup_write_object,
  copyups_sent, object_maps_done, maps_sent, maps_pending, parent_read_done, copyup_read_parent,
  maps_ended, writes_ended, copyup_from, advance_copyup, copyup_bytes,
}
use xcp_ng_ceph_rbd.Rbd.Copyup.Stops.{IsResult}

-- A step after which neither the result nor the one that is kept is positive.
abbrev pub IsSound : Step → Type 0
IsSound (ok (done, req, result, log)) = IsResult result × IsResult req.pending.result
IsSound fault = Unit
IsSound stuck = Unit

abbrev KeepsSound : Outcome (Pending × List Sent) → Type 0
KeepsSound (ok (p, log)) = IsResult p.result
KeepsSound fault = Unit
KeepsSound stuck = Unit

pub if-IsSound : (b : Bool) (x y : Step) → IsSound x → IsSound y → IsSound (if b then x else y)
if-IsSound true x y h k = h
if-IsSound false x y h k = k

pub after-IsSound : (log : List Sent) (step : Step) → IsSound step → IsSound (after log step)
after-IsSound log (ok (done, req, result, more)) h = h
after-IsSound log fault h = tt
after-IsSound log stuck h = tt

update_snaps-KeepsSound :
    (calls : Calls) (snaps : List ℕ) (p : Pending)
    → IsResult p.result
    → KeepsSound (update_snaps calls snaps p)
unfolding update_snaps
update_snaps-KeepsSound calls [] p h = h
update_snaps-KeepsSound calls (snap ∷ later) p h =
    let rest =
      update_snaps-KeepsSound calls later
        (record { result = p.result; num_pending = suc p.num_pending }) h in
    ground arith

copyup_object_maps-KeepsSound :
    (calls : Calls) (req : WriteReq)
    → IsResult req.pending.result
    → KeepsSound (copyup_object_maps calls req)
unfolding copyup_object_maps
copyup_object_maps-KeepsSound calls req h =
    let snaps = update_snaps-KeepsSound calls calls.snaps req.pending h in ground arith

copyup_write_object-KeepsSound :
    (calls : Calls) (bytes : ℕ) (p : Pending)
    → IsResult p.result
    → KeepsSound (copyup_write_object calls bytes p)
unfolding copyup_write_object
copyup_write_object-KeepsSound calls bytes p h = ground arith

copyups_sent-IsSound :
    (req : WriteReq) (r : Outcome (Pending × List Sent))
    → KeepsSound r
    → IsSound (r >>= copyups_sent req)
copyups_sent-IsSound req r h = ground arith

object_maps_done-IsSound :
    (calls : Calls) (req : WriteReq) (result : ℤ)
    → IsResult result
    → IsResult req.pending.result
    → IsSound (object_maps_done calls req result)
unfolding object_maps_done
object_maps_done-IsSound calls req result r h =
    let sent =
      copyups_sent-IsSound req
        (copyup_write_object calls (copyup_bytes req.copyup_zeros req.img_extents) req.pending)
        (copyup_write_object-KeepsSound calls (copyup_bytes req.copyup_zeros req.img_extents)
          req.pending h) in
    if-IsSound (is_zero result) _ _ sent (r, h)

maps_pending-IsSound :
    (n : ℕ) (calls : Calls) (req : WriteReq) (p : Pending) (log : List Sent)
    → IsResult p.result
    → IsSound (maps_pending n calls req p log)
maps_pending-IsSound zero calls req p log h = after-IsSound log _ (
    object_maps_done-IsSound calls (record req { pending = p; copyup_state = object_maps }) p.result
      h h)
maps_pending-IsSound (suc n) calls req p log h = (tt, h)

maps_sent-IsSound :
    (calls : Calls) (req : WriteReq) (r : Outcome (Pending × List Sent))
    → KeepsSound r
    → IsSound (r >>= maps_sent calls req)
maps_sent-IsSound calls req (ok (p, log)) h = maps_pending-IsSound p.num_pending calls req p log h
maps_sent-IsSound calls req fault h = tt
maps_sent-IsSound calls req stuck h = tt

parent_read_done-IsSound :
    (calls : Calls) (req : WriteReq) (result : ℤ)
    → IsResult result
    → IsResult req.pending.result
    → IsSound (parent_read_done calls req result)
unfolding parent_read_done
parent_read_done-IsSound calls req result r h =
    let req' : WriteReq = record req {
      copyup_zeros = if calls.zero_data then true else req.copyup_zeros;
    } in
    if-IsSound (is_zero result) _ _
      (maps_sent-IsSound calls req' (copyup_object_maps calls req')
        (copyup_object_maps-KeepsSound calls req' h))
      (r, h)

copyup_read_parent-IsSound :
    (calls : Calls) (req : WriteReq) (result : ℤ)
    → IsResult req.pending.result
    → IsSound (copyup_read_parent calls req result)
unfolding copyup_read_parent
copyup_read_parent-IsSound calls req result h = ground arith

keep_first-IsResult :
    (kept result : ℤ) → IsResult kept → IsResult result → IsResult (keep_first kept result)
keep_first-IsResult kept result h r = ground arith

maps_ended-IsSound :
    (calls : Calls) (req : WriteReq) (result : ℤ)
    → IsResult result
    → IsResult req.pending.result
    → IsSound (pending_result_dec req.pending result >>= maps_ended calls req)
      × IsSound (pending_result_dec req.pending result >>= writes_ended req)
unfolding maps_ended writes_ended
maps_ended-IsSound calls req result r h =
    let kept = keep_first-IsResult req.pending.result result h r in
    elim (pending_result_dec-any req.pending result) [
      | inl e ↦ rw e (tt, tt)
      | inr (done, q, told, e, eq, from) ↦
          let keeps : IsResult q.result = subst IsResult (sym eq) kept in
          let tells : IsResult told = elim from [
            | inl same ↦ subst IsResult (sym same) kept
            | inr same ↦ subst IsResult (sym same) r
          ] in
          rw e (goes done q told keeps tells, (tells, keeps))
    ]
  where
    goes :
        (done : Bool) (q : Pending) (told : ℤ)
        → IsResult q.result
        → IsResult told
        → IsSound (maps_ended calls req (done, q, told))
    goes true q told keeps tells =
        object_maps_done-IsSound calls (record req { pending = q }) told tells keeps
    goes false q told keeps tells = (tells, keeps)

copyup_from-IsSound :
    (c : CopyupState) (calls : Calls) (req : WriteReq) (result : ℤ)
    → IsResult result
    → IsResult req.pending.result
    → IsSound (copyup_from c calls req result)
copyup_from-IsSound copyup_start calls req result r h =
    copyup_read_parent-IsSound calls req result h
copyup_from-IsSound read_parent calls req result r h = parent_read_done-IsSound calls req result r h
copyup_from-IsSound maps_wait calls req result r h = (maps_ended-IsSound calls req result r h).0
copyup_from-IsSound object_maps calls req result r h = object_maps_done-IsSound calls req result r h
copyup_from-IsSound write_wait calls req result r h = (maps_ended-IsSound calls req result r h).1
copyup_from-IsSound write_object calls req result r h = (r, h)

pub advance_copyup-IsSound :
    (calls : Calls) (req : WriteReq) (result : ℤ)
    → IsResult result
    → IsResult req.pending.result
    → IsSound (advance_copyup calls req result)
unfolding advance_copyup
advance_copyup-IsSound calls req result r h =
    copyup_from-IsSound req.copyup_state calls req result r h
