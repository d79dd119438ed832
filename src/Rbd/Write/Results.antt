-- ===== src/Rbd/Write/Results.antt =====
-- A write whose requests end with 0 or an error ends with 0 or an error.
use xcp_ng_ceph_rbd.Base.{
  zero, suc, ◌≡◌, if◌then◌else◌, refl, Bool, true, false, List, some, ℤ, pos, negsuc, arith,
}
use xcp_ng_ceph_rbd.Crush.Outcome.{ok, fault, stuck, ◌>>=◌}
use xcp_ng_ceph_rbd.Rbd.Copyup.{
  WriteState, start, pre_object_map, object, copyup_wait, copyup, post_object_map, copyup_start,
  WriteReq, Sent, Calls, Step, advance_copyup,
}
use xcp_ng_ceph_rbd.Rbd.Copyup.Stops.{IsResult}
use xcp_ng_ceph_rbd.Rbd.Copyup.Results.{IsSound, if-IsSound, after-IsSound, advance_copyup-IsSound}
use xcp_ng_ceph_rbd.Rbd.Write.{
  copyup_done, copyup_ended, copyup_step, object_done, object_written, no_object, pre_done,
  start_write, write_from, advance_write, ended,
}

copyup_done-IsSound :
    (calls : Calls) (req : WriteReq) (result : ℤ)
    → IsResult result
    → IsResult req.pending.result
    → IsSound (copyup_done calls req result)
unfolding copyup_done
copyup_done-IsSound calls req result r h = ground arith

copyup_ended-IsSound :
    (calls : Calls) (step : Step) → IsSound step → IsSound (step >>= copyup_ended calls)
copyup_ended-IsSound calls (ok (false, req, result, log)) h = h
copyup_ended-IsSound calls (ok (true, req, result, log)) h =
    after-IsSound log (copyup_done calls req result) (copyup_done-IsSound calls req result h.0 h.1)
copyup_ended-IsSound calls fault h = tt
copyup_ended-IsSound calls stuck h = tt

copyup_step-IsSound :
    (calls : Calls) (req : WriteReq) (result : ℤ)
    → IsResult result
    → IsResult req.pending.result
    → IsSound (copyup_step calls req result)
unfolding copyup_step
copyup_step-IsSound calls req result r h =
    copyup_ended-IsSound calls (advance_copyup calls req result)
      (advance_copyup-IsSound calls req result r h)

object_written-IsSound :
    (calls : Calls) (req : WriteReq) (result : ℤ)
    → IsResult result
    → IsResult req.pending.result
    → IsSound (object_written calls req result)
object_written-IsSound calls req result r h =
    let later = copyup_done-IsSound calls (record req { write_state = copyup }) result r h in
    ground arith

no_object-IsSound :
    (calls : Calls) (req : WriteReq) → IsResult req.pending.result → IsSound (no_object calls req)
no_object-IsSound calls req h =
    let copied =
      copyup_step-IsSound calls
        (record req { copyup_state = copyup_start; write_state = copyup_wait }) (pos 0) tt h in
    let deleted = object_written-IsSound calls req (pos 0) tt h in
    let absent = object_written-IsSound calls req (negsuc 1) tt h in
    if-IsSound req.copyup_enabled _ _ copied (by req.deletion deleted absent)
  where
    by :
        (b : Bool)
        → IsSound (object_written calls req (pos 0))
        → IsSound (object_written calls req (negsuc 1))
        → IsSound (object_written calls req (if b then pos 0 else negsuc 1))
    by true deleted absent = deleted
    by false deleted absent = absent

object_done-IsSound :
    (calls : Calls) (req : WriteReq) (result : ℤ)
    → IsResult result
    → IsResult req.pending.result
    → IsSound (object_done calls req result)
object_done-IsSound calls req (pos n) r h = object_written-IsSound calls req (pos n) r h
object_done-IsSound calls req (negsuc zero) r h = object_written-IsSound calls req (negsuc zero) r h
object_done-IsSound calls req (negsuc (suc zero)) r h = no_object-IsSound calls req h
object_done-IsSound calls req (negsuc (suc (suc n))) r h =
    object_written-IsSound calls req (negsuc (suc (suc n))) r h

pre_done-IsSound :
    (calls : Calls) (req : WriteReq) (result : ℤ)
    → IsResult result
    → IsResult req.pending.result
    → IsSound (pre_done calls req result)
unfolding pre_done
pre_done-IsSound calls req result r h = ground arith

pub start_write-IsSound :
    (calls : Calls) (req : WriteReq) (result : ℤ)
    → IsResult result
    → IsResult req.pending.result
    → IsSound (start_write calls req result)
unfolding start_write pre_done
start_write-IsSound calls req result r h = ground arith

write_from-IsSound :
    (w : WriteState) (calls : Calls) (req : WriteReq) (result : ℤ)
    → IsResult result
    → IsResult req.pending.result
    → IsSound (write_from w calls req result)
write_from-IsSound start calls req result r h = start_write-IsSound calls req result r h
write_from-IsSound pre_object_map calls req result r h = pre_done-IsSound calls req result r h
write_from-IsSound object calls req result r h = object_done-IsSound calls req result r h
write_from-IsSound copyup_wait calls req result r h = copyup_step-IsSound calls req result r h
write_from-IsSound copyup calls req result r h = copyup_done-IsSound calls req result r h
write_from-IsSound post_object_map calls req result r h = (r, h)

pub advance_write-IsSound :
    (calls : Calls) (req : WriteReq) (result : ℤ)
    → IsResult result
    → IsResult req.pending.result
    → IsSound (advance_write calls req result)
unfolding advance_write
advance_write-IsSound calls req result r h = write_from-IsSound req.write_state calls req result r h

-- The assertion on the result of a request that has ended.
pub ended-ok :
    (result : ℤ) (log : List Sent) → IsResult result → ended result log ≡ ok (some result, log)
ended-ok (pos zero) log h = refl
ended-ok (pos (suc n)) log h = absurd h
ended-ok (negsuc n) log h = refl
