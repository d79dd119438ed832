-- ===== src/Rbd/Write.antt =====
-- rbd_obj_advance_write of kernel-modules/src/rbd/rbd.c: the object map is told of a write before it,
-- an object that does not exist is copied up, and the object map is told of a deletion after it.
pub mod Waits
pub mod Moves
pub mod Completes
pub mod Results
pub mod Errors
mod Tests
use xcp_ng_ceph_rbd.Base.{
  ℕ, zero, suc, ◌+◌, ◌-◌, ◌&&◌, Bool, true, false, not, List, [], ◌∷◌, ◌++◌, Option, none, some,
  if◌then◌else◌, ℤ, pos, negsuc,
}
use xcp_ng_ceph_rbd.Crush.Outcome.{Outcome, ok, fault, ◌>>=◌}
use xcp_ng_ceph_rbd.Rbd.Pending.{is_zero}
use xcp_ng_ceph_rbd.Rbd.ObjectMap.{nonexistent, exists, pending}
use xcp_ng_ceph_rbd.Rbd.Copyup.{
  WriteState, start, pre_object_map, object, copyup_wait, copyup, post_object_map, copyup_start,
  WriteReq, Sent, map_update, write, Calls, Step, after, map_update_answer, advance_copyup,
}

-- rbd_obj_write_is_noop, with the flag that it sets.
abbrev pub may_exist_now : Calls → WriteReq → Bool
may_exist_now calls req = if calls.map_may_exist then true else req.may_exist

abbrev pub is_noop : Calls → WriteReq → Bool
is_noop calls req = not (may_exist_now calls req) && req.noop_for_nonexistent

-- What the object map is told before and after; none means that it need not be told.
abbrev pub pre_state : (deletion : Bool) → ℕ
pre_state deletion = if deletion then pending else exists

abbrev pub pre_answer : Calls → (deletion : Bool) → Option ℕ
pre_answer calls deletion =
    if calls.object_map then map_update_answer calls none (pre_state deletion) none else none

abbrev pub post_answer : Calls → (deletion : Bool) → Option ℕ
post_answer calls deletion =
    if calls.object_map && deletion
    then map_update_answer calls none nonexistent (some pending)
    else none

-- The state RBD_OBJ_WRITE_COPYUP.
abbrev pub tell_after : (answer : Option ℕ) → WriteReq → Step
tell_after none req = ok (true, record req { write_state = post_object_map }, pos 0, [])
tell_after (some zero) req = ok (
  false,
  record req { write_state = post_object_map },
  pos 0,
  map_update none nonexistent (some pending) ∷ [],
)
tell_after (some (suc n)) req = ok (true, req, negsuc n, [])

pub copyup_done : Calls → WriteReq → ℤ → Step
copyup_done calls req result =
    if is_zero result
    then tell_after (post_answer calls req.deletion) req
    else ok (true, req, result, [])

-- The state __RBD_OBJ_WRITE_COPYUP.
abbrev pub copyup_ended : Calls → Bool × WriteReq × ℤ × List Sent → Step
copyup_ended calls (false, req, result, log) = ok (false, req, result, log)
copyup_ended calls (true, req, result, log) = after log (copyup_done calls req result)

pub copyup_step : Calls → WriteReq → ℤ → Step
copyup_step calls req result = advance_copyup calls req result >>= copyup_ended calls

-- The state RBD_OBJ_WRITE_OBJECT; negsuc 1 is -ENOENT.
abbrev pub object_written : Calls → WriteReq → ℤ → Step
object_written calls req result =
    if is_zero result
    then copyup_done calls (record req { write_state = copyup }) result
    else ok (true, req, result, [])

abbrev pub no_object : Calls → WriteReq → Step
no_object calls req =
    if req.copyup_enabled
    then copyup_step calls (record req { copyup_state = copyup_start; write_state = copyup_wait })
        (pos 0)
    else object_written calls req (if req.deletion then pos 0 else negsuc 1)

abbrev pub object_done : Calls → WriteReq → ℤ → Step
object_done calls req (pos n) = object_written calls req (pos n)
object_done calls req (negsuc (suc zero)) = no_object calls req
object_done calls req (negsuc zero) = object_written calls req (negsuc zero)
object_done calls req (negsuc (suc (suc n))) = object_written calls req (negsuc (suc (suc n)))

-- The state RBD_OBJ_WRITE_PRE_OBJECT_MAP, with rbd_obj_write_object.
abbrev pub ask_write : (answer : ℕ) → WriteReq → Step
ask_write zero req = ok (false, record req { write_state = object }, pos 0, write ∷ [])
ask_write (suc n) req = ok (true, req, negsuc n, [])

pub pre_done : Calls → WriteReq → ℤ → Step
pre_done calls req result =
    if is_zero result then ask_write (calls.sends write) req else ok (true, req, result, [])

-- The state RBD_OBJ_WRITE_START.
abbrev pub tell_before : (answer : Option ℕ) → Calls → WriteReq → Step
tell_before none calls req = pre_done calls (record req { write_state = pre_object_map }) (pos 0)
tell_before (some zero) calls req = ok (
  false,
  record req { write_state = pre_object_map },
  pos 0,
  map_update none (pre_state req.deletion) none ∷ [],
)
tell_before (some (suc n)) calls req = ok (true, req, negsuc n, [])

pub start_write : Calls → WriteReq → ℤ → Step
start_write calls req result =
    let req' : WriteReq = record req { may_exist = may_exist_now calls req } in
    if not (is_zero result)
    then fault
    else if is_noop calls req
    then ok (true, req', result, [])
    else tell_before (pre_answer calls req.deletion) calls req'

abbrev pub write_from : WriteState → Calls → WriteReq → ℤ → Step
write_from start calls req result = start_write calls req result
write_from pre_object_map calls req result = pre_done calls req result
write_from object calls req result = object_done calls req result
write_from copyup_wait calls req result = copyup_step calls req result
write_from copyup calls req result = copyup_done calls req result
write_from post_object_map calls req result = ok (true, req, result, [])

-- rbd_obj_advance_write.
pub advance_write : Calls → WriteReq → ℤ → Step
advance_write calls req result = write_from req.write_state calls req result

-- A write from its start, with what each step finds and the result that comes with it; the answer is
-- its result, or none as long as results are missing.
pub record Event : Type 0 where
  pub calls : Calls
  pub result : ℤ

-- The end of __rbd_obj_handle_request: a request that has ended has a result that is 0 or an error.
abbrev pub ended : (result : ℤ) → List Sent → Outcome (Option ℤ × List Sent)
ended (pos zero) log = ok (some (pos zero), log)
ended (pos (suc n)) log = fault
ended (negsuc n) log = ok (some (negsuc n), log)

unfoldable pub run : List Event → Bool × WriteReq × ℤ × List Sent → Outcome (Option ℤ × List Sent)
run events (true, req, result, log) = ended result log
run [] (false, req, result, log) = ok (none, log)
run (event ∷ events) (false, req, result, log) =
    advance_write event.calls req event.result >>= λ (done, req', result', more).
    run events (done, req', result', log ++ more)

pub run_write : Calls → WriteReq → List Event → Outcome (Option ℤ × List Sent)
run_write calls req events = advance_write calls req (pos 0) >>= run events
