-- ===== src/Rbd/Copyup.antt =====
-- rbd_obj_advance_copyup of kernel-modules/src/rbd/rbd.c: an object that does not exist is written with
-- the data of the parent image below the write. What the calls answer comes with each step; the
-- requests that are sent are a log.
pub mod Sends
pub mod Pends
pub mod Copies
pub mod Stops
pub mod Results
use xcp_ng_ceph_rbd.Base.{
  ℕ, zero, suc, ◌+◌, ◌-◌, ◌*◌, ◌/◌, ◌&&◌, Bool, true, false, not, List, [], ◌∷◌, ◌++◌, Option, none,
  some, min, ltb, ◌==◌, if◌then◌else◌, ℤ, pos, negsuc, u32,
}
use xcp_ng_ceph_rbd.Crush.Outcome.{Outcome, ok, fault, ◌>>=◌}
use xcp_ng_ceph_rbd.Striper.FileExtents.{FileExtent}
use xcp_ng_ceph_rbd.Pagelist.{page_size}
use xcp_ng_ceph_rbd.Rbd.Pending.{Pending, is_zero, pending_result_dec}
use xcp_ng_ceph_rbd.Rbd.Extents.{prune_extents, file_extents_bytes}
use xcp_ng_ceph_rbd.Rbd.ObjectMap.{exists, exists_clean, needed}

-- enum rbd_obj_write_state; `copyup_wait` is __RBD_OBJ_WRITE_COPYUP.
pub data WriteState : Type 0 where
  start pre_object_map object copyup_wait copyup post_object_map : WriteState

-- enum rbd_obj_copyup_state; the names with `wait` are those with underscores.
pub data CopyupState : Type 0 where
  copyup_start read_parent maps_wait object_maps write_wait write_object : CopyupState

-- struct rbd_obj_request, as far as a write uses it; the flags are RBD_OBJ_FLAG_*.
pub record WriteReq : Type 0 where
  pub write_state : WriteState
  pub copyup_state : CopyupState
  pub deletion : Bool
  pub copyup_enabled : Bool
  pub copyup_zeros : Bool
  pub may_exist : Bool
  pub noop_for_nonexistent : Bool
  pub img_extents : List FileExtent
  pub has_bvecs : Bool
  pub pending : Pending

-- A request that is sent: an update of the object map of a snapshot or, with none, of the image; the
-- write; the read of the parent image; a copyup with an empty snapshot context, or with the current one.
pub data Sent : Type 0 where
  map_update : (snap : Option ℕ) → (new_state : ℕ) → (current_state : Option ℕ) → Sent
  write : Sent
  parent_read : (bytes : ℕ) → Sent
  copyup_empty copyup_current : (bytes : ℕ) → Sent

-- What the image is like in a step, and what the calls answer: `sends` is 0 where a request is sent,
-- and n + 1 for the error -(n + 1).
pub record Calls : Type 0 where
  pub object_map : Bool
  pub fast_diff : Bool
  pub snaps : List ℕ
  pub parent_overlap : ℕ
  pub map_may_exist : Bool
  pub map_state : ℕ
  pub memory : Bool
  pub zero_data : Bool
  pub sends : Sent → ℕ

-- Whether the request has ended, `*result`, and what was sent.
abbrev pub Step : Type 0
Step = Outcome (Bool × WriteReq × ℤ × List Sent)

abbrev pub result_of : ℕ → ℤ
result_of zero = pos 0
result_of (suc n) = negsuc n

abbrev pub after : List Sent → Step → Step
after log step = step >>= λ (done, req, result, more). ok (done, req, result, log ++ more)

-- MODS_ONLY.
abbrev pub mods_only : ℕ
mods_only = 4294967295

abbrev pub is_clean : Pending → Bool
is_clean p = is_zero p.result && p.num_pending == 0

abbrev pub one_more : Pending → Pending
one_more p = record { result = p.result; num_pending = suc p.num_pending }

abbrev pub with_error : (n : ℕ) → Pending → Pending
with_error n p = record { result = negsuc n; num_pending = p.num_pending }

-- rbd_object_map_update, with an answer as that of `sends`; `none` is 1, that it is not needed.
abbrev pub map_update_answer :
    Calls → (snap : Option ℕ) → (new_state : ℕ) → (current_state : Option ℕ) → Option ℕ
map_update_answer calls none new_state current_state =
    if needed calls.map_state new_state
    then some (calls.sends (map_update none new_state current_state))
    else none
map_update_answer calls (some snap) new_state current_state =
    some (calls.sends (map_update (some snap) new_state current_state))

-- The loop of rbd_obj_copyup_object_maps.
abbrev pub snap_state : (fast_diff : Bool) → (later : List ℕ) → ℕ
snap_state fast_diff [] = exists
snap_state fast_diff (snap ∷ later) = if fast_diff then exists_clean else exists

pub update_snaps : Calls → List ℕ → Pending → Outcome (Pending × List Sent)
update_snaps calls [] p = ok (p, [])
update_snaps calls (snap ∷ later) p =
    let new_state = snap_state calls.fast_diff later in
    let rest = update_snaps calls later (one_more p) in
    elim (map_update_answer calls (some snap) new_state none) [
      | none ↦ fault
      | some zero ↦ rest >>= λ (p', log). ok (p', map_update (some snap) new_state none ∷ log)
      | some (suc n) ↦ ok (with_error n p, [])
    ]

pub copyup_object_maps : Calls → WriteReq → Outcome (Pending × List Sent)
copyup_object_maps calls req =
    if not (is_clean req.pending)
    then fault
    else if not calls.object_map
    then ok (req.pending, [])
    else if req.copyup_zeros
    then ok (req.pending, [])
    else update_snaps calls calls.snaps req.pending

-- rbd_obj_copyup_current_snapc, as the last request of rbd_obj_copyup_write_object.
abbrev pub current_snapc : (answer : ℕ) → (bytes : ℕ) → Pending → Pending × List Sent
current_snapc zero bytes p = (one_more p, copyup_current bytes ∷ [])
current_snapc (suc n) bytes p = (with_error n p, [])

abbrev pub empty_snapc : Calls → (answer : ℕ) → (bytes : ℕ) → Pending → Pending × List Sent
empty_snapc calls zero bytes p =
    let (p', log) = current_snapc (calls.sends (copyup_current mods_only)) mods_only (one_more p) in
    (p', copyup_empty bytes ∷ log)
empty_snapc calls (suc n) bytes p = (with_error n p, [])

abbrev pub has_snaps : List ℕ → Bool
has_snaps [] = false
has_snaps (snap ∷ snaps) = true

-- rbd_obj_copyup_write_object.
abbrev pub copyup_bytes : (copyup_zeros : Bool) → List FileExtent → ℕ
copyup_bytes copyup_zeros fes = if copyup_zeros then 0 else u32 (file_extents_bytes fes)

pub copyup_write_object : Calls → (bytes : ℕ) → Pending → Outcome (Pending × List Sent)
copyup_write_object calls bytes p =
    if not (is_clean p)
    then fault
    else if has_snaps calls.snaps && ltb 0 bytes
    then if bytes == mods_only
      then fault
      else ok (empty_snapc calls (calls.sends (copyup_empty bytes)) bytes p)
    else ok (current_snapc (calls.sends (copyup_current bytes)) bytes p)

-- The state RBD_OBJ_COPYUP_OBJECT_MAPS, with what follows where nothing is pending.
abbrev pub copyups_pending : (num_pending : ℕ) → WriteReq → Pending → List Sent → Step
copyups_pending zero req p log =
    ok (true, record req { pending = p; copyup_state = write_object }, p.result, log)
copyups_pending (suc n) req p log =
    ok (false, record req { pending = p; copyup_state = write_wait }, pos 0, log)

abbrev pub copyups_sent : WriteReq → Pending × List Sent → Step
copyups_sent req (p, log) = copyups_pending p.num_pending req p log

pub object_maps_done : Calls → WriteReq → ℤ → Step
object_maps_done calls req result =
    if is_zero result
    then (copyup_write_object calls (copyup_bytes req.copyup_zeros req.img_extents) req.pending
        >>= copyups_sent req)
    else ok (true, req, result, [])

abbrev pub maps_pending : (num_pending : ℕ) → Calls → WriteReq → Pending → List Sent → Step
maps_pending zero calls req p log =
    after log
      (object_maps_done calls (record req { pending = p; copyup_state = object_maps }) p.result)
maps_pending (suc n) calls req p log =
    ok (false, record req { pending = p; copyup_state = maps_wait }, pos 0, log)

abbrev pub maps_sent : Calls → WriteReq → Pending × List Sent → Step
maps_sent calls req (p, log) = maps_pending p.num_pending calls req p log

-- The state RBD_OBJ_COPYUP_READ_PARENT.
pub parent_read_done : Calls → WriteReq → ℤ → Step
parent_read_done calls req result =
    let req' : WriteReq = record req {
      copyup_zeros = if calls.zero_data then true else req.copyup_zeros;
    } in
    if is_zero result
    then (copyup_object_maps calls req' >>= maps_sent calls req')
    else ok (true, req, result, [])

-- setup_copyup_bvecs: what is left of the overlap after the loop must be nothing.
abbrev pub bvecs_left : (count : ℕ) → (obj_overlap : ℕ) → ℕ
bvecs_left zero obj_overlap = obj_overlap
bvecs_left (suc count) obj_overlap = bvecs_left count (obj_overlap - min obj_overlap page_size)

-- rbd_obj_read_from_parent, with its answer, after the memory was set up.
abbrev pub ask_parent : (answer : ℕ) → (bytes : ℕ) → WriteReq → Step
ask_parent zero bytes req =
    ok (false, record req { copyup_state = read_parent }, pos 0, parent_read bytes ∷ [])
ask_parent (suc n) bytes req = ok (true, req, negsuc n, [])

abbrev pub with_bvecs : Calls → (bytes : ℕ) → WriteReq → Step
with_bvecs calls bytes req =
    if req.has_bvecs
    then fault
    else if not calls.memory
    then ok (true, record req { has_bvecs = true }, negsuc 11, [])
    else if not (bvecs_left ((bytes + page_size - 1) / page_size) bytes == 0)
    then fault
    else ask_parent (calls.sends (parent_read bytes)) bytes (record req { has_bvecs = true })

-- The overlap has become 0: the write is sent again.
abbrev pub write_again : (answer : ℕ) → WriteReq → Step
write_again zero req =
    ok (false, record req { copyup_state = write_object }, pos 0, copyup_current mods_only ∷ [])
write_again (suc n) req = ok (true, req, negsuc n, [])

abbrev pub read_or_write : Calls → List FileExtent → WriteReq → Step
read_or_write calls [] req =
    write_again (calls.sends (copyup_current mods_only)) (record req { img_extents = [] })
read_or_write calls (fe ∷ rest) req =
    with_bvecs calls (u32 (file_extents_bytes (fe ∷ rest))) (record req { img_extents = fe ∷ rest })

abbrev pub is_none : List FileExtent → Bool
is_none [] = true
is_none (fe ∷ rest) = false

-- The state RBD_OBJ_COPYUP_START, with rbd_obj_copyup_read_parent.
pub copyup_read_parent : Calls → WriteReq → ℤ → Step
copyup_read_parent calls req result =
    if not (is_zero result)
    then fault
    else if is_none req.img_extents
    then fault
    else read_or_write calls (prune_extents req.img_extents calls.parent_overlap) req

-- The states with pending requests.
pub maps_ended : Calls → WriteReq → Bool × Pending × ℤ → Step
maps_ended calls req (false, p, result) = ok (false, record req { pending = p }, result, [])
maps_ended calls req (true, p, result) = object_maps_done calls (record req { pending = p }) result

pub writes_ended : WriteReq → Bool × Pending × ℤ → Step
writes_ended req (done, p, result) = ok (done, record req { pending = p }, result, [])

abbrev pub copyup_from : CopyupState → Calls → WriteReq → ℤ → Step
copyup_from copyup_start calls req result = copyup_read_parent calls req result
copyup_from read_parent calls req result = parent_read_done calls req result
copyup_from maps_wait calls req result =
    pending_result_dec req.pending result >>= maps_ended calls req
copyup_from object_maps calls req result = object_maps_done calls req result
copyup_from write_wait calls req result = pending_result_dec req.pending result >>= writes_ended req
copyup_from write_object calls req result = ok (true, req, result, [])

-- rbd_obj_advance_copyup.
pub advance_copyup : Calls → WriteReq → ℤ → Step
advance_copyup calls req result = copyup_from req.copyup_state calls req result
