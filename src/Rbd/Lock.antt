-- ===== src/Rbd/Lock.antt =====
-- The exclusive lock of kernel-modules/src/rbd/rbd.c: image requests that wait for it or run under it,
-- and the ordered work queue task_wq, on which it is acquired, released and acquired again after the
-- watch was lost. An image request is a number. A section under lock_rwsem is one step; the queue waits
-- in the middle of a release until the last request under the lock has ended.
pub mod Steps
pub mod Safe
mod Tests
use xcp_ng_ceph_rbd.Base.{
  ℕ, zero, suc, ◌+◌, ◌&&◌, ◌||◌, Bool, true, false, not, List, [], ◌∷◌, ◌++◌, map, ◌==◌,
  if◌then◌else◌, ℤ, pos, negsuc,
}
use xcp_ng_ceph_rbd.Crush.Outcome.{Outcome, ok, fault, ◌>>=◌}
use xcp_ng_ceph_rbd.Rbd.Pending.{is_zero}
use xcp_ng_ceph_rbd.Rbd.Image.{ImgState, exclusive_lock}

-- enum rbd_lock_state.
pub data LockState : Type 0 where
  unlocked locked releasing : LockState

-- What the work queue is doing: nothing, or rbd_quiesce_lock waits for the end of all requests, for
-- rbd_release_lock or for rbd_reacquire_lock.
pub data Worker : Type 0 where
  idle release_waits reacquire_waits : Worker

-- struct rbd_device: `mapped` is completion_done(&acquire_wait), `released` the count of the completion
-- releasing_wait, `img_state` the state of each image request, and `scheduled` the results with which
-- requests were woken.
pub record Dev : Type 0 where
  pub lock_state : LockState
  pub acquiring : List ℕ
  pub running : List ℕ
  pub mapped : Bool
  pub released : ℕ
  pub worker : Worker
  pub img_state : ℕ → ImgState
  pub scheduled : List (ℕ × ℤ)

abbrev pub is_locked : LockState → Bool
is_locked locked = true
is_locked _ = false

abbrev pub is_releasing : LockState → Bool
is_releasing releasing = true
is_releasing _ = false

-- __rbd_is_lock_owner.
abbrev pub is_lock_owner : LockState → Bool
is_lock_owner state = is_locked state || is_releasing state

abbrev pub is_empty : List ℕ → Bool
is_empty [] = true
is_empty (id ∷ ids) = false

abbrev pub is_member : ℕ → List ℕ → Bool
is_member id [] = false
is_member id (other ∷ ids) = id == other || is_member id ids

-- list_del_init.
abbrev pub remove : ℕ → List ℕ → List ℕ
remove id [] = []
remove id (other ∷ ids) = if id == other then ids else other ∷ remove id ids

-- rbd_lock_add_request.
pub add_request : ℕ → Dev → Outcome Dev
add_request id d =
    if is_member id d.acquiring || is_member id d.running
    then fault
    else if is_locked d.lock_state
    then ok (record d { running = d.running ++ (id ∷ []) })
    else ok (record d { acquiring = d.acquiring ++ (id ∷ []) })

-- rbd_lock_del_request: the wake-up, where the lock is being released and the last request ends.
abbrev pub wake_up : Dev → Dev
wake_up d =
    if is_releasing d.lock_state && is_empty d.running
    then record d { released = suc d.released }
    else d

pub del_request : ℕ → Dev → Outcome Dev
del_request id d =
    if is_member id d.running
    then ok (wake_up (record d { running = remove id d.running }))
    else if is_member id d.acquiring
    then ok (wake_up (record d { acquiring = remove id d.acquiring }))
    else fault

-- wake_lock_waiters; before the device is mapped it tells rbd_add_acquire_lock. Each request that waits
-- must be in the state RBD_IMG_EXCLUSIVE_LOCK.
abbrev pub is_waiting : ImgState → Bool
is_waiting exclusive_lock = true
is_waiting _ = false

abbrev pub all_waiting : (ℕ → ImgState) → List ℕ → Bool
all_waiting img_state [] = true
all_waiting img_state (id ∷ ids) = is_waiting (img_state id) && all_waiting img_state ids

pub wake_lock_waiters : (result : ℤ) → Dev → Outcome Dev
wake_lock_waiters result d =
    if not d.mapped
    then if is_empty d.acquiring && is_empty d.running
      then ok (record d { mapped = true })
      else fault
    else if all_waiting d.img_state d.acquiring
    then ok (record d {
      acquiring = [];
      running = d.running ++ d.acquiring;
      scheduled = d.scheduled ++ map (λ id. (id, result)) d.acquiring;
    })
    else fault

-- rbd_unlock.
abbrev pub unlock : Dev → Dev
unlock d = record d { lock_state = unlocked }

-- What rbd_try_lock returns: 0, an error that lets the lock be requested, the same with -EROFS of
-- rbd_request_lock after it, or -EBLOCKLISTED.
pub data Answer : Type 0 where
  got busy refused blocklisted : Answer

-- rbd_try_acquire_lock behind its tests for an owner, with the result of rbd_post_acquire_action.
abbrev pub acquired : (post_acquire : ℤ) → Dev → Outcome Dev
acquired post_acquire d =
    if not (is_empty d.running)
    then fault
    else if is_zero post_acquire
    then wake_lock_waiters post_acquire (record d { lock_state = locked })
    else wake_lock_waiters post_acquire (unlock d)

abbrev pub try_lock : Answer → (post_acquire : ℤ) → Dev → Outcome Dev
try_lock got post_acquire d = acquired post_acquire d
try_lock busy post_acquire d = ok d
try_lock refused post_acquire d = wake_lock_waiters (negsuc 29) d
try_lock blocklisted post_acquire d = wake_lock_waiters (negsuc 107) d

pub try_acquire_lock : Answer → (post_acquire : ℤ) → Dev → Outcome Dev
try_acquire_lock answer post_acquire d =
    if is_lock_owner d.lock_state then ok d else try_lock answer post_acquire d

-- __rbd_release_lock.
pub release_lock : Dev → Outcome Dev
release_lock d = if is_empty d.running then ok (unlock d) else fault

-- rbd_reacquire_lock behind rbd_quiesce_lock, with the result of ceph_cls_set_cookie.
pub set_cookie : (result : ℤ) → Dev → Outcome Dev
set_cookie result d =
    if is_zero result
    then wake_lock_waiters (pos 0) (record d { lock_state = locked })
    else release_lock d

-- rbd_quiesce_lock up to its wait; `next` is what the caller does after it, and `waits` where it waits.
abbrev pub quiesce_lock : Worker → (next : Dev → Outcome Dev) → Dev → Outcome Dev
quiesce_lock waits next d =
    if not (is_locked d.lock_state)
    then ok d
    else if not (d.released == 0)
    then fault
    else if is_empty d.running
    then next (record d { lock_state = releasing })
    else ok (record d { lock_state = releasing; worker = waits })

-- The rest of rbd_quiesce_lock.
abbrev pub quiesced : (next : Dev → Outcome Dev) → Dev → Outcome Dev
quiesced next d =
    if not (is_releasing d.lock_state) then ok d else if is_empty d.running then next d else fault

-- The end of wait_for_completion, which takes one from the count, once there is one.
abbrev pub completed : (released : ℕ) → (next : Dev → Outcome Dev) → Dev → Outcome Dev
completed zero next d = ok d
completed (suc n) next d = quiesced next (record d { released = n; worker = idle })

abbrev pub continue_from : Worker → (cookie : ℤ) → Dev → Outcome Dev
continue_from idle cookie d = ok d
continue_from release_waits cookie d = completed d.released release_lock d
continue_from reacquire_waits cookie d = completed d.released (set_cookie cookie) d

-- The state RBD_IMG_START of an image request, which asks for the lock and goes to the next state.
abbrev pub mark_waiting : ℕ → (ℕ → ImgState) → ℕ → ImgState
mark_waiting id img_state other = if other == id then exclusive_lock else img_state other

pub start_request : ℕ → Dev → Outcome Dev
start_request id d =
    add_request id d >>= λ d'. ok (record d' { img_state = mark_waiting id d'.img_state })

-- What happens: an image request comes or ends; work of the queue starts, with what its calls return;
-- it goes on after its wait.
pub data Event : Type 0 where
  request ends : (id : ℕ) → Event
  acquire : Answer → (post_acquire : ℤ) → Event
  release : Event
  reacquire continues : (cookie : ℤ) → Event

-- While the queue waits, no other work starts.
abbrev pub when_idle : Worker → (Dev → Outcome Dev) → Dev → Outcome Dev
when_idle idle work d = work d
when_idle release_waits work d = ok d
when_idle reacquire_waits work d = ok d

pub handle : Event → Dev → Outcome Dev
handle (request id) d = start_request id d
handle (ends id) d = del_request id d
handle (acquire answer post_acquire) d = when_idle d.worker (try_acquire_lock answer post_acquire) d
handle release d = when_idle d.worker (quiesce_lock release_waits release_lock) d
handle (reacquire cookie) d =
    when_idle d.worker (quiesce_lock reacquire_waits (set_cookie cookie)) d
handle (continues cookie) d = continue_from d.worker cookie d
