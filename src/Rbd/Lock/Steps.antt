-- ===== src/Rbd/Lock/Steps.antt =====
-- Each step of the exclusive lock keeps a mapped device consistent and runs into no assertion.
use xcp_ng_ceph_rbd.Base.{
  ℕ, zero, suc, ◌⊎◌, inl, inr, Bool-cases, ◌==◌, ==_iff, if◌then◌else◌, ◌≡◌, refl, sym, true, false,
  List, [], ◌∷◌, ◌++◌, ℤ, pos, negsuc, arith,
}
use xcp_ng_ceph_rbd.Crush.Outcome.{Outcome, ok, fault}
use xcp_ng_ceph_rbd.Rbd.Image.{ImgState}
use xcp_ng_ceph_rbd.Rbd.Lock.{
  LockState, unlocked, locked, releasing, Worker, idle, release_waits, reacquire_waits, Dev,
  is_empty, is_member, remove, all_waiting, mark_waiting, start_request, add_request, del_request,
  wake_lock_waiters, Answer, got, busy, refused, blocklisted, try_acquire_lock, release_lock,
  set_cookie, Event, request, ends, acquire, release, reacquire, continues, handle,
}

-- With an idle queue, requests run only where the lock is held. While the queue waits, the lock is
-- being released, and the wait is over exactly if no request runs. A wake-up is counted but once.
abbrev pub IsConsistent : Worker → LockState → (running : List ℕ) → (released : ℕ) → Type 0
IsConsistent idle unlocked running released = (running ≡ []) × (released ≡ 0)
IsConsistent idle locked running released = released ≡ 0
IsConsistent idle releasing running released = ⊥
IsConsistent release_waits releasing running released =
    released ≡ (if is_empty running then 1 else 0)
IsConsistent reacquire_waits releasing running released =
    released ≡ (if is_empty running then 1 else 0)
IsConsistent _ _ running released = ⊥

-- And each request that waits for the lock has the state for that.
abbrev pub IsSafe : Dev → Type 0
IsSafe d =
    (d.mapped ≡ true)
    × IsConsistent d.worker d.lock_state d.running d.released
    × (all_waiting d.img_state d.acquiring ≡ true)

-- A mapped device.
abbrev pub dev :
    Worker
    → LockState
    → (acquiring running : List ℕ) → (released : ℕ) → (ℕ → ImgState)
    → List (ℕ × ℤ)
    → Dev
dev w s acquiring running released img_state scheduled = record {
  lock_state = s;
  acquiring = acquiring;
  running = running;
  mapped = true;
  released = released;
  worker = w;
  img_state = img_state;
  scheduled = scheduled;
}

pub dev_eta :
    (d : Dev)
    → d.mapped ≡ true
    → dev d.worker d.lock_state d.acquiring d.running d.released d.img_state d.scheduled ≡ d
dev_eta d e = rw (sym e) refl

-- Only an error of the lock that meets no waiting request.
abbrev pub IsQuiet : Answer → (post_acquire : ℤ) → (acquiring : List ℕ) → Type 0
IsQuiet got (pos zero) acquiring = Unit
IsQuiet got (pos (suc n)) acquiring = acquiring ≡ []
IsQuiet got (negsuc n) acquiring = acquiring ≡ []
IsQuiet busy post_acquire acquiring = Unit
IsQuiet refused post_acquire acquiring = acquiring ≡ []
IsQuiet blocklisted post_acquire acquiring = acquiring ≡ []

-- A request that comes is a new one. One that ends has run, or it waits for the lock, and then the
-- queue has no wake-up that it has still to take.
abbrev pub IsPossible : Event → Dev → Type 0
IsPossible (request id) d = (is_member id d.acquiring ≡ false) × (is_member id d.running ≡ false)
IsPossible (ends id) d =
    (is_member id d.running ≡ true) ⊎ ((is_member id d.acquiring ≡ true) × (d.released ≡ 0))
IsPossible (acquire answer post_acquire) d = IsQuiet answer post_acquire d.acquiring
IsPossible release d = Unit
IsPossible (reacquire cookie) d = Unit
IsPossible (continues cookie) d = Unit

-- The device after a step that runs into no assertion.
abbrev pub IsFine : Outcome Dev → Type 0
IsFine (ok d) = IsSafe d
IsFine _ = ⊥

pub is_fine : (r : Outcome Dev) → IsFine r → (d : Dev) × (r ≡ ok d) × IsSafe d
is_fine (ok d) h = (d, refl, h)
is_fine fault h = absurd h
is_fine Outcome.stuck h = absurd h

all_waiting-marked :
    (st : ℕ → ImgState) (id : ℕ) (ids : List ℕ)
    → all_waiting st ids ≡ true
    → all_waiting (mark_waiting id st) ids ≡ true
all_waiting-marked st id [] h = refl
all_waiting-marked st id (other ∷ ids) h =
    let further = all_waiting-marked st id ids (ground arith) in
    elim (Bool-cases (other == id)) [
      | inl t ↦ rw t further
      | inr t ↦ rw (t, further) (ground arith)
    ]

all_waiting-append :
    (st : ℕ → ImgState) (id : ℕ) (ids : List ℕ)
    → all_waiting st ids ≡ true
    → all_waiting (mark_waiting id st) (ids ++ (id ∷ [])) ≡ true
all_waiting-append st id [] h = rw ((==_iff id id).1 refl) refl
all_waiting-append st id (other ∷ ids) h =
    let further = all_waiting-append st id ids (ground arith) in
    elim (Bool-cases (other == id)) [
      | inl t ↦ rw t further
      | inr t ↦ rw (t, further) (ground arith)
    ]

all_waiting-remove :
    (st : ℕ → ImgState) (id : ℕ) (ids : List ℕ)
    → all_waiting st ids ≡ true
    → all_waiting st (remove id ids) ≡ true
all_waiting-remove st id [] h = refl
all_waiting-remove st id (other ∷ ids) h =
    let further = all_waiting-remove st id ids (ground arith) in ground arith

module _ (acquiring running : List ℕ) (released : ℕ) (st : ℕ → ImgState) (scheduled : List (ℕ × ℤ))
    (aw : all_waiting st acquiring ≡ true) where
  start_request-IsFine :
      (id : ℕ) (w : Worker) (s : LockState)
      → IsConsistent w s running released
      → is_member id acquiring ≡ false
      → is_member id running ≡ false
      → IsFine (start_request id (dev w s acquiring running released st scheduled))
  unfolding start_request add_request
  start_request-IsFine id idle locked c ha hr =
      rw (ha, hr) (refl, c, all_waiting-marked st id acquiring aw)
  start_request-IsFine id release_waits locked c ha hr = absurd c
  start_request-IsFine id reacquire_waits locked c ha hr = absurd c
  start_request-IsFine id w unlocked c ha hr =
      rw (ha, hr) (refl, c, all_waiting-append st id acquiring aw)
  start_request-IsFine id w releasing c ha hr =
      rw (ha, hr) (refl, c, all_waiting-append st id acquiring aw)

  del_request-IsFine :
      (id : ℕ) (w : Worker) (s : LockState)
      → IsConsistent w s running released
      → (is_member id running ≡ true) ⊎ ((is_member id acquiring ≡ true) × (released ≡ 0))
      → IsFine (del_request id (dev w s acquiring running released st scheduled))
  unfolding del_request
  del_request-IsFine id w s c h = let fewer = all_waiting-remove st id acquiring aw in ground arith

  wake-IsFine :
      (result : ℤ)
      → released ≡ 0
      → IsFine (wake_lock_waiters result (dev idle locked acquiring running released st scheduled))
  unfolding wake_lock_waiters
  wake-IsFine result h = rw aw (refl, h, refl)

  acquire-IsFine :
      (answer : Answer) (post_acquire : ℤ) (w : Worker) (s : LockState)
      → IsConsistent w s running released
      → IsQuiet answer post_acquire acquiring
      → IsFine
          (handle (acquire answer post_acquire) (dev w s acquiring running released st scheduled))
  unfolding handle try_acquire_lock wake_lock_waiters
  acquire-IsFine answer post_acquire w s c q = ground arith

  release-IsFine :
      (w : Worker) (s : LockState)
      → IsConsistent w s running released
      → IsFine (handle release (dev w s acquiring running released st scheduled))
  unfolding handle release_lock
  release-IsFine w s c = ground arith

  reacquire-IsFine :
      (cookie : ℤ) (w : Worker) (s : LockState)
      → IsConsistent w s running released
      → IsFine (handle (reacquire cookie) (dev w s acquiring running released st scheduled))
  unfolding handle set_cookie release_lock wake_lock_waiters
  reacquire-IsFine cookie w s c = ground arith

  continues-IsFine :
      (cookie : ℤ) (w : Worker) (s : LockState)
      → IsConsistent w s running released
      → IsFine (handle (continues cookie) (dev w s acquiring running released st scheduled))
  unfolding handle set_cookie release_lock wake_lock_waiters
  continues-IsFine cookie w s c = ground arith

pub dev-IsFine :
    (e : Event) (w : Worker) (s : LockState) (acquiring running : List ℕ) (released : ℕ)
    (st : ℕ → ImgState) (scheduled : List (ℕ × ℤ))
    → all_waiting st acquiring ≡ true
    → IsConsistent w s running released
    → IsPossible e (dev w s acquiring running released st scheduled)
    → IsFine (handle e (dev w s acquiring running released st scheduled))
unfolding handle
dev-IsFine (request id) w s acquiring running released st scheduled aw c h =
    start_request-IsFine acquiring running released st scheduled aw id w s c h.0 h.1
dev-IsFine (ends id) w s acquiring running released st scheduled aw c h =
    del_request-IsFine acquiring running released st scheduled aw id w s c h
dev-IsFine (acquire answer post_acquire) w s acquiring running released st scheduled aw c h =
    acquire-IsFine acquiring running released st scheduled aw answer post_acquire w s c h
dev-IsFine release w s acquiring running released st scheduled aw c h =
    release-IsFine acquiring running released st scheduled aw w s c
dev-IsFine (reacquire cookie) w s acquiring running released st scheduled aw c h =
    reacquire-IsFine acquiring running released st scheduled aw cookie w s c
dev-IsFine (continues cookie) w s acquiring running released st scheduled aw c h =
    continues-IsFine acquiring running released st scheduled aw cookie w s c
