-- ===== src/Rbd/Lock/Safe.antt =====
-- Requests run only under the lock, it is not given up while one runs, and no wake-up is lost.
use xcp_ng_ceph_rbd.Base.{ℕ, ◌≡◌, refl, Bool, true, List, [], ◌∷◌, ◌++◌, map, ℤ, negsuc}
use mathlib.Core.Path.{subst}
use xcp_ng_ceph_rbd.Crush.Outcome.{ok, fault}
use xcp_ng_ceph_rbd.Rbd.Image.{ImgState}
use xcp_ng_ceph_rbd.Rbd.Lock.{
  LockState, unlocked, Worker, idle, Dev, all_waiting, wake_lock_waiters, got, blocklisted,
  try_acquire_lock, Event, acquire, handle,
}
use xcp_ng_ceph_rbd.Rbd.Lock.Steps.{dev, IsPossible}

-- A device that is mapped and unlocked, and what it comes to.
abbrev pub new : Dev
new = record {
  lock_state = unlocked;
  acquiring = [];
  running = [];
  mapped = true;
  released = 0;
  worker = idle;
  img_state = λ id. ImgState.start;
  scheduled = [];
}

pub data Reach : Dev → Type 0 where
  begin : Reach new
  later : {d d' : Dev} → Reach d → (e : Event) → IsPossible e d → handle e d ≡ ok d' → Reach d'

-- If the lock meets -EBLOCKLISTED while requests wait, in their state for that, and is then got before one of these has ended, the
-- assertion of rbd_try_acquire_lock that no request runs fails.
pub blocklisted_then_got :
    (d : Dev) (id : ℕ) (ids : List ℕ) (post_acquire other : ℤ)
    → d.mapped ≡ true
    → d.worker ≡ idle
    → d.lock_state ≡ unlocked
    → d.running ≡ []
    → d.acquiring ≡ id ∷ ids
    → all_waiting d.img_state (id ∷ ids) ≡ true
    → (d' : Dev) × (handle (acquire blocklisted other) d ≡ ok d')
      × (handle (acquire got post_acquire) d' ≡ fault)
unfolding handle try_acquire_lock wake_lock_waiters
blocklisted_then_got d id ids post_acquire other em ew es er ea aw =
    subst
      (λ d0.
        (d' : Dev) × (handle (acquire blocklisted other) d0 ≡ ok d')
        × (handle (acquire got post_acquire) d' ≡ fault))
      (dev_eq d d.lock_state d.acquiring d.running d.mapped d.worker em ew es er ea)
      (
        record {
          lock_state = unlocked;
          acquiring = [];
          running = id ∷ ids;
          mapped = true;
          released = d.released;
          worker = idle;
          img_state = d.img_state;
          scheduled = d.scheduled ++ map (λ i. (i, negsuc 107)) (id ∷ ids);
        },
        rw aw refl,
        refl,
      )
  where
    dev_eq :
        (e : Dev) (s : LockState) (a r : List ℕ) (m : Bool) (w : Worker)
        → m ≡ true
        → w ≡ idle
        → s ≡ unlocked
        → r ≡ []
        → a ≡ id ∷ ids
        → dev idle unlocked (id ∷ ids) [] e.released e.img_state e.scheduled ≡ record {
          lock_state = s;
          acquiring = a;
          running = r;
          mapped = m;
          released = e.released;
          worker = w;
          img_state = e.img_state;
          scheduled = e.scheduled;
        }
    dev_eq e s a r m w hm hw hs hr ha = rw (hm, hw, hs, hr, ha) refl
