-- ===== src/Rbd/Lock/Tests.antt =====
-- A request that takes the lock, runs and lets it be released, and one that meets an error.
use xcp_ng_ceph_rbd.Base.{◌≡◌, refl, true, [], ◌∷◌, pos}
use xcp_ng_ceph_rbd.Crush.Outcome.{ok, fault, ◌>>=◌}
use xcp_ng_ceph_rbd.Rbd.Lock.{
  unlocked, locked, releasing, idle, release_waits, Dev, mark_waiting, del_request,
  wake_lock_waiters, got, blocklisted, try_acquire_lock, release_lock, ends, acquire, release,
  continues, handle,
}
use xcp_ng_ceph_rbd.Rbd.Lock.Safe.{new, blocklisted_then_got}

abbrev waiting : Dev
waiting = record new { acquiring = 3 ∷ []; img_state = mark_waiting 3 new.img_state }

abbrev running : Dev
running = record {
  lock_state = locked;
  acquiring = [];
  running = 3 ∷ [];
  mapped = true;
  released = 0;
  worker = idle;
  img_state = mark_waiting 3 new.img_state;
  scheduled = (3, pos 0) ∷ [];
}

-- The queue waits for request 3, and request 4 has come in the meantime.
abbrev releasing_three : Dev
releasing_three = record running { lock_state = releasing; worker = release_waits }

abbrev draining : Dev
draining = record releasing_three {
  acquiring = 4 ∷ [];
  img_state = mark_waiting 4 releasing_three.img_state;
}

abbrev drained : Dev
drained = record draining { running = []; released = 1 }

given_up :
    handle (continues (pos 0)) drained
    ≡ ok (record drained { lock_state = unlocked; released = 0; worker = idle })
unfolding handle release_lock
given_up = refl

-- Request 4 ends while it waits for the lock and the wake-up by request 3 is still to be taken: the
-- second wake-up is left over, and the next release runs into the assertion.
wakes_twice :
    (handle (ends 4) drained >>= λ d.
    handle (continues (pos 0)) d >>= λ d. handle (acquire got (pos 0)) d >>= λ d. handle release d)
    ≡ fault
unfolding handle del_request release_lock try_acquire_lock wake_lock_waiters
wakes_twice = refl

blocklisted_then_got_example :
    (d' : Dev) × (handle (acquire blocklisted (pos 0)) waiting ≡ ok d')
    × (handle (acquire got (pos 0)) d' ≡ fault)
blocklisted_then_got_example =
    blocklisted_then_got waiting 3 [] (pos 0) (pos 0) refl refl refl refl refl refl
