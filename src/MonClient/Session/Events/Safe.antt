-- ===== src/MonClient/Session/Events/Safe.antt =====
-- A session that was opened survives every sequence of events.
use xcp_ng_ceph_rbd.Base.{
  ℕ, zero, suc, ◌≤◌, ◌<◌, ◌≡◌, refl, ◌&&◌, Bool, true, false, not, List, [], ◌∷◌, Option, none,
  some, ◌==◌, if◌then◌else◌, ℤ, pos, negsuc, All, arith,
}
use xcp_ng_ceph_rbd.Crush.Outcome.{ok, ◌>>=◌}
use xcp_ng_ceph_rbd.MonClient.{
  SubKind, monmap, osdmap, fsmap, mdsmap, Sub, set_sub, keepalive, Auth, Config, Now, Monc, init,
  no_sub, want_map, got_map, is_set, emit, time_after_eq,
}
use xcp_ng_ceph_rbd.MonClient.Wants.{IsEndless, want_map-IsEndless, got_map-IsEndless}
use xcp_ng_ceph_rbd.MonClient.Session.{
  send_auth, send_subscribe, reopen_session, un_backoff, schedule_delayed, validate_auth,
  finish_hunting, finish_auth, replied, handle_auth_reply, done, handle_auth_done,
  handle_auth_bad_method, kept_alive, renewed, keep_session, delayed_work, mon_fault, monc_want_map,
  monc_got_map, handle_subscribe_ack, handle_map, start,
}
use xcp_ng_ceph_rbd.MonClient.Session.Safe.{
  HasSession, IsSafe, Safely, bind-Safely, last-Safely, if-Safely, if-IsSafe, send_subscribe-Safely,
  open_session-Safely, reopen_session-Safely, un_backoff-IsSafe, schedule_delayed-IsSafe,
  validate_auth-IsSafe, finish_hunting-IsSafe, finish_auth-Safely,
}
use xcp_ng_ceph_rbd.MonClient.Session.Events.{
  Event, auth_reply, auth_done, auth_bad_method, timer, faulted, reopen, renew, validate,
  subscribe_ack, new_monmap, want, got, handle, run, IsAllowed,
}

module _ {A : Type 0} (ops : Auth A) (cfg : Config)
    (greets : (a : A) → (n : ℕ) × (a' : A) × (ops.build_hello a ≡ (pos (suc n), a')))
    (short : cfg.suffix ≤ 12) where
  finished-Safely :
      (now : Now) (err : ℤ) (was_authed : Bool) (m : Monc A)
      → IsSafe m
      → Safely (finish_auth ops cfg now err was_authed m >>= λ m'. ok (finish_hunting cfg m'))
  finished-Safely now err was_authed m h =
      last-Safely (finish_auth ops cfg now err was_authed m) (finish_hunting cfg)
        (finish_auth-Safely ops cfg greets short now err was_authed m h)
        (finish_hunting-IsSafe ops cfg greets short)

  replied-Safely :
      (now : Now) (was_authed : Bool) (answer : ℤ × A) (m : Monc A)
      → IsSafe m
      → Safely (replied ops cfg now was_authed answer m)
  replied-Safely now was_authed (pos (suc n), a) m h =
      (send_auth (suc n) (record m { auth = a }), refl, h)
  replied-Safely now was_authed (pos zero, a) m h =
      finished-Safely now (pos 0) was_authed (record m { auth = a }) h
  replied-Safely now was_authed (negsuc n, a) m h =
      finished-Safely now (negsuc n) was_authed (record m { auth = a }) h

  done-Safely :
      (now : Now) (was_authed : Bool) (answer : ℤ × A) (m : Monc A)
      → IsSafe m
      → Safely (done ops cfg now was_authed answer m)
  done-Safely now was_authed (pos (suc n), a) m h =
      finish_auth-Safely ops cfg greets short now (pos (suc n)) was_authed (record m { auth = a }) h
  done-Safely now was_authed (pos zero, a) m h =
      finished-Safely now (pos 0) was_authed (record m { auth = a }) h
  done-Safely now was_authed (negsuc n, a) m h =
      finish_auth-Safely ops cfg greets short now (negsuc n) was_authed (record m { auth = a }) h

  kept_alive-IsSafe : (m : Monc A) → IsSafe m → IsSafe (kept_alive ops m)
  kept_alive-IsSafe m h =
      if-IsSafe m.hunting m (un_backoff (validate_auth ops (emit keepalive m)).1) h (
        un_backoff-IsSafe ops cfg greets short (validate_auth ops (emit keepalive m)).1
          (validate_auth-IsSafe ops cfg greets short (emit keepalive m) h))

  renewed-Safely :
      (now : Now) (is_auth : Bool) (m : Monc A) → IsSafe m → Safely (renewed cfg now is_auth m)
  renewed-Safely now is_auth m h =
      if-Safely (is_auth && (not now.stateful_sub && time_after_eq now.jiffies m.sub_renew_after))
        (send_subscribe cfg now m) (ok m) (send_subscribe-Safely ops cfg greets short now m h)
        (m, refl, h)

  keep_session-Safely : (now : Now) (m : Monc A) → IsSafe m → Safely (keep_session ops cfg now m)
  unfolding keep_session
  keep_session-Safely now m h =
      if-Safely now.keepalive_expired
        (reopen_session ops cfg now m >>= λ m'. renewed cfg now false (kept_alive ops m'))
        (renewed cfg now (ops.is_authenticated m.auth) (kept_alive ops m))
        (bind-Safely (reopen_session ops cfg now m)
          (λ m'. renewed cfg now false (kept_alive ops m'))
          (reopen_session-Safely ops cfg greets short now m h)
          (λ m' h'. renewed-Safely now false (kept_alive ops m') (kept_alive-IsSafe m' h')))
        (renewed-Safely now (ops.is_authenticated m.auth) (kept_alive ops m)
          (kept_alive-IsSafe m h))

  delayed_work-Safely : (now : Now) (m : Monc A) → IsSafe m → Safely (delayed_work ops cfg now m)
  unfolding delayed_work
  delayed_work-Safely now m h =
      last-Safely (if m.hunting then reopen_session ops cfg now m else keep_session ops cfg now m)
        (schedule_delayed cfg)
        (if-Safely m.hunting (reopen_session ops cfg now m) (keep_session ops cfg now m)
          (reopen_session-Safely ops cfg greets short now m h) (keep_session-Safely now m h))
        (schedule_delayed-IsSafe ops cfg greets short)

  mon_fault-Safely : (now : Now) (m : Monc A) → IsSafe m → Safely (mon_fault ops cfg now m)
  unfolding mon_fault
  mon_fault-Safely now m h =
      if-Safely (is_set m.cur_mon && not m.hunting)
        (reopen_session ops cfg now m >>= λ m'. ok (schedule_delayed cfg m')) (ok m)
        (last-Safely (reopen_session ops cfg now m) (schedule_delayed cfg)
          (reopen_session-Safely ops cfg greets short now m h)
          (schedule_delayed-IsSafe ops cfg greets short))
        (m, refl, h)

  with_sub :
      (m : Monc A) (sub : Sub)
      → IsSafe m
      → IsEndless sub
      → IsSafe (record m { subs = set_sub m.subs monmap sub })
  with_sub m sub h (w, c) = record {
    mult_low = h.mult_low;
    mult_high = h.mult_high;
    some_mon = h.some_mon;
    session = h.session;
    wants = w;
    continuous = c;
  }

  want_map-IsSafe :
      (kind : SubKind) (epoch : ℕ) (continuous : Bool) (m : Monc A)
      → IsAllowed (want kind epoch continuous)
      → IsSafe m
      → IsSafe (monc_want_map kind epoch continuous m).1
  unfolding monc_want_map
  want_map-IsSafe monmap epoch true m a h =
      with_sub m (want_map m.subs.of_monmap epoch true).1 h
        (want_map-IsEndless m.subs.of_monmap epoch)
  want_map-IsSafe monmap epoch false m a h = absurd cc
  want_map-IsSafe osdmap epoch continuous m a h = h
  want_map-IsSafe fsmap epoch continuous m a h = h
  want_map-IsSafe mdsmap epoch continuous m a h = h

  got_map-IsSafe :
      (kind : SubKind) (epoch : ℕ) (m : Monc A) → IsSafe m → IsSafe (monc_got_map kind epoch m)
  unfolding monc_got_map
  got_map-IsSafe monmap epoch m h =
      with_sub m (got_map m.subs.of_monmap epoch) h
        (got_map-IsEndless m.subs.of_monmap epoch (h.wants, h.continuous))
  got_map-IsSafe osdmap epoch m h = h
  got_map-IsSafe fsmap epoch m h = h
  got_map-IsSafe mdsmap epoch m h = h

  handle_map-IsSafe :
      (num_mon epoch : ℕ) (m : Monc A)
      → 0 < num_mon
      → IsSafe m
      → IsSafe (handle_map num_mon epoch m)
  unfolding handle_map
  handle_map-IsSafe num_mon epoch m lt h =
      got_map-IsSafe monmap epoch (record m { num_mon = num_mon })
        (record {
          mult_low = h.mult_low;
          mult_high = h.mult_high;
          some_mon = lt;
          session = h.session;
          wants = h.wants;
          continuous = h.continuous;
        })

  subscribe_ack-IsSafe :
      (seconds : Option ℕ) (m : Monc A) → IsSafe m → IsSafe (handle_subscribe_ack cfg seconds m)
  unfolding handle_subscribe_ack
  subscribe_ack-IsSafe none m h = h
  subscribe_ack-IsSafe (some seconds) m h = if-IsSafe (m.sub_renew_sent == 0) m _ h h

  handle-Safely :
      (now : Now) (event : Event) (m : Monc A)
      → IsAllowed event
      → IsSafe m
      → Safely (handle ops cfg now event m)
  unfolding handle handle_auth_reply handle_auth_done handle_auth_bad_method
  handle-Safely now (auth_reply msg) m a h =
      replied-Safely now (ops.is_authenticated m.auth) (ops.handle_reply msg m.auth) m h
  handle-Safely now (auth_done reply) m a h =
      done-Safely now (ops.is_authenticated m.auth) (ops.handle_reply_done reply m.auth) m h
  handle-Safely now auth_bad_method m a h =
      finish_auth-Safely ops cfg greets short now (negsuc 12) (ops.is_authenticated m.auth)
        (record m { auth = ops.handle_bad_method m.auth }) h
  handle-Safely now timer m a h = delayed_work-Safely now m h
  handle-Safely now faulted m a h = mon_fault-Safely now m h
  handle-Safely now reopen m a h = reopen_session-Safely ops cfg greets short now m h
  handle-Safely now renew m a h = send_subscribe-Safely ops cfg greets short now m h
  handle-Safely now validate m a h =
      ((validate_auth ops m).1, refl, validate_auth-IsSafe ops cfg greets short m h)
  handle-Safely now (subscribe_ack seconds) m a h =
      (handle_subscribe_ack cfg seconds m, refl, subscribe_ack-IsSafe seconds m h)
  handle-Safely now (new_monmap num_mon epoch) m a h =
      (handle_map num_mon epoch m, refl, handle_map-IsSafe num_mon epoch m a h)
  handle-Safely now (want kind epoch continuous) m a h =
      ((monc_want_map kind epoch continuous m).1, refl, want_map-IsSafe kind epoch continuous m a h)
  handle-Safely now (got kind epoch) m a h =
      (monc_got_map kind epoch m, refl, got_map-IsSafe kind epoch m h)

  run-Safely :
      (events : List (Now × Event)) (m : Monc A)
      → All (λ e. IsAllowed e.1) events
      → IsSafe m
      → Safely (run ops cfg events m)
  unfolding run
  run-Safely [] m a h = (m, refl, h)
  run-Safely ((now, event) ∷ events) m (a, rest) h =
      bind-Safely (handle ops cfg now event m) (run ops cfg events) (handle-Safely now event m a h)
        (λ m' h'. run-Safely events m' rest h')

  start-Safely :
      (now : Now) (a : A) (num_mon : ℕ) → 0 < num_mon → Safely (start ops cfg now (init a num_mon))
  unfolding start monc_want_map
  start-Safely now a num_mon lt =
      last-Safely _ (schedule_delayed cfg)
        (open_session-Safely ops cfg greets short now
          (monc_want_map osdmap 0 false (monc_want_map monmap 0 true (init a num_mon)).1).1 ready)
        (schedule_delayed-IsSafe ops cfg greets short)
    where
      ready : HasSession 1 num_mon (pos 0) (want_map no_sub 0 true).1
      ready =
          let endless = want_map-IsEndless no_sub 0 in
          record {
            mult_low = omega arith;
            mult_high = omega arith;
            some_mon = lt;
            session = refl;
            wants = endless.0;
            continuous = endless.1;
          }

-- A client of a cluster with monitors that opens a session and then meets any sequence of events, in
-- which no map without monitors comes and the subscription to their map is not asked for just once:
-- no BUG_ON fires, and in the end the hunting backoff is between 1 and 10, a monitor is chosen and the
-- map of the monitors is still subscribed to for good. The greeting of the authentication always has
-- a length, and the number of the file system at most 12 characters.
pub run-start :
    {A : Type 0} (ops : Auth A) (cfg : Config) (now : Now) (a : A) (num_mon : ℕ)
    (events : List (Now × Event))
    → ((b : A) → (n : ℕ) × (b' : A) × (ops.build_hello b ≡ (pos (suc n), b')))
    → cfg.suffix ≤ 12
    → 0 < num_mon
    → All (λ e. IsAllowed e.1) events
    → Safely (start ops cfg now (init a num_mon) >>= run ops cfg events)
run-start ops cfg now a num_mon events greets short lt allowed =
    bind-Safely (start ops cfg now (init a num_mon)) (run ops cfg events)
      (start-Safely ops cfg greets short now a num_mon lt)
      (λ m h. run-Safely ops cfg greets short events m allowed h)
