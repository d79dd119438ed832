-- ===== src/MonClient/Session/Events.antt =====
-- Any sequence of events of a client that has opened its session.
pub mod Safe
use xcp_ng_ceph_rbd.Base.{
  ℕ, zero, suc, ◌+◌, ◌-◌, ◌*◌, ◌/◌, ◌≤◌, ◌<◌, ◌≡◌, refl, ap, ◌&&◌, Bool, true, false, not, List, [],
  ◌∷◌, Option, none, some, ltb, ◌==◌, if◌then◌else◌, ℤ, pos, negsuc, All, inl, inr, arith,
  Bool-cases,
}
use xcp_ng_ceph_rbd.Crush.Outcome.{Outcome, ok, ◌>>=◌}
use xcp_ng_ceph_rbd.MonClient.{
  SubKind, monmap, osdmap, fsmap, mdsmap, Sub, Subs, get_sub, set_sub, keepalive, Auth, Config, Now,
  Monc, init, no_sub, want_map, got_map, is_set, emit, time_after_eq,
}
use xcp_ng_ceph_rbd.MonClient.Wants.{IsEndless, want_map-IsEndless, got_map-IsEndless}
use xcp_ng_ceph_rbd.MonClient.Session.{
  send_auth, send_subscribe, reopen_session, un_backoff, schedule_delayed, validate_auth,
  finish_hunting, finish_auth, replied, handle_auth_reply, done, handle_auth_done,
  handle_auth_bad_method, kept_alive, renewed, keep_session, delayed_work, mon_fault, monc_want_map,
  monc_got_map, handle_subscribe_ack, handle_map, start,
}
use xcp_ng_ceph_rbd.MonClient.Session.Safe.{
  HasSession, IsSafe, Safely, bind-Safely, last-Safely, if-Safely, if-IsSafe, IsReady,
  send_subscribe-Safely, open_session-Safely, reopen_session-Safely, un_backoff-IsSafe,
  schedule_delayed-IsSafe, validate_auth-IsSafe, finish_hunting-IsSafe, finish_auth-Safely,
}

-- What happens to the client: messages, the timer, faults of the connection, and calls of the others.
pub data Event : Type 0 where
  auth_reply auth_done : List ℕ → Event
  auth_bad_method timer faulted reopen renew validate : Event
  subscribe_ack : Option ℕ → Event
  new_monmap : (num_mon epoch : ℕ) → Event
  want : SubKind → (epoch : ℕ) → (continuous : Bool) → Event
  got : SubKind → (epoch : ℕ) → Event

pub handle : {A : Type 0} → Auth A → Config → Now → Event → Monc A → Outcome (Monc A)
handle ops cfg now (auth_reply msg) m = handle_auth_reply ops cfg now msg m
handle ops cfg now (auth_done reply) m = handle_auth_done ops cfg now reply m
handle ops cfg now auth_bad_method m = handle_auth_bad_method ops cfg now m
handle ops cfg now timer m = delayed_work ops cfg now m
handle ops cfg now faulted m = mon_fault ops cfg now m
handle ops cfg now reopen m = reopen_session ops cfg now m
handle ops cfg now renew m = send_subscribe cfg now m
handle ops cfg now validate m = ok (validate_auth ops m).1
handle ops cfg now (subscribe_ack seconds) m = ok (handle_subscribe_ack cfg seconds m)
handle ops cfg now (new_monmap num_mon epoch) m = ok (handle_map num_mon epoch m)
handle ops cfg now (want kind epoch continuous) m = ok (monc_want_map kind epoch continuous m).1
handle ops cfg now (got kind epoch) m = ok (monc_got_map kind epoch m)

pub run : {A : Type 0} → Auth A → Config → List (Now × Event) → Monc A → Outcome (Monc A)
run ops cfg [] m = ok m
run ops cfg ((now, event) ∷ events) m = handle ops cfg now event m >>= λ m'. run ops cfg events m'

-- The map of the monitors is never empty, and it is not asked for just once.
abbrev pub IsAllowed : Event → Type 0
IsAllowed (new_monmap num_mon epoch) = 0 < num_mon
IsAllowed (want monmap epoch continuous) = continuous ≡ true
IsAllowed _ = Unit {0}
