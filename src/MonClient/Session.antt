-- ===== src/MonClient/Session.antt =====
-- The handlers of kernel-modules/src/libceph/mon_client.c.
pub mod Safe
pub mod Events
use xcp_ng_ceph_rbd.Base.{
  ℕ, zero, suc, ◌+◌, ◌-◌, ◌*◌, ◌/◌, ◌%◌, ◌^◌, ◌&&◌, Bool, true, false, not, List, [], ◌∷◌, Option,
  none, some, bit_or, ltb, ◌==◌, if◌then◌else◌, ℤ, pos, negsuc, u32,
}
use xcp_ng_ceph_rbd.Crush.Outcome.{Outcome, ok, fault, ◌>>=◌}
use xcp_ng_ceph_rbd.MonClient.{
  SubKind, monmap, osdmap, Sub, Subs, get_sub, set_sub, Effect, closed, keepalive, resent_requests,
  opened, sent_auth, sent_subscribe, scheduled, Auth, Config, Now, Monc, max_mult, emit, pick_mon,
  want_map, got_map, wanted_subs, items_len, subscribe_room, is_set, is_empty, time_after_eq,
}

-- __send_prepared_auth_request.
abbrev pub send_auth : {A : Type 0} → ℕ → Monc A → Monc A
send_auth len m = emit (sent_auth len) (record m { pending_auth = true })

-- __send_subscribe.
pub send_subscribe : {A : Type 0} → Config → Now → Monc A → Outcome (Monc A)
send_subscribe cfg now m =
    if not (is_set m.cur_mon)
    then fault
    else if is_empty (wanted_subs m.subs)
    then fault
    else if ltb subscribe_room (items_len cfg.suffix (wanted_subs m.subs))
    then fault
    else ok (
        emit (sent_subscribe (wanted_subs m.subs)) (record m {
          sub_renew_sent = if m.sub_renew_sent == 0 then bit_or now.jiffies 1 else m.sub_renew_sent;
        }))

-- __close_session.
pub close_session : {A : Type 0} → Auth A → Monc A → Monc A
close_session ops m = emit closed (record m { pending_auth = false; auth = ops.reset m.auth })

-- __open_session.
pub backoff : (had_a_connection : Bool) → ℕ → ℕ
backoff had_a_connection mult =
    if had_a_connection then if ltb max_mult (mult * 2) then max_mult else mult * 2 else mult

abbrev pub hello : {A : Type 0} → ℤ × A → Monc A → Outcome (Monc A)
hello (negsuc n, a) m = fault
hello (pos zero, a) m = fault
hello (pos (suc n), a) m = ok (send_auth (suc n) (record m { auth = a }))

abbrev pub hunt : {A : Type 0} → Now → (mon : ℕ) → Monc A → Monc A
hunt now mon m = emit keepalive (
    emit (opened mon) (record m {
      cur_mon = pos mon;
      hunting = true;
      hunt_mult = backoff m.had_a_connection m.hunt_mult;
      sub_renew_after = now.jiffies;
      sub_renew_sent = 0;
    }))

pub open_session : {A : Type 0} → Auth A → Config → Now → Monc A → Outcome (Monc A)
open_session ops cfg now m =
    let opening = hunt now (pick_mon m.cur_mon m.num_mon now.random) m in
    if m.num_mon == 0
    then fault
    else if cfg.msgr2
    then ok (record opening { pending_auth = true })
    else hello (ops.build_hello opening.auth) opening

pub reopen_session : {A : Type 0} → Auth A → Config → Now → Monc A → Outcome (Monc A)
reopen_session ops cfg now m = open_session ops cfg now (close_session ops m)

pub un_backoff : {A : Type 0} → Monc A → Monc A
un_backoff m = record m { hunt_mult = if ltb (m.hunt_mult / 2) 1 then 1 else m.hunt_mult / 2 }

-- __schedule_delayed.
pub schedule_delayed : {A : Type 0} → Config → Monc A → Monc A
schedule_delayed cfg m =
    emit (scheduled (if m.hunting then cfg.jiffies_of 3000 * m.hunt_mult else cfg.jiffies_of 10000))
      m

-- __validate_auth.
abbrev pub sent_if_any : {A : Type 0} → ℤ × A → Monc A → ℤ × Monc A
sent_if_any (pos (suc n), a) m = (pos 0, send_auth (suc n) (record m { auth = a }))
sent_if_any (pos zero, a) m = (pos 0, record m { auth = a })
sent_if_any (negsuc n, a) m = (negsuc n, record m { auth = a })

pub validate_auth : {A : Type 0} → Auth A → Monc A → ℤ × Monc A
validate_auth ops m = if m.pending_auth then (pos 0, m) else sent_if_any (ops.build_auth m.auth) m

pub finish_hunting : {A : Type 0} → Config → Monc A → Monc A
finish_hunting cfg m =
    if m.hunting
    then schedule_delayed cfg (un_backoff (record m { hunting = false; had_a_connection = true }))
    else m

abbrev pub started :
    {A : Type 0} → Auth A → Config → Now → (was_authed : Bool) → Monc A → Outcome (Monc A)
started ops cfg now was_authed m =
    if not was_authed && ops.is_authenticated m.auth
    then (send_subscribe cfg now m >>= λ m'. ok (emit resent_requests m'))
    else ok m

abbrev pub finish_auth :
    {A : Type 0} → Auth A → Config → Now → ℤ → (was_authed : Bool) → Monc A → Outcome (Monc A)
finish_auth ops cfg now (pos zero) was_authed m =
    started ops cfg now was_authed (record m { pending_auth = false })
finish_auth ops cfg now (pos (suc n)) was_authed m =
    ok (record m { pending_auth = false; auth_err = pos (suc n) })
finish_auth ops cfg now (negsuc n) was_authed m =
    ok (record m { pending_auth = false; auth_err = negsuc n })

-- handle_auth_reply: a positive result is the length of the next request.
abbrev pub replied :
    {A : Type 0} → Auth A → Config → Now → (was_authed : Bool) → ℤ × A → Monc A → Outcome (Monc A)
replied ops cfg now was_authed (pos (suc n), a) m = ok (send_auth (suc n) (record m { auth = a }))
replied ops cfg now was_authed (pos zero, a) m =
    finish_auth ops cfg now (pos 0) was_authed (record m { auth = a }) >>= λ m'.
    ok (finish_hunting cfg m')
replied ops cfg now was_authed (negsuc n, a) m =
    finish_auth ops cfg now (negsuc n) was_authed (record m { auth = a }) >>= λ m'.
    ok (finish_hunting cfg m')

pub handle_auth_reply : {A : Type 0} → Auth A → Config → Now → List ℕ → Monc A → Outcome (Monc A)
handle_auth_reply ops cfg now msg m =
    replied ops cfg now (ops.is_authenticated m.auth) (ops.handle_reply msg m.auth) m

-- mon_handle_auth_done and mon_handle_auth_bad_method, with -EACCES.
abbrev pub done :
    {A : Type 0} → Auth A → Config → Now → (was_authed : Bool) → ℤ × A → Monc A → Outcome (Monc A)
done ops cfg now was_authed (pos zero, a) m =
    finish_auth ops cfg now (pos 0) was_authed (record m { auth = a }) >>= λ m'.
    ok (finish_hunting cfg m')
done ops cfg now was_authed (pos (suc n), a) m =
    finish_auth ops cfg now (pos (suc n)) was_authed (record m { auth = a })
done ops cfg now was_authed (negsuc n, a) m =
    finish_auth ops cfg now (negsuc n) was_authed (record m { auth = a })

pub handle_auth_done : {A : Type 0} → Auth A → Config → Now → List ℕ → Monc A → Outcome (Monc A)
handle_auth_done ops cfg now reply m =
    done ops cfg now (ops.is_authenticated m.auth) (ops.handle_reply_done reply m.auth) m

pub handle_auth_bad_method : {A : Type 0} → Auth A → Config → Now → Monc A → Outcome (Monc A)
handle_auth_bad_method ops cfg now m =
    finish_auth ops cfg now (negsuc 12) (ops.is_authenticated m.auth)
      (record m { auth = ops.handle_bad_method m.auth })

-- delayed_work, while a session is open: the keepalive, the tickets and, for a monitor that forgets
-- subscriptions, their renewal.
abbrev pub kept_alive : {A : Type 0} → Auth A → Monc A → Monc A
kept_alive ops m = if m.hunting then m else un_backoff (validate_auth ops (emit keepalive m)).1

abbrev pub renewed : {A : Type 0} → Config → Now → (is_auth : Bool) → Monc A → Outcome (Monc A)
renewed cfg now is_auth m =
    if is_auth && (not now.stateful_sub && time_after_eq now.jiffies m.sub_renew_after)
    then send_subscribe cfg now m
    else ok m

pub keep_session : {A : Type 0} → Auth A → Config → Now → Monc A → Outcome (Monc A)
keep_session ops cfg now m =
    if now.keepalive_expired
    then (reopen_session ops cfg now m >>= λ m'. renewed cfg now false (kept_alive ops m'))
    else renewed cfg now (ops.is_authenticated m.auth) (kept_alive ops m)

pub delayed_work : {A : Type 0} → Auth A → Config → Now → Monc A → Outcome (Monc A)
delayed_work ops cfg now m =
    (if m.hunting then reopen_session ops cfg now m else keep_session ops cfg now m) >>= λ m'.
    ok (schedule_delayed cfg m')

pub mon_fault : {A : Type 0} → Auth A → Config → Now → Monc A → Outcome (Monc A)
mon_fault ops cfg now m =
    if is_set m.cur_mon && not m.hunting
    then (reopen_session ops cfg now m >>= λ m'. ok (schedule_delayed cfg m'))
    else ok m

-- ceph_monc_want_map, with whether a request is needed, and ceph_monc_got_map.
pub monc_want_map :
    {A : Type 0} → SubKind → (epoch : ℕ) → (continuous : Bool) → Monc A → Bool × Monc A
monc_want_map kind epoch continuous m =
    let (need_request, sub) = want_map (get_sub m.subs kind) epoch continuous in
    (need_request, record m { subs = set_sub m.subs kind sub })

pub monc_got_map : {A : Type 0} → SubKind → (epoch : ℕ) → Monc A → Monc A
monc_got_map kind epoch m = record m {
  subs = set_sub m.subs kind (got_map (get_sub m.subs kind) epoch);
}

-- handle_subscribe_ack; a message that is too short has no duration.
pub handle_subscribe_ack : {A : Type 0} → Config → Option ℕ → Monc A → Monc A
handle_subscribe_ack cfg none m = m
handle_subscribe_ack cfg (some seconds) m = if m.sub_renew_sent == 0 then m else record m {
  sub_renew_after = (m.sub_renew_sent + u32 (seconds / 2 * cfg.hz) + (2 ^ 64 - 1)) % 2 ^ 64;
  sub_renew_sent = 0;
}

-- ceph_monc_handle_map, for a map of the cluster that could be decoded.
pub handle_map : {A : Type 0} → (num_mon epoch : ℕ) → Monc A → Monc A
handle_map num_mon epoch m = monc_got_map monmap epoch (record m { num_mon = num_mon })

-- ceph_monc_open_session.
pub start : {A : Type 0} → Auth A → Config → Now → Monc A → Outcome (Monc A)
start ops cfg now m =
    open_session ops cfg now (monc_want_map osdmap 0 false (monc_want_map monmap 0 true m).1).1
    >>= λ m'. ok (schedule_delayed cfg m')
