-- ===== src/MonClient/Session/Safe.antt =====
-- The invariant of an open session, and that every handler keeps it.
use xcp_ng_ceph_rbd.Base.{
  ℕ, zero, suc, ◌+◌, ◌≤◌, ◌<◌, ◌≡◌, refl, ◌&&◌, Bool, true, false, not, List, [], ◌∷◌, ◌++◌, ltb,
  ◌==◌, if◌then◌else◌, ℤ, pos, negsuc, inl, inr, arith, Bool-cases,
}
use xcp_ng_ceph_rbd.Crush.Outcome.{Outcome, ok, ◌>>=◌}
use xcp_ng_ceph_rbd.MonClient.{
  SubKind, monmap, osdmap, fsmap, mdsmap, Sub, Subs, Auth, Config, Now, Monc, max_mult, wanted,
  wanted_subs, name_len, items_len, subscribe_room, is_set, is_empty, pick_mon, emit,
  resent_requests,
}
use xcp_ng_ceph_rbd.MonClient.Session.{
  send_subscribe, close_session, backoff, hello, hunt, open_session, reopen_session, un_backoff,
  schedule_delayed, sent_if_any, validate_auth, finish_hunting, started, finish_auth,
}

-- The backoff is within its bounds, there is a monitor to hunt for, and the subscription to the map
-- of the monitors never ends.
pub record HasSession (hunt_mult num_mon : ℕ) (cur_mon : ℤ) (monmap_sub : Sub) : Type 0 where
  pub mult_low : 1 ≤ hunt_mult
  pub mult_high : hunt_mult ≤ max_mult
  pub some_mon : 0 < num_mon
  pub session : is_set cur_mon ≡ true
  pub wants : monmap_sub.want ≡ true
  pub continuous : monmap_sub.onetime ≡ false

abbrev pub IsSafe : {A : Type 0} → Monc A → Type 0
IsSafe m = HasSession m.hunt_mult m.num_mon m.cur_mon m.subs.of_monmap

-- The code goes on without a BUG_ON to a state with the invariant.
abbrev pub Safely : {A : Type 0} → Outcome (Monc A) → Type 0
Safely r = (m : Monc _) × (r ≡ ok m) × IsSafe m

pub bind-Safely :
    {A : Type 0} (r : Outcome (Monc A)) (next : Monc A → Outcome (Monc A))
    → Safely r
    → ((m : Monc A) → IsSafe m → Safely (next m))
    → Safely (r >>= next)
bind-Safely r next (m, e, h) rest = rw e (rest m h)

pub if-Safely :
    {A : Type 0} (b : Bool) (r r' : Outcome (Monc A))
    → Safely r
    → Safely r'
    → Safely (if b then r else r')
if-Safely true r r' h h' = h
if-Safely false r r' h h' = h'

pub if-IsSafe :
    {A : Type 0} (b : Bool) (m m' : Monc A) → IsSafe m → IsSafe m' → IsSafe (if b then m else m')
if-IsSafe true m m' h h' = h
if-IsSafe false m m' h h' = h'

-- A last step that cannot fail.
pub last-Safely :
    {A : Type 0} (r : Outcome (Monc A)) (f : Monc A → Monc A)
    → Safely r
    → ((m : Monc A) → IsSafe m → IsSafe (f m))
    → Safely (r >>= λ m. ok (f m))
last-Safely r f (m, e, h) rest = rw e (f m, refl, rest m h)

pub backoff_bounds :
    (had : Bool) (mult : ℕ)
    → 1 ≤ mult
    → mult ≤ max_mult
    → (1 ≤ backoff had mult) × (backoff had mult ≤ max_mult)
unfolding backoff
backoff_bounds true mult low high = (ground arith, ground arith)
backoff_bounds false mult low high = (low, high)

items_len-append :
    (suffix : ℕ) (xs ys : List (SubKind × Sub))
    → items_len suffix (xs ++ ys) + 4 ≡ items_len suffix xs + items_len suffix ys
items_len-append suffix [] ys = omega arith
items_len-append suffix ((kind, sub) ∷ xs) ys = omega (arith, items_len-append suffix xs ys)

items_len-wanted :
    (suffix : ℕ) (kind : SubKind) (sub : Sub)
    → items_len suffix (wanted kind sub) ≤ 17 + name_len suffix kind
items_len-wanted suffix kind sub = elim (Bool-cases sub.want) [
  | inl p ↦ rw p (omega arith)
  | inr p ↦ rw p (omega arith)
]

items_len-wanted_subs :
    (suffix : ℕ) (subs : Subs) → suffix ≤ 12 → items_len suffix (wanted_subs subs) ≤ subscribe_room
unfolding wanted_subs
items_len-wanted_subs suffix subs h = omega (
  arith,
  items_len-append suffix (wanted monmap subs.of_monmap) (
      wanted osdmap subs.of_osdmap ++ (wanted fsmap subs.of_fsmap ++ wanted mdsmap subs.of_mdsmap)),
  items_len-append suffix (wanted osdmap subs.of_osdmap)
      (wanted fsmap subs.of_fsmap ++ wanted mdsmap subs.of_mdsmap),
  items_len-append suffix (wanted fsmap subs.of_fsmap) (wanted mdsmap subs.of_mdsmap),
  items_len-wanted suffix monmap subs.of_monmap,
  items_len-wanted suffix osdmap subs.of_osdmap,
  items_len-wanted suffix fsmap subs.of_fsmap,
  items_len-wanted suffix mdsmap subs.of_mdsmap,
)

wanted_subs-some : (subs : Subs) → subs.of_monmap.want ≡ true → is_empty (wanted_subs subs) ≡ false
unfolding wanted_subs
wanted_subs-some subs h = rw h refl

module _ {A : Type 0} (ops : Auth A) (cfg : Config)
    (greets : (a : A) → (n : ℕ) × (a' : A) × (ops.build_hello a ≡ (pos (suc n), a')))
    (short : cfg.suffix ≤ 12) where
  pub send_subscribe-Safely :
      (now : Now) (m : Monc A) → IsSafe m → Safely (send_subscribe cfg now m)
  unfolding send_subscribe
  send_subscribe-Safely now m h = rw (h.session, wanted_subs-some m.subs h.wants, fits) (_, refl, h)
    where
      fits : ltb subscribe_room (items_len cfg.suffix (wanted_subs m.subs)) ≡ false
      fits = ground (arith, items_len-wanted_subs cfg.suffix m.subs short)

  hello-Safely :
      (answer : ℤ × A) (n : ℕ) (a : A) (m : Monc A)
      → answer ≡ (pos (suc n), a)
      → IsSafe m
      → Safely (hello answer m)
  hello-Safely answer n a m e h = rw e (_, refl, h)

  -- A state from which a session can be opened.
  abbrev pub IsReady : Monc A → Type 0
  IsReady m = HasSession m.hunt_mult m.num_mon (pos 0) m.subs.of_monmap

  pub open_session-Safely :
      (now : Now) (m : Monc A) → IsReady m → Safely (open_session ops cfg now m)
  unfolding open_session
  open_session-Safely now m h = elim (Bool-cases cfg.msgr2) [
    | inl p ↦ rw (some, p) (_, refl, safe)
    | inr p ↦
        let (n, a, e) = greets m.auth in
        rw (some, p) (hello-Safely (ops.build_hello m.auth) n a opening e safe)
  ]
    where
      opening : Monc A
      opening = hunt now (pick_mon m.cur_mon m.num_mon now.random) m

      some : m.num_mon == 0 ≡ false
      some = ground (arith, h.some_mon)

      safe : IsSafe opening
      safe =
          let bounds = backoff_bounds m.had_a_connection m.hunt_mult h.mult_low h.mult_high in
          record {
            mult_low = bounds.0;
            mult_high = bounds.1;
            some_mon = h.some_mon;
            session = refl;
            wants = h.wants;
            continuous = h.continuous;
          }

  ready : (m : Monc A) → IsSafe m → IsReady m
  ready m h = record {
    mult_low = h.mult_low;
    mult_high = h.mult_high;
    some_mon = h.some_mon;
    session = refl;
    wants = h.wants;
    continuous = h.continuous;
  }

  pub reopen_session-Safely :
      (now : Now) (m : Monc A) → IsSafe m → Safely (reopen_session ops cfg now m)
  unfolding reopen_session close_session
  reopen_session-Safely now m h = open_session-Safely now (close_session ops m) (ready m h)

  pub un_backoff-IsSafe : (m : Monc A) → IsSafe m → IsSafe (un_backoff m)
  unfolding un_backoff
  un_backoff-IsSafe m h = record {
    mult_low = ground arith;
    mult_high = ground (arith, h.mult_high);
    some_mon = h.some_mon;
    session = h.session;
    wants = h.wants;
    continuous = h.continuous;
  }

  pub schedule_delayed-IsSafe : (m : Monc A) → IsSafe m → IsSafe (schedule_delayed cfg m)
  unfolding schedule_delayed
  schedule_delayed-IsSafe m h = h

  sent_if_any-IsSafe : (answer : ℤ × A) (m : Monc A) → IsSafe m → IsSafe (sent_if_any answer m).1
  sent_if_any-IsSafe (pos (suc n), a) m h = h
  sent_if_any-IsSafe (pos zero, a) m h = h
  sent_if_any-IsSafe (negsuc n, a) m h = h

  pub validate_auth-IsSafe : (m : Monc A) → IsSafe m → IsSafe (validate_auth ops m).1
  unfolding validate_auth
  validate_auth-IsSafe m h =
      choice m.pending_auth (pos 0, m) (sent_if_any (ops.build_auth m.auth) m) h
        (sent_if_any-IsSafe (ops.build_auth m.auth) m h)
    where
      choice :
          (b : Bool) (x y : ℤ × Monc A) → IsSafe x.1 → IsSafe y.1 → IsSafe (if b then x else y).1
      choice true x y hx hy = hx
      choice false x y hx hy = hy

  pub finish_hunting-IsSafe : (m : Monc A) → IsSafe m → IsSafe (finish_hunting cfg m)
  unfolding finish_hunting
  finish_hunting-IsSafe m h =
      if-IsSafe m.hunting
        (schedule_delayed cfg (un_backoff (record m { hunting = false; had_a_connection = true })))
        m
        (schedule_delayed-IsSafe
          (un_backoff (record m { hunting = false; had_a_connection = true }))
          (un_backoff-IsSafe (record m { hunting = false; had_a_connection = true }) h))
        h

  started-Safely :
      (now : Now) (was_authed : Bool) (m : Monc A)
      → IsSafe m
      → Safely (started ops cfg now was_authed m)
  started-Safely now was_authed m h =
      if-Safely (not was_authed && ops.is_authenticated m.auth)
        (send_subscribe cfg now m >>= λ m'. ok (emit resent_requests m')) (ok m)
        (last-Safely (send_subscribe cfg now m) (emit resent_requests)
          (send_subscribe-Safely now m h) (λ m' h'. h'))
        (m, refl, h)

  pub finish_auth-Safely :
      (now : Now) (err : ℤ) (was_authed : Bool) (m : Monc A)
      → IsSafe m
      → Safely (finish_auth ops cfg now err was_authed m)
  finish_auth-Safely now (pos zero) was_authed m h =
      started-Safely now was_authed (record m { pending_auth = false }) h
  finish_auth-Safely now (pos (suc n)) was_authed m h = (_, refl, h)
  finish_auth-Safely now (negsuc n) was_authed m h = (_, refl, h)
