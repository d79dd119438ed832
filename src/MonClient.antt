-- ===== src/MonClient.antt =====
-- kernel-modules/src/libceph/mon_client.c: the session with a monitor, and the subscriptions to maps.
-- The authentication (auth.c) is an interface on a state of its own; what the connection is asked to
-- do is logged, the last thing first. A BUG_ON that fires is a fault.
pub mod Pick
pub mod Wants
pub mod Session
mod Tests
use xcp_ng_ceph_rbd.Base.{
  ℕ, zero, suc, ◌+◌, ◌-◌, ◌*◌, ◌/◌, ◌%◌, ◌^◌, ◌&&◌, Bool, true, false, not, List, [], ◌∷◌, ◌++◌,
  Option, none, some, bit_or, ltb, leb, ◌==◌, if◌then◌else◌, ℤ, pos, negsuc, u32,
}
use xcp_ng_ceph_rbd.Crush.Outcome.{Outcome, ok, fault, ◌>>=◌}

-- CEPH_SUB_*.
pub data SubKind : Type 0 where
  monmap osdmap fsmap mdsmap : SubKind

-- An entry of `subs`: the item's start and flags, CEPH_SUBSCRIBE_ONETIME or none, and its state.
pub record Sub : Type 0 where
  pub want : Bool
  pub start : ℕ
  pub onetime : Bool
  pub have : ℕ

pub record Subs : Type 0 where
  pub of_monmap : Sub
  pub of_osdmap : Sub
  pub of_fsmap : Sub
  pub of_mdsmap : Sub

abbrev pub get_sub : Subs → SubKind → Sub
get_sub subs monmap = subs.of_monmap
get_sub subs osdmap = subs.of_osdmap
get_sub subs fsmap = subs.of_fsmap
get_sub subs mdsmap = subs.of_mdsmap

abbrev pub set_sub : Subs → SubKind → Sub → Subs
set_sub subs monmap sub = record subs { of_monmap = sub }
set_sub subs osdmap sub = record subs { of_osdmap = sub }
set_sub subs fsmap sub = record subs { of_fsmap = sub }
set_sub subs mdsmap sub = record subs { of_mdsmap = sub }

-- What the client asks of its connection and of the timer.
pub data Effect : Type 0 where
  closed keepalive resent_requests : Effect
  opened : (mon : ℕ) → Effect
  sent_auth : (len : ℕ) → Effect
  sent_subscribe : List (SubKind × Sub) → Effect
  scheduled : (delay : ℕ) → Effect

-- The calls of auth.c. A result below 0 is an error, one above 0 the length of a message.
pub record Auth (A : Type 0) : Type 0 where
  pub is_authenticated : A → Bool
  pub reset : A → A
  pub build_hello : A → ℤ × A
  pub build_auth : A → ℤ × A
  pub handle_reply : List ℕ → A → ℤ × A
  pub handle_reply_done : List ℕ → A → ℤ × A
  pub handle_bad_method : A → A

-- msecs_to_jiffies and HZ, the choice of protocol, and the characters that fs_cluster_id adds to the
-- name of the MDS map.
pub record Config : Type 0 where
  pub msgr2 : Bool
  pub hz : ℕ
  pub jiffies_of : ℕ → ℕ
  pub suffix : ℕ

-- What an event finds outside: the clock, a random number, and the state of the connection.
pub record Now : Type 0 where
  pub jiffies : ℕ
  pub random : ℕ
  pub keepalive_expired : Bool
  pub stateful_sub : Bool

-- struct ceph_mon_client, and the auth_err of its client.
pub record Monc (A : Type 0) : Type 0 where
  pub auth : A
  pub num_mon : ℕ
  pub cur_mon : ℤ
  pub hunting : Bool
  pub had_a_connection : Bool
  pub hunt_mult : ℕ
  pub pending_auth : Bool
  pub sub_renew_after : ℕ
  pub sub_renew_sent : ℕ
  pub subs : Subs
  pub auth_err : ℤ
  pub log : List Effect

abbrev pub max_mult : ℕ
max_mult = 10

abbrev pub emit : {A : Type 0} → Effect → Monc A → Monc A
emit e m = record m { log = e ∷ m.log }

-- ceph_monc_init.
abbrev pub no_sub : Sub
no_sub = record { want = false; start = 0; onetime = false; have = 0 }

abbrev pub init : {A : Type 0} → A → (num_mon : ℕ) → Monc A
init a num_mon = record {
  auth = a;
  num_mon = num_mon;
  cur_mon = negsuc 0;
  hunting = false;
  had_a_connection = false;
  hunt_mult = 1;
  pending_auth = false;
  sub_renew_after = 0;
  sub_renew_sent = 0;
  subs = record { of_monmap = no_sub; of_osdmap = no_sub; of_fsmap = no_sub; of_mdsmap = no_sub };
  auth_err = pos 0;
  log = [];
}

-- pick_new_mon: another monitor than the current one, if that is still in the map.
abbrev pub skip : ℕ → ℕ → ℕ
skip o n = if leb o n then n + 1 else n

pub pick_mon : (cur_mon : ℤ) (num_mon random : ℕ) → ℕ
pick_mon (negsuc c) num_mon random = if num_mon == 1 then 0 else random % num_mon
pick_mon (pos c) num_mon random =
    if num_mon == 1
    then 0
    else if ltb c num_mon
    then skip c (random % (num_mon - 1))
    else random % num_mon

-- __ceph_monc_want_map and __ceph_monc_got_map on an entry.
pub want_map : Sub → (epoch : ℕ) → (continuous : Bool) → Bool × Sub
want_map sub epoch continuous =
    if sub.want && ((sub.start == epoch) && (if sub.onetime then not continuous else continuous))
    then (false, sub)
    else (true, record sub { want = true; start = epoch; onetime = not continuous })

pub got_map : Sub → (epoch : ℕ) → Sub
got_map sub epoch =
    if sub.want
    then if sub.onetime
      then record sub { want = false; have = epoch }
      else record sub { start = u32 (epoch + 1); have = epoch }
    else record sub { have = epoch }

-- The entries that __send_subscribe encodes, and the bytes they take in its message.
abbrev pub wanted : SubKind → Sub → List (SubKind × Sub)
wanted kind sub = if sub.want then (kind, sub) ∷ [] else []

pub wanted_subs : Subs → List (SubKind × Sub)
wanted_subs subs =
    wanted monmap subs.of_monmap
    ++ (wanted osdmap subs.of_osdmap
        ++ (wanted fsmap subs.of_fsmap ++ wanted mdsmap subs.of_mdsmap))

abbrev pub name_len : (suffix : ℕ) → SubKind → ℕ
name_len suffix monmap = 6
name_len suffix osdmap = 6
name_len suffix fsmap = 10
name_len suffix mdsmap = 6 + suffix

abbrev pub items_len : (suffix : ℕ) → List (SubKind × Sub) → ℕ
items_len suffix [] = 4
items_len suffix ((kind, sub) ∷ rest) = 4 + name_len suffix kind + 9 + items_len suffix rest

-- `front_alloc_len` of m_subscribe.
abbrev pub subscribe_room : ℕ
subscribe_room = 128

abbrev pub is_set : ℤ → Bool
is_set (pos n) = true
is_set (negsuc n) = false

abbrev pub is_empty : List (SubKind × Sub) → Bool
is_empty [] = true
is_empty (item ∷ rest) = false

-- time_after_eq on unsigned longs.
abbrev pub time_after_eq : ℕ → ℕ → Bool
time_after_eq a b = ltb ((a + 2 ^ 64 - b) % 2 ^ 64) (2 ^ 63)
