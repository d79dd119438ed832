-- ===== src/Osdmap.antt =====
-- kernel-modules/src/libceph/osdmap.c: the map of the cluster's OSDs and pools.
-- The trees of the map are functions, and so is osd_state, which is read only behind a test that the
-- number is below `max_osd`, its length, as osdmap_set_max_osd makes it. The other arrays are lists, of
-- which a read outside is a fault.
pub mod Seeds
pub mod Placement
pub mod Interval
mod Tests
use xcp_ng_ceph_rbd.Base.{
  ℕ, ◌+◌, ◌/◌, ◌%◌, ◌&&◌, Bool, true, false, List, [], ◌∷◌, Option, none, some, get_elem?, ltb, leb,
  ◌==◌, if◌then◌else◌, ℤ, pos, negsuc, length,
}
use xcp_ng_ceph_rbd.Crush.Outcome.{Outcome, ok, fault, must, ◌>>=◌}
use xcp_ng_ceph_rbd.Crush.Map.{CrushMap, ChooseArg}

-- struct ceph_pg.
pub record Pg : Type 0 where
  pub pool : ℕ
  pub seed : ℕ

pub data PoolType : Type 0 where
  rep ec : PoolType

-- struct ceph_pg_pool_info, as far as placement reads it. The masks are those of `calc_pg_masks`.
pub record Pool : Type 0 where
  pub id : ℕ
  pub type : PoolType
  pub size : ℕ
  pub crush_ruleset : ℕ
  pub object_hash : ℕ
  pub pg_num : ℕ
  pub pgp_num : ℕ
  pub pg_num_mask : ℕ
  pub pgp_num_mask : ℕ
  pub hashpspool : Bool

-- struct ceph_osdmap, as far as placement reads it.
pub record OsdMap : Type 0 where
  pub max_osd : ℕ
  pub osd_state : ℕ → ℕ
  pub osd_weight : List ℕ
  pub osd_primary_affinity : Option (List ℕ)
  pub pg_temp : Pg → Option (List ℤ)
  pub primary_temp : Pg → Option ℤ
  pub pg_upmap : Pg → Option (List ℤ)
  pub pg_upmap_items : Pg → Option (List (ℤ × ℤ))
  pub crush : CrushMap
  pub choose_args : ℤ → Option (List ChooseArg)

-- A set of OSDs; no primary is -1.
pub record Osds : Type 0 where
  pub osds : List ℤ
  pub primary : ℤ

abbrev pub no_osd : ℤ
no_osd = negsuc 0

-- CEPH_POOL_TYPE_REP and CEPH_POOL_TYPE_EC, in CRUSH's numbers.
abbrev pub type_number : PoolType → ℕ
type_number rep = 1
type_number ec = 3

-- ceph_can_shift_osds: the places of an erasure-coded pool have a meaning.
abbrev pub can_shift_osds : PoolType → Bool
can_shift_osds rep = true
can_shift_osds ec = false

-- ceph_osd_exists and ceph_osd_is_up: bits 0 and 1 of the state.
unfoldable pub osd_exists : OsdMap → ℤ → Bool
osd_exists m (negsuc n) = false
osd_exists m (pos n) = ltb n m.max_osd && (m.osd_state n % 2 == 1)

abbrev pub has_up_bit : OsdMap → ℤ → Bool
has_up_bit m (negsuc n) = false
has_up_bit m (pos n) = m.osd_state n / 2 % 2 == 1

unfoldable pub osd_is_up : OsdMap → ℤ → Bool
unfolding osd_exists
osd_is_up m osd = osd_exists m osd && has_up_bit m osd

-- A read of an array of the map at an OSD's number.
abbrev pub at_osd : List ℕ → ℤ → Outcome ℕ
at_osd xs (negsuc n) = fault
at_osd xs (pos n) = must (get_elem? xs n)

-- struct ceph_osds has room for CEPH_PG_MAX_SIZE OSDs; a write behind that is a fault.
abbrev pub max_size : ℕ
max_size = 32

abbrev pub in_osds : List ℤ → Outcome (List ℤ)
in_osds osds = if leb (length osds) max_size then ok osds else fault
