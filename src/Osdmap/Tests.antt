-- ===== src/Osdmap/Tests.antt =====
-- The placement code of kernel-modules/src/libceph/osdmap.c run on a map of three OSDs.
use xcp_ng_ceph_rbd.Base.{
  ◌==◌, if◌then◌else◌, ℕ, ◌-◌, ◌^◌, ◌≤◌, get_elem?, ◌≡◌, ◌⊎◌, ◌↔◌, Bool, true, false, List, [], ◌∷◌,
  none, some, ℤ, pos, arith, refl,
}
use xcp_ng_ceph_rbd.Crush.Outcome.{ok}
use xcp_ng_ceph_rbd.Crush.Map.{CrushMap}
use xcp_ng_ceph_rbd.Osdmap.{Pg, OsdMap, Osds, ec, osd_is_up}
use xcp_ng_ceph_rbd.Osdmap.Seeds.{stable_mod, pg_mask, calc_bits_of, pg_is_split}
use xcp_ng_ceph_rbd.Osdmap.Seeds.StableMod.{stable_mod-suc}
use xcp_ng_ceph_rbd.Osdmap.Seeds.Split.{Child, pg_is_split_iff}
use xcp_ng_ceph_rbd.Osdmap.Placement.{raw_to_up_acting, osds_valid}
use xcp_ng_ceph_rbd.Osdmap.Interval.{
  Interval, primary_shard, osds_changed, is_new_interval, osds_changed_iff, Unchanged, IsSplit,
  is_new_interval_iff,
}
use xcp_ng_ceph_rbd.Osdmap.Interval.Shard.{primary_shard_lem}
use xcp_ng_ceph_rbd.Osdmap.Placement.Valid.{UpSet, IsUp}
use xcp_ng_ceph_rbd.Osdmap.Placement.Acting.{ActingSet, raw_to_up_acting-valid}

abbrev no_crush : CrushMap
no_crush = record {
  buckets = [];
  rules = [];
  max_devices = 0;
  choose_local_tries = 0;
  choose_local_fallback_tries = 0;
  choose_total_tries = 50;
  chooseleaf_descend_once = 1;
  chooseleaf_vary_r = 1;
  chooseleaf_stable = 1;
}

-- OSD 1 is down; OSD 0 should not be a primary; every group has OSDs 1 and 2 for a time.
abbrev three : OsdMap
three = record {
  max_osd = 3;
  osd_state = λ osd. if osd == 1 then 1 else 3;
  osd_weight = 0x10000 ∷ 0x10000 ∷ 0x8000 ∷ [];
  osd_primary_affinity = some (0 ∷ 0x10000 ∷ 0x10000 ∷ []);
  pg_temp = λ pg. some (pos 1 ∷ pos 2 ∷ []);
  primary_temp = λ pg. none;
  pg_upmap = λ pg. none;
  pg_upmap_items = λ pg. none;
  crush = no_crush;
  choose_args = λ pool. none;
}

abbrev group : Pg
group = record { pool = 1; seed = 5 }

abbrev raw : List ℤ
raw = pos 0 ∷ pos 1 ∷ pos 2 ∷ []

raw_to_up_acting_example :
    (up : Osds) × (acting : Osds) × (raw_to_up_acting three ec group 77 raw ≡ ok (up, acting))
    × UpSet three ec up
    × (osds_valid up ≡ true)
    × ActingSet three ec none acting
    × ((osd : ℤ) → (osd_is_up three osd ≡ true) ↔ IsUp three osd)
raw_to_up_acting_example = raw_to_up_acting-valid three ec group 77 raw (omega arith) (omega arith)

stable_mod-suc_example :
    (stable_mod 13 13 (pg_mask 13) ≡ stable_mod 13 12 (pg_mask 12))
    ⊎ (stable_mod 13 13 (pg_mask 13) ≡ 12)
stable_mod-suc_example = stable_mod-suc 13 12 (omega arith)

pg_is_split_iff_example :
    (b : Bool) × (pg_is_split group 12 24 ≡ some b)
    × ((b ≡ true) ↔ ((s : ℕ) × Child (2 ^ calc_bits_of 12 - 1) 5 12 24 s))
pg_is_split_iff_example = pg_is_split_iff group 12 24 (omega arith) (omega arith)

abbrev two_up : Osds
two_up = record { osds = pos 0 ∷ pos 2 ∷ []; primary = pos 2 }

abbrev other_primary : Osds
other_primary = record { osds = pos 0 ∷ pos 2 ∷ []; primary = pos 0 }

osds_changed_iff_example : (osds_changed two_up other_primary true ≡ false) ↔ (
    (two_up.osds ≡ other_primary.osds)
    × ((two_up.osds ≡ []) ⊎ (two_up.primary ≡ other_primary.primary)))
osds_changed_iff_example = osds_changed_iff two_up other_primary

abbrev second : ℕ
second = 1

-- Before and after the pool grows from 12 groups to 24.
abbrev before : Interval
before = record {
  acting = two_up;
  up = two_up;
  size = 2;
  min_size = 1;
  pg_num = 12;
  sort_bitwise = true;
  recovery_deletes = true;
}

abbrev after : Interval
after = record before { pg_num = 24 }

is_new_interval_iff_example :
    (b : Bool) × (is_new_interval before after group ≡ some b)
    × ((b ≡ false) ↔ (Unchanged before after × (IsSplit group 12 24 → ⊥)))
is_new_interval_iff_example = is_new_interval_iff before after group (omega arith) (omega arith)

primary_shard_lem_example :
    (k : ℕ) × (primary_shard ec two_up ≡ some (pos k))
    × (k ≤ second)
    × (get_elem? two_up.osds k ≡ some two_up.primary)
primary_shard_lem_example = primary_shard_lem two_up second refl
