-- ===== src/Osdmap/Seeds.antt =====
-- From an object's name to its placement group, and to the seed of its placement.
pub mod StableMod
pub mod Split
use xcp_ng_ceph_rbd.Base.{
  ℕ, zero, suc, ◌+◌, ◌-◌, ◌*◌, ◌/◌, ◌^◌, ◌≤◌, ◌<◌, Bool, true, false, ◌||◌, List, [], ◌∷◌, ◌++◌,
  Option, none, some, bit_and, bit_or, ltb, leb, ◌==◌, if◌then◌else◌, u32,
}
use xcp_ng_ceph_rbd.Crush.Hash.{hash32_2}
use xcp_ng_ceph_rbd.StrHash.{str_hash}
use xcp_ng_ceph_rbd.Osdmap.{Pg, Pool}

-- calc_bits_of; the fuel `t` is enough, since halving a number makes it smaller.
pub bits_from : ℕ → ℕ → ℕ
bits_from zero t = 0
bits_from (suc fuel) t = let more = bits_from fuel (t / 2) in if t == 0 then 0 else more + 1

pub calc_bits_of : ℕ → ℕ
calc_bits_of t = bits_from t t

-- One of the masks of calc_pg_masks.
pub pg_mask : ℕ → ℕ
pg_mask pg_num = 2 ^ calc_bits_of (pg_num - 1) - 1

pub calc_pg_masks : Pool → Pool
calc_pg_masks pi = record pi { pg_num_mask = pg_mask pi.pg_num; pgp_num_mask = pg_mask pi.pgp_num }

pub stable_mod : ℕ → ℕ → ℕ → ℕ
stable_mod x b bmask = if ltb (bit_and x bmask) b then bit_and x bmask else bit_and x (bmask / 2)

-- __ceph_object_locator_to_pg: the namespace, if there is one, stands in front of the name, with
-- the character 037 between.
abbrev pub hashed_name : Option (List ℕ) → List ℕ → List ℕ
hashed_name none name = name
hashed_name (some ns) name = ns ++ (31 ∷ name)

pub object_locator_to_pg : Pool → Option (List ℕ) → List ℕ → Pg
object_locator_to_pg pi pool_ns name = record {
  pool = pi.id;
  seed = str_hash pi.object_hash (hashed_name pool_ns name);
}

pub raw_pg_to_pg : Pool → Pg → Pg
raw_pg_to_pg pi raw = record {
  pool = raw.pool;
  seed = stable_mod raw.seed pi.pg_num pi.pg_num_mask;
}

pub raw_pg_to_pps : Pool → Pg → ℕ
raw_pg_to_pps pi raw =
    let ps = stable_mod raw.seed pi.pgp_num pi.pgp_num_mask in
    if pi.hashpspool then hash32_2 0 ps (u32 raw.pool) else u32 (ps + u32 raw.pool)

-- ceph_pg_is_split: the loop from `n` on. `none` means that the fuel ran out.
pub is_split_from : ℕ → (seed old_pg_num new_pg_num old_bits n : ℕ) → Option Bool
is_split_from zero seed old_pg_num new_pg_num old_bits n = none
is_split_from (suc fuel) seed old_pg_num new_pg_num old_bits n =
    let s = u32 (bit_or (n * 2 ^ (old_bits - 1)) seed) in
    let further = is_split_from fuel seed old_pg_num new_pg_num old_bits (n + 1) in
    if ltb s old_pg_num || s == seed
    then further
    else if leb new_pg_num s
    then some false
    else if stable_mod s old_pg_num (2 ^ old_bits - 1) == seed
    then some true
    else further

pub pg_is_split : Pg → (old_pg_num new_pg_num : ℕ) → Option Bool
pg_is_split pgid old_pg_num new_pg_num =
    if leb new_pg_num old_pg_num
    then some false
    else is_split_from (new_pg_num + 1) pgid.seed old_pg_num new_pg_num (calc_bits_of old_pg_num) 1
