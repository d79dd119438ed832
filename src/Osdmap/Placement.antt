-- ===== src/Osdmap/Placement.antt =====
-- The OSDs of a placement group: CRUSH's answer, the exceptions that the monitors made, the OSDs that
-- are up, and the primary among them.
pub mod Valid
pub mod Affinity
pub mod Acting
use xcp_ng_ceph_rbd.Base.{
  ℕ, zero, suc, ◌+◌, ◌-◌, ◌*◌, ◌/◌, ◌^◌, ◌<◌, ◌&&◌, ◌||◌, not, Bool, true, false, List, [], ◌∷◌,
  ◌++◌, Option, none, some, length, get_elem?, set, take, drop, ltb, leb, ◌==◌, if◌then◌else◌, ℤ,
  pos, negsuc, eqb_ℤ, to_u32,
}
use xcp_ng_ceph_rbd.Crush.Outcome.{Outcome, ok, fault, must, ◌>>=◌}
use xcp_ng_ceph_rbd.Crush.Hash.{hash32_2}
use xcp_ng_ceph_rbd.Crush.Map.{Work, find_rule}
use xcp_ng_ceph_rbd.Crush.Indep.{item_none}
use xcp_ng_ceph_rbd.Crush.Rule.{do_rule}
use xcp_ng_ceph_rbd.Osdmap.{
  Pg, Pool, PoolType, rep, ec, type_number, OsdMap, Osds, no_osd, can_shift_osds, osd_exists,
  osd_is_up, at_osd, max_size, in_osds,
}
use xcp_ng_ceph_rbd.Osdmap.Seeds.{raw_pg_to_pg, raw_pg_to_pps}

-- The shift to the left of remove_nonexistent_osds and raw_to_up_osds: the OSDs that pass a test.
pub shift_left : (ℤ → Bool) → List ℤ → List ℤ
shift_left keep [] = []
shift_left keep (osd ∷ rest) =
    let further = shift_left keep rest in if keep osd then osd ∷ further else further

-- The others become CRUSH_ITEM_NONE.
pub blank_out : (ℤ → Bool) → List ℤ → List ℤ
blank_out keep [] = []
blank_out keep (osd ∷ rest) = (if keep osd then osd else item_none) ∷ blank_out keep rest

pub remove_nonexistent_osds : OsdMap → PoolType → List ℤ → List ℤ
remove_nonexistent_osds m rep osds = shift_left (osd_exists m) osds
remove_nonexistent_osds m ec osds = blank_out (osd_exists m) osds

-- do_crush, with choose arguments of the pool or else the default ones.
pub do_crush : OsdMap → Work → (fuel ruleno x result_max pool : ℕ) → Outcome (List ℤ)
do_crush m work fuel ruleno x result_max pool =
    do_rule m.crush
      (record {
        x = x;
        result_max = result_max;
        weight = m.osd_weight;
        choose_args = elim (m.choose_args (pos pool)) [
          | none ↦ m.choose_args (negsuc 0)
          | some args ↦ some args
        ];
        fuel = fuel;
      })
      ruleno work

-- pg_to_raw_osds: no rule, or a pool that is too wide, gives an empty set.
pub pg_to_raw_osds : OsdMap → Work → (fuel : ℕ) → Pool → (pps : ℕ) → Outcome (List ℤ)
pg_to_raw_osds m work fuel pi pps =
    elim (find_rule m.crush pi.crush_ruleset (type_number pi.type) pi.size) [
      | negsuc n ↦ ok []
      | pos ruleno ↦
          if ltb max_size pi.size
          then ok []
          else (do_crush m work fuel ruleno pps pi.size pi.id >>= λ raw.
              ok (remove_nonexistent_osds m pi.type raw))
    ]

-- `osd != NONE && osd < max_osd && osd_weight[osd] == 0`. As `max_osd` is a u32, so is the comparison.
pub is_marked_out : OsdMap → ℤ → Outcome Bool
is_marked_out m osd =
    if not (eqb_ℤ osd item_none) && ltb (to_u32 osd) m.max_osd
    then (at_osd m.osd_weight osd >>= λ w. ok (w == 0))
    else ok false

pub any_marked_out : OsdMap → List ℤ → Outcome Bool
any_marked_out m [] = ok false
any_marked_out m (osd ∷ rest) =
    let further = any_marked_out m rest in
    is_marked_out m osd >>= λ out. if out then ok true else further

-- The scan for one replacement, from place `j` on: whether `to` is there already, and where `from`
-- stands.
pub find_place :
    OsdMap → (from to : ℤ) → List ℤ → (j : ℕ) → (place : Option ℕ) → Outcome (Bool × Option ℕ)
find_place m from to [] j place = ok (false, place)
find_place m from to (osd ∷ rest) j none =
    let found = find_place m from to rest (j + 1) (some j) in
    let further = find_place m from to rest (j + 1) none in
    if eqb_ℤ osd to
    then ok (true, none)
    else if eqb_ℤ osd from
    then (is_marked_out m to >>= λ out. if out then further else found)
    else further
find_place m from to (osd ∷ rest) j (some place) =
    let further = find_place m from to rest (j + 1) (some place) in
    if eqb_ℤ osd to then ok (true, some place) else further

abbrev pub replaced : List ℤ → ℤ → Bool × Option ℕ → List ℤ
replaced raw to (true, place) = raw
replaced raw to (false, none) = raw
replaced raw to (false, some j) = set raw j to

pub apply_items : OsdMap → List (ℤ × ℤ) → List ℤ → Outcome (List ℤ)
apply_items m [] raw = ok raw
apply_items m ((from, to) ∷ rest) raw =
    find_place m from to raw 0 none >>= λ found. apply_items m rest (replaced raw to found)

-- apply_upmap: an explicit mapping to an OSD that is marked out is ignored, and the items with it.
pub apply_upmap_items : OsdMap → Pg → List ℤ → Outcome (List ℤ)
apply_upmap_items m pgid raw = elim (m.pg_upmap_items pgid) [
  | none ↦ ok raw
  | some items ↦ apply_items m items raw
]

pub apply_upmap : OsdMap → Pg → List ℤ → Outcome (List ℤ)
unfolding apply_upmap_items
apply_upmap m pgid raw = elim (m.pg_upmap pgid) [
  | none ↦ apply_upmap_items m pgid raw
  | some osds ↦
      (any_marked_out m osds >>= λ out.
      if out then ok raw else (in_osds osds >>= λ raw'. apply_upmap_items m pgid raw'))
]

-- raw_to_up_osds. In place, the loop runs from the last place to the first, so the primary is the
-- first OSD that is up.
pub blank_down : OsdMap → List ℤ → List ℤ × ℤ
blank_down m [] = ([], no_osd)
blank_down m (osd ∷ rest) =
    let (further, primary) = blank_down m rest in
    if osd_is_up m osd then (osd ∷ further, osd) else (item_none ∷ further, primary)

abbrev pub first_of : List ℤ → ℤ
first_of [] = no_osd
first_of (osd ∷ rest) = osd

pub raw_to_up_osds : OsdMap → PoolType → List ℤ → Osds
raw_to_up_osds m rep raw =
    let osds = shift_left (osd_is_up m) raw in record { osds = osds; primary = first_of osds }
raw_to_up_osds m ec raw =
    let (osds, primary) = blank_down m raw in record { osds = osds; primary = primary }

-- CEPH_OSD_MAX_PRIMARY_AFFINITY, which is the default too.
abbrev pub max_affinity : ℕ
max_affinity = 0x10000

-- Does one of the OSDs have another affinity than the default?
pub any_affinity : List ℕ → List ℤ → Outcome Bool
any_affinity affinity [] = ok false
any_affinity affinity (osd ∷ rest) =
    let further = any_affinity affinity rest in
    if eqb_ℤ osd item_none
    then further
    else (at_osd affinity osd >>= λ aff. if aff == max_affinity then further else ok true)

-- The place of the primary, from place `i` on; `place` is the fallback, the first that was rejected.
pub pick_primary : List ℕ → (pps : ℕ) → List ℤ → (i : ℕ) → Option ℕ → Outcome (Option ℕ)
pick_primary affinity pps [] i place = ok place
pick_primary affinity pps (osd ∷ rest) i place =
    let further = pick_primary affinity pps rest (i + 1) place in
    let fallback =
      pick_primary affinity pps rest (i + 1) (elim place [ none ↦ some i | some p ↦ some p ]) in
    if eqb_ℤ osd item_none
    then further
    else (at_osd affinity osd >>= λ aff.
        if ltb aff max_affinity && leb aff (hash32_2 0 pps (to_u32 osd) / 2 ^ 16)
        then fallback
        else ok (some i))

-- The OSD at `place` becomes the primary, and moves to the front if places have no meaning.
abbrev pub move_front : PoolType → ℕ → ℤ → List ℤ → List ℤ
move_front ec place osd osds = osds
move_front rep place osd osds = osd ∷ (take place osds ++ drop (place + 1) osds)

pub make_primary : PoolType → Option ℕ → Osds → Outcome Osds
make_primary type none up = ok up
make_primary type (some place) up = must (get_elem? up.osds place) >>= λ osd.
    ok (record { osds = move_front type place osd up.osds; primary = osd })

pub apply_affinity : Option (List ℕ) → PoolType → (pps : ℕ) → Osds → Outcome Osds
apply_affinity none type pps up = ok up
apply_affinity (some affinity) type pps up = any_affinity affinity up.osds >>= λ any.
    if any
    then (pick_primary affinity pps up.osds 0 none >>= λ place. make_primary type place up)
    else ok up

pub apply_primary_affinity : OsdMap → PoolType → (pps : ℕ) → Osds → Outcome Osds
unfolding apply_affinity
apply_primary_affinity m type pps up = apply_affinity m.osd_primary_affinity type pps up

-- get_temp_osds.
abbrev pub temp_list : OsdMap → PoolType → List ℤ → List ℤ
temp_list m rep osds = shift_left (osd_is_up m) osds
temp_list m ec osds = blank_out (osd_is_up m) osds

pub first_some : List ℤ → ℤ
first_some [] = no_osd
first_some (osd ∷ rest) =
    let further = first_some rest in if eqb_ℤ osd item_none then further else osd

abbrev pub with_primary : Option ℤ → Osds → Osds
with_primary none temp = temp
with_primary (some osd) temp = record temp { primary = osd }

pub temp_osds : OsdMap → PoolType → Option (List ℤ) → Option ℤ → Outcome Osds
temp_osds m type none primary = ok (with_primary primary (record { osds = []; primary = no_osd }))
temp_osds m type (some osds) primary = in_osds (temp_list m type osds) >>= λ temp.
    ok (with_primary primary (record { osds = temp; primary = first_some temp }))

pub get_temp_osds : OsdMap → PoolType → Pg → Outcome Osds
unfolding temp_osds
get_temp_osds m type pgid = temp_osds m type (m.pg_temp pgid) (m.primary_temp pgid)

-- Without OSDs of its own the acting set is the up set.
abbrev pub acting_or_up : Osds → List ℤ → ℤ → Osds
acting_or_up up [] primary = record {
  osds = up.osds;
  primary = if eqb_ℤ primary no_osd then up.primary else primary;
}
acting_or_up up (osd ∷ rest) primary = record { osds = osd ∷ rest; primary = primary }

-- ceph_pg_to_up_acting_osds, from the raw set on.
pub raw_to_up_acting : OsdMap → PoolType → Pg → (pps : ℕ) → List ℤ → Outcome (Osds × Osds)
raw_to_up_acting m type pgid pps raw = do
  up ← apply_primary_affinity m type pps (raw_to_up_osds m type raw)
  temp ← get_temp_osds m type pgid
  ok (up, acting_or_up up temp.osds temp.primary)

pub pg_to_up_acting_osds : OsdMap → Work → (fuel : ℕ) → Pool → Pg → Outcome (Osds × Osds)
pg_to_up_acting_osds m work fuel pi raw_pgid = do
  let pgid = raw_pg_to_pg pi raw_pgid
  let pps = raw_pg_to_pps pi raw_pgid
  raw ← pg_to_raw_osds m work fuel pi pps
  raw' ← apply_upmap m pgid raw
  raw_to_up_acting m pi.type pgid pps raw'

-- osds_valid.
pub all_none : List ℤ → Bool
all_none [] = true
all_none (osd ∷ rest) =
    let further = all_none rest in if eqb_ℤ osd item_none then further else false

abbrev pub is_nonneg : ℤ → Bool
is_nonneg (pos n) = true
is_nonneg (negsuc n) = false

pub osds_valid : Osds → Bool
osds_valid s =
    if ltb 0 (length s.osds) && is_nonneg s.primary
    then true
    else if (length s.osds == 0) && eqb_ℤ s.primary no_osd
    then true
    else (ltb 0 (length s.osds) && eqb_ℤ s.primary no_osd) && all_none s.osds
