-- ===== src/Osdmap/Placement/Valid.antt =====
-- The up set and the acting set that ceph_pg_to_up_acting_osds ends with are what osds_valid asks for.
use xcp_ng_ceph_rbd.Base.{
  ℕ, ◌/◌, ◌%◌, suc, ◌<◌, ◌≡◌, ◌⊎◌, inl, inr, refl, sym, true, List, [], ◌∷◌, some, get_elem?, ℤ,
  pos, negsuc, All, arith, Bool-cases,
}
use mathlib.Core.Path.{subst}
use xcp_ng_ceph_rbd.Crush.Indep.{item_none}
use xcp_ng_ceph_rbd.Osdmap.{PoolType, rep, ec, OsdMap, Osds, no_osd, osd_exists, osd_is_up}
use xcp_ng_ceph_rbd.Osdmap.Placement.{
  shift_left, blank_out, blank_down, first_of, raw_to_up_osds, all_none, osds_valid,
}

-- An OSD of the map that exists and is up: bits 0 and 1 of its state.
abbrev pub IsUp : OsdMap → ℤ → Type 0
IsUp m osd =
    (n : ℕ) × (osd ≡ pos n)
    × (n < m.max_osd)
    × (m.osd_state n % 2 ≡ 1)
    × (m.osd_state n / 2 % 2 ≡ 1)

-- A place of a set holds an OSD that is up, or nothing, where places have a meaning.
abbrev pub Seat : OsdMap → PoolType → ℤ → Type 0
Seat m type osd = (osd_is_up m osd ≡ true) ⊎ ((type ≡ ec) × (osd ≡ item_none))

-- The primary is an OSD of the set that is up; without one every place is empty.
abbrev pub Primary : OsdMap → Osds → Type 0
Primary m s =
    ((s.primary ≡ no_osd) × (all_none s.osds ≡ true))
    ⊎ ((i : ℕ) × (get_elem? s.osds i ≡ some s.primary) × (osd_is_up m s.primary ≡ true))

abbrev pub UpSet : OsdMap → PoolType → Osds → Type 0
UpSet m type s = All (Seat m type) s.osds × Primary m s

pub osd_is_up-IsUp : (m : OsdMap) (osd : ℤ) → osd_is_up m osd ≡ true → IsUp m osd
unfolding osd_is_up osd_exists
osd_is_up-IsUp m (pos n) h = (n, refl, ground arith, ground arith, ground arith)
osd_is_up-IsUp m (negsuc n) h = absurd cc

pub IsUp-osd_is_up : (m : OsdMap) (osd : ℤ) → IsUp m osd → osd_is_up m osd ≡ true
unfolding osd_is_up osd_exists
IsUp-osd_is_up m osd (n, e, lt, is_there, up) = rw e (ground arith)

pub is_up-nonneg :
    (m : OsdMap) (osd : ℤ) → osd_is_up m osd ≡ true → (n : ℕ) × (osd ≡ pos n) × (n < m.max_osd)
is_up-nonneg m osd h = let (n, e, lt, is_there, up) = osd_is_up-IsUp m osd h in (n, e, lt)

valid_none :
    (osds : List ℤ)
    → all_none osds ≡ true
    → osds_valid (record { osds = osds; primary = no_osd }) ≡ true
unfolding osds_valid all_none
valid_none [] h = refl
valid_none (osd ∷ rest) h = ground arith

valid_some :
    (osds : List ℤ) (i n : ℕ) (osd : ℤ)
    → get_elem? osds i ≡ some osd
    → osds_valid (record { osds = osds; primary = pos n }) ≡ true
unfolding osds_valid
valid_some [] i n osd e = absurd cc
valid_some (x ∷ rest) i n osd e = ground arith

all_none-nil : all_none [] ≡ true
unfolding all_none
all_none-nil = refl

-- Such a set is valid.
pub UpSet-osds_valid : (m : OsdMap) (s : Osds) → Primary m s → osds_valid s ≡ true
UpSet-osds_valid m s (inl (e, h)) =
    subst (λ p. osds_valid (record { osds = s.osds; primary = p }) ≡ true) (sym e)
      (valid_none s.osds h)
UpSet-osds_valid m s (inr (i, e, up)) =
    let (n, en, lt) = is_up-nonneg m s.primary up in
    subst (λ p. osds_valid (record { osds = s.osds; primary = p }) ≡ true) (sym en)
      (valid_some s.osds i n s.primary e)

-- The steps.
pub shift_left-up : (m : OsdMap) (osds : List ℤ) → All (Seat m rep) (shift_left (osd_is_up m) osds)
unfolding shift_left
shift_left-up m [] = tt
shift_left-up m (osd ∷ rest) = elim (Bool-cases (osd_is_up m osd)) [
  | inl t ↦ rw t (inl t, shift_left-up m rest)
  | inr t ↦ rw t (shift_left-up m rest)
]

pub blank_out-up : (m : OsdMap) (osds : List ℤ) → All (Seat m ec) (blank_out (osd_is_up m) osds)
unfolding blank_out
blank_out-up m [] = tt
blank_out-up m (osd ∷ rest) = elim (Bool-cases (osd_is_up m osd)) [
  | inl t ↦ rw t (inl t, blank_out-up m rest)
  | inr t ↦ rw t (inr (refl, refl), blank_out-up m rest)
]

blank_down-UpSet :
    (m : OsdMap) (osds : List ℤ)
    → UpSet m ec (record { osds = (blank_down m osds).0; primary = (blank_down m osds).1 })
unfolding blank_down all_none
blank_down-UpSet m [] = (tt, inl (refl, refl))
blank_down-UpSet m (osd ∷ rest) =
    let (seats, choice) = blank_down-UpSet m rest in
    elim (Bool-cases (osd_is_up m osd)) [
      | inl t ↦ rw t ((inl t, seats), inr (0, refl, t))
      | inr t ↦ rw t ((inr (refl, refl), seats), later choice)
    ]
  where
    later :
        Primary m (record { osds = (blank_down m rest).0; primary = (blank_down m rest).1 })
        → Primary m
            (record { osds = item_none ∷ (blank_down m rest).0; primary = (blank_down m rest).1 })
    later (inl (e, h)) = inl (e, h)
    later (inr (i, e, up)) = inr (suc i, e, up)

pub raw_to_up_osds-UpSet :
    (m : OsdMap) (type : PoolType) (raw : List ℤ) → UpSet m type (raw_to_up_osds m type raw)
unfolding raw_to_up_osds
raw_to_up_osds-UpSet m ec raw = blank_down-UpSet m raw
raw_to_up_osds-UpSet m rep raw =
    (shift_left-up m raw, leader (shift_left (osd_is_up m) raw) (shift_left-up m raw))
  where
    leader :
        (osds : List ℤ)
        → All (Seat m rep) osds
        → Primary m (record { osds = osds; primary = first_of osds })
    leader [] h = inl (refl, all_none-nil)
    leader (osd ∷ rest) (inl up, h) = inr (0, refl, up)
    leader (osd ∷ rest) (inr (e, n), h) = absurd (cc)
