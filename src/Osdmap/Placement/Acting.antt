-- ===== src/Osdmap/Placement/Acting.antt =====
-- The sets that ceph_pg_to_up_acting_osds ends with, for any raw set.
use xcp_ng_ceph_rbd.Base.{
  ℕ, suc, ◌≤◌, ◌↔◌, ◌≡◌, ◌⊎◌, inl, inr, refl, ap, Bool, true, List, [], ◌∷◌, Option, none, some,
  length, get_elem?, leb, ℤ, eqb_ℤ, eqb_ℤ_iff, All, arith, Bool-cases,
}
use xcp_ng_ceph_rbd.Crush.Outcome.{Outcome, ok}
use xcp_ng_ceph_rbd.Crush.Indep.{item_none}
use xcp_ng_ceph_rbd.Osdmap.{Pg, PoolType, rep, ec, OsdMap, Osds, no_osd, osd_is_up, max_size}
use xcp_ng_ceph_rbd.Osdmap.Placement.{
  shift_left, blank_out, raw_to_up_osds, temp_list, first_some, with_primary, temp_osds,
  get_temp_osds, acting_or_up, raw_to_up_acting, all_none, osds_valid,
}
use xcp_ng_ceph_rbd.Osdmap.Placement.Valid.{
  Seat, Primary, UpSet, IsUp, osd_is_up-IsUp, IsUp-osd_is_up, UpSet-osds_valid, shift_left-up,
  blank_out-up, raw_to_up_osds-UpSet,
}
use xcp_ng_ceph_rbd.Osdmap.Placement.Affinity.{AffinityFits, Seat-up, apply_primary_affinity-UpSet}

-- A temporary mapping is no longer than a set can be.
abbrev pub TempFits : Option (List ℤ) → Type 0
TempFits none = Unit {0}
TempFits (some osds) = length osds ≤ max_size

-- The acting set: its places are as those of an up set. Its primary is too, if the monitors did not
-- name one; else it is the one they named, or that of the up set where they named -1.
abbrev pub ActingSet : OsdMap → PoolType → Option ℤ → Osds → Type 0
ActingSet m type none s = UpSet m type s × (osds_valid s ≡ true)
ActingSet m type (some osd) s = All (Seat m type) s.osds × ((osd ≡ no_osd) ⊎ (s.primary ≡ osd))

temp_list-up :
    (m : OsdMap) (type : PoolType) (osds : List ℤ) → All (Seat m type) (temp_list m type osds)
temp_list-up m rep osds = shift_left-up m osds
temp_list-up m ec osds = blank_out-up m osds

length-shift_left : (keep : ℤ → Bool) (osds : List ℤ) → length (shift_left keep osds) ≤ length osds
unfolding shift_left
length-shift_left keep [] = omega arith
length-shift_left keep (osd ∷ rest) = ground (arith, length-shift_left keep rest)

length-blank_out : (keep : ℤ → Bool) (osds : List ℤ) → length (blank_out keep osds) ≡ length osds
unfolding blank_out
length-blank_out keep [] = refl
length-blank_out keep (osd ∷ rest) = ap suc (length-blank_out keep rest)

length-temp_list :
    (m : OsdMap) (type : PoolType) (osds : List ℤ) → length (temp_list m type osds) ≤ length osds
length-temp_list m rep osds = length-shift_left (osd_is_up m) osds
length-temp_list m ec osds = omega (arith, length-blank_out (osd_is_up m) osds)

first_some-Primary :
    (m : OsdMap) (type : PoolType) (osds : List ℤ)
    → All (Seat m type) osds
    → Primary m (record { osds = osds; primary = first_some osds })
unfolding first_some all_none
first_some-Primary m type [] h = inl (refl, refl)
first_some-Primary m type (osd ∷ rest) (seat, h) = elim (Bool-cases (eqb_ℤ osd item_none)) [
  | inl t ↦ rw t (later (first_some-Primary m type rest h))
  | inr t ↦ rw t (inr (0, refl, Seat-up m type osd seat t))
]
  where
    later :
        Primary m (record { osds = rest; primary = first_some rest })
        → ((first_some rest ≡ no_osd) × (all_none rest ≡ true))
          ⊎ ((i : ℕ) × (get_elem? (osd ∷ rest) i ≡ some (first_some rest))
              × (osd_is_up m (first_some rest) ≡ true))
    later (inl x) = inl x
    later (inr (i, e, up)) = inr (suc i, e, up)

module _ (m : OsdMap) (type : PoolType) (up : Osds) (h : UpSet m type up) where
  acting-ActingSet :
      (osds : List ℤ) (primary : ℤ)
      → All (Seat m type) osds
      → Primary m (record { osds = osds; primary = primary })
      → ActingSet m type none (acting_or_up up osds primary)
  acting-ActingSet (osd ∷ rest) primary seats p =
      ((seats, p), UpSet-osds_valid m (record { osds = osd ∷ rest; primary = primary }) p)
  acting-ActingSet [] primary seats (inl (e, n)) = rw e (h, UpSet-osds_valid m up h.1)
  acting-ActingSet [] primary seats (inr (i, e, u)) = absurd cc

  named-ActingSet :
      (osds : List ℤ) (osd : ℤ)
      → All (Seat m type) osds
      → ActingSet m type (some osd) (acting_or_up up osds osd)
  named-ActingSet (o ∷ rest) osd seats = (seats, inr refl)
  named-ActingSet [] osd seats = elim (Bool-cases (eqb_ℤ osd no_osd)) [
    | inl t ↦ (h.0, inl ((eqb_ℤ_iff osd no_osd).0 t))
    | inr t ↦ rw t (h.0, inr refl)
  ]

  abbrev Acts : Option ℤ → Outcome Osds → Type 0
  Acts named r =
      (temp : Osds) × (r ≡ ok temp)
      × ActingSet m type named (acting_or_up up temp.osds temp.primary)

  temp_osds-Acts :
      (temp : Option (List ℤ)) (named : Option ℤ)
      → TempFits temp
      → Acts named (temp_osds m type temp named)
  unfolding temp_osds first_some
  temp_osds-Acts none none fits = (
    record { osds = []; primary = no_osd },
    refl,
    acting-ActingSet [] no_osd tt (first_some-Primary m type [] tt),
  )
  temp_osds-Acts none (some osd) fits =
      (record { osds = []; primary = osd }, refl, named-ActingSet [] osd tt)
  temp_osds-Acts (some osds) named fits =
      let short : leb (length (temp_list m type osds)) max_size ≡ true =
        ground (arith, length-temp_list m type osds) in
      rw short (filled named)
    where
      list : List ℤ
      list = temp_list m type osds

      filled :
          (named : Option ℤ)
          → (temp : Osds) × (ok (
                with_primary named (record {
                  osds = temp_list m type osds;
                  primary = first_some (temp_list m type osds);
                }))
              ≡ ok temp)
            × ActingSet m type named (acting_or_up up temp.osds temp.primary)
      filled none = (
        record { osds = temp_list m type osds; primary = first_some (temp_list m type osds) },
        refl,
        acting-ActingSet (temp_list m type osds) (first_some (temp_list m type osds))
            (temp_list-up m type osds)
            (first_some-Primary m type (temp_list m type osds) (temp_list-up m type osds)),
      )
      filled (some osd) = (
        record { osds = temp_list m type osds; primary = osd },
        refl,
        named-ActingSet (temp_list m type osds) osd (temp_list-up m type osds),
      )

-- For a map whose affinities have an entry for each OSD and a temporary mapping that fits into a set,
-- whatever CRUSH and the exceptions gave as raw set: the up and acting sets are computed without a
-- read of the affinities or a write to a set out of bounds. An OSD is up for ceph_osd_is_up exactly if
-- its number is below max_osd and its state has the bits for one that exists and is up. The up set is valid and holds only OSDs that are up, or empty places in
-- an erasure-coded pool, and its primary is one of its OSDs. The acting set is so too, where the
-- monitors named no primary; else its places are, and its primary is the one named.
pub raw_to_up_acting-valid :
    (m : OsdMap) (type : PoolType) (pgid : Pg) (pps : ℕ) (raw : List ℤ)
    → AffinityFits m m.osd_primary_affinity
    → TempFits (m.pg_temp pgid)
    → (up : Osds) × (acting : Osds) × (raw_to_up_acting m type pgid pps raw ≡ ok (up, acting))
      × UpSet m type up
      × (osds_valid up ≡ true)
      × ActingSet m type (m.primary_temp pgid) acting
      × ((osd : ℤ) → (osd_is_up m osd ≡ true) ↔ IsUp m osd)
unfolding raw_to_up_acting get_temp_osds
raw_to_up_acting-valid m type pgid pps raw fits tfits =
    let (up, e, h) =
      apply_primary_affinity-UpSet m type pps (raw_to_up_osds m type raw) fits
        (raw_to_up_osds-UpSet m type raw) in
    let (temp, et, a) = temp_osds-Acts m type up h (m.pg_temp pgid) (m.primary_temp pgid) tfits in
    (
      up,
      acting_or_up up temp.osds temp.primary,
      rw (e, et),
      h,
      UpSet-osds_valid m up h.1,
      a,
      λ osd. (osd_is_up-IsUp m osd, IsUp-osd_is_up m osd),
    )
