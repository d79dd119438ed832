-- ===== src/Osdmap/Placement/Affinity.antt =====
-- apply_primary_affinity keeps an up set an up set, and reads no array out of bounds.
use xcp_ng_ceph_rbd.Base.{
  ℕ, zero, suc, ◌+◌, ◌/◌, ◌^◌, ◌≡◌, inl, inr, refl, ap, sym, ◌∙◌, ◌&&◌, Bool, true, false, List, [],
  ◌∷◌, ◌++◌, Option, none, some, length, get_elem?, get_elem?-lt, take, drop, ltb, leb, ◌==◌,
  if◌then◌else◌, ℤ, eqb_ℤ, eqb_ℤ_iff, to_u32, All, arith, Bool-cases,
}
use xcp_ng_ceph_rbd.Crush.Outcome.{Outcome, ok, ◌>>=◌}
use xcp_ng_ceph_rbd.Crush.Hash.{hash32_2}
use xcp_ng_ceph_rbd.Crush.Indep.{item_none}
use xcp_ng_ceph_rbd.Osdmap.{PoolType, rep, ec, OsdMap, Osds, osd_is_up, at_osd}
use xcp_ng_ceph_rbd.Osdmap.Placement.{
  max_affinity, any_affinity, pick_primary, move_front, make_primary, apply_primary_affinity,
  apply_affinity,
}
use xcp_ng_ceph_rbd.Osdmap.Placement.Valid.{Seat, UpSet, is_up-nonneg}

-- The affinities, where there are any, have an entry for every OSD.
abbrev pub AffinityFits : OsdMap → Option (List ℕ) → Type 0
AffinityFits m none = Unit {0}
AffinityFits m (some affinity) = length affinity ≡ m.max_osd

pub Seat-up :
    (m : OsdMap) (type : PoolType) (osd : ℤ)
    → Seat m type osd
    → eqb_ℤ osd item_none ≡ false
    → osd_is_up m osd ≡ true
Seat-up m type osd (inl up) h = up
Seat-up m type osd (inr (e, same)) h = absurd (ground (arith, (eqb_ℤ_iff osd item_none).1))

module _ (m : OsdMap) (type : PoolType) (affinity : List ℕ)
    (whole : length affinity ≡ m.max_osd) where
  at_osd-up : (osd : ℤ) → osd_is_up m osd ≡ true → (aff : ℕ) × (at_osd affinity osd ≡ ok aff)
  at_osd-up osd up =
      let (n, e, lt) = is_up-nonneg m osd up in
      let (aff, eq) = get_elem?-lt affinity n (omega arith) in (aff, rw (e, eq))

  any_affinity-ok :
      (osds : List ℤ) → All (Seat m type) osds → (b : Bool) × (any_affinity affinity osds ≡ ok b)
  unfolding any_affinity
  any_affinity-ok [] h = (false, refl)
  any_affinity-ok (osd ∷ rest) (seat, h) =
      let (b, e) = any_affinity-ok rest h in
      elim (Bool-cases (eqb_ℤ osd item_none)) [
        | inl t ↦ rw t (b, e)
        | inr t ↦
            let (aff, eq) = at_osd-up osd (Seat-up m type osd seat t) in
            elim (Bool-cases (aff == max_affinity)) [
              | inl u ↦ rw (t, eq, u) (b, e)
              | inr u ↦ rw (t, eq, u) (true, refl)
            ]
      ]

  -- A place of the set that holds an OSD that is up.
  abbrev Place : List ℤ → Option ℕ → Type 0
  Place osds none = Unit {0}
  Place osds (some p) = (osd : ℤ) × (get_elem? osds p ≡ some osd) × (osd_is_up m osd ≡ true)

  abbrev Picks : List ℤ → Outcome (Option ℕ) → Type 0
  Picks osds r = (place : Option ℕ) × (r ≡ ok place) × Place osds place

  fallback-Place :
      (osds : List ℤ) (i : ℕ) (osd : ℤ) (place : Option ℕ)
      → get_elem? osds i ≡ some osd
      → osd_is_up m osd ≡ true
      → Place osds place
      → Place osds (elim place [ none ↦ some i | some p ↦ some p ])
  fallback-Place osds i osd none e up h = (osd, e, up)
  fallback-Place osds i osd (some p) e up h = h

  pick_primary-Picks :
      (osds rest : List ℤ) (pps i : ℕ) (place : Option ℕ)
      → ((j : ℕ) → get_elem? rest j ≡ get_elem? osds (i + j))
      → All (Seat m type) rest
      → Place osds place
      → Picks osds (pick_primary affinity pps rest i place)
  unfolding pick_primary
  pick_primary-Picks osds [] pps i place same h fine = (place, refl, fine)
  pick_primary-Picks osds (osd ∷ rest) pps i place same (seat, h) fine =
      let tail : (j : ℕ) → get_elem? rest j ≡ get_elem? osds (i + 1 + j) =
        λ j. same (suc j) ∙ ap (get_elem? osds) (omega arith) in
      let here : get_elem? osds i ≡ some osd = ap (get_elem? osds) (omega arith) ∙ sym (same 0) in
      elim (Bool-cases (eqb_ℤ osd item_none)) [
        | inl t ↦ rw t (pick_primary-Picks osds rest pps (i + 1) place tail h fine)
        | inr t ↦
            let up = Seat-up m type osd seat t in
            let (aff, eq) = at_osd-up osd up in
            elim (Bool-cases
              (ltb aff max_affinity && leb aff (hash32_2 0 pps (to_u32 osd) / 2 ^ 16))) [
                | inl u ↦
                    rw (t, eq, u)
                      (pick_primary-Picks osds rest pps (i + 1) _ tail h
                        (fallback-Place osds i osd place here up fine))
                | inr u ↦ rw (t, eq, u) (some i, refl, (osd, here, up))
              ]
      ]

  All-take : (n : ℕ) (osds : List ℤ) → All (Seat m type) osds → All (Seat m type) (take n osds)
  All-take zero osds h = tt
  All-take (suc n) [] h = tt
  All-take (suc n) (x ∷ xs) h = (h.0, All-take n xs h.1)

  All-drop : (n : ℕ) (osds : List ℤ) → All (Seat m type) osds → All (Seat m type) (drop n osds)
  All-drop zero osds h = h
  All-drop (suc n) [] h = tt
  All-drop (suc n) (x ∷ xs) h = All-drop n xs h.1

  All-append :
      (xs ys : List ℤ) → All (Seat m type) xs → All (Seat m type) ys → All (Seat m type) (xs ++ ys)
  All-append [] ys h k = k
  All-append (x ∷ xs) ys h k = (h.0, All-append xs ys h.1 k)

  abbrev MakesUp : Outcome Osds → Type 0
  MakesUp r = (up : Osds) × (r ≡ ok up) × UpSet m type up

  make_primary-UpSet :
      (place : Option ℕ) (up : Osds)
      → UpSet m type up
      → Place up.osds place
      → MakesUp (make_primary type place up)
  unfolding make_primary
  make_primary-UpSet none up h fine = (up, refl, h)
  make_primary-UpSet (some p) up h (osd, e, is_up) = rw e (moved type)
    where
      moved :
          (t : PoolType)
          → (up' : Osds) × (ok (record { osds = move_front t p osd up.osds; primary = osd })
              ≡ ok up')
            × UpSet m type up'
      moved ec = (record { osds = up.osds; primary = osd }, refl, (h.0, inr (p, e, is_up)))
      moved rep = (
        record { osds = osd ∷ (take p up.osds ++ drop (p + 1) up.osds); primary = osd },
        refl,
        (
          (
            inl is_up,
            All-append (take p up.osds) (drop (p + 1) up.osds) (All-take p up.osds h.0)
                (All-drop (p + 1) up.osds h.0),
          ),
          inr (0, refl, is_up),
        ),
      )

  affinity-UpSet :
      (pps : ℕ) (up : Osds)
      → UpSet m type up
      → MakesUp (
          any_affinity affinity up.osds >>= λ any.
          if any
          then (pick_primary affinity pps up.osds 0 none >>= λ place. make_primary type place up)
          else ok up)
  affinity-UpSet pps up h =
      let (b, e) = any_affinity-ok up.osds h.0 in
      let (place, eq, fine) =
        pick_primary-Picks up.osds up.osds pps 0 none (λ j. ap (get_elem? up.osds) (omega arith))
          h.0 tt in
      elim (Bool-cases b) [
        | inl t ↦ rw (e, t, eq) (make_primary-UpSet place up h fine)
        | inr t ↦ rw (e, t) (up, refl, h)
      ]

apply_affinity-UpSet :
    (m : OsdMap) (type : PoolType) (pps : ℕ) (up : Osds) (affinity : Option (List ℕ))
    → AffinityFits m affinity
    → UpSet m type up
    → (up' : Osds) × (apply_affinity affinity type pps up ≡ ok up') × UpSet m type up'
unfolding apply_affinity
apply_affinity-UpSet m type pps up none fits h = (up, refl, h)
apply_affinity-UpSet m type pps up (some affinity) fits h =
    affinity-UpSet m type affinity fits pps up h

pub apply_primary_affinity-UpSet :
    (m : OsdMap) (type : PoolType) (pps : ℕ) (up : Osds)
    → AffinityFits m m.osd_primary_affinity
    → UpSet m type up
    → (up' : Osds) × (apply_primary_affinity m type pps up ≡ ok up') × UpSet m type up'
unfolding apply_primary_affinity
apply_primary_affinity-UpSet m type pps up fits h =
    apply_affinity-UpSet m type pps up m.osd_primary_affinity fits h
