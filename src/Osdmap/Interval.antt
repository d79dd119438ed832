-- ===== src/Osdmap/Interval.antt =====
-- Whether a group has changed between two maps, of kernel-modules/src/libceph/osdmap.c.
pub mod Shard
use xcp_ng_ceph_rbd.Base.{
  ℕ, ◌+◌, ◌-◌, ◌^◌, ◌≤◌, ◌<◌, ◌≡◌, ◌⊎◌, ◌↔◌, inl, inr, refl, sym, ap, ◌∙◌, ◌&&◌, ◌||◌, not, Bool,
  true, false, List, [], ◌∷◌, Option, none, some, ◌==◌, ==_iff, if◌then◌else◌, ℤ, pos, negsuc,
  eqb_ℤ, eqb_ℤ_iff, Bool-cases,
}
use xcp_ng_ceph_rbd.Osdmap.{Pg, PoolType, rep, ec, Osds}
use xcp_ng_ceph_rbd.Osdmap.Seeds.{pg_is_split, calc_bits_of}
use xcp_ng_ceph_rbd.Osdmap.Seeds.Split.{Child, pg_is_split_iff}

-- The sizes, and memcmp.
pub same_osds : List ℤ → List ℤ → Bool
same_osds [] [] = true
same_osds [] (y ∷ ys) = false
same_osds (x ∷ xs) [] = false
same_osds (x ∷ xs) (y ∷ ys) = eqb_ℤ x y && same_osds xs ys

pub osds_equal : Osds → Osds → Bool
osds_equal lhs rhs = same_osds lhs.osds rhs.osds && eqb_ℤ lhs.primary rhs.primary

-- calc_pg_rank, from place `i` on.
pub rank_from : ℤ → List ℤ → (i : ℕ) → ℤ
rank_from osd [] i = negsuc 0
rank_from osd (x ∷ xs) i =
    let further = rank_from osd xs (i + 1) in if eqb_ℤ x osd then pos i else further

abbrev pub is_empty : List ℤ → Bool
is_empty [] = true
is_empty (x ∷ xs) = false

pub primary_changed : (old_acting new_acting : Osds) → Bool
primary_changed old_acting new_acting =
    if is_empty old_acting.osds && is_empty new_acting.osds
    then false
    else if is_empty old_acting.osds || is_empty new_acting.osds
    then true
    else if not (eqb_ℤ old_acting.primary new_acting.primary)
    then true
    else not (
        eqb_ℤ (rank_from old_acting.primary old_acting.osds 0)
          (rank_from new_acting.primary new_acting.osds 0))

pub osds_changed : (old_acting new_acting : Osds) → (any_change : Bool) → Bool
osds_changed old_acting new_acting any_change =
    if primary_changed old_acting new_acting
    then true
    else any_change && not (same_osds old_acting.osds new_acting.osds)

-- What ceph_is_new_interval compares.
pub record Interval : Type 0 where
  pub acting : Osds
  pub up : Osds
  pub size : ℕ
  pub min_size : ℕ
  pub pg_num : ℕ
  pub sort_bitwise : Bool
  pub recovery_deletes : Bool

abbrev pub eqb_bool : Bool → Bool → Bool
eqb_bool true b = b
eqb_bool false b = not b

abbrev pub or_split : Option Bool → Bool → Option Bool
or_split none others = none
or_split (some split) others = some (split || others)

-- `none` means that the search for a split ran out of its fuel.
pub is_new_interval : (old new : Interval) → Pg → Option Bool
is_new_interval old new pgid =
    if not (osds_equal old.acting new.acting)
    then some true
    else if not (osds_equal old.up new.up)
    then some true
    else if not (old.size == new.size)
    then some true
    else if not (old.min_size == new.min_size)
    then some true
    else or_split (pg_is_split pgid old.pg_num new.pg_num) (
        not (eqb_bool old.sort_bitwise new.sort_bitwise)
        || not (eqb_bool old.recovery_deletes new.recovery_deletes))

-- ceph_pg_to_primary_shard, once the acting set is known: the shard of an erasure-coded pool, -1
-- (CEPH_SPG_NOSHARD) for a replicated one.
abbrev pub found_shard : ℤ → Option ℤ
found_shard (pos i) = some (pos i)
found_shard (negsuc n) = none

pub primary_shard : PoolType → Osds → Option ℤ
primary_shard rep acting = some (negsuc 0)
primary_shard ec acting = found_shard (rank_from acting.primary acting.osds 0)

same_osds_iff : (xs ys : List ℤ) → (same_osds xs ys ≡ true) ↔ (xs ≡ ys)
unfolding same_osds
same_osds_iff [] [] = (λ e. refl, λ e. refl)
same_osds_iff [] (y ∷ ys) = (λ e. absurd cc, λ e. absurd cc)
same_osds_iff (x ∷ xs) [] = (λ e. absurd cc, λ e. absurd cc)
same_osds_iff (x ∷ xs) (y ∷ ys) = elim (Bool-cases (eqb_ℤ x y)) [
  | inl p ↦
      let one : x ≡ y = (eqb_ℤ_iff x y).0 p in
      rw p (
        λ e. let rest = (same_osds_iff xs ys).0 e in cc,
        λ e. let rest : xs ≡ ys = cc in (same_osds_iff xs ys).1 rest,
      )
  | inr p ↦
      rw p
        (λ e. absurd cc, λ e. let one : x ≡ y = cc in let yes' = (eqb_ℤ_iff x y).1 one in absurd cc)
]

changed_iff :
    (xs ys : List ℤ) (p q : ℤ)
    → (osds_changed (record { osds = xs; primary = p }) (record { osds = ys; primary = q }) true
        ≡ false)
      ↔ ((xs ≡ ys) × ((xs ≡ []) ⊎ (p ≡ q)))
unfolding osds_changed primary_changed same_osds
changed_iff [] [] p q = (λ e. (refl, inl refl), λ z. refl)
changed_iff [] (y ∷ ys) p q = (λ e. absurd cc, λ (e, o). absurd cc)
changed_iff (x ∷ xs) [] p q = (λ e. absurd cc, λ (e, o). absurd cc)
changed_iff (x ∷ xs) (y ∷ ys) p q = elim (Bool-cases (eqb_ℤ p q)) [
  | inr d ↦ rw d (
    λ e. absurd cc,
    λ (e, o). elim o [ inl z ↦ absurd cc | inr z ↦ let yes' = (eqb_ℤ_iff p q).1 z in absurd cc ],
  )
  | inl d ↦
      rw d (lists ((eqb_ℤ_iff p q).0 d) (rank_from p (x ∷ xs) 0) (rank_from q (y ∷ ys) 0) refl refl)
]
  where
    lists :
        p ≡ q
        → (r r' : ℤ) → rank_from p (x ∷ xs) 0 ≡ r
        → rank_from q (y ∷ ys) 0 ≡ r'
        → ((if not (eqb_ℤ r r') then true else not (same_osds (x ∷ xs) (y ∷ ys))) ≡ false)
          ↔ (((x ∷ xs) ≡ (y ∷ ys)) × (((x ∷ xs) ≡ []) ⊎ (p ≡ q)))
    lists same r r' e e' = elim (Bool-cases (eqb_ℤ r r')) [
      | inr d ↦ rw d (
        λ z. absurd cc,
        λ (l, o).
            let ranks : r ≡ r' =
              sym e ∙ ap (λ t. rank_from t (x ∷ xs) 0) same ∙ ap (λ t. rank_from q t 0) l ∙ e' in
            let yes' = (eqb_ℤ_iff r r').1 ranks in absurd cc,
      )
      | inl d ↦ elim (Bool-cases (same_osds (x ∷ xs) (y ∷ ys))) [
        | inl t ↦ rw (d, t) (λ z. ((same_osds_iff (x ∷ xs) (y ∷ ys)).0 t, inr same), λ z. refl)
        | inr t ↦
            rw (d, t)
              (
                λ z. absurd cc,
                λ (l, o). let yes' = (same_osds_iff (x ∷ xs) (y ∷ ys)).1 l in absurd cc,
              )
      ]
    ]

-- Two acting sets are unchanged, for one who minds any change, exactly if they have the same OSDs in
-- the same places, and the same primary unless they are empty.
pub osds_changed_iff :
    (old_acting new_acting : Osds)
    → (osds_changed old_acting new_acting true ≡ false) ↔ (
        (old_acting.osds ≡ new_acting.osds)
        × ((old_acting.osds ≡ []) ⊎ (old_acting.primary ≡ new_acting.primary)))
osds_changed_iff old_acting new_acting =
    changed_iff old_acting.osds new_acting.osds old_acting.primary new_acting.primary

abbrev osds_of : List ℤ → ℤ → Osds
osds_of xs p = record { osds = xs; primary = p }

osds_equal_iff : (lhs rhs : Osds) → (osds_equal lhs rhs ≡ true) ↔ (lhs ≡ rhs)
unfolding osds_equal
osds_equal_iff lhs rhs = elim (Bool-cases (same_osds lhs.osds rhs.osds)) [
  | inl t ↦ rw t (
    λ e.
        let p = (eqb_ℤ_iff lhs.primary rhs.primary).0 e in
        both lhs.osds rhs.osds lhs.primary rhs.primary ((same_osds_iff _ _).0 t) p,
    λ e. (eqb_ℤ_iff lhs.primary rhs.primary).1 (ap (λ s. s.primary) e),
  )
  | inr t ↦ rw t (
    λ e. absurd cc,
    λ e. let yes' = (same_osds_iff lhs.osds rhs.osds).1 (ap (λ s. s.osds) e) in absurd cc,
  )
]
  where
    both : (xs ys : List ℤ) (p q : ℤ) → xs ≡ ys → p ≡ q → osds_of xs p ≡ osds_of ys q
    both xs ys p q l e = cc

eqb_bool_iff : (a b : Bool) → (eqb_bool a b ≡ true) ↔ (a ≡ b)
eqb_bool_iff true true = (λ e. refl, λ e. refl)
eqb_bool_iff true false = (λ e. absurd cc, λ e. absurd cc)
eqb_bool_iff false true = (λ e. absurd cc, λ e. absurd cc)
eqb_bool_iff false false = (λ e. refl, λ e. refl)

-- Nothing that the interval depends on is different, besides the number of groups.
pub record Unchanged (old new : Interval) : Type 0 where
  pub acting : old.acting ≡ new.acting
  pub up : old.up ≡ new.up
  pub size : old.size ≡ new.size
  pub min_size : old.min_size ≡ new.min_size
  pub sort_bitwise : old.sort_bitwise ≡ new.sort_bitwise
  pub recovery_deletes : old.recovery_deletes ≡ new.recovery_deletes

-- A new group takes seeds from the group.
abbrev pub IsSplit : Pg → (old_pg_num new_pg_num : ℕ) → Type 0
IsSplit pgid old_pg_num new_pg_num =
    (s : ℕ) × Child (2 ^ calc_bits_of old_pg_num - 1) pgid.seed old_pg_num new_pg_num s

failed : {P : Type 0} (test : Bool) → test ≡ false → (P → test ≡ true) → (true ≡ false) ↔ P
failed test f h = (λ z. absurd cc, λ x. let t = h x in absurd cc)

-- For a group of the old map and up to 2^30 groups in the new one, ceph_is_new_interval ends, and tells
-- that the interval is the same exactly if the sets of OSDs, the sizes and the flags are the same and
-- no new group takes seeds from the group.
pub is_new_interval_iff :
    (old new : Interval) (pgid : Pg)
    → pgid.seed < old.pg_num
    → new.pg_num ≤ 2 ^ 30
    → (b : Bool) × (is_new_interval old new pgid ≡ some b)
      × ((b ≡ false) ↔ (Unchanged old new × (IsSplit pgid old.pg_num new.pg_num → ⊥)))
unfolding is_new_interval
is_new_interval_iff old new pgid h small = elim (Bool-cases (osds_equal old.acting new.acting)) [
  | inr t ↦ rw t (true, refl, failed _ t (λ x. (osds_equal_iff _ _).1 x.0.acting))
  | inl ta ↦ elim (Bool-cases (osds_equal old.up new.up)) [
    | inr t ↦ rw (ta, t) (true, refl, failed _ t (λ x. (osds_equal_iff _ _).1 x.0.up))
    | inl tu ↦ elim (Bool-cases (old.size == new.size)) [
      | inr t ↦ rw (ta, tu, t) (true, refl, failed _ t (λ x. (==_iff _ _).1 x.0.size))
      | inl ts ↦ elim (Bool-cases (old.min_size == new.min_size)) [
        | inr t ↦ rw (ta, tu, ts, t) (true, refl, failed _ t (λ x. (==_iff _ _).1 x.0.min_size))
        | inl tm ↦
            let (split, e, s) = pg_is_split_iff pgid old.pg_num new.pg_num h small in
            rw (ta, tu, ts, tm, e)
              (flags ((osds_equal_iff _ _).0 ta) ((osds_equal_iff _ _).0 tu) ((==_iff _ _).0 ts)
                ((==_iff _ _).0 tm) split s)
      ]
    ]
  ]
]
  where
    flags :
        old.acting ≡ new.acting
        → old.up ≡ new.up
        → old.size ≡ new.size
        → old.min_size ≡ new.min_size
        → (split : Bool) → ((split ≡ true) ↔ IsSplit pgid old.pg_num new.pg_num)
        → (b : Bool) × (some (
              split
              || (not (eqb_bool old.sort_bitwise new.sort_bitwise)
                  || not (eqb_bool old.recovery_deletes new.recovery_deletes)))
            ≡ some b)
          × ((b ≡ false) ↔ (Unchanged old new × (IsSplit pgid old.pg_num new.pg_num → ⊥)))
    flags a u sz ms true s = (true, refl, (λ z. absurd cc, λ x. absurd (x.1 (s.0 refl))))
    flags a u sz ms false s = elim (Bool-cases (eqb_bool old.sort_bitwise new.sort_bitwise)) [
      | inr t ↦ rw t (true, refl, failed _ t (λ x. (eqb_bool_iff _ _).1 x.0.sort_bitwise))
      | inl tb ↦ elim (Bool-cases (eqb_bool old.recovery_deletes new.recovery_deletes)) [
        | inr t ↦
            rw (tb, t) (true, refl, failed _ t (λ x. (eqb_bool_iff _ _).1 x.0.recovery_deletes))
        | inl td ↦
            rw (tb, td)
              (
                false,
                refl,
                (
                  λ z. (
                    record {
                      acting = a;
                      up = u;
                      size = sz;
                      min_size = ms;
                      sort_bitwise = (eqb_bool_iff _ _).0 tb;
                      recovery_deletes = (eqb_bool_iff _ _).0 td;
                    },
                    λ c. let t = s.1 c in absurd cc,
                  ),
                  λ x. refl,
                ),
              )
      ]
    ]
