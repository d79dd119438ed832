-- ===== src/Osdmap/Seeds/Split.antt =====
-- ceph_pg_is_split tells whether a new group takes seeds over from a group.
use xcp_ng_ceph_rbd.Base.{
  ℕ, zero, suc, ◌+◌, ◌-◌, ◌*◌, ◌/◌, ◌%◌, ◌^◌, ◌≤◌, ◌<◌, ◌≡◌, ◌≢◌, ◌⊎◌, ◌↔◌, inl, inr, refl, ap, sym,
  ◌∙◌, max, Bool, true, false, Option, some, ◌||◌, bit_or, ltb, leb, ◌==◌, ==_iff, if◌then◌else◌,
  u32, arith, Bool-cases, leb→le,
}
use xcp_ng_ceph_rbd.Base.Bits.{pow-pos, pow-suc, bit_or-join}
use native.Mathlib.Nat.{mod-lt, mod-eq_of_lt, div-add-mod', mul-le-mul_right}
use mathlib.Core.Path.{subst}
use native.Mathlib.Decide.{dec_lt}
use xcp_ng_ceph_rbd.Osdmap.{Pg}
use xcp_ng_ceph_rbd.Osdmap.Seeds.{calc_bits_of, stable_mod, is_split_from, pg_is_split}
use xcp_ng_ceph_rbd.Osdmap.Seeds.StableMod.{calc_bits_of-lt, calc_bits_of-le, stable_mod-mask_suc}

-- Seed `s` of the new groups falls into group `seed` of the old ones.
abbrev pub Child : (mask seed old_pg_num new_pg_num s : ℕ) → Type 0
Child mask seed old_pg_num new_pg_num s =
    (old_pg_num ≤ s) × (s < new_pg_num) × (stable_mod s old_pg_num mask ≡ seed)

-- `n` over the low bits, joined with the group `t * 2 ^ k + low`.
abbrev joined : (k t low n : ℕ) → ℕ
joined k t low n = (n / 2 * 2 + max (n % 2) t) * 2 ^ k + low

joined_mono : (k t low n n' : ℕ) → n ≤ n' → joined k t low n ≤ joined k t low n'
joined_mono k t low n n' h = omega (arith, mul-le-mul_right (2 ^ k) (step n n' t h))
  where
    step : (a b c : ℕ) → a ≤ b → a / 2 * 2 + max (a % 2) c ≤ b / 2 * 2 + max (b % 2) c
    step a b c le = omega arith

joined_ge : (k t low n : ℕ) → n * 2 ^ k ≤ joined k t low n
joined_ge k t low n = omega (arith, mul-le-mul_right (2 ^ k) (step n t))
  where
    step : (a c : ℕ) → a ≤ a / 2 * 2 + max (a % 2) c
    step a c = omega arith

joined_le : (k t low n : ℕ) → t < 2 → low < 2 ^ k → joined k t low n < (n + 2) * 2 ^ k
joined_le k t low n ht hl = omega (arith, mul-le-mul_right (2 ^ k) (step n t ht))
  where
    step : (a c : ℕ) → c < 2 → a / 2 * 2 + max (a % 2) c ≤ a + 1
    step a c h = omega arith

-- A number whose low `k + 1` digits are `t * 2 ^ k + low`, or whose low `k` digits are `low` and `t` is 0.
joined_wide :
    (k t low q : ℕ) → t < 2 → joined k t low (q * 2 + t) ≡ q * 2 ^ suc k + (t * 2 ^ k + low)
joined_wide k t low q ht = rw (pow-suc k) (omega (arith, ap (λ z. z * 2 ^ k) (step q t ht)))
  where
    step : (a c : ℕ) → c < 2 → (a * 2 + c) / 2 * 2 + max ((a * 2 + c) % 2) c ≡ a * 2 + c
    step a c h = omega arith

joined_narrow : (k low q : ℕ) → joined k 0 low q ≡ q * 2 ^ k + low
joined_narrow k low q = omega (arith, ap (λ z. z * 2 ^ k) (step q))
  where
    step : (a : ℕ) → a / 2 * 2 + max (a % 2) 0 ≡ a
    step a = omega arith

le-mul_pow : (k m : ℕ) → m ≤ m * 2 ^ k
le-mul_pow k zero = omega arith
le-mul_pow k (suc m) = omega (arith, le-mul_pow k m, pow-pos k)

is_split_from_step :
    (fuel seed old new old_bits n : ℕ)
    → is_split_from (suc fuel) seed old new old_bits n ≡ (
        let s = u32 (bit_or (n * 2 ^ (old_bits - 1)) seed) in
        if ltb s old || s == seed
        then is_split_from fuel seed old new old_bits (n + 1)
        else if leb new s
        then some false
        else if stable_mod s old (2 ^ old_bits - 1) == seed
        then some true
        else is_split_from fuel seed old new old_bits (n + 1))
unfolding is_split_from
is_split_from_step fuel seed old new old_bits n = refl

-- The answer of the loop, as the theorem below states it.
abbrev Splits : (k old new seed : ℕ) → Type 0
Splits k old new seed =
    (b : Bool) × (is_split_from (new + 1) seed old new (suc k) 1 ≡ some b)
    × ((b ≡ true) ↔ ((s : ℕ) × Child (2 ^ suc k - 1) seed old new s))

small_digit : (q p r : ℕ) → q * p + r < p * 2 → q < 2
small_digit zero p r h = omega arith
small_digit (suc zero) p r h = omega arith
small_digit (suc (suc q)) p r h = absurd (omega arith)

module _ (k t low old new : ℕ) (ht : t < 2) (hl : low < 2 ^ k) (lower : 2 ^ k ≤ old)
    (inside : t * 2 ^ k + low < old) (small : new ≤ 2 ^ 30) (more : old < new) where
  abbrev seed : ℕ
  seed = t * 2 ^ k + low

  abbrev falls : ℕ → ℕ
  falls s = stable_mod s old (2 ^ suc k - 1)

  -- Each number that falls into the group is met by the loop.
  met : (s : ℕ) → old ≤ s → falls s ≡ seed → (n : ℕ) × (1 ≤ n) × (joined k t low n ≡ s)
  met s h e = elim (Bool-cases (ltb (s % 2 ^ suc k) old)) [
    | inl p ↦
        let at : s % 2 ^ suc k ≡ seed = ground (arith, stable_mod-mask_suc s old k) in
        (
          s / 2 ^ suc k * 2 + t,
          positive (s / 2 ^ suc k) (omega (arith, div-add-mod' s (2 ^ suc k))),
          joined_wide k t low (s / 2 ^ suc k) ht ∙ omega (arith, div-add-mod' s (2 ^ suc k)),
        )
    | inr p ↦
        let at : s % 2 ^ k ≡ seed = ground (arith, stable_mod-mask_suc s old k) in
        let none_high : t ≡ 0 = no_high t (omega (arith, mod-lt s (pow-pos k))) in
        (
          s / 2 ^ k,
          narrow_positive (s / 2 ^ k) (split_low none_high at),
          ap (λ c. joined k c low (s / 2 ^ k)) none_high
              ∙ joined_narrow k low (s / 2 ^ k)
              ∙ sym (split_low none_high at),
        )
  ]
    where
      split_low : t ≡ 0 → s % 2 ^ k ≡ seed → s ≡ s / 2 ^ k * 2 ^ k + low
      split_low z at = omega (arith, div-add-mod' s (2 ^ k), ap (λ c. c * 2 ^ k) z)

      narrow_positive : (q : ℕ) → s ≡ q * 2 ^ k + low → 1 ≤ q
      narrow_positive zero z = absurd (omega arith)
      narrow_positive (suc q) z = omega arith

      positive : (q : ℕ) → s ≡ q * 2 ^ suc k + seed → 1 ≤ q * 2 + t
      positive zero z = absurd (omega arith)
      positive (suc q) z = omega arith

      no_high : (c : ℕ) → c * 2 ^ k < 2 ^ k → c ≡ 0
      no_high zero z = refl
      no_high (suc c) z = absurd (omega arith)

  abbrev met_by : ℕ → ℕ
  met_by n = joined k t low n

  -- What the loop from `n` on answers.
  abbrev Answer : ℕ → Option Bool → Type 0
  Answer n r =
      ((r ≡ some true) × ((s : ℕ) × Child (2 ^ suc k - 1) seed old new s))
      ⊎ ((r ≡ some false)
          × ((j : ℕ) → n ≤ j → old ≤ met_by j → met_by j < new → falls (met_by j) ≢ seed))

  abbrev round : ℕ → ℕ
  round n = u32 (bit_or (n * 2 ^ (suc k - 1)) seed)

  round-joined : (n : ℕ) → (n + 2) * 2 ^ k < 2 ^ 32 → round n ≡ met_by n
  round-joined n h =
      ap (λ i. u32 (bit_or (n * 2 ^ i) seed)) (omega arith)
      ∙ ap u32 (bit_or-join k n t low ht hl)
      ∙ mod-eq_of_lt (omega (arith, joined_le k t low n ht hl))

  -- A number of the loop that is no answer is passed.
  passed :
      (n : ℕ) (r : Option Bool)
      → (old ≤ met_by n → met_by n < new → falls (met_by n) ≢ seed)
      → Answer (n + 1) r
      → Answer n r
  passed n r here (inl x) = inl x
  passed n r here (inr (e, none_left)) = inr (
    e,
    λ j le lo hi. elim (dec_lt n j) [
      | yes lt ↦ none_left j (omega arith) lo hi
      | no ge ↦ let same : n ≡ j = omega arith in rw (← same) (here (rw same lo) (rw same hi))
    ],
  )

  loop-Answer :
      (fuel n : ℕ)
      → 1 ≤ n
      → new < n + fuel
      → n * 2 ^ k < new + 2 ^ k
      → Answer n (is_split_from fuel seed old new (suc k) n)
  loop-Answer zero zero h f b = absurd (omega arith)
  loop-Answer zero (suc n) h f b = absurd (omega (arith, le-mul_pow k n))
  loop-Answer (suc fuel) n h f b =
      let further = loop-Answer fuel (n + 1) (omega arith) (omega arith) in
      rw (is_split_from_step fuel seed old new (suc k) n, round-joined n (omega arith))
        (elim (Bool-cases (ltb (met_by n) old || met_by n == seed)) [
          | inl p ↦ rw p (
              passed n _ (λ lo hi e. absurd (ground arith))
                (further (ground (arith, joined_ge k t low n))))
          | inr p ↦ elim (Bool-cases (leb new (met_by n))) [
            | inl q ↦
                rw (p, q)
                  (inr (
                    refl,
                    λ j le lo hi.
                        absurd (omega (arith, joined_mono k t low n j le, leb→le new (met_by n) q)),
                  ))
            | inr q ↦ elim (Bool-cases (falls (met_by n) == seed)) [
              | inl r ↦
                  rw (p, q, r)
                    (inl (refl, (met_by n, (ground arith, ground arith, (==_iff _ _).0 r))))
              | inr r ↦
                  rw (p, q, r)
                    (passed n _
                      (λ lo hi e. absurd (ground (arith, (==_iff (falls (met_by n)) seed).1)))
                      (further (ground (arith, joined_ge k t low n))))
            ]
          ]
        ])

  loop-Splits : Splits k old new seed
  loop-Splits = elim (loop-Answer (new + 1) 1 (omega arith) (omega arith) (omega arith)) [
    | inl (e, found) ↦ (true, e, (λ z. found, λ z. refl))
    | inr (e, none_left) ↦ (false, e, (λ z. absurd cc, λ c. absurd (missed none_left c)))
  ]
    where
      missed :
          ((j : ℕ) → 1 ≤ j → old ≤ met_by j → met_by j < new → falls (met_by j) ≢ seed)
          → ((s : ℕ) × Child (2 ^ suc k - 1) seed old new s)
          → ⊥
      missed none_left (s, (lo, hi, e)) =
          let (n, one, at) = met s lo e in
          none_left n one (omega arith) (omega arith) (ap falls at ∙ e)

-- For a group of the pool and a new number of groups up to 2^30, ceph_pg_is_split ends, and answers yes
-- exactly if one of the groups that are new falls, under the old number of groups, into this one.
pub pg_is_split_iff :
    (pgid : Pg) (old_pg_num new_pg_num : ℕ)
    → pgid.seed < old_pg_num
    → new_pg_num ≤ 2 ^ 30
    → (b : Bool) × (pg_is_split pgid old_pg_num new_pg_num ≡ some b)
      × ((b ≡ true)
          ↔ ((s : ℕ) × Child (2 ^ calc_bits_of old_pg_num - 1) pgid.seed old_pg_num new_pg_num s))
unfolding pg_is_split
pg_is_split_iff pgid old new h small = elim (Bool-cases (leb new old)) [
  | inl p ↦
      rw p (
        false,
        refl,
        (λ z. absurd cc, λ (s, (lo, hi, e)). absurd (omega (arith, leb→le new old p))),
      )
  | inr p ↦ rw p (over (calc_bits_of old) refl (ground arith))
]
  where
    over :
        (bits : ℕ)
        → calc_bits_of old ≡ bits
        → old < new
        → (b : Bool) × (is_split_from (new + 1) pgid.seed old new (calc_bits_of old) 1 ≡ some b)
          × ((b ≡ true) ↔ ((s : ℕ) × Child (2 ^ calc_bits_of old - 1) pgid.seed old new s))
    over zero e more = absurd (omega (arith, calc_bits_of-lt old, ap (λ i. 2 ^ i) e))
    over (suc k) e more = rw e (
        subst (λ z. Splits k old new z) whole
          (loop-Splits k (pgid.seed / 2 ^ k) (pgid.seed % 2 ^ k) old new
            (small_digit (pgid.seed / 2 ^ k) (2 ^ k) (pgid.seed % 2 ^ k) (omega (arith, wide)))
            (mod-lt pgid.seed (pow-pos k)) (calc_bits_of-le old k e) (omega (arith, whole)) small
            more))
      where
        whole : pgid.seed / 2 ^ k * 2 ^ k + pgid.seed % 2 ^ k ≡ pgid.seed
        whole = div-add-mod' pgid.seed (2 ^ k)

        wide : pgid.seed / 2 ^ k * 2 ^ k + pgid.seed % 2 ^ k < 2 ^ k * 2
        wide = omega (arith, whole, calc_bits_of-lt old, ap (λ i. 2 ^ i) e, pow-suc k)
