-- ===== src/Osdmap/Seeds/StableMod.antt =====
-- ceph_stable_mod with the mask of calc_pg_masks.
use xcp_ng_ceph_rbd.Base.{
  ℕ, zero, suc, ◌+◌, ◌-◌, ◌*◌, ◌/◌, ◌%◌, ◌^◌, ◌≤◌, ◌<◌, ◌≡◌, ◌⊎◌, inl, inr, refl, ap, ◌∙◌, ltb,
  ◌==◌, if◌then◌else◌, arith, Bool-cases,
}
use xcp_ng_ceph_rbd.Base.Bits.{pow-pos, pow-suc, bit_and-mask}
use native.Mathlib.Nat.{
  mod-lt, mod-eq_of_lt, div-add-mod', mul-add-mod_self_right, mul-le-mul_right, pow-le-pow_right,
}
use native.Mathlib.Decide.{dec_lt}
use native.Mathlib.Numerals.{add-one}
use xcp_ng_ceph_rbd.Osdmap.Seeds.{bits_from, calc_bits_of, pg_mask, stable_mod}

bits_from-zero : (fuel : ℕ) → bits_from fuel 0 ≡ 0
unfolding bits_from
bits_from-zero zero = refl
bits_from-zero (suc fuel) = refl

bits_from-suc : (fuel t : ℕ) → bits_from (suc fuel) (suc t) ≡ bits_from fuel (suc t / 2) + 1
unfolding bits_from
bits_from-suc fuel t = ground arith

bits_from-lt : (fuel t : ℕ) → t ≤ fuel → t < 2 ^ bits_from fuel t
bits_from-lt fuel zero h = pow-pos (bits_from fuel 0)
bits_from-lt zero (suc t) h = absurd (omega arith)
bits_from-lt (suc fuel) (suc t) h =
    rw (bits_from-suc fuel t, add-one (bits_from fuel (suc t / 2)))
      (omega
        (arith, bits_from-lt fuel (suc t / 2) (omega arith), pow-suc (bits_from fuel (suc t / 2))))

-- `calc_bits_of t` digits hold `t`, and one less does not.
pub calc_bits_of-lt : (t : ℕ) → t < 2 ^ calc_bits_of t
unfolding calc_bits_of
calc_bits_of-lt t = bits_from-lt t t (omega arith)

no_fuel : (t : ℕ) → bits_from 0 t ≡ 0
unfolding bits_from
no_fuel t = refl

bits_from-le : (fuel t k : ℕ) → bits_from fuel t ≡ suc k → 2 ^ k ≤ t
bits_from-le fuel zero k e = absurd (omega (arith, bits_from-zero fuel))
bits_from-le zero (suc t) k e = absurd (ground (arith, no_fuel (suc t)))
bits_from-le (suc fuel) (suc t) zero e = omega arith
bits_from-le (suc fuel) (suc t) (suc k) e =
    omega (arith, pow-suc k, bits_from-le fuel (suc t / 2) k (omega (arith, bits_from-suc fuel t)))

pub calc_bits_of-le : (t k : ℕ) → calc_bits_of t ≡ suc k → 2 ^ k ≤ t
unfolding calc_bits_of
calc_bits_of-le t k e = bits_from-le t t k e

stable_mod-mask :
    (x b k : ℕ)
    → stable_mod x b (2 ^ k - 1) ≡ (if ltb (x % 2 ^ k) b then x % 2 ^ k else x % 2 ^ (k - 1))
unfolding stable_mod
stable_mod-mask x b k = rw (half k, bit_and-mask k x, bit_and-mask (k - 1) x)
  where
    half : (j : ℕ) → (2 ^ j - 1) / 2 ≡ 2 ^ (j - 1) - 1
    half zero = omega arith
    half (suc j) = whole j ∙ ap (λ i. 2 ^ i - 1) (omega arith)
      where
        whole : (i : ℕ) → (2 ^ suc i - 1) / 2 ≡ 2 ^ i - 1
        whole i = omega (arith, pow-suc i, pow-pos i)

pg_mask-suc : (n : ℕ) → pg_mask (suc n) ≡ 2 ^ calc_bits_of n - 1
unfolding pg_mask
pg_mask-suc n = ap (λ t. 2 ^ calc_bits_of t - 1) {x = suc n - 1} {y = n} (omega arith)

-- The group that a seed falls into is one of the pool's, which has at least one.
pub stable_mod-lt : (x pg_num : ℕ) → 0 < pg_num → stable_mod x pg_num (pg_mask pg_num) < pg_num
unfolding pg_mask
stable_mod-lt x pg_num h =
    rw (stable_mod-mask x pg_num (calc_bits_of (pg_num - 1)))
      (within (calc_bits_of (pg_num - 1)) refl)
  where
    within :
        (k : ℕ)
        → calc_bits_of (pg_num - 1) ≡ k
        → (if ltb (x % 2 ^ k) pg_num then x % 2 ^ k else x % 2 ^ (k - 1)) < pg_num
    within zero e = ground arith
    within (suc k) e = ground (arith, calc_bits_of-le (pg_num - 1) k e, mod-lt x (pow-pos k))

pub stable_mod-mask_suc :
    (x b k : ℕ)
    → stable_mod x b (2 ^ suc k - 1) ≡ (if ltb (x % 2 ^ suc k) b then x % 2 ^ suc k else x % 2 ^ k)
stable_mod-mask_suc x b k =
    stable_mod-mask x b (suc k)
    ∙ ap (λ i. if ltb (x % 2 ^ suc k) b then x % 2 ^ suc k else x % 2 ^ i) (omega arith)

digit : (n : ℕ) → n ≡ n / 2 * 2 + n % 2
digit n = omega arith

digit_le : (n : ℕ) → n % 2 ≤ 1
digit_le n = omega arith

-- A remainder by twice a power of two, from one by the power.
low_half : (x k : ℕ) → (x % 2 ^ suc k ≡ x % 2 ^ k) ⊎ (x % 2 ^ suc k ≡ x % 2 ^ k + 2 ^ k)
low_half x k = elim (Bool-cases (q % 2 == 0)) [
  | inl t ↦ inl (omega (arith, found, ap (λ c. c * 2 ^ k) {x = q % 2} {y = 0} (ground arith)))
  | inr t ↦ inr (omega (arith, found, ap (λ c. c * 2 ^ k) {x = q % 2} {y = 1} (ground arith)))
]
  where
    q : ℕ
    q = x / 2 ^ k

    whole : x ≡ q / 2 * 2 ^ suc k + (q % 2 * 2 ^ k + x % 2 ^ k)
    whole = rw (pow-suc k) (omega (arith, div-add-mod' x (2 ^ k), ap (λ c. c * 2 ^ k) (digit q)))

    small : q % 2 * 2 ^ k + x % 2 ^ k < 2 ^ suc k
    small = omega (arith, pow-suc k, mod-lt x (pow-pos k), mul-le-mul_right (2 ^ k) (digit_le q))

    found : x % 2 ^ suc k ≡ q % 2 * 2 ^ k + x % 2 ^ k
    found =
        ap (λ t. t % 2 ^ suc k) whole
        ∙ mul-add-mod_self_right (q / 2) (2 ^ suc k) (q % 2 * 2 ^ k + x % 2 ^ k)
        ∙ mod-eq_of_lt small

-- The highest bit of a number is in one place.
highest : (n i j : ℕ) → 2 ^ i ≤ n → n < 2 ^ suc i → 2 ^ j ≤ n → n < 2 ^ suc j → i ≡ j
highest n i j hi li hj lj = elim (dec_lt i j) [
  | yes p ↦
      absurd
        (omega (arith, pow-le-pow_right {n = 2} (omega arith) {i = suc i} {j = j} (omega arith)))
  | no p ↦ elim (dec_lt j i) [
    | yes r ↦
        absurd
          (omega (arith, pow-le-pow_right {n = 2} (omega arith) {i = suc j} {j = i} (omega arith)))
    | no r ↦ omega arith
  ]
]

abbrev Grows : ℕ → ℕ → ℕ → ℕ → Type 0
Grows x n k k' =
    (stable_mod x (suc n) (2 ^ k' - 1) ≡ stable_mod x n (2 ^ k - 1))
    ⊎ (stable_mod x (suc n) (2 ^ k' - 1) ≡ n)

-- The masks agree, or the new one has a bit more.
Grows-same : (x n i : ℕ) → n < 2 ^ suc i → Grows x n (suc i) (suc i)
Grows-same x n i h = rw (stable_mod-mask_suc x (suc n) i, stable_mod-mask_suc x n i) (ground arith)

Grows-wider : (x n i : ℕ) → n ≡ 2 ^ suc i → Grows x n (suc i) (suc (suc i))
Grows-wider x n i e =
    rw (stable_mod-mask_suc x (suc n) (suc i), stable_mod-mask_suc x n i)
      (ground (arith, low_half x (suc i), mod-lt x (pow-pos (suc i))))

Grows-first : (x n : ℕ) → n ≡ 0 → Grows x (suc n) 0 1
Grows-first x n e =
    rw e (ground (arith, stable_mod-mask x 1 0, stable_mod-mask_suc x 2 0, pow-suc 0))

Grows-over :
    (x n k k' : ℕ)
    → n < 2 ^ k
    → ((i : ℕ) → k ≡ suc i → 2 ^ i ≤ n)
    → suc n < 2 ^ k'
    → ((j : ℕ) → k' ≡ suc j → 2 ^ j ≤ suc n)
    → Grows x (suc n) k k'
Grows-over x n k zero h l h' l' = absurd (omega arith)
Grows-over x n zero (suc j) h l h' l' =
    let first : 0 ≡ j =
      highest 1 0 j (omega arith) (omega arith) (omega (arith, l' j refl)) (omega arith) in
    rw (← first) (Grows-first x n (omega arith))
Grows-over x n (suc i) (suc j) h l h' l' = elim (dec_lt (suc n) (2 ^ suc i)) [
  | yes p ↦
      let same : i ≡ j = highest (suc n) i j (omega (arith, l i refl)) p (l' j refl) h' in
      rw (← same) (Grows-same x (suc n) i p)
  | no p ↦
      let full : suc n ≡ 2 ^ suc i = omega arith in
      let next : suc i ≡ j =
        highest (suc n) (suc i) j (omega arith) (omega (arith, pow-suc (suc i), pow-pos i))
          (l' j refl) h' in
      rw (← next) (Grows-wider x (suc n) i full)
]

-- One more group in a pool that has some: a seed stays in its group, or falls into the new one.
pub stable_mod-suc :
    (x pg_num : ℕ)
    → 0 < pg_num
    → (stable_mod x (suc pg_num) (pg_mask (suc pg_num)) ≡ stable_mod x pg_num (pg_mask pg_num))
      ⊎ (stable_mod x (suc pg_num) (pg_mask (suc pg_num)) ≡ pg_num)
stable_mod-suc x zero h = absurd (omega arith)
stable_mod-suc x (suc n) h =
    rw (pg_mask-suc n, pg_mask-suc (suc n))
      (Grows-over x n (calc_bits_of n) (calc_bits_of (suc n)) (calc_bits_of-lt n)
        (calc_bits_of-le n) (calc_bits_of-lt (suc n)) (calc_bits_of-le (suc n)))
