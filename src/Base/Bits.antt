-- ===== src/Base/Bits.antt =====
-- The bits of a number: one digit at a time, masks of low bits, and the joining of a high and a low
-- part.
use Prim.Native.Nat.{
  ℕ, zero, suc, ◌+◌, ◌-◌, ◌*◌, ◌/◌, ◌%◌, ◌^◌, ◌≤◌, ◌<◌, min, max, bit_and, bit_or, digits, bitwise,
  bit_and-bitwise, bit_or-bitwise,
}
use mathlib.Core.Path.{◌≡◌, refl, ap, sym, ◌∙◌}
use native.Mathlib.Omega.{arith}
use native.Mathlib.Nat.{mod-lt, mod-eq_of_lt, div-add-mod', mul-add-mod_self_right}

pub pow-pos : (n : ℕ) → 0 < 2 ^ n
pow-pos zero = omega arith
pow-pos (suc n) = omega (arith, pow-pos n)

pub pow-suc : (n : ℕ) → 2 ^ suc n ≡ 2 ^ n * 2
pow-suc n = omega arith

-- An operation on digits whose value for a number that has run out agrees with it.
module _ (z : ℕ → ℕ) (f : ℕ → ℕ → ℕ) (base : (b : ℕ) → z (b / 2) * 2 + f 0 (b % 2) ≡ z b) where
  -- More digits to go change nothing.
  digits_enough : (n m a b : ℕ) → a ≤ n → a ≤ m → digits z f n a b ≡ digits z f m a b
  digits_enough zero zero a b hn hm = refl
  digits_enough zero (suc m) zero b hn hm = refl
  digits_enough zero (suc m) (suc a) b hn hm = absurd (omega arith)
  digits_enough (suc n) zero zero b hn hm = refl
  digits_enough (suc n) zero (suc a) b hn hm = absurd (omega arith)
  digits_enough (suc n) (suc m) zero b hn hm = refl
  digits_enough (suc n) (suc m) (suc a) b hn hm =
      ap (λ t. t * 2 + f (suc a % 2) (b % 2))
        (digits_enough n m (suc a / 2) (b / 2) (omega arith) (omega arith))

  bitwise_halves : (a b : ℕ) → bitwise z f a b ≡ bitwise z f (a / 2) (b / 2) * 2 + f (a % 2) (b % 2)
  bitwise_halves zero b = sym (base b)
  bitwise_halves (suc a) b =
      ap (λ t. t * 2 + f (suc a % 2) (b % 2))
        (digits_enough a (suc a / 2) (suc a / 2) (b / 2) (omega arith) (omega arith))

pub bit_and_halves : (a b : ℕ) → bit_and a b ≡ bit_and (a / 2) (b / 2) * 2 + min (a % 2) (b % 2)
bit_and_halves a b =
    bit_and-bitwise a b
    ∙ bitwise_halves (λ c. zero) min (λ c. omega arith) a b
    ∙ ap (λ t. t * 2 + min (a % 2) (b % 2)) (sym (bit_and-bitwise (a / 2) (b / 2)))

pub bit_or_halves : (a b : ℕ) → bit_or a b ≡ bit_or (a / 2) (b / 2) * 2 + max (a % 2) (b % 2)
bit_or_halves a b =
    bit_or-bitwise a b
    ∙ bitwise_halves (λ c. c) max (λ c. omega arith) a b
    ∙ ap (λ t. t * 2 + max (a % 2) (b % 2)) (sym (bit_or-bitwise (a / 2) (b / 2)))

bit_and-zero_below : (n a : ℕ) → a ≤ n → bit_and a 0 ≡ 0
bit_and-zero_below n zero h = refl
bit_and-zero_below zero (suc a) h = absurd (omega arith)
bit_and-zero_below (suc n) (suc a) h =
    omega (arith, bit_and_halves (suc a) 0, bit_and-zero_below n (suc a / 2) (omega arith))

bit_or-zero_below : (n a : ℕ) → a ≤ n → bit_or a 0 ≡ a
bit_or-zero_below n zero h = refl
bit_or-zero_below zero (suc a) h = absurd (omega arith)
bit_or-zero_below (suc n) (suc a) h =
    omega (arith, bit_or_halves (suc a) 0, bit_or-zero_below n (suc a / 2) (omega arith))

-- The low digit of a remainder by a power of two.
pub mod_halves : (x p : ℕ) → 0 < p → x % (p * 2) ≡ x / 2 % p * 2 + x % 2
mod_halves x p h =
    ap (λ t. t % (p * 2)) whole
    ∙ mul-add-mod_self_right (x / 2 / p) (p * 2) (x / 2 % p * 2 + x % 2)
    ∙ mod-eq_of_lt (omega (arith, mod-lt (x / 2) h))
  where
    whole : x ≡ x / 2 / p * (p * 2) + (x / 2 % p * 2 + x % 2)
    whole = omega (arith, div-add-mod' (x / 2) p)

-- A mask of `n` ones is a remainder.
pub bit_and-mask : (n x : ℕ) → bit_and x (2 ^ n - 1) ≡ x % 2 ^ n
bit_and-mask zero x = omega (arith, bit_and-zero_below x x (omega arith))
bit_and-mask (suc n) x = omega (
  arith,
  bit_and_halves x (2 ^ suc n - 1),
  ap (bit_and (x / 2)) half,
  bit_and-mask n (x / 2),
  mod_halves x (2 ^ n) (pow-pos n),
  ap (λ p. x % p) (pow-suc n),
  pow-pos n,
)
  where
    half : (2 ^ suc n - 1) / 2 ≡ 2 ^ n - 1
    half = omega (arith, pow-pos n)

-- A number over `k` low digits joined with one of `k + 1` digits.
pub bit_or-join :
    (k n t low : ℕ)
    → t < 2
    → low < 2 ^ k
    → bit_or (n * 2 ^ k) (t * 2 ^ k + low) ≡ (n / 2 * 2 + max (n % 2) t) * 2 ^ k + low
bit_or-join zero n t low ht hl = omega (
  arith,
  bit_or_halves (n * 2 ^ 0) (t * 2 ^ 0 + low),
  ap (bit_or (n * 2 ^ 0 / 2)) {x = (t * 2 ^ 0 + low) / 2} {y = 0} (omega arith),
  bit_or-zero_below (n * 2 ^ 0 / 2) (n * 2 ^ 0 / 2) (omega arith),
)
bit_or-join (suc k) n t low ht hl = rw (pow-suc k) (
    omega (
      arith,
      bit_or_halves (n * (2 ^ k * 2)) (t * (2 ^ k * 2) + low),
      joined,
      bit_or-join k n t (low / 2) ht (omega (arith, pow-suc k)),
    ))
  where
    joined :
        bit_or (n * (2 ^ k * 2) / 2) ((t * (2 ^ k * 2) + low) / 2)
        ≡ bit_or (n * 2 ^ k) (t * 2 ^ k + low / 2)
    joined =
        ap (λ a. bit_or a ((t * (2 ^ k * 2) + low) / 2)) (omega arith)
        ∙ ap (bit_or (n * 2 ^ k)) (omega arith)
