-- ===== src/Armor/RoundTrip.antt =====
-- What ceph_armor writes, ceph_unarmor reads back.
use xcp_ng_ceph_rbd.Base.{
  ℕ, zero, suc, ◌+◌, ◌*◌, ◌/◌, ◌%◌, ◌<◌, ◌≡◌, inl, inr, refl, ◌&&◌, Bool, true, false, List, [],
  ◌∷◌, ◌++◌, Option, none, some, ◌==◌, All, IsByte, not, arith, Bool-cases, ==_iff,
}
use xcp_ng_ceph_rbd.Armor.{
  newline, padding, encode_bits, decode_bits, break_line, next_line, armor_from, armor, ◌>>=◌, quad,
  unarmor,
}

-- The character of a value is read back, and is no line break and no padding.
abbrev Reads : ℕ → Type 0
Reads v =
    (decode_bits (encode_bits v) ≡ some v)
    × (encode_bits v == newline ≡ false)
    × (encode_bits v == padding ≡ false)

abbrev is_read : ℕ → Bool
is_read v = elim (decode_bits (encode_bits v)) [
  | none ↦ false
  | some u ↦ u == v && (not (encode_bits v == newline) && not (encode_bits v == padding))
]

abbrev all_read : ℕ → Bool
all_read zero = true
all_read (suc n) = is_read n && all_read n

all_read-64 : all_read 64 ≡ true
unfolding encode_bits decode_bits
all_read-64 = refl

read_below : (n v : ℕ) → all_read n ≡ true → v < n → is_read v ≡ true
read_below zero v h lt = absurd (omega arith)
read_below (suc n) v h lt = elim (Bool-cases (v == n)) [
  | inl t ↦ ground (arith, (==_iff v n).0 t)
  | inr t ↦ read_below n v (ground arith) (ground arith)
]

Reads-64 : (v : ℕ) → v < 64 → Reads v
Reads-64 v h = let r : is_read v ≡ true = read_below 64 v all_read-64 h in ground arith

unarmor-quad :
    (w x y z : ℕ) (rest : List ℕ)
    → w == newline ≡ false
    → unarmor (w ∷ x ∷ y ∷ z ∷ rest) ≡ quad w x y z (unarmor rest)
unfolding unarmor
unarmor-quad w x y z rest h = rw h

unarmor_nil : unarmor [] ≡ some []
unfolding unarmor
unarmor_nil = refl

-- A line break is passed.
unarmor-newline : (rest : List ℕ) → unarmor (newline ∷ rest) ≡ unarmor rest
unfolding unarmor
unarmor-newline [] = refl
unarmor-newline (x ∷ []) = refl
unarmor-newline (x ∷ y ∷ []) = refl
unarmor-newline (x ∷ y ∷ z ∷ rest) = refl

unarmor-break_line : (line : ℕ) (rest : List ℕ) → unarmor (break_line line ++ rest) ≡ unarmor rest
unarmor-break_line line rest = elim (Bool-cases (line + 4 == 64)) [
  | inl t ↦ rw t (unarmor-newline rest)
  | inr t ↦ rw t
]

decode-padding : decode_bits padding ≡ some 0
unfolding decode_bits
decode-padding = refl

quad_whole :
    (p q r s : ℕ) (rest : Option (List ℕ))
    → p < 64
    → q < 64
    → r < 64
    → s < 64
    → quad (encode_bits p) (encode_bits q) (encode_bits r) (encode_bits s) rest ≡ (
        rest >>= λ bytes.
        some ((p * 4 + q / 16) ∷ (q % 16 * 16 + r / 4) ∷ (r % 4 * 64 + s) ∷ bytes))
quad_whole p q r s rest hp hq hr hs =
    let c = Reads-64 r hr in
    let d = Reads-64 s hs in rw ((Reads-64 p hp).0, (Reads-64 q hq).0, c.0, d.0, c.2, d.2)

quad_two :
    (p q r : ℕ) (rest : Option (List ℕ))
    → p < 64
    → q < 64
    → r < 64
    → quad (encode_bits p) (encode_bits q) (encode_bits r) padding rest
      ≡ some ((p * 4 + q / 16) ∷ (q % 16 * 16 + r / 4) ∷ [])
quad_two p q r rest hp hq hr =
    let c = Reads-64 r hr in rw ((Reads-64 p hp).0, (Reads-64 q hq).0, c.0, decode-padding, c.2)

quad_one :
    (p q : ℕ) (rest : Option (List ℕ))
    → p < 64
    → q < 64
    → quad (encode_bits p) (encode_bits q) padding padding rest ≡ some ((p * 4 + q / 16) ∷ [])
quad_one p q rest hp hq = rw ((Reads-64 p hp).0, (Reads-64 q hq).0, decode-padding)

unarmor-armor_from :
    (line : ℕ) (src : List ℕ) → All IsByte src → unarmor (armor_from line src) ≡ some src
unfolding armor_from
unarmor-armor_from line [] h = unarmor_nil
unarmor-armor_from line (a ∷ []) (ha, h) =
    rw
      (
        unarmor-quad _ _ _ _ (break_line line) (Reads-64 (a / 4) (omega arith)).1,
        quad_one (a / 4) (a % 4 * 16) (unarmor (break_line line)) (omega arith) (omega arith),
      )
      (ground arith)
unarmor-armor_from line (a ∷ b ∷ []) (ha, (hb, h)) =
    rw
      (
        unarmor-quad _ _ _ _ (break_line line) (Reads-64 (a / 4) (omega arith)).1,
        quad_two (a / 4) (a % 4 * 16 + b / 16) (b % 16 * 4) (unarmor (break_line line))
            (omega arith) (omega arith) (omega arith),
      )
      (ground arith)
unarmor-armor_from line (a ∷ b ∷ c ∷ rest) (ha, (hb, (hc, h))) =
    rw
      (
        unarmor-quad _ _ _ _ (break_line line ++ armor_from (next_line line) rest)
            (Reads-64 (a / 4) (omega arith)).1,
        quad_whole (a / 4) (a % 4 * 16 + b / 16) (b % 16 * 4 + c / 64) (c % 64)
            (unarmor (break_line line ++ armor_from (next_line line) rest)) (omega arith)
            (omega arith) (omega arith) (omega arith),
        unarmor-break_line line (armor_from (next_line line) rest),
        unarmor-armor_from (next_line line) rest h,
      )
      (ground arith)

-- For any bytes, ceph_unarmor reads from what ceph_armor writes, line breaks and padding included,
-- exactly those bytes.
pub unarmor-armor : (src : List ℕ) → All IsByte src → unarmor (armor src) ≡ some src
unfolding armor
unarmor-armor src h = unarmor-armor_from 0 src h
