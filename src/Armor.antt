-- ===== src/Armor.antt =====
-- kernel-modules/src/libceph/armor.c: base64, in lines of 64 characters.
-- A character is its code, and the buffer that is written is the result; its length is what the C
-- functions return. Where the code joins bits that do not overlap by `|`, they are added.
pub mod RoundTrip
mod Tests
use xcp_ng_ceph_rbd.Base.{
  ℕ, ◌+◌, ◌-◌, ◌*◌, ◌/◌, ◌%◌, ◌&&◌, Bool, List, [], ◌∷◌, ◌++◌, Option, none, some, get_or, leb,
  ◌==◌, if◌then◌else◌,
}

-- Upper case, lower case, the digits, plus and slash.
abbrev pub pem_key : List ℕ
pem_key =
    65 ∷ 66 ∷ 67 ∷ 68 ∷ 69 ∷ 70 ∷ 71 ∷ 72 ∷ 73 ∷ 74 ∷ 75 ∷ 76 ∷ 77 ∷ 78 ∷ 79 ∷ 80 ∷ 81 ∷ 82 ∷ 83
    ∷ 84 ∷ 85 ∷ 86 ∷ 87 ∷ 88 ∷ 89 ∷ 90 ∷ 97 ∷ 98 ∷ 99 ∷ 100 ∷ 101 ∷ 102 ∷ 103 ∷ 104 ∷ 105 ∷ 106
    ∷ 107 ∷ 108 ∷ 109 ∷ 110 ∷ 111 ∷ 112 ∷ 113 ∷ 114 ∷ 115 ∷ 116 ∷ 117 ∷ 118 ∷ 119 ∷ 120 ∷ 121 ∷ 122
    ∷ 48 ∷ 49 ∷ 50 ∷ 51 ∷ 52 ∷ 53 ∷ 54 ∷ 55 ∷ 56 ∷ 57 ∷ 43 ∷ 47 ∷ []

abbrev pub newline : ℕ
newline = 10

abbrev pub padding : ℕ
padding = 61

unfoldable pub encode_bits : ℕ → ℕ
encode_bits c = get_or pem_key c 0

abbrev pub between : ℕ → ℕ → ℕ → Bool
between c lo hi = leb lo c && leb c hi

-- `none` is -EINVAL. The padding counts as zero.
pub decode_bits : ℕ → Option ℕ
decode_bits c =
    if between c 65 90
    then some (c - 65)
    else if between c 97 122
    then some (c - 97 + 26)
    else if between c 48 57
    then some (c - 48 + 52)
    else if c == 43
    then some 62
    else if c == 47
    then some 63
    else if c == padding
    then some 0
    else none

-- The end of a round: after 64 characters the line is broken.
abbrev pub break_line : ℕ → List ℕ
break_line line = if line + 4 == 64 then newline ∷ [] else []

abbrev pub next_line : ℕ → ℕ
next_line line = if line + 4 == 64 then 0 else line + 4

-- ceph_armor, with `line` characters in the line that is being written.
unfoldable pub armor_from : ℕ → List ℕ → List ℕ
armor_from line [] = []
armor_from line (a ∷ []) =
    encode_bits (a / 4) ∷ encode_bits (a % 4 * 16) ∷ padding ∷ padding ∷ break_line line
armor_from line (a ∷ b ∷ []) =
    encode_bits (a / 4)
    ∷ encode_bits (a % 4 * 16 + b / 16)
    ∷ encode_bits (b % 16 * 4)
    ∷ padding
    ∷ break_line line
armor_from line (a ∷ b ∷ c ∷ rest) =
    encode_bits (a / 4)
    ∷ encode_bits (a % 4 * 16 + b / 16)
    ∷ encode_bits (b % 16 * 4 + c / 64)
    ∷ encode_bits (c % 64)
    ∷ (break_line line ++ armor_from (next_line line) rest)

unfoldable pub armor : List ℕ → List ℕ
unfolding encode_bits armor_from
armor src = armor_from 0 src

infixl 5 ◌>>=◌
abbrev pub ◌>>=◌ {ℓ κ} : {A : Type ℓ} {B : Type κ} → Option A → (A → Option B) → Option B
none >>= rest = none
some a >>= rest = rest a

-- Four characters as bytes, in front of what follows; the padding ends the text.
abbrev pub quad : ℕ → ℕ → ℕ → ℕ → Option (List ℕ) → Option (List ℕ)
quad w x y z rest = do
  a ← decode_bits w
  b ← decode_bits x
  c ← decode_bits y
  d ← decode_bits z
  if y == padding
      then some ((a * 4 + b / 16) ∷ [])
      else if z == padding
      then some ((a * 4 + b / 16) ∷ (b % 16 * 16 + c / 4) ∷ [])
      else do
        bytes ← rest
        some ((a * 4 + b / 16) ∷ (b % 16 * 16 + c / 4) ∷ (c % 4 * 64 + d) ∷ bytes)

-- ceph_unarmor; `none` is -EINVAL.
pub unarmor : List ℕ → Option (List ℕ)
unarmor [] = some []
unarmor (w ∷ []) = let skipped = unarmor [] in if w == newline then skipped else none
unarmor (w ∷ x ∷ []) = let skipped = unarmor (x ∷ []) in if w == newline then skipped else none
unarmor (w ∷ x ∷ y ∷ []) =
    let skipped = unarmor (x ∷ y ∷ []) in if w == newline then skipped else none
unarmor (w ∷ x ∷ y ∷ z ∷ rest) =
    let skipped = unarmor (x ∷ y ∷ z ∷ rest) in
    let decoded = quad w x y z (unarmor rest) in if w == newline then skipped else decoded
