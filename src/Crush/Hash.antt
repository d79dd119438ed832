-- ===== src/Crush/Hash.antt =====
-- kernel-modules/src/libceph/crush/hash.c: Robert Jenkins' hash on 32-bit words.
use xcp_ng_ceph_rbd.Base.{ℕ, ◌*◌, ◌/◌, ◌^◌, bit_xor, sub32, u32, ◌==◌, if◌then◌else◌}

-- `a = a-b;  a = a-c;  a = a^(c>>k);` and the same with `<<`.
abbrev pub mix_right : ℕ → ℕ → ℕ → ℕ → ℕ
mix_right a b c k = bit_xor (sub32 (sub32 a b) c) (c / 2 ^ k)

abbrev pub mix_left : ℕ → ℕ → ℕ → ℕ → ℕ
mix_left a b c k = bit_xor (sub32 (sub32 a b) c) (u32 (c * 2 ^ k))

-- crush_hashmix.
pub hashmix : ℕ → ℕ → ℕ → ℕ × ℕ × ℕ
hashmix a b c =
    let a₁ = mix_right a b c 13 in
    let b₁ = mix_left b c a₁ 8 in
    let c₁ = mix_right c a₁ b₁ 13 in
    let a₂ = mix_right a₁ b₁ c₁ 12 in
    let b₂ = mix_left b₁ c₁ a₂ 16 in
    let c₂ = mix_right c₁ a₂ b₂ 5 in
    let a₃ = mix_right a₂ b₂ c₂ 3 in
    let b₃ = mix_left b₂ c₂ a₃ 10 in let c₃ = mix_right c₂ a₃ b₃ 15 in (a₃, b₃, c₃)

abbrev pub hash_seed : ℕ
hash_seed = 1315423911

abbrev pub hash_x : ℕ
hash_x = 231232

abbrev pub hash_y : ℕ
hash_y = 1232

pub hash32_rjenkins1 : ℕ → ℕ
unfolding hashmix
hash32_rjenkins1 a =
    let hash = bit_xor hash_seed a in
    let (b, x, hash₁) = hashmix a hash_x hash in
    let (y, a₁, hash₂) = hashmix hash_y a hash₁ in hash₂

pub hash32_rjenkins1_2 : ℕ → ℕ → ℕ
unfolding hashmix
hash32_rjenkins1_2 a b =
    let hash = bit_xor (bit_xor hash_seed a) b in
    let (a₁, b₁, hash₁) = hashmix a b hash in
    let (x, a₂, hash₂) = hashmix hash_x a₁ hash₁ in
    let (b₂, y, hash₃) = hashmix b₁ hash_y hash₂ in hash₃

pub hash32_rjenkins1_3 : ℕ → ℕ → ℕ → ℕ
unfolding hashmix
hash32_rjenkins1_3 a b c =
    let hash = bit_xor (bit_xor (bit_xor hash_seed a) b) c in
    let (a₁, b₁, hash₁) = hashmix a b hash in
    let (c₁, x₁, hash₂) = hashmix c hash_x hash₁ in
    let (y₁, a₂, hash₃) = hashmix hash_y a₁ hash₂ in
    let (b₂, x₂, hash₄) = hashmix b₁ x₁ hash₃ in let (y₂, c₂, hash₅) = hashmix y₁ c₁ hash₄ in hash₅

pub hash32_rjenkins1_4 : ℕ → ℕ → ℕ → ℕ → ℕ
unfolding hashmix
hash32_rjenkins1_4 a b c d =
    let hash = bit_xor (bit_xor (bit_xor (bit_xor hash_seed a) b) c) d in
    let (a₁, b₁, hash₁) = hashmix a b hash in
    let (c₁, d₁, hash₂) = hashmix c d hash₁ in
    let (a₂, x₁, hash₃) = hashmix a₁ hash_x hash₂ in
    let (y₁, b₂, hash₄) = hashmix hash_y b₁ hash₃ in
    let (c₂, x₂, hash₅) = hashmix c₁ x₁ hash₄ in let (y₂, d₂, hash₆) = hashmix y₁ d₁ hash₅ in hash₆

pub hash32_rjenkins1_5 : ℕ → ℕ → ℕ → ℕ → ℕ → ℕ
unfolding hashmix
hash32_rjenkins1_5 a b c d e =
    let hash = bit_xor (bit_xor (bit_xor (bit_xor (bit_xor hash_seed a) b) c) d) e in
    let (a₁, b₁, hash₁) = hashmix a b hash in
    let (c₁, d₁, hash₂) = hashmix c d hash₁ in
    let (e₁, x₁, hash₃) = hashmix e hash_x hash₂ in
    let (y₁, a₂, hash₄) = hashmix hash_y a₁ hash₃ in
    let (b₂, x₂, hash₅) = hashmix b₁ x₁ hash₄ in
    let (y₂, c₂, hash₆) = hashmix y₁ c₁ hash₅ in
    let (d₂, x₃, hash₇) = hashmix d₁ x₂ hash₆ in let (y₃, e₂, hash₈) = hashmix y₂ e₁ hash₇ in hash₈

-- CRUSH_HASH_RJENKINS1 is the only kind; any other gives 0.
unfoldable pub hash32 : ℕ → ℕ → ℕ
hash32 kind a = if kind == 0 then hash32_rjenkins1 a else 0

unfoldable pub hash32_2 : ℕ → ℕ → ℕ → ℕ
unfolding hash32_rjenkins1_2
hash32_2 kind a b = if kind == 0 then hash32_rjenkins1_2 a b else 0

unfoldable pub hash32_3 : ℕ → ℕ → ℕ → ℕ → ℕ
unfolding hash32_rjenkins1_3
hash32_3 kind a b c = if kind == 0 then hash32_rjenkins1_3 a b c else 0

unfoldable pub hash32_4 : ℕ → ℕ → ℕ → ℕ → ℕ → ℕ
unfolding hash32_rjenkins1_4
hash32_4 kind a b c d = if kind == 0 then hash32_rjenkins1_4 a b c d else 0

unfoldable pub hash32_5 : ℕ → ℕ → ℕ → ℕ → ℕ → ℕ → ℕ
hash32_5 kind a b c d e = if kind == 0 then hash32_rjenkins1_5 a b c d e else 0
