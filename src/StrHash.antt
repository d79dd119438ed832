-- ===== src/StrHash.antt =====
-- kernel-modules/src/libceph/ceph_hash.c: the hash functions for names, over their bytes.
mod Width
mod Tests
use xcp_ng_ceph_rbd.Base.{
  ℕ, ◌+◌, ◌*◌, ◌/◌, ◌^◌, ◌-◌, List, [], ◌∷◌, length, get_or, ◌==◌, if◌then◌else◌, u32, u64,
}
use xcp_ng_ceph_rbd.Crush.Hash.{hashmix}

-- Four bytes, the lowest first.
abbrev pub word : ℕ → ℕ → ℕ → ℕ → ℕ
word k₀ k₁ k₂ k₃ = k₀ + k₁ * 2 ^ 8 + k₂ * 2 ^ 16 + k₃ * 2 ^ 24

-- The last 11 bytes at most: the cases of the switch that are passed by add nothing, as a byte that
-- is 0 does. The first byte of `c` is left to the length.
pub last_bytes : ℕ → ℕ → ℕ → ℕ → List ℕ → ℕ
last_bytes len a b c k =
    let c' =
      u32
        (u32 (c + len) + (get_or k 8 0 * 2 ^ 8 + get_or k 9 0 * 2 ^ 16 + get_or k 10 0 * 2 ^ 24)) in
    let b' = u32 (b + word (get_or k 4 0) (get_or k 5 0) (get_or k 6 0) (get_or k 7 0)) in
    let a' = u32 (a + word (get_or k 0 0) (get_or k 1 0) (get_or k 2 0) (get_or k 3 0)) in
    let (a₁, b₁, c₁) = hashmix a' b' c' in c₁

-- The loop takes 12 bytes at a time.
pub rjenkins_from : ℕ → ℕ → ℕ → ℕ → List ℕ → ℕ
rjenkins_from len a b c (k₀ ∷ k₁ ∷ k₂ ∷ k₃ ∷ k₄ ∷ k₅ ∷ k₆ ∷ k₇ ∷ k₈ ∷ k₉ ∷ k₁₀ ∷ k₁₁ ∷ rest) =
    let (a₁, b₁, c₁) =
      hashmix (u32 (a + word k₀ k₁ k₂ k₃)) (u32 (b + word k₄ k₅ k₆ k₇))
        (u32 (c + word k₈ k₉ k₁₀ k₁₁)) in
    rjenkins_from len a₁ b₁ c₁ rest
rjenkins_from len a b c k = last_bytes len a b c k

pub str_hash_rjenkins : List ℕ → ℕ
str_hash_rjenkins str = rjenkins_from (u32 (length str)) 0x9e3779b9 0x9e3779b9 0 str

-- The dcache hash, whose accumulator is an unsigned long of 64 bits.
pub linux_from : ℕ → List ℕ → ℕ
linux_from hash [] = u32 hash
linux_from hash (c ∷ rest) = linux_from (u64 ((hash + c * 2 ^ 4 + c / 2 ^ 4) * 11)) rest

pub str_hash_linux : List ℕ → ℕ
str_hash_linux str = linux_from 0 str

-- An unknown type gives -1.
pub str_hash : ℕ → List ℕ → ℕ
str_hash type s =
    if type == 1 then str_hash_linux s else if type == 2 then str_hash_rjenkins s else 2 ^ 32 - 1
