-- ===== src/StrHash/Width.antt =====
-- The dcache hash of a name does not depend on the width of the machine's unsigned long.
use xcp_ng_ceph_rbd.Base.{ℕ, ◌+◌, ◌*◌, ◌/◌, ◌^◌, ◌≡◌, refl, ap, ◌∙◌, List, [], ◌∷◌, u32, u64, arith}
use xcp_ng_ceph_rbd.StrHash.{linux_from, str_hash_linux}

-- The hash with an accumulator of 32 bits.
abbrev pub narrow_from : ℕ → List ℕ → ℕ
narrow_from hash [] = hash
narrow_from hash (c ∷ rest) = narrow_from (u32 ((hash + c * 2 ^ 4 + c / 2 ^ 4) * 11)) rest

linux_from-narrow_from : (h : ℕ) (str : List ℕ) → linux_from h str ≡ narrow_from (u32 h) str
unfolding linux_from
linux_from-narrow_from h [] = refl
linux_from-narrow_from h (c ∷ rest) =
    linux_from-narrow_from (u64 ((h + c * 2 ^ 4 + c / 2 ^ 4) * 11)) rest
    ∙ ap (λ x. narrow_from x rest) (omega arith)

-- For every name, ceph_str_hash_linux gives what it would with an accumulator of 32 bits.
pub str_hash_linux-narrow_from : (str : List ℕ) → str_hash_linux str ≡ narrow_from 0 str
unfolding str_hash_linux
str_hash_linux-narrow_from str = linux_from-narrow_from 0 str
