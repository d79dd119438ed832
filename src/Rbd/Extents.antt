-- ===== src/Rbd/Extents.antt =====
-- The part of an object extent that the parent image has, of kernel-modules/src/rbd/rbd.c.
use xcp_ng_ceph_rbd.Base.{
  ℕ, ◌+◌, ◌-◌, ◌^◌, ◌≤◌, ◌<◌, ◌≡◌, ◌⊎◌, ◌↔◌, inl, inr, refl, Bool, true, false, List, [], ◌∷◌, ltb,
  leb, ◌==◌, if◌then◌else◌, ℤ, pos, negsuc, u64, arith, Bool-cases, ltb→lt, leb→le,
}
use native.Mathlib.Nat.{mod-eq_of_lt}
use xcp_ng_ceph_rbd.Crush.Outcome.{Outcome, ok, fault, stuck}
use xcp_ng_ceph_rbd.Striper.Layout.{Layout}
use xcp_ng_ceph_rbd.Striper.FileExtents.{FileExtent, Reply, extents, enomem, bug, extent_to_file}

-- prune_extents: the extents at the end that begin beyond the overlap go, and the last one that stays
-- is cut there.
abbrev pub trim : FileExtent → (overlap : ℕ) → FileExtent
trim fe overlap =
    if ltb overlap (u64 (fe.off + fe.len))
    then record { off = fe.off; len = overlap - fe.off }
    else fe

abbrev pub last_of : FileExtent → (overlap : ℕ) → List FileExtent → List FileExtent
last_of fe overlap [] = if leb overlap fe.off then [] else trim fe overlap ∷ []
last_of fe overlap (next ∷ rest) = fe ∷ next ∷ rest

unfoldable pub prune_extents : List FileExtent → (overlap : ℕ) → List FileExtent
prune_extents [] overlap = []
prune_extents (fe ∷ rest) overlap = last_of fe overlap (prune_extents rest overlap)

-- ceph_file_extents_bytes.
unfoldable pub file_extents_bytes : List FileExtent → ℕ
file_extents_bytes [] = 0
file_extents_bytes (fe ∷ rest) = u64 (fe.len + file_extents_bytes rest)

-- rbd_obj_calc_img_extents, with -ENOMEM.
abbrev pub pruned : (overlap : ℕ) → Reply → Outcome (ℤ × List FileExtent)
pruned overlap (extents fes) = ok (pos 0, prune_extents fes overlap)
pruned overlap enomem = ok (negsuc 11, [])
pruned overlap bug = fault
pruned overlap Reply.stuck = stuck

unfoldable pub calc_img_extents :
    Layout → (memory : Bool) → (overlap objno objoff objlen : ℕ) → Outcome (ℤ × List FileExtent)
calc_img_extents l memory overlap objno objoff objlen =
    if overlap == 0
    then ok (pos 0, [])
    else pruned overlap (extent_to_file l memory objno objoff objlen)

-- The bytes of an image that extents cover, and extents that stand in the image's order, below 2^64.
abbrev pub Covers : ℕ → List FileExtent → Type 0
Covers x [] = ⊥
Covers x (fe ∷ rest) = ((fe.off ≤ x) × (x < fe.off + fe.len)) ⊎ Covers x rest

abbrev pub IsAscending : (from : ℕ) → List FileExtent → Type 0
IsAscending from [] = Unit {0}
IsAscending from (fe ∷ rest) =
    (from ≤ fe.off) × (fe.off + fe.len < 2 ^ 64) × IsAscending (fe.off + fe.len) rest

abbrev Kept : (x overlap : ℕ) → (fes kept : List FileExtent) → Type 0
Kept x overlap fes kept = Covers x kept ↔ (Covers x fes × (x < overlap))

-- Something that is kept begins below the overlap.
abbrev Below : (overlap from : ℕ) → List FileExtent → Type 0
Below overlap from [] = Unit {0}
Below overlap from (fe ∷ rest) = from ≤ overlap

prune_extents-Below :
    (from overlap : ℕ) (fes : List FileExtent)
    → IsAscending from fes
    → Below overlap from (prune_extents fes overlap)
unfolding prune_extents
prune_extents-Below from overlap [] a = tt
prune_extents-Below from overlap (fe ∷ rest) (le, small, a) =
    last (prune_extents rest overlap) (prune_extents-Below (fe.off + fe.len) overlap rest a)
  where
    last :
        (kept : List FileExtent)
        → Below overlap (fe.off + fe.len) kept
        → Below overlap from (last_of fe overlap kept)
    last [] b = elim (Bool-cases (leb overlap fe.off)) [
      | inl p ↦ rw p tt
      | inr p ↦ rw p (ground arith)
    ]
    last (next ∷ more) b = omega arith

-- The last extent that begins below the overlap.
trim-Covers :
    (x overlap : ℕ) (fe : FileExtent)
    → fe.off + fe.len < 2 ^ 64
    → fe.off < overlap
    → Covers x (trim fe overlap ∷ []) ↔ (((fe.off ≤ x) × (x < fe.off + fe.len)) × (x < overlap))
trim-Covers x overlap fe small lt = elim (Bool-cases (ltb overlap (u64 (fe.off + fe.len)))) [
  | inl p ↦ rw p (
    λ c. elim c [ inl (lo, hi) ↦ ((lo, cut p hi), omega arith) | inr z ↦ absurd z ],
    λ ((lo, hi), below). inl (lo, omega arith),
  )
  | inr p ↦ rw p (
    λ c. elim c [ inl (lo, hi) ↦ ((lo, hi), uncut p hi) | inr z ↦ absurd z ],
    λ ((lo, hi), below). inl (lo, hi),
  )
]
  where
    same : u64 (fe.off + fe.len) ≡ fe.off + fe.len
    same = mod-eq_of_lt small

    cut :
        ltb overlap (u64 (fe.off + fe.len)) ≡ true
        → x < fe.off + (overlap - fe.off)
        → x < fe.off + fe.len
    cut p hi = omega (arith, same, ltb→lt _ _ p)

    uncut : ltb overlap (u64 (fe.off + fe.len)) ≡ false → x < fe.off + fe.len → x < overlap
    uncut p hi = ground (arith, same)

-- Of extents in the image's order, prune_extents keeps exactly the bytes below the overlap.
pub prune_extents_iff :
    (x from overlap : ℕ) (fes : List FileExtent)
    → IsAscending from fes
    → Covers x (prune_extents fes overlap) ↔ (Covers x fes × (x < overlap))
unfolding prune_extents
prune_extents_iff x from overlap [] a = (λ c. absurd c, λ (c, lt). c)
prune_extents_iff x from overlap (fe ∷ rest) (le, small, a) =
    last (prune_extents rest overlap) (prune_extents-Below (fe.off + fe.len) overlap rest a)
      (prune_extents_iff x (fe.off + fe.len) overlap rest a)
  where
    last :
        (kept : List FileExtent)
        → Below overlap (fe.off + fe.len) kept
        → Kept x overlap rest kept
        → Kept x overlap (fe ∷ rest) (last_of fe overlap kept)
    last [] b h = elim (Bool-cases (leb overlap fe.off)) [
      | inl p ↦ rw p (
        λ c. absurd c,
        λ (c, lt). elim c [
          | inl (lo, hi) ↦ absurd (omega (arith, leb→le _ _ p))
          | inr c' ↦ h.1 (c', lt)
        ],
      )
      | inr p ↦
          let cut = trim-Covers x overlap fe small (ground arith) in
          rw p (
            λ c. let (at, below) = cut.0 c in (inl at, below),
            λ (c, lt). elim c [ inl at ↦ cut.1 (at, lt) | inr c' ↦ absurd (h.1 (c', lt)) ],
          )
    ]
    last (next ∷ more) b h = (
      λ c. elim c [
        | inl (lo, hi) ↦ (inl (lo, hi), omega arith)
        | inr c' ↦ let (c'', below) = h.0 c' in (inr c'', below)
      ],
      λ (c, lt). elim c [ inl at ↦ inl at | inr c' ↦ inr (h.1 (c', lt)) ],
    )

-- An image without a parent needs none of them.
pub calc_img_extents_nil :
    (l : Layout) (memory : Bool) (overlap objno objoff objlen : ℕ)
    → overlap == 0 ≡ true
    → calc_img_extents l memory overlap objno objoff objlen ≡ ok (pos 0, [])
unfolding calc_img_extents
calc_img_extents_nil l memory overlap objno objoff objlen p = rw p refl
