-- ===== src/Crush/Bucket/Shuffle.antt =====
-- The permutation that `bucket_perm_choose` computes step by step, with no working state.
use native.Mathlib.Nat.{zero-add}
use native.Mathlib.Nat.{add-zero}
use xcp_ng_ceph_rbd.Base.{
  ℕ, zero, suc, ◌+◌, ◌-◌, ◌%◌, ◌≤◌, ◌<◌, ◌≡◌, inl, inr, refl, ap, ◌∙◌, ◌&&◌, not, List, [], ◌∷◌,
  some, length, get_elem?, get_or, set, length-set, get_or-set_self, get_or-set_ne, ltb, ◌==◌,
  if◌then◌else◌, to_u32, arith, Bool-cases,
}
use native.Mathlib.Decide.{ℕ_discrete}
use native.Mathlib.Nat.{mod-lt}
use xcp_ng_ceph_rbd.Crush.Outcome.{ok}
use xcp_ng_ceph_rbd.Crush.Hash.{hash32_3}
use xcp_ng_ceph_rbd.Crush.Map.{Bucket, size}
use xcp_ng_ceph_rbd.Crush.Bucket.{perm_step, perm_extend}

abbrev pub iota : ℕ → ℕ → List ℕ
iota zero i = []
iota (suc n) i = i ∷ iota n (suc i)

-- The draw of step `p`.
abbrev pub draw : Bucket → ℕ → ℕ → ℕ
draw b x p = hash32_3 b.hash x (to_u32 b.id) p % (size b - p)

abbrev pub swapped : List ℕ → ℕ → ℕ → List ℕ
swapped perm p k = set (set perm k (get_or perm p 0)) p (get_or perm k 0)

abbrev pub shuffle_step : Bucket → ℕ → ℕ → List ℕ → List ℕ
shuffle_step b x p perm =
    if ltb p (size b - 1) && not (draw b x p == 0) then swapped perm p (p + draw b x p) else perm

-- The first `p` steps from the identity.
pub shuffled : Bucket → ℕ → ℕ → List ℕ
shuffled b x zero = iota (size b) 0
shuffled b x (suc p) = shuffle_step b x p (shuffled b x p)

pub shuffled_zero : (b : Bucket) (x : ℕ) → shuffled b x 0 ≡ iota (size b) 0
unfolding shuffled
shuffled_zero b x = refl

pub shuffled-suc :
    (b : Bucket) (x p : ℕ) → shuffled b x (suc p) ≡ shuffle_step b x p (shuffled b x p)
unfolding shuffled
shuffled-suc b x p = refl

pub length-iota : (n i : ℕ) → length (iota n i) ≡ n
length-iota zero i = refl
length-iota (suc n) i = ap suc (length-iota n (suc i))

length-shuffle_step :
    (b : Bucket) (x p : ℕ) (perm : List ℕ) → length (shuffle_step b x p perm) ≡ length perm
length-shuffle_step b x p perm = ground (
  arith,
  length-set (set perm (p + draw b x p) (get_or perm p 0)) p (get_or perm (p + draw b x p) 0),
  length-set perm (p + draw b x p) (get_or perm p 0),
)

pub length-shuffled : (b : Bucket) (x p : ℕ) → length (shuffled b x p) ≡ size b
unfolding shuffled
length-shuffled b x zero = length-iota (size b) 0
length-shuffled b x (suc p) = length-shuffle_step b x p (shuffled b x p) ∙ length-shuffled b x p

pub get_elem?-get_or : (xs : List ℕ) (i : ℕ) → i < length xs → get_elem? xs i ≡ some (get_or xs i 0)
get_elem?-get_or [] i h = elim h [ ]
get_elem?-get_or (x ∷ xs) zero h = refl
get_elem?-get_or (x ∷ xs) (suc i) h = get_elem?-get_or xs i (omega arith)

-- An entry after a swap.
get_or-set :
    (xs : List ℕ) (i j v : ℕ)
    → i < length xs
    → get_or (set xs i v) j 0 ≡ (if j == i then v else get_or xs j 0)
get_or-set xs i j v h = elim (ℕ_discrete i j) [
  | yes e ↦ rw (← e) (ground (arith, get_or-set_self xs i v 0 h))
  | no n ↦ ground (arith, get_or-set_ne xs i j v 0 n)
]

pub get_or-swapped :
    (perm : List ℕ) (p k i : ℕ)
    → p < length perm
    → k < length perm
    → get_or (swapped perm p k) i 0
      ≡ (if i == p then get_or perm k 0 else if i == k then get_or perm p 0 else get_or perm i 0)
get_or-swapped perm p k i hp hk = ground (
  arith,
  get_or-set (set perm k (get_or perm p 0)) p i (get_or perm k 0)
      (rw (length-set perm k (get_or perm p 0)) hp),
  get_or-set perm k i (get_or perm p 0) hk,
)

-- A step of the code is a step of the shuffle.
pub draw-lt : (b : Bucket) (x p : ℕ) → p < size b → p + draw b x p < size b
draw-lt b x p h =
    omega (arith, mod-lt (hash32_3 b.hash x (to_u32 b.id) p) {m = size b - p} (omega arith))

pub perm_step_lem :
    (b : Bucket) (x p : ℕ) (perm : List ℕ)
    → length perm ≡ size b
    → p < size b
    → perm_step b x p perm ≡ ok (shuffle_step b x p perm)
unfolding perm_step
perm_step_lem b x p perm h hp = elim (Bool-cases (ltb p (size b - 1) && not (draw b x p == 0))) [
  | inl t ↦ rw (
    t,
    get_elem?-get_or perm (p + draw b x p) (omega (arith, draw-lt b x p hp)),
    get_elem?-get_or perm p (omega arith),
  )
  | inr t ↦ rw t
]

pub perm_extend_lem :
    (n : ℕ) (b : Bucket) (x p : ℕ)
    → p + n ≤ size b
    → perm_extend n b x p (shuffled b x p) ≡ ok (shuffled b x (p + n))
unfolding perm_extend
perm_extend_lem zero b x p h = rw add-zero
perm_extend_lem (suc n) b x p h =
    let next : p + 1 ≡ suc p = omega arith in
    let rest : p + suc n ≡ suc p + n = omega arith in
    rw
      (
        perm_step_lem b x p (shuffled b x p) (length-shuffled b x p) (omega arith),
        next,
        rest,
        ← shuffled-suc b x p,
      )
      (perm_extend_lem n b x (suc p) (omega arith))

step_stable :
    (b : Bucket) (x p i : ℕ) (perm : List ℕ)
    → length perm ≡ size b
    → p < size b
    → i < p
    → get_or (shuffle_step b x p perm) i 0 ≡ get_or perm i 0
step_stable b x p i perm h hp hi = ground (
  arith,
  draw-lt b x p hp,
  get_or-swapped perm p (p + draw b x p) i (omega arith) (omega (arith, draw-lt b x p hp)),
)

-- Entries below `p` are not touched from step `p` on.
pub shuffled_stable :
    (b : Bucket) (x n p i : ℕ)
    → i < p
    → p + n ≤ size b
    → get_or (shuffled b x (n + p)) i 0 ≡ get_or (shuffled b x p) i 0
shuffled_stable b x zero p i h le = rw zero-add
shuffled_stable b x (suc n) p i h le =
    let next : suc n + p ≡ suc (n + p) = omega arith in
    rw
      (
        next,
        shuffled-suc b x (n + p),
        step_stable b x (n + p) i (shuffled b x (n + p)) (length-shuffled b x (n + p)) (omega arith)
            (omega arith),
      )
      (shuffled_stable b x n p i h (omega arith))

-- The entries are the numbers below the size, each once.
abbrev pub IsPermutation : ℕ → List ℕ → Type 0
IsPermutation n perm =
    ((i : ℕ) → i < n → get_or perm i 0 < n)
    × ((i j : ℕ) → i < n → j < n → get_or perm i 0 ≡ get_or perm j 0 → i ≡ j)

pub get_or-iota : (n b i : ℕ) → i < n → get_or (iota n b) i 0 ≡ b + i
get_or-iota zero b i h = elim h [ ]
get_or-iota (suc n) b zero h = omega arith
get_or-iota (suc n) b (suc i) h = omega (arith, get_or-iota n (suc b) i (omega arith))

swapped-IsPermutation :
    (n p k : ℕ) (perm : List ℕ)
    → length perm ≡ n
    → p < n
    → k < n
    → IsPermutation n perm
    → IsPermutation n (swapped perm p k)
swapped-IsPermutation n p k perm h hp hk (below, inj) = (
  λ i hi. ground (arith, entry i, below i, below p, below k),
  λ i j hi hj e.
      ground
        (arith, entry i, entry j, inj i j, inj i k, inj i p, inj k j, inj p j, inj k p, inj p k),
)
  where
    entry :
        (i : ℕ)
        → get_or (swapped perm p k) i 0 ≡ (
            if i == p then get_or perm k 0 else if i == k then get_or perm p 0 else get_or perm i 0)
    entry i = get_or-swapped perm p k i (omega arith) (omega arith)

pub shuffled-IsPermutation :
    (b : Bucket) (x p : ℕ) → p ≤ size b → IsPermutation (size b) (shuffled b x p)
unfolding shuffled
shuffled-IsPermutation b x zero h = (
  λ i hi. omega (arith, get_or-iota (size b) 0 i hi),
  λ i j hi hj e. omega (arith, get_or-iota (size b) 0 i hi, get_or-iota (size b) 0 j hj),
)
shuffled-IsPermutation b x (suc p) h =
    elim (Bool-cases (ltb p (size b - 1) && not (draw b x p == 0))) [
      | inl t ↦ rw t (
          swapped-IsPermutation (size b) p (p + draw b x p) (shuffled b x p) (length-shuffled b x p)
            (omega arith) (draw-lt b x p (omega arith))
            (shuffled-IsPermutation b x p (omega arith)))
      | inr t ↦ rw t (shuffled-IsPermutation b x p (omega arith))
    ]
