-- ===== src/Crush/Firstn/Ends.antt =====
-- The search for one replica ends, within a fuel that the arguments and the map give, with an item
-- that was asked for or with the replica given up.
-- The retries are counted three ways: by the failures in all, by those since the descent began, and
-- by the depth of the map under the bucket that is looked at.
use xcp_ng_ceph_rbd.Base.{
  ℕ, suc, ◌+◌, ◌-◌, ◌*◌, ◌≤◌, ◌<◌, ◌≡◌, ◌≢◌, inl, inr, ◌&&◌, Bool, true, false, List, some,
  get_elem?, ltb, leb, ℤ, pos, arith, Bool-cases, ltb→lt,
}
use native.Mathlib.Nat.{mul-le-mul_right, sub-zero}
use xcp_ng_ceph_rbd.Crush.Outcome.{ok}
use xcp_ng_ceph_rbd.Crush.Map.{Bucket, size, CrushMap}
use xcp_ng_ceph_rbd.Crush.Bucket.{is_out}
use xcp_ng_ceph_rbd.Crush.Fits.{IsBucket, MapFits, WorkFits}
use xcp_ng_ceph_rbd.Crush.Firstn.{Args, Search, Progress, again, skip, got, retry, item_type}

-- What the items of a call are: of the type asked for, and not out if that is the type of devices.
abbrev pub Chosen : CrushMap → Args → ℤ → Type 0
Chosen m a item =
    (item_type m item ≡ ok a.type) × (a.type ≡ pos 0 → is_out a.weight item a.x ≡ ok false)

-- Failures that a descent can have before it starts anew.
abbrev pub local_bound : Args → ℕ → ℕ
local_bound a width = a.local_retries + width + a.local_fallback_retries

-- `row` is what a change of bucket can cost, and `(bound + 1) * row` a descent.
abbrev pub cost : Args → (bound row : ℕ) → Search → ℕ → ℕ
cost a bound row s k = (a.tries - s.ftotal) * ((bound + 1) * row) + (bound - s.flocal) * row + k

succ_le : (n k : ℕ) → n < k → n + 1 ≤ k
succ_le n k h = omega arith

lt_local : (p p' q q' k e x : ℕ) → p' ≤ p → q' < q → 0 < e → p' * x + q' * e + k < p * x + q * e + k
lt_local p p' q q' k e x hp hq he =
    omega (arith, mul-le-mul_right x hp, mul-le-mul_right e (succ_le q' q hq))

lt_descent :
    (p p' q q' k k' b e : ℕ)
    → p' < p
    → q' ≤ b
    → k' < e
    → p' * ((b + 1) * e) + q' * e + k' < p * ((b + 1) * e) + q * e + k
lt_descent p p' q q' k k' b e hp hq hk =
    omega (arith, mul-le-mul_right ((b + 1) * e) (succ_le p' p hp), mul-le-mul_right e hq)

-- The fuel that every search of a call can do with.
abbrev pub enough : Args → (depth width : ℕ) → ℕ
enough a depth width = (a.tries + 1) * ((local_bound a width + 1) * (depth + 1))

-- The cost at the start of a search, where no failure has been counted.
pub start-lt :
    (p b k d : ℕ)
    → k ≤ d
    → (p - 0) * ((b + 1) * (d + 1)) + (b - 0) * (d + 1) + k < (p + 1) * ((b + 1) * (d + 1))
start-lt p b k d h =
    rw (sub-zero p, sub-zero b)
      (omega
        (arith, lt_descent (p + 1) p 0 b 0 k b (d + 1) (omega arith) (omega arith) (omega arith)))

module _ {m : CrushMap} {rank : ℕ → ℕ} {depth width : ℕ} (fits : MapFits m rank depth width)
    (a : Args) where
  -- A search in good order whose cost is below `f`.
  abbrev pub Within : ℕ → Search → Type 0
  Within f s =
      (n : ℕ) × IsBucket m n s.cursor
      × WorkFits m s.work
      × (cost a (local_bound a width) (depth + 1) s (rank n) < f)

  abbrev pub Reached : ℕ → List ℤ → Progress → Type 0
  Reached f out (again s) = Within f s
  Reached f out (skip w) = WorkFits m w
  Reached f out (got item l w) =
      WorkFits m w × Chosen m a item × ((o : ℕ) → get_elem? out o ≢ some item)

  here_bound :
      (s : Search) (collide : Bool)
      → (collide && leb (s.flocal + 1) a.local_retries) ≡ true
      → s.flocal < local_bound a width
  here_bound s collide t = ground arith

  fallback_bound :
      (n : ℕ) (s : Search)
      → IsBucket m n s.cursor
      → (ltb 0 a.local_fallback_retries
          && leb (s.flocal + 1) (size s.cursor + a.local_fallback_retries))
        ≡ true
      → s.flocal < local_bound a width
  fallback_bound n s e u = ground (arith, fits.sizes n s.cursor e)

  -- One more failure in the same bucket.
  nearer :
      (s : Search) (n : ℕ)
      → s.flocal < local_bound a width
      → cost a
          (local_bound a width)
          (depth + 1)
          (record s { ftotal = s.ftotal + 1; flocal = s.flocal + 1 })
          (rank n)
        < cost a (local_bound a width) (depth + 1) s (rank n)
  nearer s n h =
      lt_local (a.tries - s.ftotal) (a.tries - (s.ftotal + 1)) (local_bound a width - s.flocal)
        (local_bound a width - (s.flocal + 1)) (rank n) (depth + 1)
        ((local_bound a width + 1) * (depth + 1)) (omega arith) (omega arith) (omega arith)

  -- A new descent.
  anew :
      (bucket : Bucket) (s : Search) (n n0 : ℕ)
      → s.ftotal + 1 < a.tries
      → cost a
          (local_bound a width)
          (depth + 1)
          (record s { cursor = bucket; ftotal = s.ftotal + 1; flocal = 0 })
          (rank n0)
        < cost a (local_bound a width) (depth + 1) s (rank n)
  anew bucket s n n0 h =
      lt_descent (a.tries - s.ftotal) (a.tries - (s.ftotal + 1)) (local_bound a width - s.flocal)
        (local_bound a width - 0) (rank n) (rank n0) (local_bound a width) (depth + 1) (omega arith)
        (omega arith) (omega (arith, fits.ranks n0))

  pub retry-Reached :
      (f : ℕ) (out : List ℤ) (bucket : Bucket) (s : Search) (collide : Bool) (n0 : ℕ)
      → IsBucket m n0 bucket
      → Within (suc f) s
      → Reached f out (retry a bucket s collide)
  unfolding retry
  retry-Reached f out bucket s collide n0 e0 (n, e, works, c) =
      elim (Bool-cases (collide && leb (s.flocal + 1) a.local_retries)) [
        | inl t ↦ rw t (n, e, works, omega (arith, nearer s n (here_bound s collide t)))
        | inr t ↦
            elim (Bool-cases (
              ltb 0 a.local_fallback_retries
              && leb (s.flocal + 1) (size s.cursor + a.local_fallback_retries))) [
                | inl u ↦
                    rw (t, u) (n, e, works, omega (arith, nearer s n (fallback_bound n s e u)))
                | inr u ↦ elim (Bool-cases (ltb (s.ftotal + 1) a.tries)) [
                  | inl v ↦
                      rw (t, u, v) (n0, e0, works, omega (arith, anew bucket s n n0 (ltb→lt _ _ v)))
                  | inr v ↦ rw (t, u, v) works
                ]
              ]
      ]
