-- ===== src/Striper/Extents/Iterate.antt =====
-- `ceph_iterate_extents` on the list that `ceph_file_to_extents` built.
use xcp_ng_ceph_rbd.Base.{
  ℕ, zero, suc, ◌+◌, ◌-◌, ◌%◌, ◌^◌, ◌≤◌, ◌<◌, ◌≡◌, ◌≢◌, inl, inr, refl, ap, true, List, [], ◌∷◌,
  ◌++◌, none, some, u64, sub64, All, All-append, arith, Option-cases, Bool-cases,
}
use mathlib.Core.List.{reverse, reverse-cons, append_assoc, append-nil}
use xcp_ng_ceph_rbd.Striper.Layout.{Layout, IsValid, Mapping, calc_file_object_mapping}
use xcp_ng_ceph_rbd.Striper.Layout.Bounds.{objno_of, objoff_of}
use xcp_ng_ceph_rbd.Striper.Extents.{
  Extent, Caller, Status, ok, contains, lookup_containing, file_to_extents, iterate_extents,
}
use xcp_ng_ceph_rbd.Striper.Extents.Order.{Sorted, HeadBefore, InObject, Covered}
use xcp_ng_ceph_rbd.Striper.Extents.Build.{file_to_extents-Built}
use xcp_ng_ceph_rbd.Striper.Extents.Round.{UpTo, UpTo-inside, bounds, mapping-objno, mapping-objoff}

abbrev UpToObject : ℕ → Extent → Type 0
UpToObject objno e = e.objno ≤ objno

-- The walk passes extents of objects up to the one it looks for.
lookup_containing-append :
    (m : Mapping) (before : List Extent) (e : Extent) (after : List Extent)
    → All (UpToObject m.objno) before
    → contains e m ≡ true
    → lookup_containing (before ++ (e ∷ after)) m ≢ none
unfolding lookup_containing
lookup_containing-append m [] e after a h = unfold contains in ground arith
lookup_containing-append m (x ∷ before) e after a h = elim (Bool-cases (contains x m)) [
  | inl t ↦ ground (arith, t)
  | inr t ↦ ground (arith, t, a.0, lookup_containing-append m before e after a.1 h)
]

All-reverse {ℓ κ} : {A : Type ℓ} (P : A → Type κ) (xs : List A) → All P xs → All P (reverse xs)
All-reverse P [] a = tt
All-reverse P (x ∷ xs) a =
    rw (reverse-cons x xs) (All-append P (reverse xs) (x ∷ []) (All-reverse P xs a.1) (a.0, tt))

All-le : (n k : ℕ) (xs : List Extent) → n ≤ k → All (UpToObject n) xs → All (UpToObject k) xs
All-le n k [] h a = tt
All-le n k (x ∷ xs) h a = (omega arith, All-le n k xs h a.1)

-- In a sorted list an extent comes behind those of smaller objects and of its own.
Sorted-tail :
    (e : Extent) (rest : List Extent)
    → HeadBefore rest e
    → Sorted rest
    → All (UpToObject e.objno) rest
Sorted-tail e [] h s = tt
Sorted-tail e (x ∷ rest) h s =
    (omega arith, All-le x.objno e.objno rest (omega arith) (Sorted-tail x rest s.0 s.1))

lookup_containing-Covered :
    (size : ℕ) (m : Mapping) (exts after : List Extent)
    → size < 2 ^ 32
    → All (InObject size) exts
    → Sorted exts
    → Covered m.objno m.objoff m.xlen exts
    → lookup_containing (reverse exts ++ after) m ≢ none
lookup_containing-Covered size m [] after h b s c = elim c [ ]
lookup_containing-Covered size m (e ∷ rest) after h b s (inl (same, lo, hi)) =
    rw (reverse-cons e rest, append_assoc)
      (lookup_containing-append m (reverse rest) e after
        (All-reverse (UpToObject m.objno) rest (rw (← same) (Sorted-tail e rest s.0 s.1)))
        (unfold contains in ground arith))
lookup_containing-Covered size m (e ∷ rest) after h b s (inr c) =
    rw (reverse-cons e rest, append_assoc)
      (lookup_containing-Covered size m rest (e ∷ after) h b.1 s.1 c)

-- Each run of the range that lies in one stripe unit has an extent.
abbrev Runs : Layout → ℕ → ℕ → List Extent → Type 0
Runs l off len exts =
    (p x : ℕ)
    → off ≤ p
    → 0 < x
    → p + x ≤ off + len
    → p % l.stripe_unit + x ≤ l.stripe_unit
    → Covered (objno_of l p) (objoff_of l p) x exts

module _ {ℓ} {S : Type ℓ} (c : Caller S) {l : Layout} (v : IsValid l) (exts : List Extent)
    (inside : All (InObject l.object_size) exts) (sorted : Sorted exts) where
  iterate_extents_step :
      (fuel off n : ℕ) (xs : List Extent) (s : S) {ex : Extent}
      → let m = calc_file_object_mapping l off (suc n) in
        lookup_containing xs m ≡ some ex
        → iterate_extents c l (suc fuel) off (suc n) xs s
          ≡ iterate_extents c l fuel
              (u64 (off + m.xlen))
              (sub64 (suc n) m.xlen)
              xs
              (c.action ex m.xlen s)
  unfolding iterate_extents
  iterate_extents_step fuel off n xs s e = rw (e, iterate_extents)

  iterate_extents_done :
      (fuel off : ℕ) (xs : List Extent) (s : S) → iterate_extents c l fuel off 0 xs s ≡ (ok, s)
  unfolding iterate_extents
  iterate_extents_done zero off xs s = refl
  iterate_extents_done (suc fuel) off xs s = refl

  lookup_mapped :
      (off n : ℕ)
      → off + n < 2 ^ 64
      → 0 < n
      → Runs l off n exts
      → lookup_containing (reverse exts) (calc_file_object_mapping l off n) ≢ none
  lookup_mapped off n h pos runs = rw append-nil at (
      lookup_containing-Covered l.object_size m exts [] v.size_word inside sorted (
        rw (mapping-objno v off n h pos, mapping-objoff v off n h pos)
          (runs off m.xlen (omega arith) b.0 (omega (arith, b)) b.3)))
    where
      m : Mapping
      m = calc_file_object_mapping l off n

      b :
          (0 < m.xlen)
          × (m.xlen ≤ n)
          × (m.objoff + m.xlen ≤ l.object_size)
          × (off % l.stripe_unit + m.xlen ≤ l.stripe_unit)
      b = bounds v off n h pos

  iterate_extents-ok :
      (fuel off len : ℕ) (s : S)
      → len ≤ fuel
      → off + len < 2 ^ 64
      → Runs l off len exts
      → (iterate_extents c l fuel off len (reverse exts) s).0 ≡ ok
  iterate_extents-ok fuel off zero s f h runs =
      ap (λ (r : Status × S). r.0) (iterate_extents_done fuel off (reverse exts) s)
  iterate_extents-ok zero off (suc n) s f h runs = absurd (omega arith)
  iterate_extents-ok (suc fuel) off (suc n) s f h runs =
      elim (Option-cases (lookup_containing (reverse exts) m)) [
        | inl e ↦ absurd (lookup_mapped off (suc n) h (omega arith) runs e)
        | inr (ex, e) ↦
            let steps : (m.xlen ≤ suc n) × (0 < m.xlen) =
              omega (arith, bounds v off (suc n) h (omega arith)) in
            let next : u64 (off + m.xlen) ≡ off + m.xlen = omega arith in
            let left : sub64 (suc n) m.xlen ≡ suc n - m.xlen = omega arith in
            rw (iterate_extents_step fuel off n (reverse exts) s e, next, left)
              (iterate_extents-ok fuel (off + m.xlen) (suc n - m.xlen) (c.action ex m.xlen s)
                (omega arith) (omega arith)
                (λ p x lo px hi unit. runs p x (omega arith) px (omega arith) unit))
      ]
    where
      m : Mapping
      m = calc_file_object_mapping l off (suc n)

-- For a valid layout, a range that ends below 2^64, an allocator that never fails, and a list that is
-- sorted and holds only bytes before `off`: `ceph_iterate_extents` with any action, over the range
-- and the list that `ceph_file_to_extents` leaves, returns 0.
pub iterate-file_to_extents {ℓ κ} :
    {S : Type ℓ} {T : Type κ} (c : Caller S) (d : Caller T) {l : Layout} (off len : ℕ)
    (exts : List Extent) (s : S) (t : T)
    → IsValid l
    → ((s' : S) → c.alloc s' ≢ none)
    → off + len < 2 ^ 64
    → UpTo l off exts
    → (iterate_extents d l len off len (reverse (file_to_extents c l off len exts s).1) t).0 ≡ ok
iterate-file_to_extents c d off len exts s t v plenty h u =
    let b = (file_to_extents-Built c v plenty off len exts s h u).1 in
    iterate_extents-ok d v _ (UpTo-inside _ b.up_to) b.up_to.sorted len off len t (omega arith) h
      b.runs
