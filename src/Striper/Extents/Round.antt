-- ===== src/Striper/Extents/Round.antt =====
-- One round of `ceph_file_to_extents` on a list that holds bytes of the file before `off`.
use xcp_ng_ceph_rbd.Base.{
  ℕ, ◌+◌, ◌-◌, ◌%◌, ◌^◌, ◌≤◌, ◌<◌, ◌≡◌, sym, ap, ◌∙◌, List, [], ◌∷◌, u64, All, arith, min,
}
use xcp_ng_ceph_rbd.Striper.Layout.{Layout, IsValid, Mapping, calc_file_object_mapping}
use xcp_ng_ceph_rbd.Striper.Layout.Bounds.{
  objno_of, objoff_of, calc_file_object_mapping_lem, calc_file_object_mapping_bounds,
}
use xcp_ng_ceph_rbd.Striper.Layout.Inverse.{objno_of-add, objoff_of-add, objoff_of_apart, unit-add}
use xcp_ng_ceph_rbd.Striper.Extents.{Extent}
use xcp_ng_ceph_rbd.Striper.Extents.Order.{
  insert, new_extent, grown, Sorted, InObject, Behind, insert-Sorted, Covered, insert-Covered_new,
  insert-All,
}

-- The extent ends before every later byte of the file that its object holds.
pub record Passed (l : Layout) (off : ℕ) (e : Extent) : Type 0 where
  pub inside : InObject l.object_size e
  pub ahead : (q : ℕ) → off ≤ q → objno_of l q ≡ e.objno → e.off + e.len ≤ objoff_of l q

-- The list holds only bytes of the file before `off`, in order.
pub record UpTo (l : Layout) (off : ℕ) (exts : List Extent) : Type 0 where
  pub passed : All (Passed l off) exts
  pub sorted : Sorted exts

All-map {ℓ κ μ} :
    {A : Type ℓ} (P : A → Type κ) (Q : A → Type μ) (xs : List A)
    → ((a : A) → P a → Q a)
    → All P xs
    → All Q xs
All-map P Q [] f h = tt
All-map P Q (x ∷ xs) f h = (f x h.0, All-map P Q xs f h.1)

pub UpTo-inside :
    {l : Layout} {off : ℕ} (exts : List Extent)
    → UpTo l off exts
    → All (InObject l.object_size) exts
UpTo-inside {l} {off} exts u =
    All-map (Passed l off) (InObject l.object_size) exts (λ e p. p.inside) u.passed

-- One round, from `off` with `n` bytes to go.
module _ {l : Layout} (v : IsValid l) (off n : ℕ) (h : off + n < 2 ^ 64) (pos : 0 < n) where
  abbrev pub mapping : Mapping
  mapping = calc_file_object_mapping l off n

  pub lem : mapping ≡ record {
    objno = objno_of l off;
    objoff = objoff_of l off;
    xlen = min n (l.stripe_unit - off % l.stripe_unit);
  }
  lem = calc_file_object_mapping_lem off n v (omega arith)

  pub bounds :
      (0 < mapping.xlen)
      × (mapping.xlen ≤ n)
      × (mapping.objoff + mapping.xlen ≤ l.object_size)
      × (off % l.stripe_unit + mapping.xlen ≤ l.stripe_unit)
  bounds = calc_file_object_mapping_bounds off n v (omega arith) pos

  pub mapping-objno : mapping.objno ≡ objno_of l off
  mapping-objno = ap (λ (m : Mapping). m.objno) lem

  pub mapping-objoff : mapping.objoff ≡ objoff_of l off
  mapping-objoff = ap (λ (m : Mapping). m.objoff) lem

  pub mapping-xlen : mapping.xlen ≡ min n (l.stripe_unit - off % l.stripe_unit)
  mapping-xlen = ap (λ (m : Mapping). m.xlen) lem

  -- The bytes of this round lie before those of the later rounds.
  mapping_ahead :
      (q : ℕ)
      → off + mapping.xlen ≤ q
      → objno_of l q ≡ mapping.objno
      → mapping.objoff + mapping.xlen ≤ objoff_of l q
  mapping_ahead q lo same = omega (
    arith,
    mapping-objoff,
    objoff_of_apart off q mapping.xlen v bounds.0 bounds.3 lo (sym (same ∙ mapping-objno)),
  )

  Passed-new : Passed l (off + mapping.xlen) (new_extent mapping)
  Passed-new = record { inside = bounds.2; ahead = mapping_ahead }

  Passed-grown :
      (e : Extent)
      → e.objno ≡ mapping.objno
      → u64 (e.off + e.len) ≡ mapping.objoff
      → Passed l (off + mapping.xlen) e
      → Passed l (off + mapping.xlen) (grown mapping e)
  Passed-grown e en eo p = record {
    inside = omega (arith, bounds, p.inside, v.size_word);
    ahead =
        λ q lo same. omega (arith, bounds, p.inside, v.size_word, mapping_ahead q lo (same ∙ en));
  }

  Passed-Behind : (e : Extent) → Passed l off e → Behind mapping e
  Passed-Behind e p en =
      omega (arith, mapping-objoff, p.ahead off (omega arith) (sym mapping-objno ∙ sym en))

  pub insert-UpTo :
      (exts : List Extent) → UpTo l off exts → UpTo l (off + mapping.xlen) (insert mapping exts)
  insert-UpTo exts u = record {
    passed = insert-All (Passed l (off + mapping.xlen)) mapping exts Passed-new Passed-grown (
        All-map (Passed l off) (Passed l (off + mapping.xlen)) exts
          (λ e p. record { inside = p.inside; ahead = λ q lo same. p.ahead q (omega arith) same })
          u.passed);
    sorted =
        insert-Sorted l.object_size mapping exts v.size_word (UpTo-inside exts u)
          (All-map (Passed l off) (Behind mapping) exts Passed-Behind u.passed) u.sorted;
  }

  -- The runs of the round, and only they, are inside its stripe unit.
  run_at :
      (exts : List Extent) (j x : ℕ)
      → UpTo l off exts
      → j < mapping.xlen
      → j + x ≤ n
      → (off + j) % l.stripe_unit + x ≤ l.stripe_unit
      → Covered (objno_of l (off + j)) (objoff_of l (off + j)) x (insert mapping exts)
  run_at exts j x u hj fits unit =
      let near : off % l.stripe_unit + j < l.stripe_unit = omega (arith, bounds) in
      rw (objno_of-add off j v near, ← mapping-objno)
        (insert-Covered_new l.object_size mapping (objoff_of l (off + j)) x exts v.size_word
          (omega (arith, bounds, v.size_word)) (UpTo-inside exts u)
          (omega (arith, mapping-objoff, objoff_of-add off j v near))
          (omega (
            arith,
            mapping-objoff,
            mapping-xlen,
            objoff_of-add off j v near,
            unit-add off j v near,
          )))

  pub insert-runs :
      (exts : List Extent) (p x : ℕ)
      → UpTo l off exts
      → off ≤ p
      → p < off + mapping.xlen
      → p + x ≤ off + n
      → p % l.stripe_unit + x ≤ l.stripe_unit
      → Covered (objno_of l p) (objoff_of l p) x (insert mapping exts)
  insert-runs exts p x u lo hi fits unit =
      let e : off + (p - off) ≡ p = omega arith in
      rw e at (run_at exts (p - off) x u (omega arith) (omega arith) (rw e unit))
