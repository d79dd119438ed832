-- ===== src/Striper/Extents/Build.antt =====
-- What `ceph_file_to_extents` leaves in the list.
use xcp_ng_ceph_rbd.Base.{
  ℕ, zero, suc, ◌+◌, ◌-◌, ◌%◌, ◌^◌, ◌≤◌, ◌<◌, ◌≡◌, ◌≢◌, inl, inr, refl, List, none, some, u64,
  sub64, arith, Option-cases,
}
use native.Mathlib.Nat.{add-zero}
use native.Mathlib.Decide.{dec_lt}
use xcp_ng_ceph_rbd.Striper.Layout.{Layout, IsValid, Mapping, calc_file_object_mapping}
use xcp_ng_ceph_rbd.Striper.Layout.Bounds.{objno_of, objoff_of}
use xcp_ng_ceph_rbd.Striper.Extents.{
  Extent, Caller, add_mapping, Status, ok, einval, enomem, stuck, check_sorted, map_extents, finish,
  file_to_extents,
}
use xcp_ng_ceph_rbd.Striper.Extents.Order.{
  insert, add_mapping-insert, add_mapping-ne-none, check_sorted-Sorted, total, total-insert,
  Covered, insert-Covered,
}
use xcp_ng_ceph_rbd.Striper.Extents.Round.{UpTo, UpTo-inside, bounds, insert-UpTo, insert-runs}

-- What a walk over `len` bytes from `off` makes of the list `exts`.
pub record Built (l : Layout) (off len : ℕ) (exts exts' : List Extent) : Type 0 where
  pub up_to : UpTo l (off + len) exts'
  pub bytes : total exts' ≡ total exts + len
  pub kept : (objno o x : ℕ) → Covered objno o x exts → Covered objno o x exts'
  pub runs :
      (p x : ℕ)
      → off ≤ p
      → 0 < x
      → p + x ≤ off + len
      → p % l.stripe_unit + x ≤ l.stripe_unit
      → Covered (objno_of l p) (objoff_of l p) x exts'

module _ {ℓ} {S : Type ℓ} (c : Caller S) {l : Layout} (v : IsValid l)
    (plenty : (s : S) → c.alloc s ≢ none) where
  map_extents_step :
      (fuel off n : ℕ) (exts : List Extent) (s : S) {exts' : List Extent} {s' : S}
      → let m = calc_file_object_mapping l off (suc n) in
        add_mapping c m exts s ≡ some (exts', s')
        → map_extents c l (suc fuel) off (suc n) exts s
          ≡ map_extents c l fuel (u64 (off + m.xlen)) (sub64 (suc n) m.xlen) exts' s'
  unfolding map_extents
  map_extents_step fuel off n exts s e = rw (e, map_extents)

  map_extents_done :
      (fuel off : ℕ) (exts : List Extent) (s : S)
      → map_extents c l fuel off 0 exts s ≡ (ok, exts, s)
  unfolding map_extents
  map_extents_done zero off exts s = refl
  map_extents_done (suc fuel) off exts s = refl

  -- The rest of the walk, from the list that the first round leaves.
  Built-next :
      (off n : ℕ) (exts exts' : List Extent)
      → off + n < 2 ^ 64
      → 0 < n
      → UpTo l off exts
      → let x = (calc_file_object_mapping l off n).xlen in
        Built l (off + x) (n - x) (insert (calc_file_object_mapping l off n) exts) exts'
        → Built l off n exts exts'
  Built-next off n exts exts' h pos u b = record {
    up_to = rw ends at b.up_to;
    bytes = omega (
      arith,
      bounds v off n h pos,
      b.bytes,
      total-insert l.object_size m exts v.size_word
          (omega (arith, bounds v off n h pos, v.size_word)) (UpTo-inside exts u),
    );
    kept = λ objno o x k. b.kept objno o x (
        insert-Covered l.object_size m objno o x exts v.size_word
          (omega (arith, bounds v off n h pos, v.size_word)) (UpTo-inside exts u) k);
    runs = λ p x lo px hi unit. elim (dec_lt p (off + m.xlen)) [
      | yes near ↦ b.kept _ _ x (insert-runs v off n h pos exts p x u lo near hi unit)
      | no far ↦ b.runs p x (omega arith) px (omega arith) unit
    ];
  }
    where
      m : Mapping
      m = calc_file_object_mapping l off n

      ends : off + m.xlen + (n - m.xlen) ≡ off + n
      ends = omega (arith, bounds v off n h pos)

  map_extents-Built :
      (fuel off len : ℕ) (exts : List Extent) (s : S)
      → len ≤ fuel
      → off + len < 2 ^ 64
      → UpTo l off exts
      → let r = map_extents c l fuel off len exts s in (r.0 ≡ ok) × Built l off len exts r.1
  map_extents-Built fuel off zero exts s f h u = rw (map_extents_done fuel off exts s) (
    refl,
    record {
      up_to = rw (add-zero) u;
      bytes = omega arith;
      kept = λ objno o x k. k;
      runs = λ p x lo pos hi unit. absurd (omega arith);
    },
  )
  map_extents-Built zero off (suc n) exts s f h u = absurd (omega arith)
  map_extents-Built (suc fuel) off (suc n) exts s f h u =
      elim (Option-cases (add_mapping c m exts s)) [
        | inl e ↦ absurd (add_mapping-ne-none c m exts s (plenty s) e)
        | inr ((exts', s'), e) ↦
            let steps : (m.xlen ≤ suc n) × (0 < m.xlen) =
              omega (arith, bounds v off (suc n) h (omega arith)) in
            let next : u64 (off + m.xlen) ≡ off + m.xlen = omega arith in
            let left : sub64 (suc n) m.xlen ≡ suc n - m.xlen = omega arith in
            let e' : exts' ≡ insert m exts = add_mapping-insert c m exts s e in
            let ih =
              map_extents-Built fuel (off + m.xlen) (suc n - m.xlen) (insert m exts) s'
                (omega arith) (omega arith) (insert-UpTo v off (suc n) h (omega arith) exts u) in
            rw (map_extents_step fuel off n exts s e, next, left, e')
              (ih.0, Built-next off (suc n) exts _ h (omega arith) u ih.1)
      ]
    where
      m : Mapping
      m = calc_file_object_mapping l off (suc n)

  finish_ok : (r : Status × List Extent × S) → r.0 ≡ ok → finish r ≡ (check_sorted r.1, r.1, r.2)
  finish_ok (ok, exts, s) e = refl
  finish_ok (enomem, exts, s) e = cc
  finish_ok (einval, exts, s) e = cc
  finish_ok (stuck, exts, s) e = cc

  -- For a valid layout, a range that ends below 2^64, an allocator that never fails, and a list
  -- that is sorted and holds only bytes of the file before `off`, `ceph_file_to_extents` succeeds:
  -- the list stays sorted and holds only bytes before `off + len`, its lengths sum up to `len` more,
  -- each run that an old extent covered is covered, and so is each run of the range that lies in one
  -- stripe unit, at the object and offset that striping gives.
  pub file_to_extents-Built :
      (off len : ℕ) (exts : List Extent) (s : S)
      → off + len < 2 ^ 64
      → UpTo l off exts
      → let r = file_to_extents c l off len exts s in (r.0 ≡ ok) × Built l off len exts r.1
  unfolding file_to_extents
  file_to_extents-Built off len exts s h u =
      let walked = map_extents-Built len off len exts s (omega arith) h u in
      rw (finish_ok (map_extents c l len off len exts s) walked.0) (
        check_sorted-Sorted l.object_size _ v.size_word (UpTo-inside _ walked.1.up_to)
            walked.1.up_to.sorted,
        walked.1,
      )
