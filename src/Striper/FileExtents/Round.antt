-- ===== src/Striper/FileExtents/Round.antt =====
-- One round of the loop of `ceph_extent_to_file`.
use xcp_ng_ceph_rbd.Base.{ℕ, ◌+◌, ◌-◌, ◌*◌, ◌/◌, ◌%◌, ◌^◌, ◌≤◌, ◌<◌, ◌≡◌, ap, min, u64, arith}
use native.Mathlib.Nat.{mod-lt, div-lt_iff_lt-mul, mod-eq_of_lt, le-mul_of_pos_right}
use xcp_ng_ceph_rbd.Striper.Layout.{Layout, IsValid, calc_file_object_mapping}
use xcp_ng_ceph_rbd.Striper.Layout.Bounds.{stripes, row_bound, calc_file_object_mapping_lem}
use xcp_ng_ceph_rbd.Striper.Layout.Inverse.{
  file_off, block_of, objno_of-file_off, objoff_of-file_off, row_mod,
}
use xcp_ng_ceph_rbd.Striper.FileExtents.{FileExtent, file_extent}

-- The object set of `objno` ends within the 64 bits of a file offset.
abbrev pub SetFits : Layout → ℕ → Type 0
SetFits l objno = (objno / l.stripe_count + 1) * (l.stripe_count * l.object_size) ≤ 2 ^ 64

-- One round.
module _ {l : Layout} (objno o n : ℕ) (v : IsValid l) (pos : 0 < n) (inside : o + n ≤ l.object_size)
    (fits : SetFits l objno) where
  abbrev set_no : ℕ
  set_no = objno / l.stripe_count

  abbrev row : ℕ
  row = set_no * stripes l + o / l.stripe_unit

  row-lt : row < (set_no + 1) * stripes l
  row-lt =
      omega
        (arith, (div-lt_iff_lt-mul {x = o} {y = stripes l} v.unit_pos).1 (rw v.whole (omega arith)))

  block-lt : block_of l objno o < (set_no + 1) * stripes l * l.stripe_count
  block-lt =
      row_bound _ l.stripe_count row (objno % l.stripe_count) row-lt (mod-lt objno v.count_pos)

  file_off-lt : file_off l objno o < (set_no + 1) * stripes l * l.stripe_count * l.stripe_unit
  file_off-lt =
      row_bound _ l.stripe_unit (block_of l objno o) (o % l.stripe_unit) block-lt
        (mod-lt o v.unit_pos)

  set_size :
      (set_no + 1) * stripes l * l.stripe_count * l.stripe_unit
      ≡ (set_no + 1) * (l.stripe_count * l.object_size)
  set_size = omega (arith, ap (λ (t : ℕ). (set_no + 1) * (l.stripe_count * t)) v.whole)

  file_off-IsU64 : file_off l objno o < 2 ^ 64
  file_off-IsU64 = omega (arith, file_off-lt, set_size)

  abbrev pub fe : FileExtent
  fe = file_extent l objno o n (o % l.stripe_unit)

  block-le : block_of l objno o ≤ file_off l objno o
  block-le = omega (arith, le-mul_of_pos_right (block_of l objno o) v.unit_pos)

  row-le : row ≤ block_of l objno o
  row-le = omega (arith, le-mul_of_pos_right row v.count_pos)

  set_start : u64 (set_no * stripes l) ≡ set_no * stripes l
  set_start = omega (arith, file_off-IsU64, block-le, row-le)

  stripeno : u64 (o / l.stripe_unit + set_no * stripes l) ≡ row
  stripeno = omega (arith, file_off-IsU64, block-le, row-le)

  blockno : u64 (row * l.stripe_count + objno % l.stripe_count) ≡ block_of l objno o
  blockno = mod-eq_of_lt (omega (arith, file_off-IsU64, block-le))

  -- In the round no product or sum wraps.
  pub fe_lem :
      fe ≡ record { off = file_off l objno o; len = min n (l.stripe_unit - o % l.stripe_unit) }
  unfolding file_extent
  fe_lem = rw (set_start, stripeno, blockno, mod-eq_of_lt file_off-IsU64)

  fe-off : fe.off ≡ file_off l objno o
  fe-off = ap (λ (e : FileExtent). e.off) fe_lem

  pub fe-len : fe.len ≡ min n (l.stripe_unit - o % l.stripe_unit)
  fe-len = ap (λ (e : FileExtent). e.len) fe_lem

  pub fe_bounds : (0 < fe.len) × (fe.len ≤ n) × (o % l.stripe_unit + fe.len ≤ l.stripe_unit)
  fe_bounds = omega (arith, fe-len, mod-lt o v.unit_pos)

  -- The round's file extent maps to the bytes that the round takes.
  pub fe-maps :
      calc_file_object_mapping l fe.off fe.len ≡ record { objno = objno; objoff = o; xlen = fe.len }
  fe-maps =
      rw
        (
          fe-off,
          calc_file_object_mapping_lem (file_off l objno o) fe.len v file_off-IsU64,
          objno_of-file_off objno o v (omega arith),
          objoff_of-file_off objno o v (omega arith),
          row_mod (block_of l objno o) l.stripe_unit (o % l.stripe_unit) (mod-lt o v.unit_pos),
        )
        (ground (arith, fe_bounds))
