-- ===== src/Striper/Layout/Bounds.antt =====
-- The mapping of a valid layout, without wrapping, and its bounds.
use xcp_ng_ceph_rbd.Base.{ℕ, ◌+◌, ◌-◌, ◌*◌, ◌/◌, ◌%◌, ◌^◌, ◌≤◌, ◌<◌, ◌≡◌, min, arith}
use xcp_ng_ceph_rbd.Striper.Layout.{Layout, IsValid, calc_file_object_mapping}
use native.Mathlib.Nat.{mod-lt, div-add-mod', div-le_self, mul-le-mul_right}

-- Stripe units in an object.
abbrev pub stripes : Layout → ℕ
stripes l = l.object_size / l.stripe_unit

abbrev pub objno_of : Layout → ℕ → ℕ
objno_of l off =
    off / l.stripe_unit / l.stripe_count / stripes l * l.stripe_count
    + off / l.stripe_unit % l.stripe_count

abbrev pub objoff_of : Layout → ℕ → ℕ
objoff_of l off =
    off / l.stripe_unit / l.stripe_count % stripes l * l.stripe_unit + off % l.stripe_unit

-- Whole units, and at least one of them.
pub stripes-pos : {l : Layout} → IsValid l → 0 < stripes l
stripes-pos {l} v = grind (arith, v.whole)

-- Row `i` of `n`, offset `j` in the row.
pub row_bound : (n su i j : ℕ) → i < n → j < su → i * su + j < n * su
row_bound n su i j hi hj = grind arith

pub objoff_of-lt : {l : Layout} (off : ℕ) → IsValid l → objoff_of l off < l.object_size
objoff_of-lt {l} off v = omega (
  arith,
  row_bound (stripes l) l.stripe_unit (off / l.stripe_unit / l.stripe_count % stripes l)
      (off % l.stripe_unit) (mod-lt _ (stripes-pos v)) (mod-lt _ v.unit_pos),
  v.whole,
)

pub objno_of-le : (l : Layout) (off : ℕ) → objno_of l off ≤ off
objno_of-le l off = omega (
  arith,
  div-le_self off l.stripe_unit,
  div-add-mod' (off / l.stripe_unit) l.stripe_count,
  mul-le-mul_right l.stripe_count (div-le_self (off / l.stripe_unit / l.stripe_count) (stripes l)),
)

-- On an offset that fits in 64 bits nothing wraps.
pub calc_file_object_mapping_lem :
    {l : Layout} (off len : ℕ)
    → IsValid l
    → off < 2 ^ 64
    → calc_file_object_mapping l off len ≡ record {
      objno = objno_of l off;
      objoff = objoff_of l off;
      xlen = min len (l.stripe_unit - off % l.stripe_unit);
    }
unfolding calc_file_object_mapping
calc_file_object_mapping_lem {l} off len v h = ground (arith, objno_of-le l off, objoff_of-lt off v)

-- For a valid layout, an offset below 2^64 and `len` not 0, the mapped run has at least one byte and
-- at most `len`, ends within the object, and does not leave the stripe unit that it begins in.
pub calc_file_object_mapping_bounds :
    {l : Layout} (off len : ℕ)
    → IsValid l
    → off < 2 ^ 64
    → 0 < len
    → let m = calc_file_object_mapping l off len in
      (0 < m.xlen)
      × (m.xlen ≤ len)
      × (m.objoff + m.xlen ≤ l.object_size)
      × (off % l.stripe_unit + m.xlen ≤ l.stripe_unit)
calc_file_object_mapping_bounds {l} off len v h pos =
    rw (calc_file_object_mapping_lem off len v h) (
      omega (
        arith,
        mod-lt off v.unit_pos,
        v.whole,
        mul-le-mul_right l.stripe_unit
            (mod-lt (off / l.stripe_unit / l.stripe_count) (stripes-pos v)),
      ))
