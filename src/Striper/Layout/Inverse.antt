-- ===== src/Striper/Layout/Inverse.antt =====
-- The file offset of an object's byte, and how it undoes `ceph_calc_file_object_mapping`.
use xcp_ng_ceph_rbd.Base.{ℕ, ◌+◌, ◌-◌, ◌*◌, ◌/◌, ◌%◌, ◌≤◌, ◌<◌, ◌≡◌, sym, arith}
use xcp_ng_ceph_rbd.Striper.Layout.{Layout, IsValid}
use xcp_ng_ceph_rbd.Striper.Layout.Bounds.{stripes, objno_of, objoff_of}
use native.Mathlib.Decide.{dec_lt}
use native.Mathlib.Nat.{
  mul-le-mul_right, div-lt_iff_lt-mul, le_antisymm, mod-lt, mod-eq_of_lt, div-eq_of_lt,
  div-add-mod', mul-add-div_right, mul-add-mod_self_right,
}

-- Quotient and remainder of a number in rows of `d`.
pub row_div : (q d r : ℕ) → r < d → (q * d + r) / d ≡ q
row_div q d r h = omega (arith, mul-add-div_right {m = d} (omega arith) q r, div-eq_of_lt h)

pub row_mod : (q d r : ℕ) → r < d → (q * d + r) % d ≡ r
row_mod q d r h = omega (arith, mul-add-mod_self_right q d r, mod-eq_of_lt h)

row_le : (a b su i j : ℕ) → j < su → a * su + i ≤ b * su + j → a ≤ b
row_le a b su i j hj h = grind arith

-- The stripe unit in the file of byte `objoff` of object `objno`.
abbrev pub block_of : Layout → ℕ → ℕ → ℕ
block_of l objno objoff =
    (objno / l.stripe_count * stripes l + objoff / l.stripe_unit) * l.stripe_count
    + objno % l.stripe_count

abbrev pub file_off : Layout → ℕ → ℕ → ℕ
file_off l objno objoff = block_of l objno objoff * l.stripe_unit + objoff % l.stripe_unit

pub file_off-of :
    {l : Layout} (off : ℕ) → IsValid l → file_off l (objno_of l off) (objoff_of l off) ≡ off
file_off-of {l} off v = rw (
  row_div (stripeno / stripes l) l.stripe_count (off / l.stripe_unit % l.stripe_count)
      (mod-lt _ v.count_pos),
  row_mod (stripeno / stripes l) l.stripe_count (off / l.stripe_unit % l.stripe_count)
      (mod-lt _ v.count_pos),
  row_div (stripeno % stripes l) l.stripe_unit (off % l.stripe_unit) (mod-lt _ v.unit_pos),
  row_mod (stripeno % stripes l) l.stripe_unit (off % l.stripe_unit) (mod-lt _ v.unit_pos),
  div-add-mod' stripeno (stripes l),
  div-add-mod' (off / l.stripe_unit) l.stripe_count,
  div-add-mod' off l.stripe_unit,
)
  where
    stripeno : ℕ
    stripeno = off / l.stripe_unit / l.stripe_count

-- Rows of `su`, `sc` columns apart: a later place in column `s` is a later place in the file.
columns_mono :
    (base sc s su a b i j : ℕ)
    → 0 < sc
    → i < su
    → j < su
    → a * su + i ≤ b * su + j
    → ((base + a) * sc + s) * su + i ≤ ((base + b) * sc + s) * su + j
columns_mono base sc s su a b i j hc hi hj h = elim (dec_lt a b) [
  | yes p ↦
      let step : (base + a) * sc + s + 1 ≤ (base + b) * sc + s =
        omega (arith, mul-le-mul_right sc p) in
      omega (arith, mul-le-mul_right su step)
  | no p ↦
      let e : a ≡ b = le_antisymm (row_le a b su i j hj h) (omega arith) in
      let h' : b * su + i ≤ b * su + j = rw e at h in rw e (omega arith)
]

-- For a fixed object the file offset grows with the offset in the object.
pub file_off_mono :
    {l : Layout} (objno a b : ℕ) → IsValid l → a ≤ b → file_off l objno a ≤ file_off l objno b
file_off_mono {l} objno a b v h =
    columns_mono (objno / l.stripe_count * stripes l) l.stripe_count (objno % l.stripe_count)
      l.stripe_unit (a / l.stripe_unit) (b / l.stripe_unit) (a % l.stripe_unit) (b % l.stripe_unit)
      v.count_pos (mod-lt a v.unit_pos) (mod-lt b v.unit_pos)
      (omega (arith, div-add-mod' a l.stripe_unit, div-add-mod' b l.stripe_unit))

module _ {l : Layout} (off j : ℕ) (v : IsValid l)
    (h : off % l.stripe_unit + j < l.stripe_unit) where
  -- Within a stripe unit the mapping moves with the offset.
  pub unit-add :
      ((off + j) / l.stripe_unit ≡ off / l.stripe_unit)
      × ((off + j) % l.stripe_unit ≡ off % l.stripe_unit + j)
  unit-add = (
    rw (e, row_div (off / l.stripe_unit) l.stripe_unit _ h),
    rw (e, row_mod (off / l.stripe_unit) l.stripe_unit _ h),
  )
    where
      e : off + j ≡ off / l.stripe_unit * l.stripe_unit + (off % l.stripe_unit + j)
      e = omega (arith, div-add-mod' off l.stripe_unit)

  pub objno_of-add : objno_of l (off + j) ≡ objno_of l off
  objno_of-add = rw (unit-add.0)

  pub objoff_of-add : objoff_of l (off + j) ≡ objoff_of l off + j
  objoff_of-add = rw (unit-add.0, unit-add.1) (omega arith)

pub file_off-of_same :
    {l : Layout} (objno off : ℕ)
    → IsValid l
    → objno ≡ objno_of l off
    → file_off l objno (objoff_of l off) ≡ off
file_off-of_same objno off v e = rw e (file_off-of off v)

-- Two offsets of one object that are apart by a mapped run are so in the object too.
pub objoff_of_apart :
    {l : Layout} (p q x : ℕ)
    → IsValid l
    → 0 < x
    → p % l.stripe_unit + x ≤ l.stripe_unit
    → p + x ≤ q
    → objno_of l p ≡ objno_of l q
    → objoff_of l p + x ≤ objoff_of l q
objoff_of_apart {l} p q x v pos fits apart same =
    elim (dec_lt (objoff_of l q) (objoff_of l p + x)) [
      | no n ↦ omega arith
      | yes y ↦
          let order : file_off l (objno_of l p) (objoff_of l q)
              ≤ file_off l (objno_of l p) (objoff_of l (p + (x - 1))) =
            file_off_mono (objno_of l p) (objoff_of l q) (objoff_of l (p + (x - 1))) v
              (omega (arith, objoff_of-add p (x - 1) v fits')) in
          let last : file_off l (objno_of l p) (objoff_of l (p + (x - 1))) ≡ p + (x - 1) =
            file_off-of_same (objno_of l p) (p + (x - 1)) v
              (sym (objno_of-add p (x - 1) v fits')) in
          let next : file_off l (objno_of l p) (objoff_of l q) ≡ q =
            file_off-of_same (objno_of l p) q v same in
          absurd (too_near apart pos (rw (next, last) at order))
    ]
  where
    fits' : p % l.stripe_unit + (x - 1) < l.stripe_unit
    fits' = omega arith

    too_near : p + x ≤ q → 0 < x → q ≤ p + (x - 1) → ⊥
    too_near a b c = omega arith

module _ {l : Layout} (objno o : ℕ) (v : IsValid l) (inside : o < l.object_size) where
  file_off-blockno : file_off l objno o / l.stripe_unit ≡ block_of l objno o
  file_off-blockno = row_div (block_of l objno o) l.stripe_unit _ (mod-lt o v.unit_pos)

  file_off-blockoff : file_off l objno o % l.stripe_unit ≡ o % l.stripe_unit
  file_off-blockoff = row_mod (block_of l objno o) l.stripe_unit _ (mod-lt o v.unit_pos)

  abbrev row : ℕ
  row = objno / l.stripe_count * stripes l + o / l.stripe_unit

  block_of-stripeno : block_of l objno o / l.stripe_count ≡ row
  block_of-stripeno = row_div row l.stripe_count _ (mod-lt objno v.count_pos)

  block_of-stripepos : block_of l objno o % l.stripe_count ≡ objno % l.stripe_count
  block_of-stripepos = row_mod row l.stripe_count _ (mod-lt objno v.count_pos)

  row-in : o / l.stripe_unit < stripes l
  row-in = (div-lt_iff_lt-mul {x = o} {y = stripes l} v.unit_pos).1 (rw v.whole inside)

  -- The mapping undoes `file_off`, within the object.
  pub objno_of-file_off : objno_of l (file_off l objno o) ≡ objno
  objno_of-file_off =
      rw
        (
          file_off-blockno,
          block_of-stripeno,
          block_of-stripepos,
          row_div (objno / l.stripe_count) (stripes l) (o / l.stripe_unit) row-in,
        )
        (div-add-mod' objno l.stripe_count)

  pub objoff_of-file_off : objoff_of l (file_off l objno o) ≡ o
  objoff_of-file_off =
      rw
        (
          file_off-blockno,
          block_of-stripeno,
          file_off-blockoff,
          row_mod (objno / l.stripe_count) (stripes l) (o / l.stripe_unit) row-in,
        )
        (div-add-mod' o l.stripe_unit)
