-- ===== src/Striper/Objects/Cover.antt =====
-- The object count is the number of objects that the bytes of the file fall into.
use xcp_ng_ceph_rbd.Base.{sym}
use xcp_ng_ceph_rbd.Striper.Layout.Inverse.{file_off-of_same}
use native.Mathlib.Nat.{mul-pos}
use native.Mathlib.Nat.{mul-le-mul_left}
use xcp_ng_ceph_rbd.Striper.Layout.Bounds.{stripes-pos}
use native.Mathlib.Nat.{div-lt_iff_lt-mul, le-div_iff_mul-le}
use xcp_ng_ceph_rbd.Base.{
  ℕ, ◌+◌, ◌-◌, ◌*◌, ◌/◌, ◌%◌, ◌^◌, ◌≤◌, ◌<◌, ◌≡◌, ◌↔◌, ◌∙◌, ap, arith, ltb, u64, if◌then◌else◌,
  ◌&&◌,
}
use native.Mathlib.Decide.{dec_lt}
use native.Mathlib.Nat.{
  div-add-mod', le-mul_of_pos_right, zero-div, zero-mod, mod-lt, mul-le-mul_right,
}
use xcp_ng_ceph_rbd.Striper.Layout.{Layout, IsValid, Mapping, calc_file_object_mapping}
use xcp_ng_ceph_rbd.Striper.Layout.Bounds.{objno_of, objoff_of, calc_file_object_mapping_lem}
use xcp_ng_ceph_rbd.Striper.Layout.Inverse.{
  file_off, file_off_mono, objno_of-file_off, row_div, row_mod,
}
use xcp_ng_ceph_rbd.Striper.Objects.{get_num_objects}

-- Of the `r` bytes of a last, partial period: the objects that they reach.
abbrev tail_objects : Layout → ℕ → ℕ
tail_objects l r =
    if ltb 0 r && ltb r (l.stripe_count * l.stripe_unit)
    then (r + l.stripe_unit - 1) / l.stripe_unit
    else if ltb 0 r
    then l.stripe_count
    else 0

-- A size of `q` whole periods and `r` bytes.
module _ {l : Layout} (q r : ℕ) (v : IsValid l) (h : r < l.stripe_count * l.object_size)
    (fits : q * (l.stripe_count * l.object_size) + r + l.stripe_count * l.object_size
      < 2 ^ 64) where
  abbrev period : ℕ
  period = l.stripe_count * l.object_size

  abbrev row : ℕ
  row = l.stripe_count * l.stripe_unit

  unit-le-period : l.stripe_unit ≤ period
  unit-le-period = omega (
    arith,
    v.whole,
    mul-le-mul_right l.stripe_unit (stripes-pos v),
    mul-le-mul_right l.object_size v.count_pos,
  )

  count-le-period : l.stripe_count ≤ period
  count-le-period = le-mul_of_pos_right l.stripe_count v.size_pos

  period_mod : (q * period + r) % period ≡ r
  period_mod = row_mod q period r h

  periods_some : 0 < r → u64 (q * period + r + period - 1) / period ≡ q + 1
  periods_some pos =
      let e : u64 (q * period + r + period - 1) ≡ (q + 1) * period + (r - 1) = omega arith in
      rw e (row_div (q + 1) period (r - 1) (omega arith))

  periods_none : r ≡ 0 → u64 (q * period + r + period - 1) / period ≡ q
  periods_none z =
      let e : u64 (q * period + r + period - 1) ≡ q * period + (period - 1) = omega arith in
      rw e (row_div q period (period - 1) (omega arith))

  count_fits : (q + 1) * l.stripe_count < 2 ^ 64
  count_fits = omega (arith, mul-le-mul_right q count-le-period, count-le-period)

  tail-le : r < row → (r + l.stripe_unit - 1) / l.stripe_unit ≤ l.stripe_count
  tail-le lt = omega (
    arith,
    (div-lt_iff_lt-mul {x = r + l.stripe_unit - 1} {y = l.stripe_count + 1} v.unit_pos).1
        (omega (arith, v.unit_pos)),
  )

  tail_fits : u64 (r + l.stripe_unit - 1) ≡ r + l.stripe_unit - 1
  tail_fits = omega (arith, unit-le-period)

  -- The count for whole periods and a tail.
  get_num_objects-periods :
      get_num_objects l (q * period + r) ≡ q * l.stripe_count + tail_objects l r
  unfolding get_num_objects
  get_num_objects-periods = elim (dec_lt 0 r) [
    | yes pos ↦ rw (period_mod, periods_some pos, tail_fits) (ground (arith, count_fits, tail-le))
    | no n ↦
        rw (period_mod, periods_none (omega arith), tail_fits) (ground (arith, count_fits, tail-le))
  ]

-- The first byte of an object, in the file.
file_off_first :
    {l : Layout} (objno : ℕ)
    → IsValid l
    → file_off l objno 0
      ≡ objno / l.stripe_count * (l.stripe_count * l.object_size)
        + objno % l.stripe_count * l.stripe_unit
file_off_first {l} objno v =
    rw (zero-div, zero-mod)
      (omega (arith, ap (λ (t : ℕ). objno / l.stripe_count * l.stripe_count * t) v.whole))

-- Column `p` of the last, partial row of units is reached.
tail_iff :
    (l : Layout) (p r : ℕ)
    → 0 < l.stripe_unit
    → p < l.stripe_count
    → (p < tail_objects l r) ↔ (p * l.stripe_unit < r)
tail_iff l p r h hp = elim (dec_lt r (l.stripe_count * l.stripe_unit)) [
  | yes lt ↦
      let up = le-div_iff_mul-le {x = p + 1} {y = r + l.stripe_unit - 1} h in
      (λ a. ground (arith, up.0), λ b. ground (arith, up.1 (omega arith)))
  | no ge ↦ (λ a. ground (arith, mul-le-mul_right l.stripe_unit hp), λ b. ground arith)
]

tail-le_count : (l : Layout) (r : ℕ) → 0 < l.stripe_unit → tail_objects l r ≤ l.stripe_count
tail-le_count l r h = elim (dec_lt r (l.stripe_count * l.stripe_unit)) [
  | yes lt ↦
      let most : (r + l.stripe_unit - 1) / l.stripe_unit < l.stripe_count + 1 =
        (div-lt_iff_lt-mul {x = r + l.stripe_unit - 1} {y = l.stripe_count + 1} h).1
          (omega arith) in
      ground arith
  | no ge ↦ ground arith
]

unit-le_size : {l : Layout} → IsValid l → l.stripe_unit ≤ l.object_size
unit-le_size {l} v = omega (arith, v.whole, mul-le-mul_right l.stripe_unit (stripes-pos v))

-- An object is counted when its first byte lies before the end.
lt_of_tail : (sc s q p t : ℕ) → s * sc + p < q * sc + t → t ≤ sc → q ≤ s → (s ≡ q) × (p < t)
lt_of_tail sc s q p t a le ge = elim (dec_lt q s) [
  | yes after ↦ absurd (omega (arith, mul-le-mul_right sc after))
  | no n ↦ let e : s ≡ q = omega arith in (e, omega (arith, ap (λ (k : ℕ). k * sc) e))
]

counted :
    {l : Layout} (objno q r : ℕ)
    → IsValid l
    → r < l.stripe_count * l.object_size
    → (objno < q * l.stripe_count + tail_objects l r)
      ↔ (file_off l objno 0 < q * (l.stripe_count * l.object_size) + r)
counted {l} objno q r v h = rw (file_off_first objno v) (elim (dec_lt s q) [
  | yes before ↦ (
    λ _. omega (arith, mul-le-mul_right (l.stripe_count * l.object_size) before, column),
    λ _. omega (arith, mul-le-mul_right l.stripe_count before, place, mod-lt objno v.count_pos),
  )
  | no ge ↦ (onward ge, back ge)
])
  where
    s : ℕ
    s = objno / l.stripe_count

    p : ℕ
    p = objno % l.stripe_count

    place : s * l.stripe_count + p ≡ objno
    place = div-add-mod' objno l.stripe_count

    column : p * l.stripe_unit < l.stripe_count * l.object_size
    column = omega (
      arith,
      v.unit_pos,
      mul-le-mul_right l.stripe_unit (mod-lt objno v.count_pos),
      mul-le-mul_left l.stripe_count (unit-le_size v),
    )

    onward :
        ¬ (s < q)
        → objno < q * l.stripe_count + tail_objects l r
        → s * (l.stripe_count * l.object_size) + p * l.stripe_unit
          < q * (l.stripe_count * l.object_size) + r
    onward ge a =
        let (e, lt) =
          lt_of_tail l.stripe_count s q p (tail_objects l r) (rw place a)
            (tail-le_count l r v.unit_pos) (omega arith) in
        omega (
          arith,
          ap (λ (k : ℕ). k * (l.stripe_count * l.object_size)) e,
          (tail_iff l p r v.unit_pos (mod-lt objno v.count_pos)).0 lt,
        )

    back :
        ¬ (s < q)
        → s * (l.stripe_count * l.object_size) + p * l.stripe_unit
          < q * (l.stripe_count * l.object_size) + r
        → objno < q * l.stripe_count + tail_objects l r
    back ge b =
        let (e, lt) =
          lt_of_tail (l.stripe_count * l.object_size) s q (p * l.stripe_unit) r b (omega arith)
            (omega arith) in
        omega (
          arith,
          place,
          ap (λ (k : ℕ). k * l.stripe_count) e,
          (tail_iff l p r v.unit_pos (mod-lt objno v.count_pos)).1 lt,
        )

-- For a valid layout and a size that leaves room for one more object set in 64 bits, object `objno`
-- is below `ceph_get_num_objects` exactly if some byte of the file is mapped into it.
pub get_num_objects_iff :
    {l : Layout} (size objno : ℕ)
    → IsValid l
    → size + l.stripe_count * l.object_size < 2 ^ 64
    → (objno < get_num_objects l size)
      ↔ ((off : ℕ) × (off < size) × ((calc_file_object_mapping l off 1).objno ≡ objno))
get_num_objects_iff {l} size objno v h = (to, from)
  where
    q : ℕ
    q = size / (l.stripe_count * l.object_size)

    r : ℕ
    r = size % (l.stripe_count * l.object_size)

    split : q * (l.stripe_count * l.object_size) + r ≡ size
    split = div-add-mod' size (l.stripe_count * l.object_size)

    r-lt : r < l.stripe_count * l.object_size
    r-lt = mod-lt size (mul-pos v.count_pos v.size_pos)

    count : get_num_objects l size ≡ q * l.stripe_count + tail_objects l r
    count = rw split at (get_num_objects-periods q r v r-lt (rw split h))

    objno_lem : (off : ℕ) → off < size → (calc_file_object_mapping l off 1).objno ≡ objno_of l off
    objno_lem off lt =
        ap (λ (m : Mapping). m.objno) (calc_file_object_mapping_lem off 1 v (omega arith))

    to :
        objno < get_num_objects l size
        → (off : ℕ) × (off < size) × ((calc_file_object_mapping l off 1).objno ≡ objno)
    to lt =
        let first : file_off l objno 0 < size =
          rw split at ((counted objno q r v r-lt).0 (rw (← count) lt)) in
        (file_off l objno 0, first, objno_lem _ first ∙ objno_of-file_off objno 0 v v.size_pos)

    from :
        (off : ℕ) × (off < size) × ((calc_file_object_mapping l off 1).objno ≡ objno)
        → objno < get_num_objects l size
    from (off, lt, e) =
        let first : file_off l objno 0 ≤ off =
          rw (file_off-of_same objno off v (sym e ∙ objno_lem off lt)) at
            (file_off_mono objno 0 (objoff_of l off) v (omega arith)) in
        rw count ((counted objno q r v r-lt).1 (rw split (omega arith)))
