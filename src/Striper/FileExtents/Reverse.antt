-- ===== src/Striper/FileExtents/Reverse.antt =====
-- `ceph_extent_to_file` inverts `ceph_calc_file_object_mapping`.
use xcp_ng_ceph_rbd.Base.{
  ℕ, zero, suc, ◌+◌, ◌-◌, ◌*◌, ◌/◌, ◌%◌, ◌^◌, ◌≤◌, ◌<◌, ◌≡◌, refl, sym, ap, ◌∙◌, min, true, List,
  [], ◌∷◌, ◌++◌, u64, sub64, length, arith,
}
use native.Mathlib.Decide.{dec_lt}
use mathlib.Core.List.{append-nil, append_assoc}
use native.Mathlib.Nat.{
  div-add-mod', mod-lt, le-div_iff_mul-le, div-le_of_le-mul, div-le_self, div-mul-le_self,
  mod-eq_of_lt, mod-eq_of_lt,
}
use xcp_ng_ceph_rbd.Striper.Layout.{Layout, IsValid, calc_file_object_mapping}
use xcp_ng_ceph_rbd.Striper.Layout.Inverse.{row_div, row_mod}
use xcp_ng_ceph_rbd.Striper.FileExtents.{
  FileExtent, Reply, extents, num_file_extents, file_extent, reverse_map, extent_to_file,
}
use xcp_ng_ceph_rbd.Striper.FileExtents.Round.{SetFits, fe, fe-len, fe_bounds, fe-maps}

-- The file extents map forward, one after the other, to the `n` bytes at `o` of object `objno`.
abbrev pub MapsTo : Layout → ℕ → ℕ → ℕ → List FileExtent → Type 0
MapsTo l objno o n [] = n ≡ 0
MapsTo l objno o n (fe ∷ rest) =
    (0 < fe.len)
    × (fe.len ≤ n)
    × (calc_file_object_mapping l fe.off fe.len
        ≡ record { objno = objno; objoff = o; xlen = fe.len })
    × MapsTo l objno (o + fe.len) (n - fe.len) rest

-- Stripe units that the `n` bytes at `o` touch.
abbrev touched : ℕ → ℕ → ℕ → ℕ
touched su o n = (o + n + su - 1) / su - o / su

touched_last : (su o n : ℕ) → 0 < su → 0 < n → o % su + n ≤ su → touched su o n ≡ 1
touched_last su o n h pos fits =
    rw (e, row_div (o / su + 1) su (o % su + n - 1) (omega arith)) (omega arith)
  where
    e : o + n + su - 1 ≡ (o / su + 1) * su + (o % su + n - 1)
    e = omega (arith, div-add-mod' o su)

next_unit : (su o : ℕ) → 0 < su → o + (su - o % su) ≡ (o / su + 1) * su + 0
next_unit su o h = omega (arith, div-add-mod' o su, mod-lt o h)

touched_more :
    (su o n : ℕ)
    → 0 < su
    → su < o % su + n
    → touched su o n ≡ suc (touched su (o + (su - o % su)) (n - (su - o % su)))
touched_more su o n h more = rw (same, starts) (omega (arith, least))
  where
    same : o + (su - o % su) + (n - (su - o % su)) ≡ o + n
    same = omega (arith, mod-lt o h)

    starts : (o + (su - o % su)) / su ≡ o / su + 1
    starts = rw (next_unit su o h) (row_div (o / su + 1) su 0 h)

    least : o / su + 1 ≤ (o + n + su - 1) / su
    least =
        (le-div_iff_mul-le {x = o / su + 1} {y = o + n + su - 1} h).1
          (omega (arith, div-add-mod' o su))

-- Where the bytes go on past a unit, the next one starts.
unit_end : (su o : ℕ) → 0 < su → (o + (su - o % su)) % su ≡ 0
unit_end su o h = rw (next_unit su o h) (row_mod (o / su + 1) su 0 h)

-- The rounds of the loop.
abbrev rounds : ℕ → ℕ → ℕ → ℕ
rounds su o zero = 0
rounds su o (suc n) = touched su o (suc n)

rounds-pos : (su o n : ℕ) → 0 < n → rounds su o n ≡ touched su o n
rounds-pos su o zero h = absurd (omega arith)
rounds-pos su o (suc n) h = refl

rounds-step :
    (su o n x : ℕ)
    → 0 < su
    → x ≡ min (suc n) (su - o % su)
    → touched su o (suc n) ≡ suc (rounds su (o + x) (suc n - x))
rounds-step su o n x h e = elim (dec_lt su (o % su + suc n)) [
  | yes more ↦
      let whole : x ≡ su - o % su = omega arith in
      rw (whole, rounds-pos su (o + (su - o % su)) (suc n - (su - o % su)) (omega arith))
        (touched_more su o (suc n) h more)
  | no last ↦
      let none_left : suc n - x ≡ 0 = omega arith in
      rw (none_left, touched_last su o (suc n) h (omega arith) (omega arith))
]

units-le : (su m : ℕ) → 0 < su → 0 < m → m + su - 1 ≤ su * m
units-le zero m h k = absurd (omega arith)
units-le (suc j) zero h k = absurd (omega arith)
units-le (suc j) (suc k) h k' = omega arith

div_mono : (a b d : ℕ) → 0 < d → a ≤ b → a / d ≤ b / d
div_mono a b d h le =
    (le-div_iff_mul-le {x = a / d} {y = b} h).1 (omega (arith, div-mul-le_self a d))

-- What the loop returns on top of `done`, and how many file extents that is.
abbrev Reversed : Layout → ℕ → ℕ → ℕ → List FileExtent → Reply → Type 0
Reversed l objno o n done r =
    (fes : List FileExtent) × (r ≡ extents (done ++ fes))
    × MapsTo l objno o n fes
    × (length fes ≡ rounds l.stripe_unit o n)

module _ {l : Layout} (objno : ℕ) (v : IsValid l) (fits : SetFits l objno) where
  reverse_map_done :
      (fuel o blockoff : ℕ) (done : List FileExtent)
      → reverse_map l objno fuel o 0 blockoff done ≡ extents done
  unfolding reverse_map
  reverse_map_done zero o blockoff done = refl
  reverse_map_done (suc fuel) o blockoff done = refl

  reverse_map_raw :
      (fuel o n blockoff : ℕ) (done : List FileExtent)
      → let x = file_extent l objno o (suc n) blockoff in
        reverse_map l objno (suc fuel) o (suc n) blockoff done
        ≡ reverse_map l objno fuel (u64 (o + x.len)) (sub64 (suc n) x.len) 0 (done ++ (x ∷ []))
  unfolding reverse_map
  reverse_map_raw fuel o n blockoff done = refl

  reverse_map_step :
      (fuel o n : ℕ) (done : List FileExtent)
      → o + suc n ≤ l.object_size
      → let x = file_extent l objno o (suc n) (o % l.stripe_unit) in
        reverse_map l objno (suc fuel) o (suc n) (o % l.stripe_unit) done
        ≡ reverse_map l objno fuel (o + x.len) (suc n - x.len) 0 (done ++ (x ∷ []))
  reverse_map_step fuel o n done h =
      let b = fe_bounds objno o (suc n) v (omega arith) h fits in
      let next : u64 (o + x.len) ≡ o + x.len = omega (arith, b, v.size_word) in
      let left : sub64 (suc n) x.len ≡ suc n - x.len = omega (arith, b, v.size_word) in
      rw (reverse_map_raw fuel o n (o % l.stripe_unit) done, next, left)
    where
      x : FileExtent
      x = file_extent l objno o (suc n) (o % l.stripe_unit)

  reverse_map-Reversed :
      (fuel o n blockoff : ℕ) (done : List FileExtent)
      → n ≤ fuel
      → o + n ≤ l.object_size
      → (0 < n → blockoff ≡ o % l.stripe_unit)
      → Reversed l objno o n done (reverse_map l objno fuel o n blockoff done)
  reverse_map-Reversed fuel o zero blockoff done f h b =
      ([], rw (reverse_map_done fuel o blockoff done, append-nil), refl, refl)
  reverse_map-Reversed zero o (suc n) blockoff done f h b = absurd (omega arith)
  reverse_map-Reversed (suc fuel) o (suc n) blockoff done f h b =
      let (fes, e, maps, count) =
        reverse_map-Reversed fuel (o + x.len) (suc n - x.len) 0 (done ++ (x ∷ []))
          (omega (arith, xb)) (omega (arith, xb)) aligned in
      (
        x ∷ fes,
        rw (b (omega arith), reverse_map_step fuel o n done h)
            (e ∙ ap extents (append_assoc done (x ∷ []) fes)),
        (xb.0, xb.1, fe-maps objno o (suc n) v (omega arith) h fits, maps),
        ap suc count ∙ sym (rounds-step l.stripe_unit o n x.len v.unit_pos len),
      )
    where
      x : FileExtent
      x = file_extent l objno o (suc n) (o % l.stripe_unit)

      len : x.len ≡ min (suc n) (l.stripe_unit - o % l.stripe_unit)
      len = fe-len objno o (suc n) v (omega arith) h fits

      xb : (0 < x.len) × (x.len ≤ suc n) × (o % l.stripe_unit + x.len ≤ l.stripe_unit)
      xb = fe_bounds objno o (suc n) v (omega arith) h fits

      aligned : 0 < suc n - x.len → 0 ≡ (o + x.len) % l.stripe_unit
      aligned more =
          let whole : x.len ≡ l.stripe_unit - o % l.stripe_unit = omega (arith, len) in
          rw whole (sym (unit_end l.stripe_unit o v.unit_pos))

  -- What `kmalloc_array` is asked for is the number of rounds.
  num_file_extents-rounds :
      (o n : ℕ) → o + n ≤ l.object_size → 0 < n → num_file_extents l o n ≡ touched l.stripe_unit o n
  unfolding num_file_extents
  num_file_extents-rounds o n h pos =
      rw
        (
          mod-eq_of_lt {n = o + n} {m = 2 ^ 64} (omega (arith, v.size_word)),
          mod-eq_of_lt {n = o + n + l.stripe_unit - 1} {m = 2 ^ 64}
              (omega (arith, v.size_word, v.unit_word)),
        )
        (omega (
          arith,
          v.size_word,
          v.unit_word,
          div-le_of_le-mul l.stripe_unit {m = o + n + l.stripe_unit - 1} {n = o + n}
              (units-le l.stripe_unit (o + n) v.unit_pos (omega arith)),
          div-le_self o l.stripe_unit,
          div_mono o (o + n + l.stripe_unit - 1) l.stripe_unit v.unit_pos
              (omega (arith, v.unit_pos)),
        ))

  -- For a valid layout, an object whose set ends within 2^64 bytes of the file, and an extent within
  -- the object: with memory at hand `ceph_extent_to_file` returns file extents, so BUG_ON does not
  -- fire, and `ceph_calc_file_object_mapping` takes them, one after the other, to exactly the bytes
  -- of the object extent.
  pub extent_to_file-MapsTo :
      (o n : ℕ)
      → o + n ≤ l.object_size
      → (fes : List FileExtent) × (extent_to_file l true objno o n ≡ extents fes)
        × MapsTo l objno o n fes
  unfolding extent_to_file
  extent_to_file-MapsTo o zero h = ([], refl, refl)
  extent_to_file-MapsTo o (suc n) h =
      let (fes, e, maps, count) =
        reverse_map-Reversed (suc n) o (suc n) (o % l.stripe_unit) [] (omega arith) h (λ p. refl) in
      (fes, rw e (ground (arith, count, num_file_extents-rounds o (suc n) h (omega arith))), maps)
