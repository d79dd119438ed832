-- ===== src/MsgrV2/Frame/Accepts.antt =====
-- What the reader of a preamble guarantees for any 32 bytes that a peer may send.
use xcp_ng_ceph_rbd.Base.{
  ℕ, zero, suc, ◌+◌, ◌-◌, ◌*◌, ◌^◌, ◌||◌, ◌≤◌, ◌<◌, ◌≡◌, ◌≢◌, refl, ap, sym, ◌∙◌, List, [], ◌∷◌,
  ◌⊎◌, inl, inr, false, length, take, drop, get_or, All, ltb, ◌==◌, arith, IsByte, Bool-cases,
  ==_iff, length-drop,
}
use xcp_ng_ceph_rbd.Crush.Outcome.{Outcome, ok}
use xcp_ng_ceph_rbd.MsgrV2.Frame.{
  max_control_len, max_data_len, Desc, zero_fill, get_le, Verdict, accepted, bad_crc, invalid,
  decode_segs, check_desc, with_segs, decode_counted, decode_body, decode_preamble,
}
use xcp_ng_ceph_rbd.MsgrV2.Frame.Valid.{
  IsWithin, limits, IsU16, IsValid, length-zero_fill, All-zero_fill,
}

-- `n` bytes give a number below 256 ^ n, and the bytes behind them.
get_le-ok :
    (n : ℕ) (p : List ℕ)
    → n ≤ length p
    → All IsByte p
    → (v : ℕ) × (r : List ℕ) × (get_le n p ≡ ok (v, r))
      × (v < 256 ^ n)
      × (length r + n ≡ length p)
      × All IsByte r
unfolding get_le
get_le-ok zero p h bytes = (0, p, refl, omega arith, omega arith, bytes)
get_le-ok (suc n) [] h bytes = absurd (omega arith)
get_le-ok (suc n) (b ∷ p) h bytes =
    let (v, r, e, lt, len, rest) = get_le-ok n p (omega arith) bytes.1 in
    (b + 256 * v, r, rw e refl, bound v lt, omega arith, rest)
  where
    bound : (w : ℕ) → w < 256 ^ n → b + 256 * w < 256 ^ suc n
    bound w lt = omega (arith, bytes.0)

-- The segments that are read, as many as were counted.
decode_segs-ok :
    (cnt : ℕ) (p : List ℕ)
    → 6 * cnt ≤ length p
    → All IsByte p
    → (lens : List ℕ) × (aligns : List ℕ) × (decode_segs cnt p ≡ ok (lens, aligns))
      × (length lens ≡ cnt)
      × (length aligns ≡ cnt)
      × All IsU16 aligns
unfolding decode_segs
decode_segs-ok zero p h bytes = ([], [], refl, refl, refl, tt)
decode_segs-ok (suc cnt) p h bytes =
    let (n, p1, e1, lt1, len1, bytes1) = get_le-ok 4 p (omega arith) bytes in
    let (a, p2, e2, lt2, len2, bytes2) = get_le-ok 2 p1 (omega arith) bytes1 in
    let (lens, aligns, e3, el, ea, short) = decode_segs-ok cnt p2 (omega arith) bytes2 in
    (n ∷ lens, a ∷ aligns, rw (e1, e2, e3) refl, ap suc el, ap suc ea, (omega arith, short))

take-zero_fill : (n : ℕ) (xs : List ℕ) → length xs ≤ n → take (length xs) (zero_fill n xs) ≡ xs
take-zero_fill zero [] h = refl
take-zero_fill zero (x ∷ xs) h = absurd (omega arith)
take-zero_fill (suc n) [] h = refl
take-zero_fill (suc n) (x ∷ xs) h = ap (λ t. x ∷ t) (take-zero_fill n xs (omega arith))

-- The five checks, one after the other.
check_desc-cases :
    (d : Desc)
    → (check_desc d ≡ invalid)
      ⊎ ((check_desc d ≡ accepted d)
          × (get_or d.lens 0 0 ≤ max_control_len)
          × (get_or d.lens 1 0 ≤ max_control_len)
          × (get_or d.lens 2 0 ≤ max_control_len)
          × (get_or d.lens 3 0 ≤ max_data_len)
          × (get_or d.lens (d.seg_cnt - 1) 0 ≢ 0))
unfolding check_desc
check_desc-cases d = ground arith

four_IsWithin :
    (xs : List ℕ)
    → length xs ≡ 4
    → (get_or xs 0 0 ≤ max_control_len)
    → (get_or xs 1 0 ≤ max_control_len)
    → (get_or xs 2 0 ≤ max_control_len)
    → (get_or xs 3 0 ≤ max_data_len)
    → IsWithin limits xs
four_IsWithin [] e ha hb hc hd = absurd (omega arith)
four_IsWithin (a ∷ []) e ha hb hc hd = absurd (omega arith)
four_IsWithin (a ∷ b ∷ []) e ha hb hc hd = absurd (omega arith)
four_IsWithin (a ∷ b ∷ c ∷ []) e ha hb hc hd = absurd (omega arith)
four_IsWithin (a ∷ b ∷ c ∷ d ∷ []) e ha hb hc hd = (ha, (hb, (hc, (hd, tt))))
four_IsWithin (a ∷ b ∷ c ∷ d ∷ x ∷ xs) e ha hb hc hd = absurd (omega arith)

-- The reader refuses, or accepts a valid description.
abbrev Settles : Outcome Verdict → Type 0
Settles r = (r ≡ ok invalid) ⊎ ((d : Desc) × (r ≡ ok (accepted d)) × IsValid d)

check_desc-Settles :
    (tag seg_cnt : ℕ) (lens aligns : List ℕ)
    → tag < 256
    → 1 ≤ seg_cnt
    → seg_cnt ≤ 4
    → length lens ≡ seg_cnt
    → length aligns ≡ seg_cnt
    → All IsU16 aligns
    → Settles (ok (check_desc (with_segs tag seg_cnt (lens, aligns))))
unfolding with_segs
check_desc-Settles tag seg_cnt lens aligns byte any few el ea short =
    elim (check_desc-cases (with_segs tag seg_cnt (lens, aligns))) [
      | inl bad ↦ inl (ap (λ v. ok v) bad)
      | inr (good, a, b, c, d, used) ↦ inr (
        with_segs tag seg_cnt (lens, aligns),
        ap (λ v. ok v) good,
        record {
          tag_byte = byte;
          any = any;
          few = few;
          within = four_IsWithin (zero_fill 4 lens) (length-zero_fill 4 lens) a b c d;
          clear_lens = filled lens el;
          clear_aligns = filled aligns ea;
          short_aligns = All-zero_fill 4 aligns short;
          last_used = used;
        },
      )
    ]
  where
    filled :
        (xs : List ℕ)
        → length xs ≡ seg_cnt
        → zero_fill 4 xs ≡ zero_fill 4 (take seg_cnt (zero_fill 4 xs))
    filled xs e =
        ap (λ ys. zero_fill 4 ys)
          (sym
            (ap (λ n. take n (zero_fill 4 xs)) (sym e) ∙ take-zero_fill 4 xs (omega (arith, few))))

decode_counted-Settles :
    (tag seg_cnt : ℕ) (p : List ℕ)
    → tag < 256
    → 24 ≤ length p
    → All IsByte p
    → Settles (decode_counted tag seg_cnt p)
unfolding decode_counted
decode_counted-Settles tag seg_cnt p byte h bytes =
    elim (Bool-cases (ltb seg_cnt 1 || ltb 4 seg_cnt)) [
      | inl bad ↦ rw bad (inl refl)
      | inr good ↦
          let (lens, aligns, e, el, ea, short) =
            decode_segs-ok seg_cnt p (omega (arith, few good)) bytes in
          rw (good, e)
            (check_desc-Settles tag seg_cnt lens aligns byte (any good) (few good) el ea short)
    ]
  where
    any : (ltb seg_cnt 1 || ltb 4 seg_cnt) ≡ false → 1 ≤ seg_cnt
    any e = ground arith

    few : (ltb seg_cnt 1 || ltb 4 seg_cnt) ≡ false → seg_cnt ≤ 4
    few e = ground arith

decode_body-Settles : (p : List ℕ) → 26 ≤ length p → All IsByte p → Settles (decode_body p)
unfolding decode_body
decode_body-Settles p h bytes =
    let (tag, p1, e1, lt1, len1, bytes1) = get_le-ok 1 p (omega arith) bytes in
    let (cnt, p2, e2, lt2, len2, bytes2) = get_le-ok 1 p1 (omega arith) bytes1 in
    rw (e1, e2) (decode_counted-Settles tag cnt p2 (omega arith) (omega arith) bytes2)

All-drop {ℓ κ} : {A : Type ℓ} (P : A → Type κ) (n : ℕ) (xs : List A) → All P xs → All P (drop n xs)
All-drop P zero xs h = h
All-drop P (suc n) [] h = tt
All-drop P (suc n) (x ∷ xs) h = All-drop P n xs h.1

-- Any 32 bytes are read to the end: with a wrong checksum they are bad, and else they are refused or
-- give a valid description.
pub decode_preamble-IsValid :
    (crc32c : ℕ → List ℕ → ℕ) (p : List ℕ)
    → length p ≡ 32
    → All IsByte p
    → (expected : ℕ) × (get_le 4 (drop 28 p) ≡ ok (expected, []))
      × (((crc32c 0 (take 28 p) ≢ expected) × (decode_preamble crc32c p ≡ ok bad_crc))
          ⊎ ((crc32c 0 (take 28 p) ≡ expected)
              × ((decode_preamble crc32c p ≡ ok invalid)
                  ⊎ ((d : Desc) × (decode_preamble crc32c p ≡ ok (accepted d)) × IsValid d))))
unfolding decode_preamble
decode_preamble-IsValid crc32c p len bytes =
    let (expected, r, e, lt, len', bytes') =
      get_le-ok 4 (drop 28 p) (omega (arith, length-drop 28 p)) (All-drop IsByte 28 p bytes) in
    (
      expected,
      e ∙ ap (λ q. ok (expected, q)) (is_empty r (omega (arith, length-drop 28 p))),
      elim (Bool-cases (crc32c 0 (take 28 p) == expected)) [
        | inl same ↦ inr (
          (==_iff (crc32c 0 (take 28 p)) expected).0 same,
          rw (e, same) (decode_body-Settles p (omega arith) bytes),
        )
        | inr other ↦
            inl
              (λ eq. cc (other, (==_iff (crc32c 0 (take 28 p)) expected).1 eq), rw (e, other) refl)
      ],
    )
  where
    is_empty : (q : List ℕ) → length q ≡ 0 → q ≡ []
    is_empty [] h = refl
    is_empty (x ∷ q) h = absurd (omega arith)
