-- ===== src/MsgrV2/Frame/RoundTrip.antt =====
-- What is written as a preamble is read as the same description.
use xcp_ng_ceph_rbd.Base.{
  ℕ, zero, suc, ◌+◌, ◌-◌, ◌*◌, ◌/◌, ◌%◌, ◌^◌, ◌≤◌, ◌<◌, ◌≡◌, refl, ap, sym, ◌∙◌, List, [], ◌∷◌,
  ◌++◌, length, take, drop, get_or, All, ltb, ◌==◌, true, false, arith, IsU32, length-append,
  append_assoc, replicate, take-append_exact, append-nil, length-take, u8,
}
use xcp_ng_ceph_rbd.Crush.Outcome.{ok}
use xcp_ng_ceph_rbd.Pagelist.{le_bytes}
use xcp_ng_ceph_rbd.MsgrV2.Frame.{
  max_control_len, max_data_len, Desc, zero_fill, encode_segs, preamble_body, encode_preamble,
  get_le, accepted, decode_segs, check_desc, with_segs, decode_counted, decode_body,
  decode_preamble,
}
use xcp_ng_ceph_rbd.MsgrV2.Frame.Valid.{IsWithin, limits, IsU16, IsValid, length-zero_fill}

-- Reading undoes writing, and leaves what follows.
pub get_le-le_bytes :
    (n v : ℕ) (rest : List ℕ) → v < 256 ^ n → get_le n (le_bytes n v ++ rest) ≡ ok (v, rest)
unfolding get_le le_bytes
get_le-le_bytes zero v rest h = rw (zero_lem v h) refl
  where
    zero_lem : (w : ℕ) → w < 256 ^ 0 → w ≡ 0
    zero_lem w lt = omega arith
get_le-le_bytes (suc n) v rest h = rw (get_le-le_bytes n (v / 256) rest below, whole)
  where
    below : v / 256 < 256 ^ n
    below = omega arith

    whole : v % 256 + 256 * (v / 256) ≡ v
    whole = omega arith

pub length-le_bytes : (n v : ℕ) → length (le_bytes n v) ≡ n
unfolding le_bytes
length-le_bytes zero v = refl
length-le_bytes (suc n) v = ap suc (length-le_bytes n (v / 256))

decode_segs-encode_segs :
    (lens aligns rest : List ℕ)
    → length aligns ≡ length lens
    → All IsU32 lens
    → All IsU16 aligns
    → decode_segs (length lens) (encode_segs lens aligns ++ rest) ≡ ok (lens, aligns)
unfolding decode_segs
decode_segs-encode_segs [] [] rest e hl ha = refl
decode_segs-encode_segs [] (a ∷ aligns) rest e hl ha = absurd (omega arith)
decode_segs-encode_segs (n ∷ lens) [] rest e hl ha = absurd (omega arith)
decode_segs-encode_segs (n ∷ lens) (a ∷ aligns) rest e hl ha = rw (
  append_assoc (le_bytes 4 n) (le_bytes 2 a ++ encode_segs lens aligns) rest,
  get_le-le_bytes 4 n ((le_bytes 2 a ++ encode_segs lens aligns) ++ rest) hl.0,
  append_assoc (le_bytes 2 a) (encode_segs lens aligns) rest,
  get_le-le_bytes 2 a (encode_segs lens aligns ++ rest) ha.0,
  decode_segs-encode_segs lens aligns rest (omega arith) hl.1 ha.1,
)

length-encode_segs : (lens aligns : List ℕ) → length (encode_segs lens aligns) ≤ 6 * length lens
length-encode_segs [] aligns = omega arith
length-encode_segs (n ∷ lens) [] = omega arith
length-encode_segs (n ∷ lens) (a ∷ aligns) = omega (
  arith,
  length-append (le_bytes 4 n) (le_bytes 2 a ++ encode_segs lens aligns),
  length-append (le_bytes 2 a) (encode_segs lens aligns),
  length-le_bytes 4 n,
  length-le_bytes 2 a,
  length-encode_segs lens aligns,
)

-- A list that fits stands in front of zeros.
zero_fill-replicate :
    (n k : ℕ) (xs : List ℕ) → n ≡ length xs + k → zero_fill n xs ≡ xs ++ replicate k 0
zero_fill-replicate zero zero [] h = refl
zero_fill-replicate zero (suc k) [] h = absurd (omega arith)
zero_fill-replicate zero k (x ∷ xs) h = absurd (omega arith)
zero_fill-replicate (suc n) zero [] h = absurd (omega arith)
zero_fill-replicate (suc n) (suc k) [] h =
    ap (λ t. 0 ∷ t) (zero_fill-replicate n k [] (omega arith))
zero_fill-replicate (suc n) k (x ∷ xs) h =
    ap (λ t. x ∷ t) (zero_fill-replicate n k xs (omega arith))

pub drop-append_exact : (xs ys : List ℕ) → drop (length xs) (xs ++ ys) ≡ ys
drop-append_exact [] ys = refl
drop-append_exact (x ∷ xs) ys = drop-append_exact xs ys

decode_counted-encode :
    (tag seg_cnt : ℕ) (lens aligns rest : List ℕ)
    → 1 ≤ seg_cnt
    → seg_cnt ≤ 4
    → length lens ≡ seg_cnt
    → length aligns ≡ seg_cnt
    → All IsU32 lens
    → All IsU16 aligns
    → decode_counted tag seg_cnt (encode_segs lens aligns ++ rest)
      ≡ ok (check_desc (with_segs tag seg_cnt (lens, aligns)))
unfolding decode_counted
decode_counted-encode tag seg_cnt lens aligns rest any few el ea hl ha =
    rw
      (
        low,
        high,
        ap (λ n. decode_segs n (encode_segs lens aligns ++ rest)) (sym el),
        decode_segs-encode_segs lens aligns rest (omega arith) hl ha,
      )
      refl
  where
    low : ltb seg_cnt 1 ≡ false
    low = ground arith

    high : ltb 4 seg_cnt ≡ false
    high = ground arith

-- What the limits say of each entry.
within_lens :
    (xs : List ℕ)
    → IsWithin limits xs
    → (get_or xs 0 0 ≤ max_control_len)
      × (get_or xs 1 0 ≤ max_control_len)
      × (get_or xs 2 0 ≤ max_control_len)
      × (get_or xs 3 0 ≤ max_data_len)
      × (length xs ≡ 4)
      × All IsU32 xs
within_lens [] h = absurd h
within_lens (a ∷ []) h = absurd h.1
within_lens (a ∷ b ∷ []) h = absurd h.1.1
within_lens (a ∷ b ∷ c ∷ []) h = absurd h.1.1.1
within_lens (a ∷ b ∷ c ∷ d ∷ []) h = (
  h.0,
  h.1.0,
  h.1.1.0,
  h.1.1.1.0,
  refl,
  (
    omega (arith, h.0),
    (omega (arith, h.1.0), (omega (arith, h.1.1.0), (omega (arith, h.1.1.1.0), tt))),
  ),
)
within_lens (a ∷ b ∷ c ∷ d ∷ e ∷ xs) h = absurd h.1.1.1.1

pub All-take {ℓ κ} :
    {A : Type ℓ} (P : A → Type κ) (n : ℕ) (xs : List A) → All P xs → All P (take n xs)
All-take P zero xs h = tt
All-take P (suc n) [] h = tt
All-take P (suc n) (x ∷ xs) h = (h.0, All-take P n xs h.1)

check_desc-accepted : (d : Desc) → IsValid d → check_desc d ≡ accepted d
unfolding check_desc
check_desc-accepted d v = ground (arith, within_lens d.lens v.within, v.last_used)

with_segs-take :
    (d : Desc)
    → IsValid d
    → with_segs d.tag d.seg_cnt (take d.seg_cnt d.lens, take d.seg_cnt d.aligns) ≡ d
unfolding with_segs
with_segs-take d v = rw (← v.clear_lens, ← v.clear_aligns) refl

length-aligns : (d : Desc) → IsValid d → length d.aligns ≡ 4
length-aligns d v =
    ap (λ xs. length xs) v.clear_aligns ∙ length-zero_fill 4 (take d.seg_cnt d.aligns)

decode_body-preamble_body :
    (d : Desc) (tail : List ℕ) → IsValid d → decode_body (preamble_body d ++ tail) ≡ ok (accepted d)
unfolding decode_body get_le
decode_body-preamble_body d tail v =
    ap (λ t. decode_counted t (u8 d.seg_cnt + 0) (zero_fill 26 segs ++ tail))
      (omega (arith, v.tag_byte))
    ∙ ap (λ n. decode_counted d.tag n (zero_fill 26 segs ++ tail)) (omega (arith, v.few))
    ∙ ap (λ p. decode_counted d.tag d.seg_cnt p)
        (ap (λ t. t ++ tail)
            (zero_fill-replicate 26 (26 - length segs) segs
              (omega (arith, short, length_lens, v.few)))
          ∙ append_assoc segs (replicate (26 - length segs) 0) tail)
    ∙ decode_counted-encode d.tag d.seg_cnt lens aligns (replicate (26 - length segs) 0 ++ tail)
        v.any v.few length_lens length_aligns
        (All-take IsU32 d.seg_cnt d.lens (within_lens d.lens v.within).5)
        (All-take IsU16 d.seg_cnt d.aligns v.short_aligns)
    ∙ ap (λ e. ok (check_desc e)) (with_segs-take d v)
    ∙ ap (λ r. ok r) (check_desc-accepted d v)
  where
    lens : List ℕ
    lens = take d.seg_cnt d.lens

    aligns : List ℕ
    aligns = take d.seg_cnt d.aligns

    segs : List ℕ
    segs = encode_segs lens aligns

    short : length segs ≤ 6 * length lens
    short = length-encode_segs lens aligns

    length_lens : length lens ≡ d.seg_cnt
    length_lens =
        omega (arith, length-take d.seg_cnt d.lens, (within_lens d.lens v.within).4, v.few)

    length_aligns : length aligns ≡ d.seg_cnt
    length_aligns = omega (arith, length-take d.seg_cnt d.aligns, length-aligns d v, v.few)

pub eq_self : (n : ℕ) → (n == n) ≡ true
eq_self n = ground arith

-- Reading a preamble whose checksum stands behind its 28 bytes.
decode_preamble-append :
    (crc32c : ℕ → List ℕ → ℕ) (body : List ℕ)
    → length body ≡ 28
    → IsU32 (crc32c 0 body)
    → decode_preamble crc32c (body ++ le_bytes 4 (crc32c 0 body))
      ≡ decode_body (body ++ le_bytes 4 (crc32c 0 body))
unfolding decode_preamble
decode_preamble-append crc32c body e small =
    rw (behind, front, get_le-le_bytes 4 (crc32c 0 body) [] small, eq_self (crc32c 0 body)) refl
  where
    tail : List ℕ
    tail = le_bytes 4 (crc32c 0 body)

    behind : drop 28 (body ++ tail) ≡ tail ++ []
    behind =
        ap (λ n. drop n (body ++ tail)) (sym e)
        ∙ drop-append_exact body tail
        ∙ sym (append-nil tail)

    front : take 28 (body ++ tail) ≡ body
    front = ap (λ n. take n (body ++ tail)) (sym e) ∙ take-append_exact body tail

-- The peer reads each valid description as it was written, whatever the checksum is.
pub decode_preamble-encode_preamble :
    (crc32c : ℕ → List ℕ → ℕ)
    → ((seed : ℕ) (bytes : List ℕ) → IsU32 (crc32c seed bytes))
    → (d : Desc) → IsValid d
    → (p : List ℕ) × (encode_preamble crc32c d ≡ ok p)
      × (length p ≡ 32)
      × (decode_preamble crc32c p ≡ ok (accepted d))
unfolding encode_preamble
decode_preamble-encode_preamble crc32c word d v = (
  preamble_body d ++ le_bytes 4 (crc32c 0 (preamble_body d)),
  ground (arith, v.few),
  omega (
    arith,
    length-append (preamble_body d) (le_bytes 4 (crc32c 0 (preamble_body d))),
    length-le_bytes 4 (crc32c 0 (preamble_body d)),
    length-zero_fill 28
        (u8 d.tag ∷ u8 d.seg_cnt ∷ encode_segs (take d.seg_cnt d.lens) (take d.seg_cnt d.aligns)),
  ),
  decode_preamble-append crc32c (preamble_body d)
        (length-zero_fill 28
          (u8 d.tag ∷ u8 d.seg_cnt ∷ encode_segs (take d.seg_cnt d.lens) (take d.seg_cnt d.aligns)))
        (word 0 (preamble_body d))
      ∙ decode_body-preamble_body d (le_bytes 4 (crc32c 0 (preamble_body d))) v,
)
