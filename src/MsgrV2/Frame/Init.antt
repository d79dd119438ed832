-- ===== src/MsgrV2/Frame/Init.antt =====
-- The description that is made for the lengths of a message, and its way to the peer.
use xcp_ng_ceph_rbd.Base.{
  ℕ, zero, suc, ◌-◌, ◌≤◌, ◌<◌, ◌≡◌, ◌≢◌, refl, ap, sym, ◌∙◌, List, [], ◌∷◌, ◌⊎◌, inl, inr, true,
  length, take, get_or, ◌==◌, arith, IsU32, Bool-cases, ==_iff,
}
use mathlib.Core.Path.{subst}
use xcp_ng_ceph_rbd.Crush.Outcome.{ok}
use xcp_ng_ceph_rbd.MsgrV2.Frame.{
  Desc, zero_fill, count_from, calc_segment_count, init_frame_desc, encode_preamble, accepted,
  decode_preamble, frame_aligns,
}
use xcp_ng_ceph_rbd.MsgrV2.Frame.Valid.{IsWithin, limits, IsU16, IsValid, All-zero_fill}
use xcp_ng_ceph_rbd.MsgrV2.Frame.RoundTrip.{All-take, decode_preamble-encode_preamble}

-- Of the first `i` entries, those from `c` on are zero and the one in front is not.
abbrev Counts : List ℕ → ℕ → ℕ → Type 0
Counts lens i c =
    (1 ≤ c)
    × (c ≤ i)
    × (get_or lens (c - 1) 0 ≢ 0)
    × ((j : ℕ) → c ≤ j → j < i → get_or lens j 0 ≡ 0)

Counts-suc :
    (lens : List ℕ) (i c : ℕ) → get_or lens i 0 ≡ 0 → Counts lens i c → Counts lens (suc i) c
Counts-suc lens i c e h = (h.0, omega (arith, h.1), h.2, at)
  where
    at : (j : ℕ) → c ≤ j → j < suc i → get_or lens j 0 ≡ 0
    at j lo hi = elim (below j hi) [ inl lt ↦ h.3 j lo lt | inr same ↦ rw (same) e ]
      where
        below : (k : ℕ) → k < suc i → (k < i) ⊎ (k ≡ i)
        below k lt = ground arith

count_from-Counts :
    (lens : List ℕ) (i k : ℕ) → k < i → get_or lens k 0 ≢ 0 → Counts lens i (count_from i lens)
unfolding count_from
count_from-Counts lens zero k h used = absurd (omega arith)
count_from-Counts lens (suc i) k h used = elim (Bool-cases (get_or lens i 0 == 0)) [
  | inl clear ↦ rw (clear) (
      Counts-suc lens i (count_from i lens) (is_zero clear)
        (count_from-Counts lens i k (before (is_zero clear)) used))
  | inr full ↦ rw (full) (
    omega arith,
    omega arith,
    λ e. cc (full, nonzero (ap (λ j. get_or lens j 0) same ∙ e)),
    λ j lo hi. absurd (omega arith),
  )
]
  where
    same : i ≡ suc i - 1
    same = omega arith

    is_zero : (get_or lens i 0 == 0) ≡ true → get_or lens i 0 ≡ 0
    is_zero e = (==_iff (get_or lens i 0) 0).0 e

    nonzero : get_or lens i 0 ≡ 0 → (get_or lens i 0 == 0) ≡ true
    nonzero e = (==_iff (get_or lens i 0) 0).1 e

    before : get_or lens i 0 ≡ 0 → k < i
    before e = elim (below k h) [ inl lt ↦ lt | inr eq ↦ absurd (used (rw eq e)) ]
      where
        below : (j : ℕ) → j < suc i → (j < i) ⊎ (j ≡ i)
        below j lt = ground arith

zero_fill-take :
    (n c : ℕ) (xs : List ℕ)
    → ((j : ℕ) → c ≤ j → get_or xs j 0 ≡ 0)
    → zero_fill n (take c xs) ≡ zero_fill n xs
zero_fill-take zero c xs h = refl
zero_fill-take (suc n) zero [] h = refl
zero_fill-take (suc n) zero (x ∷ xs) h =
    rw (h 0 (omega arith))
      (ap (λ t. 0 ∷ t) (zero_fill-take n zero xs (λ j lo. h (suc j) (omega arith))))
zero_fill-take (suc n) (suc c) [] h = refl
zero_fill-take (suc n) (suc c) (x ∷ xs) h =
    ap (λ t. x ∷ t) (zero_fill-take n c xs (λ j lo. h (suc j) (omega arith)))

take-zero_fill-take :
    (n c : ℕ) (xs : List ℕ) → c ≤ n → c ≤ length xs → take c (zero_fill n (take c xs)) ≡ take c xs
take-zero_fill-take n zero xs le h = refl
take-zero_fill-take zero (suc c) xs le h = absurd (omega arith)
take-zero_fill-take (suc n) (suc c) [] le h = absurd (omega arith)
take-zero_fill-take (suc n) (suc c) (x ∷ xs) le h =
    ap (λ t. x ∷ t) (take-zero_fill-take n c xs (omega arith) (omega arith))

get_or-zero_fill : (n j : ℕ) (xs : List ℕ) → j < n → get_or (zero_fill n xs) j 0 ≡ get_or xs j 0
get_or-zero_fill zero j xs h = absurd (omega arith)
get_or-zero_fill (suc n) zero [] h = refl
get_or-zero_fill (suc n) (suc j) [] h = get_or-zero_fill n j [] (omega arith)
get_or-zero_fill (suc n) zero (x ∷ xs) h = refl
get_or-zero_fill (suc n) (suc j) (x ∷ xs) h = get_or-zero_fill n j xs (omega arith)

get_or-over : (xs : List ℕ) (j : ℕ) → length xs ≤ j → get_or xs j 0 ≡ 0
get_or-over [] j h = refl
get_or-over (x ∷ xs) zero h = absurd (omega arith)
get_or-over (x ∷ xs) (suc j) h = get_or-over xs j (omega arith)

get_or-used : (xs : List ℕ) (k : ℕ) → get_or xs k 0 ≢ 0 → k < length xs
get_or-used [] k h = absurd (h refl)
get_or-used (x ∷ xs) zero h = omega arith
get_or-used (x ∷ xs) (suc k) h = omega (arith, get_or-used xs k h)

-- The description of up to four lengths within the limits, of which one is not zero.
init_frame_desc-IsValid :
    (tag : ℕ) (lens : List ℕ) (k : ℕ)
    → tag < 256
    → length lens ≤ 4
    → IsWithin limits (zero_fill 4 lens)
    → get_or lens k 0 ≢ 0
    → (d : Desc) × (init_frame_desc tag lens ≡ ok d)
      × IsValid d
      × (d.tag ≡ tag)
      × (d.lens ≡ zero_fill 4 lens)
unfolding init_frame_desc calc_segment_count
init_frame_desc-IsValid tag lens k byte few within used = (
  record {
    tag = tag;
    seg_cnt = cnt;
    lens = zero_fill 4 (take cnt lens);
    aligns = zero_fill 4 (take cnt frame_aligns);
  },
  ground (arith, counts.1),
  record {
    tag_byte = byte;
    any = counts.0;
    few = omega (arith, counts.1);
    within = subst (λ xs. IsWithin limits xs) (sym whole) within;
    clear_lens =
        ap (λ xs. zero_fill 4 xs)
          (sym (take-zero_fill-take 4 cnt lens (omega (arith, counts.1)) counts.1));
    clear_aligns =
        ap (λ xs. zero_fill 4 xs)
          (sym (
            take-zero_fill-take 4 cnt frame_aligns (omega (arith, counts.1))
              (omega (arith, counts.1))));
    short_aligns =
        All-zero_fill 4 (take cnt frame_aligns) (All-take IsU16 cnt frame_aligns (omega arith));
    last_used = λ e. counts.2 (sym (last) ∙ e);
  },
  refl,
  whole,
)
  where
    cnt : ℕ
    cnt = count_from (length lens) lens

    counts : Counts lens (length lens) cnt
    counts = count_from-Counts lens (length lens) k (get_or-used lens k used) used

    clear : (j : ℕ) → cnt ≤ j → get_or lens j 0 ≡ 0
    clear j lo = elim (before j) [ inl lt ↦ counts.3 j lo lt | inr le ↦ get_or-over lens j le ]
      where
        before : (i : ℕ) → (i < length lens) ⊎ (length lens ≤ i)
        before i = ground arith

    whole : zero_fill 4 (take cnt lens) ≡ zero_fill 4 lens
    whole = zero_fill-take 4 cnt lens clear

    last : get_or (zero_fill 4 (take cnt lens)) (cnt - 1) 0 ≡ get_or lens (cnt - 1) 0
    last =
        ap (λ xs. get_or xs (cnt - 1) 0) whole
        ∙ get_or-zero_fill 4 (cnt - 1) lens (omega (arith, counts.0, counts.1))

-- The lengths of a frame arrive: the peer accepts what is made and written for them.
pub decode_preamble-init_frame_desc :
    (crc32c : ℕ → List ℕ → ℕ)
    → ((seed : ℕ) (bytes : List ℕ) → IsU32 (crc32c seed bytes))
    → (tag : ℕ) (lens : List ℕ) (k : ℕ) → tag < 256
    → length lens ≤ 4
    → IsWithin limits (zero_fill 4 lens)
    → get_or lens k 0 ≢ 0
    → (d : Desc) × (p : List ℕ) × (init_frame_desc tag lens ≡ ok d)
      × (encode_preamble crc32c d ≡ ok p)
      × (length p ≡ 32)
      × (decode_preamble crc32c p ≡ ok (accepted d))
      × (d.tag ≡ tag)
      × (d.lens ≡ zero_fill 4 lens)
decode_preamble-init_frame_desc crc32c word tag lens k byte few within used =
    let (d, made, valid, same_tag, same_lens) =
      init_frame_desc-IsValid tag lens k byte few within used in
    let (p, written, size, read) = decode_preamble-encode_preamble crc32c word d valid in
    (d, p, made, written, size, read, same_tag, same_lens)
