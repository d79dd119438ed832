-- ===== src/MsgrV2/Scatter/Data.antt =====
-- The entries of the data of a message, in pages or from its cursor.
use xcp_ng_ceph_rbd.Base.{
  ℕ, suc, ◌+◌, ◌-◌, ◌*◌, ◌%◌, ◌≤◌, ◌≡◌, refl, ap, false, List, [], ◌∷◌, inl, inr, ltb, ◌==◌,
  if◌then◌else◌, arith, Bool-cases, ==_iff,
}
use xcp_ng_ceph_rbd.Crush.Outcome.{Outcome, ok}
use xcp_ng_ceph_rbd.Pagelist.{page_size}
use xcp_ng_ceph_rbd.MsgrV2.OnWire.{padded_len}
use xcp_ng_ceph_rbd.MsgrV2.Scatter.{
  Sg, on_buf, calc_pages_for, pad_cnt, bvec_cnt, bvec_sgs, calc_sg_cnt_cursor, init_sgs_cursor,
  Source, pages, cursor, data_cnt, data_sgs,
}
use xcp_ng_ceph_rbd.MsgrV2.Scatter.Entries.{
  Place, from_pos, in_pieces, Holds, IsPart, Spans, pad-Spans, init_sgs_pages-Spans,
}

abbrev pub sum : List ℕ → ℕ
sum [] = 0
sum (n ∷ ns) = n + sum ns

bvec-Spans :
    (bvecs : List ℕ) (len : ℕ)
    → 1 ≤ len
    → sum bvecs ≡ len
    → (cnt : ℕ) × (bvec_cnt bvecs len ≡ ok cnt)
      × Spans (bvec_sgs bvecs len) cnt len (Holds (in_pieces bvecs) len)
bvec-Spans [] len some e = absurd (omega arith)
bvec-Spans (n ∷ bvecs) len some e = elim (Bool-cases (len - n == 0)) [
  | inl last ↦
      rw (fits, last)
        (
          1,
          refl,
          (
            on_buf n ∷ [],
            refl,
            refl,
            omega (arith, (==_iff (len - n) 0).0 last),
            (n ∷ [], bvecs, refl, refl, omega (arith, (==_iff (len - n) 0).0 last)),
          ),
        )
  | inr more ↦
      let (cnt, counted, (sgs, set, many, all, (used, rest, parted, same, sum'))) =
        bvec-Spans bvecs (len - n) (nonzero more) (omega arith) in
      rw (fits, more, counted, set)
        (
          suc cnt,
          refl,
          (
            on_buf n ∷ sgs,
            refl,
            ap suc many,
            omega (arith, nonzero more),
            (
              n ∷ used,
              rest,
              ap (◌∷◌ n) parted,
              ap (◌∷◌ (on_buf n)) same,
              omega (arith, nonzero more),
            ),
          ),
        )
]
  where
    fits : ltb len n ≡ false
    fits = ground arith

    nonzero : (len - n == 0) ≡ false → 1 ≤ len - n
    nonzero eq = ground arith

-- What the source of the data must give for `dlen` bytes, with fuel for its pages.
abbrev pub IsGiven : (fuel : ℕ) → Source → (dlen : ℕ) → Type 0
IsGiven fuel (pages dpos) dlen = dpos % page_size + dlen ≤ fuel * page_size
IsGiven fuel (cursor bvecs) dlen = sum bvecs ≡ dlen

abbrev Counted : Outcome ℕ → Outcome (List Sg) → (len : ℕ) → (List Sg → Type 0) → Type 0
Counted counted sgs len P = (cnt : ℕ) × (counted ≡ ok cnt) × Spans sgs cnt len P

abbrev pub place_in : Source → Place
place_in (pages dpos) = from_pos dpos
place_in (cursor bvecs) = in_pieces bvecs

cursor-Counted :
    (bvecs : List ℕ) (dlen : ℕ)
    → 1 ≤ dlen
    → sum bvecs ≡ dlen
    → Counted
        (calc_sg_cnt_cursor bvecs dlen)
        (init_sgs_cursor bvecs dlen)
        (padded_len dlen)
        (IsPart (in_pieces bvecs) dlen)
unfolding calc_sg_cnt_cursor init_sgs_cursor
cursor-Counted bvecs dlen some e =
    let (cnt, counted, spans) = bvec-Spans bvecs dlen some e in
    let (sgs, set, many, all, part) =
      pad-Spans (in_pieces bvecs) (bvec_sgs bvecs dlen) cnt dlen spans in
    rw (used, counted) (pad_cnt dlen + cnt, refl, (sgs, set, omega arith, all, part))
  where
    used : (dlen == 0) ≡ false
    used = ground arith

pub data-Counted :
    (fuel : ℕ) (source : Source) (dlen : ℕ)
    → IsGiven fuel source dlen
    → Counted
        (if dlen == 0 then ok 0 else data_cnt source dlen)
        (if dlen == 0 then ok [] else data_sgs fuel source dlen)
        (padded_len dlen)
        (IsPart (place_in source) dlen)
data-Counted fuel source dlen given = elim (Bool-cases (dlen == 0)) [
  | inl empty ↦ rw empty (
    0,
    refl,
    ([], refl, refl, omega (arith, (==_iff dlen 0).0 empty), inl ((==_iff dlen 0).0 empty, refl)),
  )
  | inr some ↦ rw some (by source given (nonzero some))
]
  where
    nonzero : (dlen == 0) ≡ false → 1 ≤ dlen
    nonzero eq = ground arith

    by :
        (from : Source)
        → IsGiven fuel from dlen
        → 1 ≤ dlen
        → Counted
            (data_cnt from dlen)
            (data_sgs fuel from dlen)
            (padded_len dlen)
            (IsPart (place_in from) dlen)
    by (pages dpos) g some =
        (calc_pages_for dpos dlen + pad_cnt dlen, refl, init_sgs_pages-Spans fuel dpos dlen some g)
    by (cursor bvecs) g some = cursor-Counted bvecs dlen some g
