-- ===== src/MsgrV2/Scatter/Entries.antt =====
-- The entries of the list are as many as were counted, and they hold the bytes of the frame.
use xcp_ng_ceph_rbd.Base.{
  ℕ, zero, suc, ◌+◌, ◌-◌, ◌*◌, ◌/◌, ◌%◌, ◌≤◌, ◌<◌, ◌≡◌, refl, Bool, true, false, not, List, [], ◌∷◌,
  ◌++◌, map, ◌⊎◌, inl, inr, min, length, ◌==◌, if◌then◌else◌, arith, length-append, Bool-cases,
  ==_iff,
}
use mathlib.Core.Path.{subst}
use xcp_ng_ceph_rbd.Crush.Outcome.{Outcome, ok, ◌>>=◌}
use xcp_ng_ceph_rbd.Pagelist.{page_size}
use xcp_ng_ceph_rbd.MsgrV2.OnWire.{padded_len}
use xcp_ng_ceph_rbd.MsgrV2.Scatter.{
  Sg, on_page, on_buf, sg_len, calc_pages_for, pad_cnt, pad_sgs, page_sgs, init_sgs_pages,
  calc_sg_cnt, init_sgs,
}

-- The bytes of the entries.
abbrev pub total : List Sg → ℕ
total [] = 0
total (sg ∷ sgs) = sg_len sg + total sgs

-- Entries of pages that hold the bytes from `pos` on, one after the other, each within its page.
abbrev pub IsRun : (pos : ℕ) → List Sg → Type 0
IsRun pos [] = Unit
IsRun pos (on_page page off len ∷ sgs) =
    (page * page_size + off ≡ pos) × (off + len ≤ page_size) × IsRun (pos + len) sgs
IsRun pos (on_buf len ∷ sgs) = ⊥

pub total-append : (xs ys : List Sg) → total (xs ++ ys) ≡ total xs + total ys
total-append [] ys = omega arith
total-append (x ∷ xs) ys = omega (arith, total-append xs ys)

-- Where the bytes of a part of a message stand: in one buffer, in the bytes of pages from a position
-- on, or in pieces of the given lengths.
pub data Place : Type 0 where
  in_one : Place
  from_pos : (pos : ℕ) → Place
  in_pieces : (lens : List ℕ) → Place

-- The entries of `len` bytes at a place, and then those of their padding.
abbrev pub Holds : Place → (len : ℕ) → List Sg → Type 0
Holds in_one len sgs = sgs ≡ on_buf len ∷ []
Holds (from_pos pos) len sgs = IsRun pos sgs × (total sgs ≡ len)
Holds (in_pieces lens) len sgs =
    (used : List ℕ) × (rest : List ℕ) × (lens ≡ used ++ rest)
    × (sgs ≡ map on_buf used)
    × (total sgs ≡ len)

abbrev pub IsPart : Place → (len : ℕ) → List Sg → Type 0
IsPart place len sgs =
    ((len ≡ 0) × (sgs ≡ []))
    ⊎ ((body : List Sg) × Holds place len body × (sgs ≡ body ++ pad_sgs len))

-- What a part of the list says of the bytes it stands for, and of its entries.
abbrev pub Spans : Outcome (List Sg) → (cnt len : ℕ) → (List Sg → Type 0) → Type 0
Spans r cnt len P = (sgs : List Sg) × (r ≡ ok sgs) × (length sgs ≡ cnt) × (total sgs ≡ len) × P sgs

page_sgs-IsRun :
    (fuel idx off resid : ℕ)
    → off < page_size
    → 1 ≤ resid
    → off + resid ≤ fuel * page_size
    → (sgs : List Sg) × (page_sgs fuel idx off resid ≡ ok sgs)
      × (length sgs ≡ (off + resid + page_size - 1) / page_size)
      × (total sgs ≡ resid)
      × IsRun (idx * page_size + off) sgs
unfolding page_sgs
page_sgs-IsRun zero idx off resid lt some le = absurd (omega arith)
page_sgs-IsRun (suc fuel) idx off resid lt some le =
    elim (Bool-cases (resid - min resid (page_size - off) == 0)) [
      | inl done ↦ rw done (
        on_page idx off (min resid (page_size - off)) ∷ [],
        refl,
        omega (arith, (==_iff (resid - min resid (page_size - off)) 0).0 done),
        omega (arith, (==_iff (resid - min resid (page_size - off)) 0).0 done),
        (refl, omega arith, tt),
      )
      | inr more ↦
          let (sgs, e, len, sum, run) =
            page_sgs-IsRun fuel (suc idx) 0 (resid - min resid (page_size - off)) (omega arith)
              (nonzero more) (omega (arith, nonzero more)) in
          rw (more, e)
            (
              on_page idx off (min resid (page_size - off)) ∷ sgs,
              refl,
              omega (arith, nonzero more),
              omega arith,
              (refl, omega arith, subst (λ pos. IsRun pos sgs) (omega (arith, nonzero more)) run),
            )
    ]
  where
    nonzero :
        (resid - min resid (page_size - off) == 0) ≡ false → 1 ≤ resid - min resid (page_size - off)
    nonzero e = ground arith

pad_lem : (n : ℕ) → (length (pad_sgs n) ≡ pad_cnt n) × (n + total (pad_sgs n) ≡ padded_len n)
pad_lem n = ground arith

-- Padding behind entries that span `len` bytes.
pub pad-Spans :
    (place : Place) (r : Outcome (List Sg)) (cnt len : ℕ)
    → Spans r cnt len (Holds place len)
    → Spans
        (r >>= λ sgs. ok (sgs ++ pad_sgs len))
        (cnt + pad_cnt len)
        (padded_len len)
        (IsPart place len)
pad-Spans place r cnt len (sgs, e, many, sum, holds) = (
  sgs ++ pad_sgs len,
  rw e refl,
  omega (arith, length-append sgs (pad_sgs len), pad_lem len),
  omega (arith, total-append sgs (pad_sgs len), pad_lem len),
  inr (sgs, holds, refl),
)

-- The place of a buffer.
abbrev pub place_of : (is_vmalloc : Bool) → Place
place_of true = from_pos 0
place_of false = in_one

whole-Spans :
    (fuel : ℕ) (is_vmalloc : Bool) (buf_len : ℕ)
    → 1 ≤ buf_len
    → buf_len ≤ fuel * page_size
    → Spans
        (if not is_vmalloc
          then ok (on_buf buf_len ∷ pad_sgs buf_len)
          else page_sgs fuel 0 0 buf_len >>= λ sgs. ok (sgs ++ pad_sgs buf_len))
        (pad_cnt buf_len + (if is_vmalloc then calc_pages_for 0 buf_len else 1))
        (padded_len buf_len)
        (IsPart (place_of is_vmalloc) buf_len)
whole-Spans fuel false buf_len some h = (
  on_buf buf_len ∷ pad_sgs buf_len,
  refl,
  omega (arith, pad_lem buf_len),
  omega (arith, pad_lem buf_len),
  inr (on_buf buf_len ∷ [], refl, refl),
)
whole-Spans fuel true buf_len some h =
    let (sgs, e, many, all, run) =
      page_sgs-IsRun fuel 0 0 buf_len (omega arith) some (omega arith) in
    let (padded, e', many', all', part) =
      pad-Spans (from_pos 0) (page_sgs fuel 0 0 buf_len) (calc_pages_for 0 buf_len) buf_len
        (sgs, e, omega arith, all, (run, all)) in
    (padded, e', omega arith, all', part)

pub init_sgs-Spans :
    (fuel : ℕ) (is_vmalloc : Bool) (buf_len : ℕ)
    → buf_len ≤ fuel * page_size
    → Spans
        (init_sgs fuel is_vmalloc buf_len)
        (calc_sg_cnt is_vmalloc buf_len)
        (padded_len buf_len)
        (IsPart (place_of is_vmalloc) buf_len)
unfolding init_sgs calc_sg_cnt
init_sgs-Spans fuel is_vmalloc buf_len h = elim (Bool-cases (buf_len == 0)) [
  | inl empty ↦ rw empty (
    [],
    refl,
    refl,
    omega (arith, (==_iff buf_len 0).0 empty),
    inl ((==_iff buf_len 0).0 empty, refl),
  )
  | inr some ↦ rw some (whole-Spans fuel is_vmalloc buf_len (nonzero some) h)
]
  where
    nonzero : (buf_len == 0) ≡ false → 1 ≤ buf_len
    nonzero eq = ground arith

pub init_sgs_pages-Spans :
    (fuel dpos dlen : ℕ)
    → 1 ≤ dlen
    → dpos % page_size + dlen ≤ fuel * page_size
    → Spans
        (init_sgs_pages fuel dpos dlen)
        (calc_pages_for dpos dlen + pad_cnt dlen)
        (padded_len dlen)
        (IsPart (from_pos dpos) dlen)
unfolding init_sgs_pages
init_sgs_pages-Spans fuel dpos dlen some h =
    let (sgs, e, many, sum, run) =
      page_sgs-IsRun fuel (dpos / page_size) (dpos % page_size) dlen (omega arith) some h in
    pad-Spans (from_pos dpos) (page_sgs fuel (dpos / page_size) (dpos % page_size) dlen)
      (calc_pages_for dpos dlen) dlen
      (sgs, e, omega arith, sum, (subst (λ pos. IsRun pos sgs) (omega arith) run, sum))
