-- ===== src/Rbd/Read/Fills.antt =====
-- A read without errors fills the whole buffer: with the object, or else with the parent image's part
-- of it, and zeros after it.
use xcp_ng_ceph_rbd.Base.{
  ℕ, zero, suc, ◌+◌, ◌-◌, ◌^◌, ◌≤◌, ◌<◌, ◌≡◌, inl, inr, refl, sym, ap, ◌∙◌, Bool, true, false, List,
  [], ◌∷◌, ◌++◌, length, drop, replicate, length-append, length-drop, take-append_exact, append-nil,
  ltb, ◌==◌, pos, u32, arith, Bool-cases, ==_iff,
}
use native.Mathlib.Nat.{mod-eq_of_lt}
use xcp_ng_ceph_rbd.Crush.Outcome.{ok, ◌>>=◌}
use xcp_ng_ceph_rbd.Striper.FileExtents.{FileExtent}
use xcp_ng_ceph_rbd.Rbd.Extents.{file_extents_bytes, calc_img_extents, calc_img_extents_nil}
use xcp_ng_ceph_rbd.Rbd.Read.{
  start, object, parent, ReadReq, Calls, enoent, Step, zeroed, zero_range, finish_object,
  ask_parent, find_hole, object_read, parent_read, start_read, advance_read, Answer, failed, got,
  filled, receive, then_go, resume, read_all,
}

-- What an object is: a hole, or its first bytes.
pub data Object : Type 0 where
  absent : Object
  present : List ℕ → Object

abbrev pub answer_of : Object → Answer
answer_of absent = failed 1
answer_of (present bytes) = got bytes

-- The object map can tell beforehand that there is none.
abbrev pub seen : (may_exist : Bool) → Object → Object
seen true o = o
seen false o = absent

abbrev pub padded : List ℕ → (len : ℕ) → List ℕ
padded bytes len = bytes ++ replicate (len - length bytes) 0

-- What is read: the object, or the parent's bytes if it has a part of it, and zeros.
abbrev pub content : List FileExtent → Object → (of_parent : List ℕ) → (len : ℕ) → List ℕ
content fes (present bytes) of_parent len = padded bytes len
content [] absent of_parent len = replicate len 0
content (fe ∷ rest) absent of_parent len = padded of_parent len

abbrev pub FitsObject : Object → (len : ℕ) → Type 0
FitsObject absent len = Unit {0}
FitsObject (present bytes) len = length bytes ≤ len

abbrev pub Fills : Step → List ℕ → Type 0
Fills r bytes = (req : ReadReq) × (r ≡ ok (true, req, pos 0)) × (req.buf ≡ bytes)

drop_all : (n : ℕ) (xs : List ℕ) → length xs ≤ n → drop n xs ≡ []
drop_all zero [] h = refl
drop_all zero (x ∷ xs) h = absurd (omega arith)
drop_all (suc n) [] h = refl
drop_all (suc n) (x ∷ xs) h = drop_all n xs (omega arith)

-- Zeros after what was received.
zeroed-filled :
    (bytes buf : List ℕ) (len : ℕ)
    → length buf ≡ len
    → length bytes ≤ len
    → zeroed (filled bytes buf) (length bytes) (len - length bytes) ≡ padded bytes len
zeroed-filled bytes buf len e le =
    rw (take-append_exact bytes (drop (length bytes) buf), drop_all _ (filled bytes buf) all)
      (ap (λ z. bytes ++ z) (append-nil (replicate (len - length bytes) 0)))
  where
    all : length (filled bytes buf) ≤ length bytes + (len - length bytes)
    all =
        omega (arith, length-append bytes (drop (length bytes) buf), length-drop (length bytes) buf)

full-filled :
    (bytes buf : List ℕ) (len : ℕ)
    → length buf ≡ len
    → length bytes ≡ len
    → filled bytes buf ≡ padded bytes len
full-filled bytes buf len e same =
    rw (drop_all (length bytes) buf (omega arith))
      (ap (λ n. bytes ++ replicate n 0) (none_left (length bytes) same))
  where
    none_left : (n : ℕ) → n ≡ len → 0 ≡ len - n
    none_left n h = omega arith

finish_object-Fills :
    (req : ReadReq) (bytes : List ℕ)
    → length req.buf ≡ req.len
    → length bytes ≤ req.len
    → Fills
        (finish_object (record req { buf = filled bytes req.buf }) (pos (length bytes)))
        (padded bytes req.len)
unfolding finish_object
finish_object-Fills req bytes e le = elim (Bool-cases (ltb (length bytes) req.len)) [
  | inl p ↦ rw p (_, refl, zeroed-filled bytes req.buf req.len e le)
  | inr p ↦
      let same : length bytes ≡ req.len = ground arith in
      rw (p, (==_iff (length bytes) req.len).1 same)
        (record req { buf = filled bytes req.buf }, refl, full-filled bytes req.buf req.len e same)
]

finish_hole-Fills :
    (req : ReadReq)
    → length req.buf ≡ req.len
    → Fills (finish_object req enoent) (replicate req.len 0)
unfolding finish_object
finish_hole-Fills req e = (
  zero_range 0 req.len req,
  refl,
  ap (λ t. replicate req.len 0 ++ t) (drop_all (0 + req.len) req.buf (omega arith))
      ∙ append-nil (replicate req.len 0),
)

parent_read-Fills :
    (req : ReadReq) (bytes : List ℕ)
    → length req.buf ≡ req.len
    → length bytes ≡ file_extents_bytes req.img_extents
    → length bytes ≤ req.len
    → req.len < 2 ^ 32
    → Fills (parent_read (record req { buf = filled bytes req.buf }) (pos 0)) (padded bytes req.len)
unfolding parent_read
parent_read-Fills req bytes e same le small =
    rw whole (elim (Bool-cases (ltb (length bytes) req.len)) [
      | inl p ↦ rw p (_, refl, zeroed-filled bytes req.buf req.len e le)
      | inr p ↦ rw p (
        record req { buf = filled bytes req.buf },
        refl,
        full-filled bytes req.buf req.len e (ground arith),
      )
    ])
  where
    whole : u32 (file_extents_bytes req.img_extents) ≡ length bytes
    whole = ap u32 (sym same) ∙ mod-eq_of_lt (omega arith)

ended :
    (r : Step) (next : ReadReq → Step) (bytes : List ℕ)
    → Fills r bytes
    → Fills (r >>= then_go next) bytes
ended r next bytes (req, e, b) = rw e (req, refl, b)

abbrev with_parent : ReadReq → List FileExtent → ReadReq
with_parent req fes = record req { state = parent; img_extents = fes }

module _ (calls : Calls) (req : ReadReq) (fes : List FileExtent) (of_parent : List ℕ)
    (asks : calls.read_parent ≡ pos 0)
    (found : calc_img_extents calls.layout calls.memory calls.parent_overlap req.objno req.off
        req.len
      ≡ ok (pos 0, fes))
    (whole : length req.buf ≡ req.len) (same : length of_parent ≡ file_extents_bytes fes)
    (fits : length of_parent ≤ req.len) (small : req.len < 2 ^ 32) where
  ask_parent-Fills :
      (fes' : List FileExtent) (next : ReadReq → Step)
      → length of_parent ≡ file_extents_bytes fes'
      → next (with_parent req fes')
        ≡ resume calls (receive (got of_parent) (λ n. 0) (with_parent req fes'))
      → Fills (ask_parent calls req fes' >>= then_go next) (content fes' absent of_parent req.len)
  unfolding advance_read
  ask_parent-Fills [] next same' e =
      ended _ next _ (finish_hole-Fills (record req { img_extents = [] }) whole)
  ask_parent-Fills (fe ∷ rest) next same' e =
      rw (asks, e)
        (parent_read-Fills (with_parent req (fe ∷ rest)) of_parent whole same' fits small)

  no_overlap : calls.parent_overlap == 0 ≡ true → fes ≡ []
  no_overlap p =
      let none =
        calc_img_extents_nil calls.layout calls.memory calls.parent_overlap req.objno req.off
          req.len p in
      cc

  find_hole-Fills :
      (next : ReadReq → Step)
      → next (with_parent req fes)
        ≡ resume calls (receive (got of_parent) (λ n. 0) (with_parent req fes))
      → Fills (find_hole calls req >>= then_go next) (content fes absent of_parent req.len)
  unfolding find_hole
  find_hole-Fills next e = elim (Bool-cases (calls.parent_overlap == 0)) [
    | inl p ↦ rw (p, no_overlap p) (ended _ next _ (finish_hole-Fills req whole))
    | inr p ↦ rw (p, found) (ask_parent-Fills fes next same e)
  ]

abbrev pub new_read : (objno off len : ℕ) → List ℕ → ReadReq
new_read objno off len buf = record {
  state = start;
  may_exist = false;
  objno = objno;
  off = off;
  len = len;
  img_extents = [];
  buf = buf;
}

-- A read of an object whose calls all succeed, into a buffer of its length: the request ends with
-- result 0 and each byte of the buffer is written. It holds the object's bytes if the object map does
-- not rule the object out and it exists, or else the parent image's bytes if the parent has a part of
-- the object, and zeros after them.
pub read_all-Fills :
    (calls : Calls) (objno off len : ℕ) (buf : List ℕ) (fes : List FileExtent) (o : Object)
    (of_parent : List ℕ)
    → calls.read_object ≡ pos 0
    → calls.read_parent ≡ pos 0
    → calc_img_extents calls.layout calls.memory calls.parent_overlap objno off len
      ≡ ok (pos 0, fes)
    → length buf ≡ len
    → len < 2 ^ 32
    → FitsObject o len
    → length of_parent ≡ file_extents_bytes fes
    → length of_parent ≤ len
    → Fills
        (read_all calls (answer_of o) (got of_parent) (new_read objno off len buf))
        (content fes (seen calls.may_exist o) of_parent len)
unfolding read_all advance_read start_read object_read
read_all-Fills calls objno off len buf fes o of_parent reads asks found whole small fits same
      fits' =
    elim (Bool-cases calls.may_exist) [
      | inl p ↦ simp (p, reads) (asked o fits)
      | inr p ↦ simp p (
          find_hole-Fills calls (record (new_read objno off len buf) { state = object }) fes
            of_parent asks found whole same fits' small _ refl)
    ]
  where
    existing : ReadReq
    existing = record (new_read objno off len buf) { state = object; may_exist = true }

    asked :
        (p : Object)
        → FitsObject p len
        → Fills
            (resume calls (receive (answer_of p) (λ n. n) existing)
              >>= then_go (λ req'. resume calls (receive (got of_parent) (λ n. 0) req')))
            (content fes p of_parent len)
    asked absent h =
        find_hole-Fills calls existing fes of_parent asks found whole same fits' small _ refl
    asked (present bytes) h = ended _ _ _ (finish_object-Fills existing bytes whole h)
