-- ===== src/Striper/Extents/Order.antt =====
-- One round of the loop of `ceph_file_to_extents` as an insertion into the sorted list.
use xcp_ng_ceph_rbd.Base.{
  ℕ, ◌+◌, ◌^◌, ◌≤◌, ◌<◌, ◌≡◌, ◌⊎◌, inl, inr, refl, ◌∙◌, ◌≢◌, List, [], ◌∷◌, ◌++◌, none, some, ltb,
  ◌==◌, if◌then◌else◌, u64, All, arith, Bool-cases, ltb→lt, ==_iff, Bool-cases, ltb→lt,
}
use xcp_ng_ceph_rbd.Striper.Layout.{Mapping}
use xcp_ng_ceph_rbd.Striper.Extents.{
  Extent, Lookup, found, missing, passed, lookup_last, Caller, at_lookup, add_mapping, ok,
  check_sorted,
}

abbrev pub new_extent : Mapping → Extent
new_extent m = record { objno = m.objno; off = m.objoff; len = m.xlen }

abbrev pub grown : Mapping → Extent → Extent
grown m ex = record ex { len = u64 (ex.len + m.xlen) }

abbrev place : Mapping → Lookup → List Extent
place m (missing later rest) = later ++ (new_extent m ∷ rest)
place m (found later ex rest) =
    if u64 (ex.off + ex.len) == m.objoff
    then later ++ (grown m ex ∷ rest)
    else later ++ (new_extent m ∷ ex ∷ rest)

-- The list after a round, by recursion on the list.
pub insert : Mapping → List Extent → List Extent
insert m [] = new_extent m ∷ []
insert m (ex ∷ rest) =
    let further = insert m rest in
    if ex.objno == m.objno
    then (if u64 (ex.off + ex.len) == m.objoff then grown m ex ∷ rest else new_extent m ∷ ex ∷ rest)
    else if ltb ex.objno m.objno
    then new_extent m ∷ ex ∷ rest
    else ex ∷ further

place-passed : (m : Mapping) (e : Extent) (lk : Lookup) → place m (passed e lk) ≡ e ∷ place m lk
place-passed m e (missing later rest) = refl
place-passed m e (found later ex rest) = ground arith

place-lookup_last :
    (m : Mapping) (exts : List Extent) → place m (lookup_last exts m.objno) ≡ insert m exts
unfolding lookup_last insert
place-lookup_last m [] = refl
place-lookup_last m (ex ∷ rest) =
    ground (arith, place-passed m ex (lookup_last rest m.objno), place-lookup_last m rest)

module _ {ℓ} {S : Type ℓ} (c : Caller S) where
  at_lookup-place :
      (m : Mapping) (lk : Lookup) (s : S) {exts' : List Extent} {s' : S}
      → at_lookup c m lk s ≡ some (exts', s')
      → exts' ≡ place m lk
  unfolding at_lookup
  at_lookup-place m (missing later rest) s e = ground arith
  at_lookup-place m (found later ex rest) s e = ground arith

  -- A round that succeeds inserts.
  pub add_mapping-insert :
      (m : Mapping) (exts : List Extent) (s : S) {exts' : List Extent} {s' : S}
      → add_mapping c m exts s ≡ some (exts', s')
      → exts' ≡ insert m exts
  unfolding add_mapping
  add_mapping-insert m exts s e =
      at_lookup-place m (lookup_last exts m.objno) s e ∙ place-lookup_last m exts

  at_lookup-ne-none :
      (m : Mapping) (lk : Lookup) (s : S) → c.alloc s ≢ none → at_lookup c m lk s ≢ none
  unfolding at_lookup
  at_lookup-ne-none m (missing later rest) s h = ground arith
  at_lookup-ne-none m (found later ex rest) s h = ground arith

  -- A round fails only if the allocation does.
  pub add_mapping-ne-none :
      (m : Mapping) (exts : List Extent) (s : S) → c.alloc s ≢ none → add_mapping c m exts s ≢ none
  unfolding add_mapping
  add_mapping-ne-none m exts s h = at_lookup-ne-none m (lookup_last exts m.objno) s h

-- `e` comes before offset `off` of object `objno`, and does not touch it.
abbrev pub Before : Extent → ℕ → ℕ → Type 0
Before e objno off = (e.objno < objno) ⊎ ((e.objno ≡ objno) × (e.off + e.len < off))

abbrev pub HeadBefore : List Extent → Extent → Type 0
HeadBefore [] e = Unit {0}
HeadBefore (x ∷ rest) e = Before x e.objno e.off

abbrev pub Sorted : List Extent → Type 0
Sorted [] = Unit {0}
Sorted (e ∷ rest) = HeadBefore rest e × Sorted rest

abbrev pub InObject : ℕ → Extent → Type 0
InObject size e = e.off + e.len ≤ size

pub check_sorted-Sorted :
    (size : ℕ) (exts : List Extent)
    → size < 2 ^ 32
    → All (InObject size) exts
    → Sorted exts
    → check_sorted exts ≡ ok
unfolding check_sorted
check_sorted-Sorted size [] h b s = refl
check_sorted-Sorted size (e ∷ []) h b s = refl
check_sorted-Sorted size (e ∷ x ∷ rest) h b s =
    ground (arith, check_sorted-Sorted size (x ∷ rest) h b.1 s.1)

abbrev pub total : List Extent → ℕ
total [] = 0
total (e ∷ rest) = e.len + total rest

-- A round adds the bytes of its mapping.
pub total-insert :
    (size : ℕ) (m : Mapping) (exts : List Extent)
    → size < 2 ^ 32
    → m.xlen < 2 ^ 32
    → All (InObject size) exts
    → total (insert m exts) ≡ total exts + m.xlen
unfolding insert
total-insert size m [] h x b = omega arith
total-insert size m (e ∷ rest) h x b = ground (arith, total-insert size m rest h x b.1)

-- The end of every extent of the mapping's object lies at or before the mapping.
abbrev pub Behind : Mapping → Extent → Type 0
Behind m e = e.objno ≡ m.objno → e.off + e.len ≤ m.objoff

HeadBefore-insert :
    (size : ℕ) (m : Mapping) (exts : List Extent) (e : Extent)
    → m.objno < e.objno
    → HeadBefore exts e
    → HeadBefore (insert m exts) e
unfolding insert
HeadBefore-insert size m [] e h b = ground arith
HeadBefore-insert size m (x ∷ rest) e h b = ground arith

HeadBefore-grown :
    (m : Mapping) (rest : List Extent) (e : Extent)
    → HeadBefore rest e
    → HeadBefore rest (grown m e)
HeadBefore-grown m [] e h = tt
HeadBefore-grown m (x ∷ rest) e h = h

pub insert-Sorted :
    (size : ℕ) (m : Mapping) (exts : List Extent)
    → size < 2 ^ 32
    → All (InObject size) exts
    → All (Behind m) exts
    → Sorted exts
    → Sorted (insert m exts)
unfolding insert
insert-Sorted size m [] h b a s = (tt, tt)
insert-Sorted size m (e ∷ rest) h b a s = elim (Bool-cases (e.objno == m.objno)) [
  | inl t ↦ elim (Bool-cases (u64 (e.off + e.len) == m.objoff)) [
    | inl u ↦ rw (t, u) (HeadBefore-grown m rest e s.0, s.1)
    | inr u ↦ rw (t, u) (ground (arith, a.0), (s.0, s.1))
  ]
  | inr t ↦ elim (Bool-cases (ltb e.objno m.objno)) [
    | inl u ↦ rw (t, u) (inl (ltb→lt _ _ u), (s.0, s.1))
    | inr u ↦
        rw (t, u)
          (
            HeadBefore-insert size m rest e (ground arith) s.0,
            insert-Sorted size m rest h b.1 a.1 s.1,
          )
  ]
]

-- A run of `x` bytes at `off` of object `objno` lies in one extent of the list.
abbrev pub Covered : ℕ → ℕ → ℕ → List Extent → Type 0
Covered objno off x [] = ⊥
Covered objno off x (e ∷ rest) =
    ((e.objno ≡ objno) × (e.off ≤ off) × (off + x ≤ e.off + e.len)) ⊎ Covered objno off x rest

pub insert-Covered :
    (size : ℕ) (m : Mapping) (objno off x : ℕ) (exts : List Extent)
    → size < 2 ^ 32
    → m.xlen < 2 ^ 32
    → All (InObject size) exts
    → Covered objno off x exts
    → Covered objno off x (insert m exts)
unfolding insert
insert-Covered size m objno off x [] h k b c = elim c [ ]
insert-Covered size m objno off x (e ∷ rest) h k b (inl c) = ground arith
insert-Covered size m objno off x (e ∷ rest) h k b (inr c) =
    ground (arith, insert-Covered size m objno off x rest h k b.1 c)

-- After the round the mapping's own bytes are covered.
pub insert-Covered_new :
    (size : ℕ) (m : Mapping) (off x : ℕ) (exts : List Extent)
    → size < 2 ^ 32
    → m.xlen < 2 ^ 32
    → All (InObject size) exts
    → m.objoff ≤ off
    → off + x ≤ m.objoff + m.xlen
    → Covered m.objno off x (insert m exts)
unfolding insert
insert-Covered_new size m off x [] h k b lo hi = inl (refl, lo, hi)
insert-Covered_new size m off x (e ∷ rest) h k b lo hi =
    ground (arith, insert-Covered_new size m off x rest h k b.1)

-- A predicate of all extents after the round follows from that of the two that the round makes.
pub insert-All {κ} :
    (P : Extent → Type κ) (m : Mapping) (exts : List Extent)
    → P (new_extent m)
    → ((e : Extent) → e.objno ≡ m.objno → u64 (e.off + e.len) ≡ m.objoff → P e → P (grown m e))
    → All P exts
    → All P (insert m exts)
unfolding insert
insert-All P m [] n g a = (n, tt)
insert-All P m (e ∷ rest) n g a = elim (Bool-cases (e.objno == m.objno)) [
  | inl t ↦ elim (Bool-cases (u64 (e.off + e.len) == m.objoff)) [
    | inl u ↦ rw (t, u) (g e ((==_iff _ _).0 t) ((==_iff _ _).0 u) a.0, a.1)
    | inr u ↦ rw (t, u) (n, (a.0, a.1))
  ]
  | inr t ↦ elim (Bool-cases (ltb e.objno m.objno)) [
    | inl u ↦ rw (t, u) (n, (a.0, a.1))
    | inr u ↦ rw (t, u) (a.0, insert-All P m rest n g a.1)
  ]
]
