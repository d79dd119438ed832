-- ===== src/Striper/Extents.antt =====
-- ceph_file_to_extents and ceph_iterate_extents of kernel-modules/src/libceph/striper.c.
-- The list `object_extents` is kept last extent first by the functions that build it.
pub mod Order
pub mod Round
pub mod Build
pub mod Iterate
use xcp_ng_ceph_rbd.Base.{
  ℕ, zero, suc, ◌+◌, Bool, ◌&&◌, ◌||◌, List, [], ◌∷◌, ◌++◌, Option, none, some, ltb, leb, ◌==◌,
  if◌then◌else◌, u64, sub64,
}
use xcp_ng_ceph_rbd.Striper.Layout.{Layout, Mapping, calc_file_object_mapping}

-- struct ceph_object_extent.
pub record Extent : Type 0 where
  pub objno : ℕ
  pub off : ℕ
  pub len : ℕ

-- The list `object_extents` is kept last extent first, the order in which `lookup_last` walks it:
-- `rest` is what stands before an extent in the kernel's list, `later` what stands behind it.
pub data Lookup : Type 0 where
  found : (later : List Extent) (ex : Extent) (rest : List Extent) → Lookup
  missing : (later rest : List Extent) → Lookup

abbrev pub passed : Extent → Lookup → Lookup
passed e (found later ex rest) = found (e ∷ later) ex rest
passed e (missing later rest) = missing (e ∷ later) rest

-- `missing` splits the list where `add_pos` points.
pub lookup_last : List Extent → ℕ → Lookup
lookup_last [] objno = missing [] []
lookup_last (ex ∷ rest) objno =
    let further = passed ex (lookup_last rest objno) in
    if ex.objno == objno
    then found [] ex rest
    else if ltb ex.objno objno
    then missing [] (ex ∷ rest)
    else further

-- The walk of `lookup_containing`, over the list in its own order.
pub contains : Extent → Mapping → Bool
contains ex m =
    ex.objno == m.objno
    && (leb ex.off m.objoff && leb (u64 (m.objoff + m.xlen)) (u64 (ex.off + ex.len)))

pub lookup_containing : List Extent → Mapping → Option Extent
unfolding contains
lookup_containing [] m = none
lookup_containing (ex ∷ rest) m =
    let further = lookup_containing rest m in
    if contains ex m then some ex else if ltb m.objno ex.objno then none else further

-- The codes that the functions return; `stuck` is no code: a loop ran out of fuel.
pub data Status : Type 0 where
  ok enomem einval stuck : Status

-- `alloc` is `alloc_fn(alloc_arg)`, which may give no extent, and `action` is `action_fn` on its
-- argument; a null `action_fn` is an action that changes nothing. Both work on the caller's state.
pub record Caller {ℓ} (S : Type ℓ) : Type ℓ where
  pub alloc : S → Option S
  pub action : Extent → ℕ → S → S

module _ {ℓ} {S : Type ℓ} (c : Caller S) where
  -- A new extent that starts where the mapping says, put between `later` and `rest`.
  unfoldable pub start_extent : Mapping → List Extent → List Extent → S → Option (List Extent × S)
  start_extent m later rest s = elim (c.alloc s) [
    | none ↦ none
    | some s' ↦
        let ex : Extent = record { objno = m.objno; off = m.objoff; len = m.xlen } in
        some (later ++ (ex ∷ rest), c.action ex m.xlen s')
  ]

  grow_extent : Mapping → List Extent → Extent → List Extent → S → List Extent × S
  grow_extent m later ex rest s =
      let ex' : Extent = record ex { len = u64 (ex.len + m.xlen) } in
      (later ++ (ex' ∷ rest), c.action ex' m.xlen s)

  -- What the round does with the answer of `lookup_last`.
  pub at_lookup : Mapping → Lookup → S → Option (List Extent × S)
  unfolding start_extent grow_extent
  at_lookup m (missing later rest) s = start_extent m later rest s
  at_lookup m (found later ex rest) s =
      if u64 (ex.off + ex.len) == m.objoff
      then some (grow_extent m later ex rest s)
      else start_extent m later (ex ∷ rest) s

  -- One round of the loop of `ceph_file_to_extents`, up to the advance.
  pub add_mapping : Mapping → List Extent → S → Option (List Extent × S)
  add_mapping m exts s = at_lookup m (lookup_last exts m.objno) s

-- The test of the second loop, on the two neighbours of the list.
pub out_of_order : Extent → Extent → Bool
out_of_order last_ex ex =
    ltb ex.objno last_ex.objno
    || (last_ex.objno == ex.objno && leb ex.off (u64 (last_ex.off + last_ex.len)))

pub check_sorted : List Extent → Status
unfolding out_of_order
check_sorted [] = ok
check_sorted (ex ∷ []) = ok
check_sorted (ex ∷ last_ex ∷ rest) =
    let further = check_sorted (last_ex ∷ rest) in
    if out_of_order last_ex ex then einval else further

module _ {ℓ} {S : Type ℓ} where
  -- A failed allocation returns before the second loop.
  abbrev pub finish : Status × List Extent × S → Status × List Extent × S
  finish (ok, exts, s) = (check_sorted exts, exts, s)
  finish (st, exts, s) = (st, exts, s)

module _ {ℓ} {S : Type ℓ} (c : Caller S) (l : Layout) where
  -- The first loop; each round maps at least one byte of a valid layout, so fuel `len` is enough.
  pub map_extents : ℕ → ℕ → ℕ → List Extent → S → Status × List Extent × S
  map_extents fuel off zero exts s = (ok, exts, s)
  map_extents zero off (suc n) exts s = (stuck, exts, s)
  map_extents (suc fuel) off (suc n) exts s =
      let m = calc_file_object_mapping l off (suc n) in
      elim (add_mapping c m exts s) [
        | none ↦ (enomem, exts, s)
        | some (exts', s') ↦ map_extents fuel (u64 (off + m.xlen)) (sub64 (suc n) m.xlen) exts' s'
      ]

  pub file_to_extents : ℕ → ℕ → List Extent → S → Status × List Extent × S
  file_to_extents off len exts s = finish (map_extents len off len exts s)

  -- `ceph_iterate_extents`, over the list in its own order.
  pub iterate_extents : ℕ → ℕ → ℕ → List Extent → S → Status × S
  iterate_extents fuel off zero exts s = (ok, s)
  iterate_extents zero off (suc n) exts s = (stuck, s)
  iterate_extents (suc fuel) off (suc n) exts s =
      let m = calc_file_object_mapping l off (suc n) in
      elim (lookup_containing exts m) [
        | none ↦ (einval, s)
        | some ex ↦
            iterate_extents fuel (u64 (off + m.xlen)) (sub64 (suc n) m.xlen) exts
              (c.action ex m.xlen s)
      ]
