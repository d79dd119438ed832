-- ===== src/Osdc.antt =====
-- kernel-modules/src/libceph/osd_client.c: the order of object ids and the ranges of objects for which
-- an OSD has asked the client to back off. A name is the list of its bytes; the backoffs of a placement
-- group are a binary tree, which the kernel's rb_insert_color, a parameter, rebalances.
pub mod Order
pub mod Names
pub mod Hoids
pub mod Lookup
pub mod Balance
pub mod Insert
mod Tests
use xcp_ng_ceph_rbd.Base.{
  ℕ, zero, suc, Bool, true, false, List, [], ◌∷◌, ◌++◌, Option, none, some, length, min, ltb, ◌==◌,
  if◌then◌else◌, ℤ, ltb_ℤ,
}

-- The sign of what a comparison returns.
pub data Sign : Type 0 where
  less same greater : Sign

-- The next comparison counts if this one finds no difference.
abbrev pub then_by : Sign → Sign → Sign
then_by less next = less
then_by same next = next
then_by greater next = greater

-- Two tests, for less and for greater.
abbrev pub compare_ℕ : ℕ → ℕ → Sign
compare_ℕ a b = if ltb a b then less else if ltb b a then greater else same

abbrev pub compare_ℤ : ℤ → ℤ → Sign
compare_ℤ a b = if ltb_ℤ a b then less else if ltb_ℤ b a then greater else same

-- memcmp on the first `n` bytes.
abbrev pub memcmp : (n : ℕ) → List ℕ → List ℕ → Sign
memcmp zero xs ys = same
memcmp (suc n) [] ys = same
memcmp (suc n) (x ∷ xs) [] = same
memcmp (suc n) (x ∷ xs) (y ∷ ys) = then_by (compare_ℕ x y) (memcmp n xs ys)

pub compare_names : List ℕ → List ℕ → Sign
compare_names name1 name2 =
    then_by (memcmp (min (length name1) (length name2)) name1 name2)
      (compare_ℕ (length name1) (length name2))

-- struct ceph_hobject_id; `hash_reverse_bits` is the cached hash.
pub record Hoid : Type 0 where
  pub key : List ℕ
  pub oid : List ℕ
  pub snapid : ℕ
  pub hash : ℕ
  pub is_max : ℕ
  pub nspace : List ℕ
  pub pool : ℤ
  pub hash_reverse_bits : ℕ

-- hoid_get_bitwise_key and hoid_get_effective_key.
abbrev pub bitwise_key : Hoid → ℕ
bitwise_key h = if h.is_max == 0 then h.hash_reverse_bits else 4294967296

abbrev pub effective_key : Hoid → List ℕ
effective_key h = if length h.key == 0 then h.oid else h.key

pub hoid_compare : Hoid → Hoid → Sign
hoid_compare lhs rhs = then_by (compare_ℕ lhs.is_max rhs.is_max) (
    then_by (compare_ℤ lhs.pool rhs.pool) (
      then_by (compare_ℕ (bitwise_key lhs) (bitwise_key rhs)) (
        then_by (compare_names lhs.nspace rhs.nspace) (
          then_by (compare_names (effective_key lhs) (effective_key rhs))
            (then_by (compare_names lhs.oid rhs.oid) (compare_ℕ lhs.snapid rhs.snapid))))))

-- struct ceph_osd_backoff: the objects from `begin` on, before `end`. Its group is that of the
-- tree it stands in.
pub record Backoff : Type 0 where
  pub id : ℕ
  pub begin : Hoid
  pub end : Hoid

pub data Tree : Type 0 where
  leaf : Tree
  node : (left : Tree) → Backoff → (right : Tree) → Tree

-- lookup_containing_backoff.
abbrev pub is_less : Sign → Bool
is_less less = true
is_less _ = false

abbrev pub go_on :
    Sign → (before_end : Bool) → Backoff → (left right : Option Backoff) → Option Backoff
go_on less before_end cur left right = left
go_on greater before_end cur left right = if before_end then some cur else right
go_on same before_end cur left right = some cur

pub lookup_containing_backoff : Tree → Hoid → Option Backoff
lookup_containing_backoff leaf hoid = none
lookup_containing_backoff (node left cur right) hoid =
    let in_left = lookup_containing_backoff left hoid in
    let in_right = lookup_containing_backoff right hoid in
    go_on (hoid_compare hoid cur.begin) (is_less (hoid_compare hoid cur.end)) cur in_left in_right

-- The loop of insert_backoff, which ends in rb_link_node; its BUG is `none`.
abbrev pub link_left : Backoff → (right : Tree) → Option Tree → Option Tree
link_left cur right none = none
link_left cur right (some left) = some (node left cur right)

abbrev pub link_right : (left : Tree) → Backoff → Option Tree → Option Tree
link_right left cur none = none
link_right left cur (some right) = some (node left cur right)

abbrev pub go_into : Sign → (in_left in_right : Option Tree) → Option Tree
go_into less in_left in_right = in_left
go_into greater in_left in_right = in_right
go_into same in_left in_right = none

pub link_backoff : Tree → Backoff → Option Tree
link_backoff leaf t = some (node leaf t leaf)
link_backoff (node left cur right) t =
    let in_left = link_left cur right (link_backoff left t) in
    let in_right = link_right left cur (link_backoff right t) in
    go_into (hoid_compare t.begin cur.begin) in_left in_right

-- rb_insert_color rebalances the tree.
abbrev pub insert_color : (rb_insert_color : Tree → Tree) → Option Tree → Option Tree
insert_color rb_insert_color none = none
insert_color rb_insert_color (some t) = some (rb_insert_color t)

pub insert_backoff : (rb_insert_color : Tree → Tree) → Tree → Backoff → Option Tree
insert_backoff rb_insert_color root t = insert_color rb_insert_color (link_backoff root t)

-- target_contained_by.
abbrev pub is_within : (of_begin : Sign) → (before_end : Bool) → Bool
is_within less before_end = false
is_within same before_end = true
is_within greater before_end = before_end

abbrev pub contained_by : Hoid → Backoff → Bool
contained_by hoid b = is_within (hoid_compare hoid b.begin) (is_less (hoid_compare hoid b.end))

-- should_plug_request, for the backoffs of the group of the request, if there are any.
abbrev pub is_found : Option Backoff → Bool
is_found none = false
is_found (some b) = true

pub should_plug_request : Option Tree → Hoid → Bool
should_plug_request none hoid = false
should_plug_request (some backoffs) hoid = is_found (lookup_containing_backoff backoffs hoid)
