-- ===== src/Osdc/Tests.antt =====
-- Runs of the order of object ids and of the backoffs, and the theorems about them at concrete inputs.
use xcp_ng_ceph_rbd.Base.{inl, inr, ℕ, ◌≡◌, refl, true, false, [], ◌∷◌, some, pos}
use xcp_ng_ceph_rbd.Osdc.{
  less, compare_names, Hoid, hoid_compare, Backoff, Tree, leaf, node, lookup_containing_backoff,
  link_backoff, insert_backoff, should_plug_request,
}
use xcp_ng_ceph_rbd.Osdc.Lookup.{
  entries, find_containing, Each, IsOrdered, lookup_containing_backoff_lem,
}
use xcp_ng_ceph_rbd.Osdc.Balance.{Rebalances, balanced, rotated, to_right}
use xcp_ng_ceph_rbd.Osdc.Insert.{Apart, IsBlocked, insert_backoff-IsBlocked}

-- An object of pool 1 with a name of one byte, and its range up to another.
abbrev object_of : ℕ → Hoid
object_of n = record {
  key = [];
  oid = n ∷ [];
  snapid = 0;
  hash = 3758096384;
  is_max = 0;
  nspace = [];
  pool = pos 1;
  hash_reverse_bits = 7;
}

abbrev range : ℕ → ℕ → ℕ → Backoff
range i first last = record { id = i; begin = object_of first; end = object_of last }

-- The range of one object stands left of a wider one.
abbrev two_ranges : Tree
two_ranges = node (node leaf (range 1 10 10) leaf) (range 2 20 30) leaf

names_prefix : compare_names (1 ∷ 2 ∷ []) (1 ∷ 2 ∷ 0 ∷ []) ≡ less
unfolding compare_names
names_prefix = refl

lookup_single : should_plug_request (some two_ranges) (object_of 10) ≡ true
unfolding should_plug_request lookup_containing_backoff hoid_compare compare_names
lookup_single = refl

lookup_end : should_plug_request (some two_ranges) (object_of 30) ≡ false
unfolding should_plug_request lookup_containing_backoff hoid_compare compare_names
lookup_end = refl

insert_between :
    link_backoff two_ranges (range 3 12 18)
    ≡ some (node (node leaf (range 1 10 10) (node leaf (range 3 12 18) leaf)) (range 2 20 30) leaf)
unfolding link_backoff hoid_compare compare_names
insert_between = refl

two_ranges-IsOrdered : IsOrdered two_ranges
unfolding hoid_compare compare_names
two_ranges-IsOrdered =
    ((tt, (record { begins = refl; ends = λ e. cc }, tt)), (tt, ((tt, (tt, (tt, tt))), tt)))

two_ranges-Apart : Each (Apart (range 3 12 18)) two_ranges
unfolding hoid_compare compare_names
two_ranges-Apart = (
  (tt, (inr (record { begins = refl; ends = λ e. cc }), tt)),
  (inl (record { begins = refl; ends = λ e. cc }), tt),
)

lookup_example :
    lookup_containing_backoff two_ranges (object_of 25)
    ≡ find_containing (object_of 25) (entries two_ranges)
lookup_example = lookup_containing_backoff_lem two_ranges (object_of 25) two_ranges-IsOrdered

-- A rotation of the root to the right, where there is something on its left.
abbrev rotate : Tree → Tree
rotate (node (node a x b) y c) = node a x (node b y c)
rotate t = t

rotate-Rebalances : (u : Tree) → Rebalances u (rotate u)
rotate-Rebalances leaf = balanced leaf
rotate-Rebalances (node leaf y c) = balanced (node leaf y c)
rotate-Rebalances (node (node a x b) y c) =
    rotated (node (node a x b) y c) (node a x (node b y c)) (node a x (node b y c))
      (to_right a x b y c) (balanced (node a x (node b y c)))

insert_backoff_example :
    IsBlocked (range 3 12 18) two_ranges (insert_backoff rotate two_ranges (range 3 12 18))
insert_backoff_example =
    insert_backoff-IsBlocked rotate two_ranges (range 3 12 18) rotate-Rebalances
      two_ranges-IsOrdered two_ranges-Apart
