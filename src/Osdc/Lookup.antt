-- ===== src/Osdc/Lookup.antt =====
-- lookup_containing_backoff finds the backoff that contains an object, when the tree is ordered by
-- disjoint ranges.
use xcp_ng_ceph_rbd.Base.{
  ◌≡◌, ◌≢◌, refl, ap, sym, ◌∙◌, Bool, true, false, List, [], ◌∷◌, ◌++◌, Option, none, some,
  if◌then◌else◌, arith,
}
use xcp_ng_ceph_rbd.Osdc.{
  Sign, less, same, greater, Hoid, hoid_compare, Backoff, Tree, leaf, node, is_less, go_on,
  lookup_containing_backoff, is_within, contained_by,
}
use xcp_ng_ceph_rbd.Osdc.Order.{opposite, alike_right}
use xcp_ng_ceph_rbd.Osdc.Hoids.{hoid_compare-IsOrder}

-- The backoffs of a tree from left to right, and the first of them that contains an object.
abbrev pub entries : Tree → List Backoff
entries leaf = []
entries (node left cur right) = entries left ++ cur ∷ entries right

abbrev pub or_else : Option Backoff → Option Backoff → Option Backoff
or_else none c = c
or_else (some b) c = some b

abbrev pub find_containing : Hoid → List Backoff → Option Backoff
find_containing hoid [] = none
find_containing hoid (b ∷ bs) =
    let rest = find_containing hoid bs in if contained_by hoid b then some b else rest

-- A backoff that begins before an object and does not reach beyond it, one that begins after an object,
-- and a backoff that another one is followed by.
pub record Before (hoid : Hoid) (b : Backoff) : Type 0 where
  pub begins : hoid_compare b.begin hoid ≡ less
  pub ends : hoid_compare hoid b.end ≢ less

abbrev pub After : Hoid → Backoff → Type 0
After hoid b = hoid_compare hoid b.begin ≡ less

abbrev pub Follows : Backoff → Backoff → Type 0
Follows cur b = Before b.begin cur

abbrev pub Each : (Backoff → Type 0) → Tree → Type 0
Each P leaf = Unit {0}
Each P (node left cur right) = Each P left × (P cur × Each P right)

abbrev pub IsOrdered : Tree → Type 0
IsOrdered leaf = Unit {0}
IsOrdered (node left cur right) =
    Each (Before cur.begin) left × (Each (Follows cur) right × (IsOrdered left × IsOrdered right))

pub flip_less : (h k : Hoid) → hoid_compare k h ≡ less → hoid_compare h k ≡ greater
flip_less h k x = hoid_compare-IsOrder.flip k h ∙ ap opposite x

is_within-greater : (s t : Sign) → s ≡ greater → t ≢ less → is_within s (is_less t) ≡ false
is_within-greater s t x y = ground arith

Before-contained : (h : Hoid) (b : Backoff) → Before h b → contained_by h b ≡ false
Before-contained h b x =
    is_within-greater (hoid_compare h b.begin) (hoid_compare h b.end) (flip_less h b.begin x.begins)
      x.ends

After-contained : (h : Hoid) (b : Backoff) → After h b → contained_by h b ≡ false
After-contained h b x = ap (λ s. is_within s (is_less (hoid_compare h b.end))) x

if-or_else :
    (b : Bool) (x : Backoff) (c d : Option Backoff)
    → (if b then some x else or_else c d) ≡ or_else (if b then some x else c) d
if-or_else true x c d = refl
if-or_else false x c d = refl

pub find-append :
    (h : Hoid) (xs ys : List Backoff)
    → find_containing h (xs ++ ys) ≡ or_else (find_containing h xs) (find_containing h ys)
find-append h [] ys = refl
find-append h (x ∷ xs) ys = rw (find-append h xs ys) (if-or_else (contained_by h x) x _ _)

pub each : (P Q : Backoff → Type 0) → ((b : Backoff) → P b → Q b) → (t : Tree) → Each P t → Each Q t
each P Q f leaf e = e
each P Q f (node left cur right) e = (each P Q f left e.0, (f cur e.1.0, each P Q f right e.1.1))

find-none :
    (P : Backoff → Type 0) (h : Hoid)
    → ((b : Backoff) → P b → contained_by h b ≡ false)
    → (t : Tree) → Each P t
    → find_containing h (entries t) ≡ none
find-none P h f leaf e = refl
find-none P h f (node left cur right) e =
    rw
      (
        find-append h (entries left) (cur ∷ entries right),
        find-none P h f left (e.0),
        f cur (e.1.0),
      )
      (find-none P h f right (e.1.1))

-- What holds for the backoffs at the root's key holds at any key on the side of them.
less-Before : (k h : Hoid) → hoid_compare k h ≡ less → (b : Backoff) → Before k b → Before h b
less-Before k h x b p = record {
  begins = hoid_compare-IsOrder.trans b.begin k h p.begins x;
  ends = λ y. p.ends (hoid_compare-IsOrder.trans k h b.end x y);
}

greater-Before : (k h : Hoid) → hoid_compare h k ≡ greater → (b : Backoff) → Before k b → Before h b
greater-Before k h x = less-Before k h (hoid_compare-IsOrder.flip h k ∙ ap opposite x)

same-Before : (k h : Hoid) → hoid_compare h k ≡ same → (b : Backoff) → Before k b → Before h b
same-Before k h x b p = record {
  begins = sym (alike_right hoid_compare-IsOrder b.begin h k x) ∙ p.begins;
  ends = λ y. p.ends (sym (hoid_compare-IsOrder.alike h k b.end x) ∙ y);
}

less-After : (k h : Hoid) → hoid_compare h k ≡ less → (b : Backoff) → After k b → After h b
less-After k h x b p = hoid_compare-IsOrder.trans h k b.begin x p

or_else-none : (c : Option Backoff) → or_else c none ≡ c
or_else-none none = refl
or_else-none (some b) = refl

-- One node of the search, given what the searches on both sides of it find.
go_on_lem :
    (h : Hoid) (left : Tree) (cur : Backoff) (right : Tree)
    → IsOrdered (node left cur right)
    → (s : Sign) → hoid_compare h cur.begin ≡ s
    → go_on s
        (is_less (hoid_compare h cur.end))
        cur
        (find_containing h (entries left))
        (find_containing h (entries right))
      ≡ or_else (find_containing h (entries left)) (
          if is_within s (is_less (hoid_compare h cur.end))
          then some cur
          else find_containing h (entries right))
go_on_lem h left cur right o less x =
    let none_right =
      find-none (After h) h (After-contained h) right
        (each (Follows cur) (After h) (λ b p. less-After cur.begin h x b p.begins) right o.1.0) in
    rw none_right (sym (or_else-none (find_containing h (entries left))))
go_on_lem h left cur right o same x =
    let none_left =
      find-none (Before h) h (Before-contained h) left
        (each (Before cur.begin) (Before h) (same-Before cur.begin h x) left o.0) in
    rw none_left refl
go_on_lem h left cur right o greater x =
    let none_left =
      find-none (Before h) h (Before-contained h) left
        (each (Before cur.begin) (Before h) (greater-Before cur.begin h x) left o.0) in
    rw none_left refl

-- In a tree that is ordered by ranges apart from each other, lookup_containing_backoff finds the first
-- backoff, from left to right, that contains the object, and none exactly if none contains it.
pub lookup_containing_backoff_lem :
    (t : Tree) (hoid : Hoid)
    → IsOrdered t
    → lookup_containing_backoff t hoid ≡ find_containing hoid (entries t)
unfolding lookup_containing_backoff
lookup_containing_backoff_lem leaf hoid o = refl
lookup_containing_backoff_lem (node left cur right) hoid o =
    rw
      (
        lookup_containing_backoff_lem left hoid o.1.1.0,
        lookup_containing_backoff_lem right hoid o.1.1.1,
        find-append hoid (entries left) (cur ∷ entries right),
      )
      (go_on_lem hoid left cur right o (hoid_compare hoid cur.begin) refl)
