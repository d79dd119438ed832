-- ===== src/Osdc/Insert.antt =====
-- insert_backoff keeps the tree ordered, and the requests that it adds to those held back are the ones
-- for the objects of the new range.
use xcp_ng_ceph_rbd.Base.{
  ◌≡◌, refl, ap, ◌∙◌, ◌⊎◌, inl, inr, Bool, true, false, ◌||◌, ◌∷◌, Option, none, some,
  if◌then◌else◌, arith,
}
use xcp_ng_ceph_rbd.Osdc.{
  Sign, less, greater, Hoid, hoid_compare, Backoff, Tree, leaf, node, go_into, link_left,
  link_right, link_backoff, insert_color, insert_backoff, contained_by, is_found,
  should_plug_request,
}
use xcp_ng_ceph_rbd.Osdc.Balance.{Rebalances, Rebalances-IsOrdered, Rebalances-entries}
use xcp_ng_ceph_rbd.Osdc.Lookup.{
  entries, or_else, find_containing, Before, Follows, Each, IsOrdered, flip_less, find-append,
  lookup_containing_backoff_lem,
}

-- A new range and one that is there are apart if one of them ends before the other begins.
abbrev pub Apart : Backoff → Backoff → Type 0
Apart t cur = Before cur.begin t ⊎ Before t.begin cur

abbrev pub holds : Hoid → Tree → Bool
holds h t = is_found (find_containing h (entries t))

is_found-or_else : (c d : Option Backoff) → is_found (or_else c d) ≡ (is_found c || is_found d)
is_found-or_else none d = refl
is_found-or_else (some b) d = refl

is_found-if :
    (b : Bool) (x : Backoff) (c : Option Backoff)
    → is_found (if b then some x else c) ≡ (b || is_found c)
is_found-if true x c = refl
is_found-if false x c = refl

holds-node :
    (h : Hoid) (left : Tree) (cur : Backoff) (right : Tree)
    → holds h (node left cur right) ≡ (holds h left || (contained_by h cur || holds h right))
holds-node h left cur right =
    ap is_found (find-append h (entries left) (cur ∷ entries right))
    ∙ is_found-or_else (find_containing h (entries left)) _
    ∙ ap (◌||◌ (holds h left))
        (is_found-if (contained_by h cur) cur (find_containing h (entries right)))

-- What the insertion gives: a tree of what stood there and the new backoff.
pub record Inserted (t : Backoff) (old new : Tree) : Type 0 where
  pub ordered : IsOrdered new
  pub keeps_before : (k : Hoid) → Each (Before k) old → Before k t → Each (Before k) new
  pub keeps_after : (c : Backoff) → Each (Follows c) old → Follows c t → Each (Follows c) new
  pub held : (h : Hoid) → holds h new ≡ (contained_by h t || holds h old)

abbrev pub Inserts : Backoff → Tree → Option Tree → Type 0
Inserts t old none = ⊥
Inserts t old (some new) = Inserted t old new

or-left : (a b c d : Bool) → ((a || b) || (c || d)) ≡ (a || (b || (c || d)))
or-left a b c d = ground arith

or-right : (a b c d : Bool) → (b || (c || (a || d))) ≡ (a || (b || (c || d)))
or-right a b c d = ground arith

insert-left :
    (t : Backoff) (left : Tree) (cur : Backoff) (right : Tree)
    → IsOrdered (node left cur right)
    → Before cur.begin t
    → (m : Option Tree) → Inserts t left m
    → Inserts t (node left cur right) (link_left cur right m)
insert-left t left cur right o b none i = i
insert-left t left cur right o b (some new) i = record {
  ordered = (i.keeps_before cur.begin o.0 b, (o.1.0, (i.ordered, o.1.1.1)));
  keeps_before = λ k e p. (i.keeps_before k e.0 p, e.1);
  keeps_after = λ k e p. (i.keeps_after k e.0 p, e.1);
  held = λ h.
      holds-node h new cur right
      ∙ rw (i.held h, holds-node h left cur right)
          (or-left (contained_by h t) (holds h left) (contained_by h cur) (holds h right));
}

insert-right :
    (t : Backoff) (left : Tree) (cur : Backoff) (right : Tree)
    → IsOrdered (node left cur right)
    → Follows cur t
    → (m : Option Tree) → Inserts t right m
    → Inserts t (node left cur right) (link_right left cur m)
insert-right t left cur right o b none i = i
insert-right t left cur right o b (some new) i = record {
  ordered = (o.0, (i.keeps_after cur o.1.0 b, (o.1.1.0, i.ordered)));
  keeps_before = λ k e p. (e.0, (e.1.0, i.keeps_before k e.1.1 p));
  keeps_after = λ k e p. (e.0, (e.1.0, i.keeps_after k e.1.1 p));
  held = λ h.
      holds-node h left cur new
      ∙ rw (i.held h, holds-node h left cur right)
          (or-right (contained_by h t) (holds h left) (contained_by h cur) (holds h right));
}

go_into-less :
    (s : Sign) (in_left in_right : Option Tree) → s ≡ less → go_into s in_left in_right ≡ in_left
go_into-less s in_left in_right x = ap (λ s. go_into s in_left in_right) x

go_into-greater :
    (s : Sign) (in_left in_right : Option Tree)
    → s ≡ greater
    → go_into s in_left in_right ≡ in_right
go_into-greater s in_left in_right x = ap (λ s. go_into s in_left in_right) x

link_backoff-Inserts :
    (old : Tree) (t : Backoff)
    → IsOrdered old
    → Each (Apart t) old
    → Inserts t old (link_backoff old t)
unfolding link_backoff
link_backoff-Inserts leaf t o a = record {
  ordered = (tt, (tt, (tt, tt)));
  keeps_before = λ k e p. (tt, (p, tt));
  keeps_after = λ c e p. (tt, (p, tt));
  held = λ h. is_found-if (contained_by h t) t none;
}
link_backoff-Inserts (node left cur right) t o a =
    let in_left = link_backoff-Inserts left t o.1.1.0 a.0 in
    let in_right = link_backoff-Inserts right t o.1.1.1 a.1.1 in
    elim a.1.0 [
      | inl b ↦
          rw
            (go_into-less (hoid_compare t.begin cur.begin)
              (link_left cur right (link_backoff left t))
              (link_right left cur (link_backoff right t)) b.begins)
            (insert-left t left cur right o b (link_backoff left t) in_left)
      | inr b ↦
          rw
            (go_into-greater (hoid_compare t.begin cur.begin)
              (link_left cur right (link_backoff left t))
              (link_right left cur (link_backoff right t)) (flip_less t.begin cur.begin b.begins))
            (insert-right t left cur right o b (link_backoff right t) in_right)
    ]

-- What a backoff message does to the group's backoffs: they stay ordered, and the requests held back are
-- those for the new range and those that were.
pub record Blocks (t : Backoff) (old new : Tree) : Type 0 where
  pub ordered : IsOrdered new
  pub plugs :
      (hoid : Hoid)
      → should_plug_request (some new) hoid
        ≡ (contained_by hoid t || should_plug_request (some old) hoid)

abbrev pub IsBlocked : Backoff → Tree → Option Tree → Type 0
IsBlocked t old none = ⊥
IsBlocked t old (some new) = Blocks t old new

should_plug_request-holds :
    (t : Tree) (h : Hoid) → IsOrdered t → should_plug_request (some t) h ≡ holds h t
unfolding should_plug_request
should_plug_request-holds t h o = ap is_found (lookup_containing_backoff_lem t h o)

insert_color-IsBlocked :
    (rb_insert_color : Tree → Tree) (t : Backoff) (old : Tree) (m : Option Tree)
    → ((u : Tree) → Rebalances u (rb_insert_color u))
    → IsOrdered old
    → Inserts t old m
    → IsBlocked t old (insert_color rb_insert_color m)
insert_color-IsBlocked rb_insert_color t old none r o i = i
insert_color-IsBlocked rb_insert_color t old (some linked) r o i =
    let new = rb_insert_color linked in
    let ordered = Rebalances-IsOrdered linked new (r linked) i.ordered in
    record {
      ordered = ordered;
      plugs = λ h.
          should_plug_request-holds new h ordered
          ∙ ap (λ bs. is_found (find_containing h bs)) (Rebalances-entries linked new (r linked))
          ∙ rw (should_plug_request-holds old h o) (i.held h);
    }

-- If rb_insert_color does nothing but rotations, then insert_backoff puts a new range that is apart from
-- those of an ordered tree into it without reaching its BUG: the tree stays ordered, and then
-- should_plug_request holds back exactly the requests for objects of the new range and those that it
-- held back before.
pub insert_backoff-IsBlocked :
    (rb_insert_color : Tree → Tree) (old : Tree) (t : Backoff)
    → ((u : Tree) → Rebalances u (rb_insert_color u))
    → IsOrdered old
    → Each (Apart t) old
    → IsBlocked t old (insert_backoff rb_insert_color old t)
unfolding insert_backoff
insert_backoff-IsBlocked rb_insert_color old t r o a =
    insert_color-IsBlocked rb_insert_color t old (link_backoff old t) r o
      (link_backoff-Inserts old t o a)
