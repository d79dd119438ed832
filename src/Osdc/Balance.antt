-- ===== src/Osdc/Balance.antt =====
-- Rebalancing, as rb_insert_color does it by rotations, keeps the order of a tree of backoffs and what
-- is found in it.
use xcp_ng_ceph_rbd.Base.{◌≡◌, refl, ap, sym, ◌∙◌, ◌∷◌, ◌++◌, append_assoc}
use xcp_ng_ceph_rbd.Osdc.{Backoff, Tree, node}
use xcp_ng_ceph_rbd.Osdc.Hoids.{hoid_compare-IsOrder}
use xcp_ng_ceph_rbd.Osdc.Lookup.{entries, Follows, Each, IsOrdered, each}

-- One rotation somewhere in a tree, and a sequence of them.
pub data Rotates : Tree → Tree → Type 0 where
  to_right :
      (a : Tree) (x : Backoff) (b : Tree) (y : Backoff) (c : Tree)
      → Rotates (node (node a x b) y c) (node a x (node b y c))
  to_left :
      (a : Tree) (x : Backoff) (b : Tree) (y : Backoff) (c : Tree)
      → Rotates (node a x (node b y c)) (node (node a x b) y c)
  in_left :
      (left left' : Tree) (cur : Backoff) (right : Tree)
      → Rotates left left'
      → Rotates (node left cur right) (node left' cur right)
  in_right :
      (left : Tree) (cur : Backoff) (right right' : Tree)
      → Rotates right right'
      → Rotates (node left cur right) (node left cur right')

pub data Rebalances : Tree → Tree → Type 0 where
  balanced : (t : Tree) → Rebalances t t
  rotated : (t u v : Tree) → Rotates t u → Rebalances u v → Rebalances t v

Follows-trans : (a b c : Backoff) → Follows a b → Follows b c → Follows a c
Follows-trans a b c p q = record {
  begins = hoid_compare-IsOrder.trans a.begin b.begin c.begin p.begins q.begins;
  ends = λ e. p.ends (hoid_compare-IsOrder.trans b.begin c.begin a.end q.begins e);
}

Each-Rotates : (P : Backoff → Type 0) (t u : Tree) → Rotates t u → Each P t → Each P u
Each-Rotates P _ _ (to_right a x b y c) e = (e.0.0, (e.0.1.0, (e.0.1.1, (e.1.0, e.1.1))))
Each-Rotates P _ _ (to_left a x b y c) e = ((e.0, (e.1.0, e.1.1.0)), (e.1.1.1.0, e.1.1.1.1))
Each-Rotates P _ _ (in_left left left' cur right r) e = (Each-Rotates P left left' r e.0, e.1)
Each-Rotates P _ _ (in_right left cur right right' r) e =
    (e.0, (e.1.0, Each-Rotates P right right' r e.1.1))

Rotates-IsOrdered : (t u : Tree) → Rotates t u → IsOrdered t → IsOrdered u
Rotates-IsOrdered _ _ (to_right a x b y c) o =
    let x_y = o.0.1.0 in
    let c_ordered = o.1.1.1 in
    let inner = o.1.1.0 in
    (
      inner.0,
      (
        (inner.1.0, (x_y, each (Follows y) (Follows x) (λ z p. Follows-trans x y z x_y p) c o.1.0)),
        (inner.1.1.0, (o.0.1.1, (o.1.0, (inner.1.1.1, c_ordered)))),
      ),
    )
Rotates-IsOrdered _ _ (to_left a x b y c) o =
    let x_y = o.1.0.1.0 in
    let inner = o.1.1.1 in
    (
      (
        each (λ z. Follows z x) (λ z. Follows z y) (λ z p. Follows-trans z x y p x_y) a o.0,
        (x_y, inner.0),
      ),
      (inner.1.0, ((o.0, (o.1.0.0, (o.1.1.0, inner.1.1.0))), inner.1.1.1)),
    )
Rotates-IsOrdered _ _ (in_left left left' cur right r) o = (
  Each-Rotates (λ b. Follows b cur) left left' r o.0,
  (o.1.0, (Rotates-IsOrdered left left' r o.1.1.0, o.1.1.1)),
)
Rotates-IsOrdered _ _ (in_right left cur right right' r) o = (
  o.0,
  (
    Each-Rotates (Follows cur) right right' r o.1.0,
    (o.1.1.0, Rotates-IsOrdered right right' r o.1.1.1),
  ),
)

Rotates-entries : (t u : Tree) → Rotates t u → entries u ≡ entries t
Rotates-entries _ _ (to_right a x b y c) =
    sym (append_assoc (entries a) (x ∷ entries b) (y ∷ entries c))
Rotates-entries _ _ (to_left a x b y c) = append_assoc (entries a) (x ∷ entries b) (y ∷ entries c)
Rotates-entries _ _ (in_left left left' cur right r) =
    ap (λ xs. xs ++ cur ∷ entries right) (Rotates-entries left left' r)
Rotates-entries _ _ (in_right left cur right right' r) =
    ap (λ xs. entries left ++ cur ∷ xs) (Rotates-entries right right' r)

pub Rebalances-IsOrdered : (t u : Tree) → Rebalances t u → IsOrdered t → IsOrdered u
Rebalances-IsOrdered _ _ (balanced t) o = o
Rebalances-IsOrdered _ _ (rotated t u v r s) o =
    Rebalances-IsOrdered u v s (Rotates-IsOrdered t u r o)

pub Rebalances-entries : (t u : Tree) → Rebalances t u → entries u ≡ entries t
Rebalances-entries _ _ (balanced t) = refl
Rebalances-entries _ _ (rotated t u v r s) = Rebalances-entries u v s ∙ Rotates-entries t u r
