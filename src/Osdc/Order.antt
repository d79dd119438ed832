-- ===== src/Osdc/Order.antt =====
-- Comparisons that are total orders, and how hoid_compare puts them one after the other.
use xcp_ng_ceph_rbd.Base.{◌≡◌, refl, ap, sym, ◌∙◌, true, ℤ, ltb_ℤ, arith}
use xcp_ng_ceph_rbd.Osdc.{Sign, less, same, greater, then_by, compare_ℕ, compare_ℤ}

abbrev pub opposite : Sign → Sign
opposite less = greater
opposite same = same
opposite greater = less

-- A comparison that is a total order: the other way round it gives the opposite, what is less than less
-- is less, and what makes no difference to it makes none anywhere.
pub record IsOrder {A : Type 0} (compare : A → A → Sign) : Type 0 where
  pub flip : (a b : A) → compare b a ≡ opposite (compare a b)
  pub trans : (a b c : A) → compare a b ≡ less → compare b c ≡ less → compare a c ≡ less
  pub alike : (a b c : A) → compare a b ≡ same → compare a c ≡ compare b c

pub compare_ℕ-IsOrder : IsOrder compare_ℕ
compare_ℕ-IsOrder = record {
  flip = λ a b. ground arith;
  trans = λ a b c x y. ground arith;
  alike = λ a b c x. ground arith;
}

ltb_ℤ_lem : (a b c : ℤ) → ltb_ℤ a b ≡ true → ltb_ℤ b c ≡ true → ltb_ℤ a c ≡ true
ltb_ℤ_lem a b c x y = ground arith

pub compare_ℤ-IsOrder : IsOrder compare_ℤ
compare_ℤ-IsOrder = record {
  flip = λ a b. ground arith;
  trans = λ a b c x y. ground arith;
  alike = λ a b c x. ground arith;
}

-- A comparison of what is read of each side.
pub on-IsOrder :
    {A B : Type 0} (read : A → B) (compare : B → B → Sign)
    → IsOrder compare
    → IsOrder (λ a b. compare (read a) (read b))
on-IsOrder read compare h = record {
  flip = λ a b. h.flip (read a) (read b);
  trans = λ a b c x y. h.trans (read a) (read b) (read c) x y;
  alike = λ a b c x. h.alike (read a) (read b) (read c) x;
}

pub then_by-opposite : (s t : Sign) → then_by (opposite s) (opposite t) ≡ opposite (then_by s t)
then_by-opposite less t = refl
then_by-opposite same t = refl
then_by-opposite greater t = refl

-- What the right side of a comparison is alike to can take its place.
pub alike_right :
    {A : Type 0} {compare : A → A → Sign} (h : IsOrder compare) (a b c : A)
    → compare b c ≡ same
    → compare a c ≡ compare a b
alike_right {compare = compare} h a b c x =
    h.flip c a ∙ ap opposite (h.alike c b a (h.flip b c ∙ ap opposite x)) ∙ sym (h.flip b a)

pub then_by-less :
    {A : Type 0} {first : A → A → Sign} (h : IsOrder first) (a b c : A) (s t u v w : Sign)
    → (u ≡ less → v ≡ less → w ≡ less)
    → first a b ≡ s
    → first b c ≡ t
    → then_by s u ≡ less
    → then_by t v ≡ less
    → then_by (first a c) w ≡ less
then_by-less h a b c less less u v w k p q x y = ap (λ s. then_by s w) (h.trans a b c p q)
then_by-less h a b c less same u v w k p q x y = ap (λ s. then_by s w) (alike_right h a b c q ∙ p)
then_by-less h a b c same less u v w k p q x y = ap (λ s. then_by s w) (h.alike a b c p ∙ q)
then_by-less h a b c same same u v w k p q x y = ap (λ s. then_by s w) (h.alike a b c p ∙ q) ∙ k x y
then_by-less h a b c greater t u v w k p q x y = grind arith
then_by-less h a b c less greater u v w k p q x y = grind arith
then_by-less h a b c same greater u v w k p q x y = grind arith

pub then_by-same : (s t : Sign) → then_by s t ≡ same → (s ≡ same) × (t ≡ same)
then_by-same same t x = (refl, x)
then_by-same less t x = grind arith
then_by-same greater t x = grind arith

-- One comparison after the other.
pub then_by-IsOrder :
    {A : Type 0} (first second : A → A → Sign)
    → IsOrder first
    → IsOrder second
    → IsOrder (λ a b. then_by (first a b) (second a b))
then_by-IsOrder first second h k = record {
  flip = λ a b. rw (h.flip a b, k.flip a b) (then_by-opposite (first a b) (second a b));
  trans = λ a b c x y.
      then_by-less h a b c (first a b) (first b c) (second a b) (second b c) (second a c)
        (k.trans a b c) refl refl x y;
  alike = λ a b c x.
      let e = then_by-same (first a b) (second a b) x in
      rw (h.alike a b c e.0, k.alike a b c e.1) refl;
}
