-- ===== src/Osdc/Names.antt =====
-- compare_names is the lexicographic order of the bytes, in which a name comes before what it begins.
use xcp_ng_ceph_rbd.Base.{ℕ, zero, suc, ◌≡◌, refl, ap, sym, ◌∙◌, List, [], ◌∷◌, length, min, arith}
use xcp_ng_ceph_rbd.Osdc.{Sign, less, same, greater, then_by, compare_ℕ, memcmp, compare_names}
use xcp_ng_ceph_rbd.Osdc.Order.{
  IsOrder, opposite, compare_ℕ-IsOrder, then_by-opposite, then_by-less, then_by-same,
}

abbrev pub lexicographic : List ℕ → List ℕ → Sign
lexicographic [] [] = same
lexicographic [] (y ∷ ys) = less
lexicographic (x ∷ xs) [] = greater
lexicographic (x ∷ xs) (y ∷ ys) = then_by (compare_ℕ x y) (lexicographic xs ys)

lexicographic_flip : (xs ys : List ℕ) → lexicographic ys xs ≡ opposite (lexicographic xs ys)
lexicographic_flip [] [] = refl
lexicographic_flip [] (y ∷ ys) = refl
lexicographic_flip (x ∷ xs) [] = refl
lexicographic_flip (x ∷ xs) (y ∷ ys) =
    rw (compare_ℕ-IsOrder.flip x y, lexicographic_flip xs ys)
      (then_by-opposite (compare_ℕ x y) (lexicographic xs ys))

lexicographic_trans :
    (xs ys zs : List ℕ)
    → lexicographic xs ys ≡ less
    → lexicographic ys zs ≡ less
    → lexicographic xs zs ≡ less
lexicographic_trans [] [] zs p q = q
lexicographic_trans [] (y ∷ ys) [] p q = grind arith
lexicographic_trans [] (y ∷ ys) (z ∷ zs) p q = refl
lexicographic_trans (x ∷ xs) [] zs p q = grind arith
lexicographic_trans (x ∷ xs) (y ∷ ys) [] p q = grind arith
lexicographic_trans (x ∷ xs) (y ∷ ys) (z ∷ zs) p q =
    then_by-less compare_ℕ-IsOrder x y z (compare_ℕ x y) (compare_ℕ y z) (lexicographic xs ys)
      (lexicographic ys zs) (lexicographic xs zs) (lexicographic_trans xs ys zs) refl refl p q

lexicographic_alike :
    (xs ys zs : List ℕ) → lexicographic xs ys ≡ same → lexicographic xs zs ≡ lexicographic ys zs
lexicographic_alike [] [] zs p = refl
lexicographic_alike [] (y ∷ ys) zs p = grind arith
lexicographic_alike (x ∷ xs) [] zs p = grind arith
lexicographic_alike (x ∷ xs) (y ∷ ys) [] p = refl
lexicographic_alike (x ∷ xs) (y ∷ ys) (z ∷ zs) p =
    let e = then_by-same (compare_ℕ x y) (lexicographic xs ys) p in
    rw (compare_ℕ-IsOrder.alike x y z e.0, lexicographic_alike xs ys zs e.1) refl

lexicographic-IsOrder : IsOrder lexicographic
lexicographic-IsOrder = record {
  flip = lexicographic_flip;
  trans = lexicographic_trans;
  alike = lexicographic_alike;
}

then_by_assoc : (s t u : Sign) → then_by (then_by s t) u ≡ then_by s (then_by t u)
then_by_assoc less t u = refl
then_by_assoc same t u = refl
then_by_assoc greater t u = refl

min-suc : (m n : ℕ) → min (suc m) (suc n) ≡ suc (min m n)
min-suc m n = ground arith

compare_ℕ-suc : (m n : ℕ) → compare_ℕ (suc m) (suc n) ≡ compare_ℕ m n
compare_ℕ-suc m n = ground arith

compare_ℕ-zero-suc : (n : ℕ) → compare_ℕ zero (suc n) ≡ less
compare_ℕ-zero-suc n = ground arith

min-zero-left : (n : ℕ) → min zero n ≡ zero
min-zero-left n = ground arith

min-zero : (n : ℕ) → min n zero ≡ zero
min-zero n = ground arith

compare_ℕ-suc-zero : (n : ℕ) → compare_ℕ (suc n) zero ≡ greater
compare_ℕ-suc-zero n = ground arith

compare_names_lem : (xs ys : List ℕ) → compare_names xs ys ≡ lexicographic xs ys
unfolding compare_names
compare_names_lem [] [] = refl
compare_names_lem [] (y ∷ ys) =
    rw (min-zero-left (suc (length ys))) (compare_ℕ-zero-suc (length ys))
compare_names_lem (x ∷ xs) [] = rw (min-zero (suc (length xs))) (compare_ℕ-suc-zero (length xs))
compare_names_lem (x ∷ xs) (y ∷ ys) =
    rw (min-suc (length xs) (length ys), compare_ℕ-suc (length xs) (length ys))
      (then_by_assoc (compare_ℕ x y) (memcmp (min (length xs) (length ys)) xs ys)
          (compare_ℕ (length xs) (length ys))
        ∙ ap (then_by (compare_ℕ x y)) (compare_names_lem xs ys))

pub compare_names-IsOrder : IsOrder compare_names
compare_names-IsOrder = record {
  flip = λ a b. rw (compare_names_lem a b, compare_names_lem b a) (lexicographic_flip a b);
  trans = λ a b c x y.
      compare_names_lem a c
      ∙ lexicographic_trans a b c (sym (compare_names_lem a b) ∙ x)
          (sym (compare_names_lem b c) ∙ y);
  alike = λ a b c x.
      compare_names_lem a c
      ∙ lexicographic_alike a b c (sym (compare_names_lem a b) ∙ x)
      ∙ sym (compare_names_lem b c);
}
