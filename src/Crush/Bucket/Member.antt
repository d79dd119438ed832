-- ===== src/Crush/Bucket/Member.antt =====
-- `crush_bucket_choose` answers with an item of the bucket.
use xcp_ng_ceph_rbd.Base.{
  ℕ, zero, suc, ◌+◌, ◌-◌, ◌*◌, ◌/◌, ◌%◌, ◌^◌, ◌≤◌, ◌<◌, ◌≡◌, ◌⊎◌, inl, inr, refl, ◌||◌, List, [],
  ◌∷◌, Option, none, some, length, get_elem?, get_elem?-lt, u32, u64, ltb, leb, ◌==◌, if◌then◌else◌,
  ℤ, pos, ltb_ℤ, to_u32, arith, Bool-cases,
}
use native.Mathlib.Nat.{mod-lt}
use xcp_ng_ceph_rbd.Crush.Outcome.{Outcome, ok, must, ◌>>=◌}
use xcp_ng_ceph_rbd.Crush.Hash.{hash32_3, hash32_4}
use xcp_ng_ceph_rbd.Crush.Map.{
  Alg, uniform, list, tree, straw, straw2, unknown, Bucket, size, WorkBucket, ChooseArg,
}
use xcp_ng_ceph_rbd.Crush.Bucket.{
  perm_choose, list_choose_from, straw_choose_from, straw_choose, straw2_draw, straw2_choose_from,
  straw2_choose, weight_set_at, choose_arg_weights, choose_arg_ids, choose_by, bucket_choose, keep,
}
use xcp_ng_ceph_rbd.Crush.Bucket.Perm.{Fits, choice, choice-IsPermutation, perm_index-Answers}

-- The arrays of a bucket have an entry for each item. Tree buckets are left out: their weights
-- would have to be those of a tree, node by node.
abbrev pub ArraysFit : ℕ → Alg → Type 0
ArraysFit n (uniform item_weight) = Unit {0}
ArraysFit n (list item_weights sum_weights) = (length item_weights ≡ n) × (length sum_weights ≡ n)
ArraysFit n (tree num_nodes node_weights) = ⊥
ArraysFit n (straw item_weights straws) = length straws ≡ n
ArraysFit n (straw2 item_weights) = length item_weights ≡ n
ArraysFit n unknown = Unit {0}

-- The replacements of a choose argument have one for each item.
abbrev pub IdsFit : ℕ → Option (List ℤ) → Type 0
IdsFit n none = Unit {0}
IdsFit n (some ids) = length ids ≡ n

abbrev pub WeightsFit : ℕ → Option (List (List ℕ)) → Type 0
WeightsFit n none = Unit {0}
WeightsFit n (some ws) =
    (0 < length ws) × ((i : ℕ) (l : List ℕ) → get_elem? ws i ≡ some l → length l ≡ n)

abbrev pub ArgFits : ℕ → Option ChooseArg → Type 0
ArgFits n none = Unit {0}
ArgFits n (some arg) = IdsFit n arg.ids × WeightsFit n arg.weight_set

abbrev pub HasItem : Bucket → ℤ → Type 0
HasItem b item = (i : ℕ) × (get_elem? b.items i ≡ some item)

abbrev pub Finds : Bucket → Outcome ℤ → Type 0
Finds b r = (item : ℤ) × (r ≡ ok item) × HasItem b item

list_choose-Finds :
    (b : Bucket) (iw sw : List ℕ) (x r i : ℕ)
    → length iw ≡ size b
    → length sw ≡ size b
    → 0 < size b
    → i ≤ size b
    → Finds b (list_choose_from b iw sw x r i)
unfolding list_choose_from
list_choose-Finds b iw sw x r zero hi hs full le =
    let (item, e) = get_elem?-lt b.items 0 full in (item, rw e, (0, e))
list_choose-Finds b iw sw x r (suc i) hi hs full le =
    let (item, e) = get_elem?-lt b.items i (omega arith) in
    let (s, es) = get_elem?-lt sw i (omega arith) in
    let (w, ew) = get_elem?-lt iw i (omega arith) in
    rw (e, es, ew)
      (elim (Bool-cases (
        ltb (u64 (hash32_4 b.hash x (to_u32 item) (u32 r) (to_u32 b.id) % 2 ^ 16 * s) / 2 ^ 16)
          w)) [
            | inl t ↦ rw t (item, refl, (i, e))
            | inr t ↦ rw t (list_choose-Finds b iw sw x r i hi hs full (omega arith))
          ])

-- The best draw is that of an entry seen.
straw_choose-lt :
    (b : Bucket) (straws : List ℕ) (x r : ℕ) (rest : List ℤ) (i high high_draw : ℕ)
    → i + length rest ≤ length straws
    → (high < i) ⊎ ((i ≡ 0) × (0 < length rest))
    → (k : ℕ) × (straw_choose_from b straws x r rest i high high_draw ≡ ok k)
      × (k < i + length rest)
unfolding straw_choose_from
straw_choose-lt b straws x r [] i high high_draw h lt = (high, refl, omega arith)
straw_choose-lt b straws x r (item ∷ rest) i high high_draw h lt =
    let (s, e) = get_elem?-lt straws i (omega arith) in
    rw e
      (elim (Bool-cases
        (i == 0 || ltb high_draw (u64 (hash32_3 b.hash x (to_u32 item) (u32 r) % 2 ^ 16 * s)))) [
          | inl t ↦
              let (k, ek, lk) =
                straw_choose-lt b straws x r rest (i + 1) i _ (omega arith) (inl (omega arith)) in
              rw t (k, ek, omega arith)
          | inr t ↦
              let (k, ek, lk) =
                straw_choose-lt b straws x r rest (i + 1) high high_draw (omega arith)
                  (inl (ground arith)) in
              rw t (k, ek, omega arith)
        ])

straw2_choose-lt :
    (b : Bucket) (ws : List ℕ) (ids : List ℤ) (x r n i high : ℕ) (high_draw : ℤ)
    → i + n ≤ length ws
    → i + n ≤ length ids
    → (high < i) ⊎ ((i ≡ 0) × (0 < n))
    → (k : ℕ) × (straw2_choose_from b ws ids x r n i high high_draw ≡ ok k) × (k < i + n)
unfolding straw2_choose_from
straw2_choose-lt b ws ids x r zero i high high_draw h g lt = (high, refl, omega arith)
straw2_choose-lt b ws ids x r (suc n) i high high_draw h g lt =
    let (w, e) = get_elem?-lt ws i (omega arith) in
    let (id, e') = get_elem?-lt ids i (omega arith) in
    rw (e, e')
      (elim (Bool-cases (i == 0 || ltb_ℤ high_draw (straw2_draw b x r id w))) [
        | inl t ↦
            let (k, ek, lk) =
              straw2_choose-lt b ws ids x r n (i + 1) i _ (omega arith) (omega arith)
                (inl (omega arith)) in
            rw t (k, ek, omega arith)
        | inr t ↦
            let (k, ek, lk) =
              straw2_choose-lt b ws ids x r n (i + 1) high high_draw (omega arith) (omega arith)
                (inl (ground arith)) in
            rw t (k, ek, omega arith)
      ])

item_at : (b : Bucket) (k : ℕ) → k < size b → Finds b (must (get_elem? b.items k))
item_at b k h = let (item, e) = get_elem?-lt b.items k h in (item, rw e refl, (k, e))

straw_choose-Finds :
    (b : Bucket) (straws : List ℕ) (x r : ℕ)
    → length straws ≡ size b
    → 0 < size b
    → Finds b (straw_choose b straws x r)
unfolding straw_choose
straw_choose-Finds b straws x r h full =
    let (k, e, lt) = straw_choose-lt b straws x r b.items 0 0 0 (omega arith) (inr (refl, full)) in
    rw e (item_at b k (omega arith))

choose_arg_ids-length :
    (b : Bucket) (arg : Option ChooseArg)
    → ArgFits (size b) arg
    → length (choose_arg_ids b.items arg) ≡ size b
choose_arg_ids-length b none f = refl
choose_arg_ids-length b (some arg) f = go arg.ids f.0
  where
    go :
        (ids : Option (List ℤ))
        → IdsFit (size b) ids
        → length {A = ℤ} (elim ids [ none ↦ b.items | some l ↦ l ]) ≡ size b
    go none h = refl
    go (some l) h = h

weight_set_at-length :
    (b : Bucket) (iw : List ℕ) (o : Option (List (List ℕ))) (position : ℕ)
    → WeightsFit (size b) o
    → length iw ≡ size b
    → (ws : List ℕ) × (weight_set_at iw o position ≡ ok ws) × (length ws ≡ size b)
unfolding weight_set_at
weight_set_at-length b iw none position f h = (iw, refl, h)
weight_set_at-length b iw (some sets) position f h =
    let (ws, e) =
      get_elem?-lt sets (if leb (length sets) position then length sets - 1 else position)
        (ground (arith, f.0)) in
    (ws, rw e refl, f.1 _ ws e)

choose_arg_weights-length :
    (b : Bucket) (iw : List ℕ) (arg : Option ChooseArg) (position : ℕ)
    → ArgFits (size b) arg
    → length iw ≡ size b
    → (ws : List ℕ) × (choose_arg_weights iw arg position ≡ ok ws) × (length ws ≡ size b)
unfolding choose_arg_weights
choose_arg_weights-length b iw none position f h = (iw, refl, h)
choose_arg_weights-length b iw (some arg) position f h =
    weight_set_at-length b iw arg.weight_set position f.1 h

straw2_choose-Finds :
    (b : Bucket) (iw : List ℕ) (x r : ℕ) (arg : Option ChooseArg) (position : ℕ)
    → ArgFits (size b) arg
    → length iw ≡ size b
    → 0 < size b
    → Finds b (straw2_choose b iw x r arg position)
unfolding straw2_choose
straw2_choose-Finds b iw x r arg position f h full =
    let (ws, ew, lw) = choose_arg_weights-length b iw arg position f h in
    let ids = choose_arg_ids-length b arg f in
    let (k, e, lt) =
      straw2_choose-lt b ws (choose_arg_ids b.items arg) x r (size b) 0 0 (pos 0) (omega arith)
        (omega arith) (inr (refl, full)) in
    rw (ew, e) (item_at b k (omega arith))

-- An item of the bucket, and a working state that is still fit.
abbrev pub Chooses : Bucket → Outcome (ℤ × WorkBucket) → Type 0
Chooses b r = (item : ℤ) × (w : WorkBucket) × (r ≡ ok (item, w)) × HasItem b item × Fits b w

pub perm_choose-Chooses :
    (b : Bucket) (w : WorkBucket) (x r : ℕ)
    → 0 < size b
    → Fits b w
    → Chooses b (perm_choose b w x r)
unfolding perm_choose
perm_choose-Chooses b w x r full f =
    let (w', e, f', same) = perm_index-Answers b w x r full f in
    let (item, ei) =
      get_elem?-lt b.items (choice b x (u32 r % size b))
        ((choice-IsPermutation b x).0 (u32 r % size b) (mod-lt (u32 r) full)) in
    (item, w', rw (e, ei) refl, (choice b x (u32 r % size b), ei), f')

keeps :
    (b : Bucket) (w : WorkBucket) (r : Outcome ℤ) → Fits b w → Finds b r → Chooses b (r >>= keep w)
keeps b w r f (item, e, h) = (item, w, rw e refl, h, f)

choose_by-Chooses :
    (alg : Alg) (b : Bucket) (w : WorkBucket) (x r : ℕ) (arg : Option ChooseArg) (position : ℕ)
    → 0 < size b
    → ArraysFit (size b) alg
    → ArgFits (size b) arg
    → Fits b w
    → Chooses b (choose_by alg b w x r arg position)
unfolding choose_by
choose_by-Chooses (uniform iw) b w x r arg position full a g f = perm_choose-Chooses b w x r full f
choose_by-Chooses (list iw sw) b w x r arg position full a g f =
    keeps b w _ f (list_choose-Finds b iw sw x r (size b) a.0 a.1 full (omega arith))
choose_by-Chooses (tree nn nw) b w x r arg position full a g f = absurd a
choose_by-Chooses (straw iw straws) b w x r arg position full a g f =
    keeps b w _ f (straw_choose-Finds b straws x r a full)
choose_by-Chooses (straw2 iw) b w x r arg position full a g f =
    keeps b w _ f (straw2_choose-Finds b iw x r arg position g a full)
choose_by-Chooses unknown b w x r arg position full a g f = keeps b w _ f (item_at b 0 full)

-- In a bucket that is not empty and no tree bucket, with an array entry for each item, choose
-- arguments that fit and a working state that fits, `crush_bucket_choose` reads no array out of
-- bounds, answers with an item of the bucket, and leaves a working state that fits.
pub bucket_choose-Chooses :
    (b : Bucket) (w : WorkBucket) (x r : ℕ) (arg : Option ChooseArg) (position : ℕ)
    → 0 < size b
    → ArraysFit (size b) b.alg
    → ArgFits (size b) arg
    → Fits b w
    → Chooses b (bucket_choose b w x r arg position)
unfolding bucket_choose
bucket_choose-Chooses b w x r arg position full a g f =
    choose_by-Chooses b.alg b w x r arg position full a g f
