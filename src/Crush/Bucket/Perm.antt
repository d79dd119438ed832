-- ===== src/Crush/Bucket/Perm.antt =====
-- `bucket_perm_choose` keeps its permutation between calls, and answers as if it did not.
use xcp_ng_ceph_rbd.Base.{get_or-set_self}
use mathlib.Core.Path.{subst}
use xcp_ng_ceph_rbd.Base.{false}
use native.Mathlib.Nat.{zero-add}
use xcp_ng_ceph_rbd.Crush.Bucket.Shuffle.{
  get_or-swapped, get_or-iota, shuffled_zero, length-iota, swapped,
}
use native.Mathlib.Numerals.{add-one}
use xcp_ng_ceph_rbd.Base.{
  ℕ, zero, suc, ◌+◌, ◌-◌, ◌%◌, ◌^◌, ◌≤◌, ◌<◌, ◌≡◌, ◌≢◌, ◌⊎◌, inl, inr, refl, sym, ap, ◌∙◌, ◌&&◌,
  ◌||◌, not, List, [], ◌∷◌, ◌++◌, some, length, get_elem?, get_or, set, length-set, length-append,
  u32, ltb, ◌==◌, if◌then◌else◌, to_u32, arith, Bool-cases, ==_iff,
}
use native.Mathlib.Decide.{ℕ_discrete}
use native.Mathlib.Nat.{mod-lt, mod-eq_of_lt, sub-zero}
use mathlib.Core.List.{append_assoc}
use xcp_ng_ceph_rbd.Crush.Outcome.{Outcome, ok, ◌>>=◌}
use xcp_ng_ceph_rbd.Crush.Hash.{hash32_3}
use xcp_ng_ceph_rbd.Crush.Map.{Bucket, size, WorkBucket}
use xcp_ng_ceph_rbd.Crush.Bucket.{
  identity_from, magic, perm_continue, perm_shortcut, perm_cleanup, perm_index,
}
use xcp_ng_ceph_rbd.Crush.Bucket.Shuffle.{
  iota, draw, shuffled, length-shuffled, shuffled-suc, perm_extend_lem, shuffled_stable,
  IsPermutation, shuffled-IsPermutation, get_elem?-get_or, draw-lt,
}

-- The entry that replica position `pr` gets for input `x`.
pub choice : Bucket → ℕ → ℕ → ℕ
choice b x pr = get_or (shuffled b x (suc pr)) pr 0

-- The choices for one input make up a permutation of the bucket's entries.
pub choice-IsPermutation :
    (b : Bucket) (x : ℕ)
    → ((p : ℕ) → p < size b → choice b x p < size b)
      × ((p q : ℕ) → p < size b → q < size b → choice b x p ≡ choice b x q → p ≡ q)
unfolding choice
choice-IsPermutation b x = (
  λ p hp. rw (← final p hp) (whole.0 p hp),
  λ p q hp hq e. whole.1 p q hp hq (final p hp ∙ e ∙ sym (final q hq)),
)
  where
    whole : IsPermutation (size b) (shuffled b x (size b))
    whole = shuffled-IsPermutation b x (size b) (omega arith)

    final :
        (p : ℕ)
        → p < size b
        → get_or (shuffled b x (size b)) p 0 ≡ get_or (shuffled b x (suc p)) p 0
    final p hp =
        let e : size b - suc p + suc p ≡ size b = omega arith in
        rw e at (shuffled_stable b x (size b - suc p) (suc p) p (omega arith) (omega arith))

set-append :
    (pre l : List ℕ) (y v i : ℕ) → length pre ≡ i → set (pre ++ (y ∷ l)) i v ≡ pre ++ (v ∷ l)
set-append [] l y v zero h = refl
set-append [] l y v (suc i) h = absurd (omega arith)
set-append (z ∷ pre) l y v zero h = absurd (omega arith)
set-append (z ∷ pre) l y v (suc i) h = ap (λ t. z ∷ t) (set-append pre l y v i (omega arith))

identity_from-suc :
    (n i : ℕ) (l : List ℕ) → identity_from (suc n) i l ≡ identity_from n (i + 1) (set l i i)
unfolding identity_from
identity_from-suc n i l = refl

identity_from-append :
    (l pre : List ℕ) (i : ℕ)
    → length pre ≡ i
    → identity_from (length l) i (pre ++ l) ≡ pre ++ iota (length l) i
identity_from-append [] pre i h = unfold identity_from in refl
identity_from-append (y ∷ l) pre i h =
    rw
      (
        identity_from-suc (length l) i (pre ++ (y ∷ l)),
        set-append pre l y i i h,
        add-one,
        ← append_assoc pre (i ∷ []) l,
        ← append_assoc pre (i ∷ []) (iota (length l) (suc i)),
      )
      (identity_from-append l (pre ++ (i ∷ [])) (suc i) (omega (arith, length-append pre (i ∷ []))))

-- What holds of the working state of a bucket between two calls.
pub record Fits (b : Bucket) (w : WorkBucket) : Type 0 where
  pub whole : length w.perm ≡ size b
  pub part :
      (w.perm_n ≡ 0)
      ⊎ ((w.perm_n ≡ magic) × (get_or w.perm 0 0 ≡ choice b w.perm_x 0))
      ⊎ ((w.perm_n ≤ size b) × (w.perm ≡ shuffled b w.perm_x w.perm_n))

abbrev pub Answers : Bucket → ℕ → ℕ → Outcome (ℕ × WorkBucket) → Type 0
Answers b x pr r = (w : WorkBucket) × (r ≡ ok (choice b x pr, w)) × Fits b w × (w.perm_x ≡ x)

-- From a permutation that is right up to `perm_n`.
perm_continue_lem :
    (b : Bucket) (x pr n : ℕ)
    → pr < size b
    → n ≤ size b
    → perm_continue b x pr (record { perm_x = x; perm_n = n; perm = shuffled b x n })
      ≡ ok (
        choice b x pr,
        record { perm_x = x; perm_n = n + (pr + 1 - n); perm = shuffled b x (n + (pr + 1 - n)) },
      )
unfolding perm_continue choice
perm_continue_lem b x pr n hp hn = rw (
  perm_extend_lem (pr + 1 - n) b x n (omega arith),
  get_elem?-get_or (shuffled b x (n + (pr + 1 - n))) pr
      (omega (arith, length-shuffled b x (n + (pr + 1 - n)))),
  entry,
)
  where
    more : n + (pr + 1 - n) - suc pr + suc pr ≡ n + (pr + 1 - n)
    more = omega arith

    entry : get_or (shuffled b x (n + (pr + 1 - n))) pr 0 ≡ get_or (shuffled b x (suc pr)) pr 0
    entry =
        rw more at
          (shuffled_stable b x (n + (pr + 1 - n) - suc pr) (suc pr) pr (omega arith) (omega arith))

-- From a permutation that is right up to `perm_n`.
perm_continue-Answers :
    (b : Bucket) (x pr : ℕ) (w : WorkBucket)
    → pr < size b
    → w.perm_x ≡ x
    → w.perm_n ≤ size b
    → w.perm ≡ shuffled b x w.perm_n
    → Answers b x pr (perm_continue b x pr w)
perm_continue-Answers b x pr w hp ex hn e = (
  record {
    perm_x = x;
    perm_n = w.perm_n + (pr + 1 - w.perm_n);
    perm = shuffled b x (w.perm_n + (pr + 1 - w.perm_n));
  },
  ap (perm_continue b x pr) same ∙ perm_continue_lem b x pr w.perm_n hp hn,
  record { whole = length-shuffled b x _; part = inr (inr (omega arith, refl)) },
  refl,
)
  where
    same : w ≡ record { perm_x = x; perm_n = w.perm_n; perm = shuffled b x w.perm_n }
    same = λ i. record { perm_x = ex i; perm_n = w.perm_n; perm = e i }

choice_zero : (b : Bucket) (x : ℕ) → 0 < size b → choice b x 0 ≡ draw b x 0
unfolding choice
choice_zero b x h =
    rw (shuffled-suc, shuffled_zero)
      (ground (
        arith,
        draw-lt b x 0 h,
        length-iota (size b) 0,
        get_or-swapped (iota (size b) 0) 0 (0 + draw b x 0) 0
            (omega (arith, length-iota (size b) 0))
            (omega (arith, draw-lt b x 0 h, length-iota (size b) 0)),
        get_or-iota (size b) 0 0 h,
        get_or-iota (size b) 0 (0 + draw b x 0) (draw-lt b x 0 h),
      ))

-- The list after the clean-up, for a first entry `d`.
identity_rest :
    (m y : ℕ) (l : List ℕ) → length l ≡ m → identity_from (suc m - 1) 1 (y ∷ l) ≡ y ∷ iota m 1
identity_rest m y l h =
    let e : suc m - 1 ≡ length l = omega arith in
    rw e (identity_from-append l (y ∷ []) 1 refl ∙ ap (λ k. y ∷ iota k 1) h)

cleaned :
    (m d y : ℕ) (l : List ℕ)
    → length l ≡ m
    → d < suc m
    → y ≡ d
    → set (y ∷ iota m 1) d 0 ≡ (
        if ltb 0 (suc m - 1) && not (d == 0)
        then swapped (iota (suc m) 0) 0 (0 + d)
        else iota (suc m) 0)
cleaned m zero y l h hd e = ground arith
cleaned m (suc k) y l h hd e = rw zero-add (ground (arith, get_or-iota m 1 k (omega arith)))

cleanup_list :
    (n d : ℕ) (perm : List ℕ)
    → length perm ≡ n
    → d < n
    → get_or perm 0 0 ≡ d
    → (get_elem? (identity_from (n - 1) 1 perm) 0 ≡ some d)
      × (set (identity_from (n - 1) 1 perm) d 0
          ≡ (if ltb 0 (n - 1) && not (d == 0) then swapped (iota n 0) 0 (0 + d) else iota n 0))
cleanup_list zero d perm h hd e = absurd (omega arith)
cleanup_list (suc m) d [] h hd e = absurd (omega arith)
cleanup_list (suc m) d (y ∷ l) h hd e =
    let rest : length l ≡ m = omega arith in
    rw (identity_rest m y l rest) (ap some e, cleaned m d y l rest hd e)

perm_cleanup_lem :
    (b : Bucket) (w : WorkBucket)
    → 0 < size b
    → length w.perm ≡ size b
    → get_or w.perm 0 0 ≡ choice b w.perm_x 0
    → perm_cleanup b w ≡ ok (record w { perm_n = 1; perm = shuffled b w.perm_x 1 })
unfolding perm_cleanup
perm_cleanup_lem b w pos h e =
    let (first, list) =
      cleanup_list (size b) (draw b w.perm_x 0) w.perm h (omega (arith, draw-lt b w.perm_x 0 pos))
        (e ∙ choice_zero b w.perm_x pos) in
    rw (first, list, shuffled-suc, shuffled_zero)

identity_whole : (n : ℕ) (l : List ℕ) → length l ≡ n → identity_from n 0 l ≡ iota n 0
identity_whole n l h = rw (← h) (identity_from-append l [] 0 refl)

-- A state that is started anew.
perm_shortcut-Answers :
    (b : Bucket) (x : ℕ) (w : WorkBucket)
    → 0 < size b
    → length w.perm ≡ size b
    → Answers b x 0 (perm_shortcut b x w)
unfolding perm_shortcut
perm_shortcut-Answers b x w pos h = (
  record { perm_x = x; perm_n = magic; perm = set w.perm 0 s },
  ap (λ (c : ℕ). ok (c, record { perm_x = x; perm_n = magic; perm = set w.perm 0 s })) s-choice,
  record {
    whole = length-set w.perm 0 s ∙ h;
    part = inr (inl (refl, get_or-set_self w.perm 0 s 0 (omega arith) ∙ s-choice));
  },
  refl,
)
  where
    s : ℕ
    s = hash32_3 b.hash x (to_u32 b.id) 0 % size b

    s-choice : s ≡ choice b x 0
    s-choice = sym (choice_zero b x pos ∙ rw sub-zero refl)

perm_fresh-Answers :
    (b : Bucket) (x pr : ℕ) (w : WorkBucket)
    → pr < size b
    → length w.perm ≡ size b
    → Answers b x pr (
        if pr == 0
        then perm_shortcut b x w
        else perm_continue b x pr
            (record { perm_x = x; perm_n = 0; perm = identity_from (size b) 0 w.perm }))
perm_fresh-Answers b x pr w hp h = elim (ℕ_discrete pr 0) [
  | yes z ↦ rw z (perm_shortcut-Answers b x w (omega arith) h)
  | no n ↦
      let test : (pr == 0) ≡ false = ground arith in
      rw test (
        perm_continue-Answers b x pr _ hp refl (omega arith)
          (identity_whole (size b) w.perm h ∙ sym (shuffled_zero b x)))
]

-- At the magic count the first entry is right, by the shortcut or by a full shuffle.
magic_first :
    (b : Bucket) (w : WorkBucket)
    → Fits b w
    → w.perm_n ≡ magic
    → get_or w.perm 0 0 ≡ choice b w.perm_x 0
unfolding choice
magic_first b w f m = elim f.part [
  | inl z ↦ absurd (omega arith)
  | inr (inl (_, e)) ↦ e
  | inr (inr (le, e)) ↦
      ap (λ (l : List ℕ). get_or l 0 0) e
      ∙ rw steps at (shuffled_stable b w.perm_x (w.perm_n - 1) 1 0 (omega arith) (omega arith))
]
  where
    steps : w.perm_n - 1 + 1 ≡ w.perm_n
    steps = omega arith

usable :
    (b : Bucket) (w : WorkBucket)
    → Fits b w
    → w.perm_n ≢ 0
    → w.perm_n ≢ magic
    → (w.perm_n ≤ size b) × (w.perm ≡ shuffled b w.perm_x w.perm_n)
usable b w f nz nm = elim f.part [
  | inl z ↦ absurd (nz z)
  | inr (inl (m, e)) ↦ absurd (nm m)
  | inr (inr h) ↦ h
]

perm_restart-Answers :
    (b : Bucket) (w : WorkBucket) (pr : ℕ)
    → pr < size b
    → Fits b w
    → w.perm_n ≡ magic
    → Answers b w.perm_x pr (perm_cleanup b w >>= λ w'. perm_continue b w.perm_x pr w')
perm_restart-Answers b w pr hp f m =
    rw (perm_cleanup_lem b w (omega arith) f.whole (magic_first b w f m)) (
      perm_continue-Answers b w.perm_x pr (record w { perm_n = 1; perm = shuffled b w.perm_x 1 }) hp
        refl (omega arith) refl)

-- In a bucket that is not empty, from any working state that fits it, `bucket_perm_choose` answers
-- for `x` and `r` with the entry at `r` modulo the size of the shuffle that `x` determines, whatever
-- calls came before, and leaves a working state for `x` that fits the bucket.
pub perm_index-Answers :
    (b : Bucket) (w : WorkBucket) (x r : ℕ)
    → 0 < size b
    → Fits b w
    → Answers b x (u32 r % size b) (perm_index b w x r)
unfolding perm_index
perm_index-Answers b w x r pos f = elim (Bool-cases (not (w.perm_x == x) || w.perm_n == 0)) [
  | inl t ↦ rw t (perm_fresh-Answers b x pr w hp f.whole)
  | inr t ↦
      let same : w.perm_x ≡ x = ground arith in
      let nz : w.perm_n ≢ 0 = ground arith in
      elim (Bool-cases (w.perm_n == magic)) [
        | inl u ↦
            rw (t, u)
              (subst
                (λ (y : ℕ). Answers b y pr (perm_cleanup b w >>= λ w'. perm_continue b y pr w'))
                same (perm_restart-Answers b w pr hp f ((==_iff _ _).0 u)))
        | inr u ↦
            let fit = usable b w f nz (λ m. ground arith) in
            rw (t, u)
              (perm_continue-Answers b x pr w hp same fit.0
                (fit.1 ∙ ap (λ (y : ℕ). shuffled b y w.perm_n) same))
      ]
]
  where
    pr : ℕ
    pr = u32 r % size b

    hp : pr < size b
    hp = mod-lt (u32 r) pos

-- In a bucket of fewer than 2^32 items, two replica positions below its size get different entries
-- for one input, whatever calls of `bucket_perm_choose` came before each of the two.
pub perm_index-injective :
    (b : Bucket) (w w' : WorkBucket) (x r r' s s' : ℕ) (v v' : WorkBucket)
    → size b < 2 ^ 32
    → r < size b
    → r' < size b
    → Fits b w
    → Fits b w'
    → r ≢ r'
    → perm_index b w x r ≡ ok (s, v)
    → perm_index b w' x r' ≡ ok (s', v')
    → s ≢ s'
perm_index-injective b w w' x r r' s s' v v' small hr hr' f f' apart e e' same = apart (
    (choice-IsPermutation b x).1 r r' hr hr'
      (chosen r hr w s v f e ∙ same ∙ sym (chosen r' hr' w' s' v' f' e')))
  where
    chosen :
        (q : ℕ)
        → q < size b
        → (u : WorkBucket) (t : ℕ) (z : WorkBucket) → Fits b u
        → perm_index b u x q ≡ ok (t, z)
        → choice b x q ≡ t
    chosen q hq u t z fu eq =
        let here : u32 q % size b ≡ q =
          rw (mod-eq_of_lt {n = q} {m = 2 ^ 32} (omega arith))
            (mod-eq_of_lt {n = q} {m = size b} hq) in
        let answer = perm_index-Answers b u x q (omega arith) fu in
        let whole : choice b x (u32 q % size b) ≡ t = cc (answer.1) in rw here at whole
