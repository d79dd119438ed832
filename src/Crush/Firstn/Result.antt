-- ===== src/Crush/Firstn/Result.antt =====
-- crush_choose_firstn returns, and what it returns.
use xcp_ng_ceph_rbd.Base.{
  ℕ, zero, suc, ◌+◌, ◌-◌, ◌≤◌, ◌≡◌, ◌≢◌, ◌⊎◌, inl, inr, refl, ap, sym, ◌∙◌, false, List, [], ◌∷◌,
  ◌++◌, Option, some, length, get_elem?, length-append, min, ◌==◌, if◌then◌else◌, ℤ, arith,
}
use xcp_ng_ceph_rbd.Crush.Outcome.{Outcome, ok, stuck}
use xcp_ng_ceph_rbd.Crush.Map.{Bucket, CrushMap, Work}
use xcp_ng_ceph_rbd.Crush.Fits.{IsBucket, MapFits, WorkFits, ArgsFit}
use xcp_ng_ceph_rbd.Crush.Firstn.{
  Args, Leaf, Search, Progress, again, skip, got, search_loop, keep_leaf, reps, choose_from,
  no_below, leaf_args, leaf_below, choose_firstn,
}
use xcp_ng_ceph_rbd.Crush.Firstn.Ends.{Chosen, local_bound, enough, start-lt, Within, Reached}
use xcp_ng_ceph_rbd.Crush.Firstn.Step.{LeafReturns, search_step-Goes}

-- A vector of items that were asked for, each but once.
pub record Good (m : CrushMap) (a : Args) (out : List ℤ) : Type 0 where
  pub chosen : (i : ℕ) (item : ℤ) → get_elem? out i ≡ some item → Chosen m a item
  pub distinct :
      (i j : ℕ) (item : ℤ) → get_elem? out i ≡ some item → get_elem? out j ≡ some item → i ≡ j

-- An entry of a vector with one more item is an old one, or that item.
get_elem?-snoc :
    (out : List ℤ) (x : ℤ) (i : ℕ) (y : ℤ)
    → get_elem? (out ++ (x ∷ [])) i ≡ some y
    → (get_elem? out i ≡ some y) ⊎ ((i ≡ length out) × (x ≡ y))
get_elem?-snoc [] x zero y e = inr (refl, cc)
get_elem?-snoc [] x (suc i) y e = absurd cc
get_elem?-snoc (z ∷ out) x zero y e = inl e
get_elem?-snoc (z ∷ out) x (suc i) y e = elim (get_elem?-snoc out x i y e) [
  | inl old ↦ inl old
  | inr (at, same) ↦ inr (ap suc at, same)
]

Good-snoc :
    (m : CrushMap) (a : Args) (out : List ℤ) (item : ℤ)
    → Good m a out
    → Chosen m a item
    → ((o : ℕ) → get_elem? out o ≢ some item)
    → Good m a (out ++ (item ∷ []))
Good-snoc m a out item good c fresh = record {
  chosen = λ i y e. elim (get_elem?-snoc out item i y e) [
    | inl old ↦ good.chosen i y old
    | inr (at, same) ↦ rw (← same) c
  ];
  distinct = λ i j y e f. elim (get_elem?-snoc out item i y e) [
    | inl old ↦ elim (get_elem?-snoc out item j y f) [
      | inl old' ↦ good.distinct i j y old old'
      | inr (at, same) ↦ absurd (fresh i (old ∙ ap some (sym same)))
    ]
    | inr (at, same) ↦ elim (get_elem?-snoc out item j y f) [
      | inl old' ↦ absurd (fresh j (old' ∙ ap some (sym same)))
      | inr (at', same') ↦ at ∙ sym at'
    ]
  ];
}

module _ {m : CrushMap} {rank : ℕ → ℕ} {depth width : ℕ} (fits : MapFits m rank depth width)
    (a : Args) (below : Leaf) (leaves : (a.recurse_to_leaf ≡ false) ⊎ LeafReturns m below)
    (args : ArgsFit m a.choose_args) (n0 : ℕ) (bucket : Bucket) (e0 : IsBucket m n0 bucket) where
  -- The loop ends with the search over.
  abbrev Over : List ℤ → Progress → Type 0
  Over out (again s) = ⊥
  Over out (skip w) = Reached fits a 0 out (skip w)
  Over out (got item l w) = Reached fits a 0 out (got item l w)

  search_loop-Over :
      (fuel rep : ℕ) (out out2 : List ℤ) (count : ℕ) (s : Search)
      → Within fits a fuel s
      → (p : Progress) × (search_loop m a below bucket fuel rep out out2 count s ≡ ok p)
        × Over out p
  unfolding search_loop
  search_loop-Over zero rep out out2 count s inside = absurd (omega (arith, inside.3))
  search_loop-Over (suc fuel) rep out out2 count s inside =
      let (p, eq, reached) =
        search_step-Goes fits a below leaves fuel n0 bucket rep out out2 count s args e0 inside in
      rw (eq, search_loop)
        (onward (λ s' h. search_loop-Over fuel rep out out2 count s' h) p reached)
    where
      onward :
          ((s' : Search)
            → Within fits a fuel s'
            → (q : Progress) × (search_loop m a below bucket fuel rep out out2 count s' ≡ ok q)
              × Over out q)
          → (p : Progress) → Reached fits a fuel out p
          → (q : Progress) × (elim p [
            | again s' ↦ search_loop m a below bucket fuel rep out out2 count s'
            | skip w ↦ ok (skip w)
            | got item l w ↦ ok (got item l w)
          ]
              ≡ ok q)
            × Over out q
      onward next (again s') reached = next s' reached
      onward next (skip w) reached = (skip w, refl, reached)
      onward next (got item l w) reached = (got item l w, refl, reached)

  -- What the loop over the replicas makes of `out`.
  abbrev Fills : (room : ℕ) → List ℤ → Outcome (List ℤ × List ℤ × Work) → Type 0
  Fills room out r =
      (out' : List ℤ) × (out2' : List ℤ) × (w' : Work) × (r ≡ ok (out', out2', w'))
      × (Good m a out → Good m a out')
      × (length out' ≤ length out + room)
      × WorkFits m w'

  abbrev fresh_search : Work → Search
  fresh_search w = record { cursor = bucket; ftotal = 0; flocal = 0; work = w }

  fresh_search-Within :
      (fuel : ℕ) (w : Work)
      → enough a depth width ≤ fuel
      → WorkFits m w
      → Within fits a fuel (fresh_search w)
  fresh_search-Within fuel w h works = (
    n0,
    e0,
    works,
    omega (arith, start-lt a.tries (local_bound a width) (rank n0) depth (fits.ranks n0)),
  )

  reps-Fills :
      (fuel n rep : ℕ) (out out2 : List ℤ) (count : ℕ) (w : Work)
      → enough a depth width ≤ fuel
      → WorkFits m w
      → Fills (min n count) out (reps m a below bucket fuel n rep out out2 count w)
  unfolding reps
  reps-Fills fuel zero rep out out2 count w h works =
      (out, out2, w, refl, λ g. g, omega arith, works)
  reps-Fills fuel (suc n) rep out out2 zero w h works =
      (out, out2, w, refl, λ g. g, omega arith, works)
  reps-Fills fuel (suc n) rep out out2 (suc count) w h works =
      let (p, eq, over) =
        search_loop-Over fuel rep out out2 (suc count) (fresh_search w)
          (fresh_search-Within fuel w h works) in
      rw (eq, reps)
        (onward (λ w' ok'. reps-Fills fuel n (rep + 1) out out2 (suc count) w' h ok')
          (λ item l w' ok'.
            reps-Fills fuel n (rep + 1) (out ++ (item ∷ [])) (keep_leaf out2 l) count w' h ok')
          p over)
    where
      onward :
          ((w' : Work)
            → WorkFits m w'
            → Fills
                (min n (suc count))
                out
                (reps m a below bucket fuel n (rep + 1) out out2 (suc count) w'))
          → ((item : ℤ) (l : Option ℤ) (w' : Work)
              → WorkFits m w'
              → Fills (min n count) (out ++ (item ∷ [])) (
                  reps m a below bucket fuel n
                    (rep + 1)
                    (out ++ (item ∷ []))
                    (keep_leaf out2 l)
                    count
                    w'))
          → (p : Progress) → Over out p
          → Fills (min (suc n) (suc count)) out (elim p as (λ _. Outcome (List ℤ × List ℤ × Work)) [
            | again s ↦ stuck
            | skip w' ↦ reps m a below bucket fuel n (rep + 1) out out2 (suc count) w'
            | got item l w' ↦
                reps m a below bucket fuel n
                  (rep + 1)
                  (out ++ (item ∷ []))
                  (keep_leaf out2 l)
                  count
                  w'
          ])
      onward skipped placed (again s) over = absurd over
      onward skipped placed (skip w') over =
          let (o, o2, v, e, good, len, ws) = skipped w' over in (o, o2, v, e, good, omega arith, ws)
      onward skipped placed (got item l w') over =
          let (o, o2, v, e, good, len, ws) = placed item l w' over.0 in
          (
            o,
            o2,
            v,
            e,
            λ g. good (Good-snoc m a out item g over.1 over.2),
            omega (arith, length-append out (item ∷ [])),
            ws,
          )

  pub choose_from-Fills :
      (fuel numrep : ℕ) (out out2 : List ℤ) (count : ℕ) (w : Work)
      → enough a depth width ≤ fuel
      → WorkFits m w
      → Fills
          (min (numrep - (if a.stable == 0 then length out else 0)) count)
          out
          (choose_from m a below bucket fuel numrep out out2 count w)
  unfolding choose_from
  choose_from-Fills fuel numrep out out2 count w h works =
      reps-Fills fuel (numrep - (if a.stable == 0 then length out else 0))
        (if a.stable == 0 then length out else 0) out out2 count w h works

-- The recursive call of a placement returns.
leaf_below-returns :
    {m : CrushMap} {rank : ℕ → ℕ} {depth width : ℕ}
    → MapFits m rank depth width
    → (a : Args) → ArgsFit m a.choose_args
    → (fuel : ℕ) → enough (leaf_args a 0) depth width ≤ fuel
    → LeafReturns m (leaf_below m a fuel)
unfolding leaf_below
leaf_below-returns {m} fits a args fuel h n b sub_r out2 count w e works =
    let numrep = if a.stable == 0 then length out2 + 1 else 1 in
    let (o, o2, v, eq, good, len, ws) =
      choose_from-Fills fits (leaf_args a sub_r) no_below (inl refl) args n b e fuel numrep out2 []
        count w h works in
    (o, v, rw eq, ws)

-- In a well-formed map without tree buckets, whose longest way down is `depth` and whose buckets have at most `width`
-- items, with choose arguments and a working state that fit, and enough fuel for the searches of both
-- levels, crush_choose_firstn returns. Its items have the type that was asked for, none stands twice,
-- none is out where devices were asked for, there are at most `numrep` and at most `out_size` of
-- them, and the working state fits.
pub choose_firstn-Good :
    {m : CrushMap} {rank : ℕ → ℕ} {depth width : ℕ} (a : Args) (n : ℕ) (bucket : Bucket)
    (fuel numrep out_size : ℕ) (w : Work)
    → MapFits m rank depth width
    → ArgsFit m a.choose_args
    → IsBucket m n bucket
    → WorkFits m w
    → enough a depth width ≤ fuel
    → enough (leaf_args a 0) depth width ≤ fuel
    → (out : List ℤ) × (out2 : List ℤ) × (w' : Work) × (choose_firstn m a bucket fuel numrep
          out_size w
        ≡ ok (out, out2, w'))
      × Good m a out
      × (length out ≤ numrep)
      × (length out ≤ out_size)
      × WorkFits m w'
unfolding choose_firstn
choose_firstn-Good {m} a n bucket fuel numrep out_size w fits args e works h hl =
    let returns = leaf_below-returns fits a args fuel hl in
    let (o, o2, v, eq, good, len, ws) =
      choose_from-Fills fits a (leaf_below m a fuel) (inr returns) args n bucket e fuel numrep [] []
        out_size w h works in
    (o, o2, v, eq, good nothing_yet, ground arith, ground arith, ws)
  where
    nothing_yet : Good m a []
    nothing_yet = record { chosen = λ i y z. absurd cc; distinct = λ i j y z z'. absurd cc }
