-- ===== src/Crush/Map/FindRule.antt =====
-- crush_find_rule finds the first rule that fits, if there is one.
use xcp_ng_ceph_rbd.Base.{
  ℕ, zero, suc, ◌+◌, ◌<◌, ◌≤◌, ◌↔◌, none, ◌≡◌, ◌⊎◌, inl, inr, refl, ap, ◌∙◌, true, false, List, [],
  ◌∷◌, Option, some, get_elem?, ℤ, pos, negsuc, arith, Bool-cases,
}
use mathlib.Core.Path.{subst}
use xcp_ng_ceph_rbd.Crush.Map.{Rule, CrushMap, rule_fits, find_rule_from, find_rule}

-- A slot with a rule that has the rule set and the type, and a range of sizes that holds `sz`.
abbrev pub Matches : Option Rule → ℕ → ℕ → ℕ → Type 0
Matches none rule_set type sz = ⊥
Matches (some r) rule_set type sz =
    (r.rule_set ≡ rule_set) × ((r.type ≡ type) × ((r.min_size ≤ sz) × (sz ≤ r.max_size)))

rule_fits_iff :
    (slot : Option Rule) (rule_set type sz : ℕ)
    → (rule_fits slot rule_set type sz ≡ true) ↔ Matches slot rule_set type sz
rule_fits_iff none rule_set type sz = (λ e. cc, λ m. absurd m)
rule_fits_iff (some r) rule_set type sz = ground arith

-- Slot `j` of the rules holds one that matches.
abbrev pub FitsAt : List (Option Rule) → ℕ → ℕ → ℕ → ℕ → Type 0
FitsAt rs rule_set type sz j =
    (slot : Option Rule) × (get_elem? rs j ≡ some slot) × Matches slot rule_set type sz

-- `r` is the first slot that fits, counted from `i`, or -1 if none does.
abbrev pub FirstFit : List (Option Rule) → ℕ → ℕ → ℕ → ℕ → ℤ → Type 0
FirstFit rs i rule_set type sz r =
    ((k : ℕ) × (r ≡ pos (i + k))
      × FitsAt rs rule_set type sz k
      × ((j : ℕ) → j < k → ¬ FitsAt rs rule_set type sz j))
    ⊎ ((r ≡ negsuc 0) × ((j : ℕ) → ¬ FitsAt rs rule_set type sz j))

-- A slot that does not fit is passed.
module _ (r : Option Rule) (rs : List (Option Rule)) (rule_set type sz : ℕ)
    (unfit : rule_fits r rule_set type sz ≡ false) where
  none_here : ¬ FitsAt (r ∷ rs) rule_set type sz 0
  none_here (slot, e, f) =
      let same : slot ≡ r = cc in
      let fit : rule_fits r rule_set type sz ≡ true =
        (rule_fits_iff r rule_set type sz).1 (subst (λ z. Matches z rule_set type sz) same f) in
      absurd (ground arith)

  none_before :
      (k : ℕ)
      → ((j : ℕ) → j < k → ¬ FitsAt rs rule_set type sz j)
      → (j : ℕ) → j < suc k
      → ¬ FitsAt (r ∷ rs) rule_set type sz j
  none_before k h zero lt fit = none_here fit
  none_before k h (suc j) lt fit = h j (omega arith) fit

  none_at_all :
      ((j : ℕ) → ¬ FitsAt rs rule_set type sz j) → (j : ℕ) → ¬ FitsAt (r ∷ rs) rule_set type sz j
  none_at_all h zero fit = none_here fit
  none_at_all h (suc j) fit = h j fit

  later :
      (i : ℕ) (v : ℤ)
      → FirstFit rs (i + 1) rule_set type sz v
      → FirstFit (r ∷ rs) i rule_set type sz v
  later i v (inl (k, e, fit, first)) =
      inl (suc k, e ∙ ap pos (omega arith), fit, none_before k first)
  later i v (inr (e, h)) = inr (e, none_at_all h)

find_rule_from-FirstFit :
    (rs : List (Option Rule)) (i rule_set type sz : ℕ)
    → FirstFit rs i rule_set type sz (find_rule_from rs i rule_set type sz)
unfolding find_rule_from
find_rule_from-FirstFit [] i rule_set type sz = inr (refl, λ j h. absurd (cc (h.1)))
find_rule_from-FirstFit (r ∷ rs) i rule_set type sz =
    elim (Bool-cases (rule_fits r rule_set type sz)) [
      | inl t ↦ rw t (
          inl (
            0,
            ap pos (omega arith),
            (r, refl, (rule_fits_iff r rule_set type sz).0 t),
            λ j h. absurd (omega arith),
          ))
      | inr t ↦
          rw t (
            later r rs rule_set type sz t i _ (find_rule_from-FirstFit rs (i + 1) rule_set type sz))
    ]

-- `crush_find_rule` gives the number of a rule of the map that has the rule set, the type and a range
-- of sizes that holds `sz`, with no such rule before it; or it gives -1, and no rule is like that.
pub find_rule-FirstFit :
    (m : CrushMap) (rule_set type sz : ℕ)
    → FirstFit m.rules 0 rule_set type sz (find_rule m rule_set type sz)
unfolding find_rule
find_rule-FirstFit m rule_set type sz = find_rule_from-FirstFit m.rules 0 rule_set type sz
