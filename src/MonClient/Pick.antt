-- ===== src/MonClient/Pick.antt =====
-- Which monitors pick_new_mon can pick.
use xcp_ng_ceph_rbd.Base.{
  ℕ, ◌-◌, ◌%◌, ◌≤◌, ◌<◌, ◌≡◌, ◌≢◌, ◌↔◌, ap, ◌∙◌, true, false, ltb, leb, ◌==◌, pos, inl, inr, arith,
  Bool-cases, ltb→lt,
}
use native.Mathlib.Nat.{mod-lt, mod-eq_of_lt}
use xcp_ng_ceph_rbd.MonClient.{pick_mon, skip}

skip-other :
    (c n num_mon : ℕ) → c < num_mon → n < num_mon - 1 → (skip c n < num_mon) × (skip c n ≢ c)
skip-other c n num_mon lt h = elim (Bool-cases (leb c n)) [
  | inl p ↦ rw p (omega arith, λ e. absurd (ground arith))
  | inr p ↦ rw p (omega arith, λ e. absurd (ground arith))
]

skip-onto :
    (c d num_mon : ℕ)
    → c < num_mon
    → d < num_mon
    → d ≢ c
    → (n : ℕ) × (n < num_mon - 1) × (skip c n ≡ d)
skip-onto c d num_mon inside lt other = elim (Bool-cases (ltb d c)) [
  | inl p ↦ (d, ground arith, ground arith)
  | inr p ↦ (d - 1, ground arith, ground (arith, other))
]

-- In a map of at least two monitors, the monitors that pick_new_mon picks for some random number are
-- exactly those of the map other than the current one.
pub pick_mon_iff :
    (c num_mon d : ℕ)
    → 2 ≤ num_mon
    → ((random : ℕ) × (pick_mon (pos c) num_mon random ≡ d)) ↔ ((d < num_mon) × (d ≢ c))
unfolding pick_mon
pick_mon_iff c num_mon d two = elim (Bool-cases (ltb c num_mon)) [
  | inl p ↦ rw (several, p) (others p, λ (lt, other). reached p lt other)
  | inr p ↦
      rw (several, p)
        (
          λ (random, e). (
            omega (arith, mod-lt random positive),
            λ same. absurd (ground (arith, mod-lt random positive)),
          ),
          λ (lt, other). (d, mod-eq_of_lt lt),
        )
]
  where
    several : num_mon == 1 ≡ false
    several = ground arith

    positive : 0 < num_mon
    positive = omega arith

    less : 0 < num_mon - 1
    less = omega arith

    others :
        ltb c num_mon ≡ true
        → ((random : ℕ) × (skip c (random % (num_mon - 1)) ≡ d))
        → (d < num_mon) × (d ≢ c)
    others p (random, e) =
        let (lt, other) =
          skip-other c (random % (num_mon - 1)) num_mon (ltb→lt _ _ p) (mod-lt random less) in
        (omega arith, λ same. other (e ∙ same))

    reached :
        ltb c num_mon ≡ true
        → d < num_mon
        → d ≢ c
        → (random : ℕ) × (skip c (random % (num_mon - 1)) ≡ d)
    reached p lt other =
        let (n, small, e) = skip-onto c d num_mon (ltb→lt _ _ p) lt other in
        (n, ap (skip c) (mod-eq_of_lt small) ∙ e)
