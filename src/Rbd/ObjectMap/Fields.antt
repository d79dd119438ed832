-- ===== src/Rbd/ObjectMap/Fields.antt =====
-- The four fields of a byte do not disturb one another.
use xcp_ng_ceph_rbd.Base.{
  ℕ, zero, suc, ◌<◌, ◌≡◌, refl, ◌&&◌, Bool, true, false, ltb, ltb→lt, ◌==◌, ==_iff, if◌then◌else◌,
  inl, inr, arith, Bool-cases,
}
use xcp_ng_ceph_rbd.Rbd.ObjectMap.{get_field, set_field}

-- Does a test hold below a number?
all_below : ℕ → (ℕ → Bool) → Bool
all_below zero test = true
all_below (suc n) test = test n && all_below n test

and-true : (a b : Bool) → a && b ≡ true → (a ≡ true) × (b ≡ true)
and-true true b h = (refl, h)
and-true false b h = absurd cc

below : (n i : ℕ) (test : ℕ → Bool) → all_below n test ≡ true → i < n → test i ≡ true
unfolding all_below
below zero i test h lt = absurd (omega arith)
below (suc n) i test h lt =
    let (last, others) = and-true (test n) (all_below n test) h in
    elim (Bool-cases (i == n)) [
      | inl p ↦ rw ((==_iff i n).0 p) last
      | inr p ↦ below n i test others (ground arith)
    ]

-- After a write to field `off`, field `off'` of a byte is the value written or what it was, and the
-- byte is one still.
abbrev kept : (byte val off off' : ℕ) → Bool
kept byte val off off' =
    (get_field (set_field byte off val) off' == (if off' == off then val else get_field byte off'))
    && ltb (set_field byte off val) 256

all_kept :
    all_below 256 (λ b. all_below 4 (λ v. all_below 4 (λ i. all_below 4 (kept b v i)))) ≡ true
unfolding all_below
all_kept = refl

pub set_field-kept :
    (byte val off off' : ℕ)
    → byte < 256
    → val < 4
    → off < 4
    → off' < 4
    → (get_field (set_field byte off val) off' ≡ (if off' == off then val else get_field byte off'))
      × (set_field byte off val < 256)
set_field-kept byte val off off' hb hv ho ho' =
    let tested =
      below 4 off' (kept byte val off)
        (below 4 off (λ i. all_below 4 (kept byte val i))
          (below 4 val (λ v. all_below 4 (λ i. all_below 4 (kept byte v i)))
            (below 256 byte (λ b. all_below 4 (λ v. all_below 4 (λ i. all_below 4 (kept b v i))))
              all_kept hb)
            hv)
          ho)
        ho' in
    let (same, small) = and-true _ (ltb (set_field byte off val) 256) tested in
    ((==_iff _ _).0 same, ltb→lt _ _ small)
