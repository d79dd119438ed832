-- ===== src/Osdmap/Interval/Shard.antt =====
-- The shard of a group's primary, of kernel-modules/src/libceph/osdmap.c.
use xcp_ng_ceph_rbd.Base.{
  ℕ, zero, suc, ◌+◌, ◌≤◌, ◌≡◌, ap, ◌∙◌, List, [], ◌∷◌, some, get_elem?, ℤ, pos, eqb_ℤ, eqb_ℤ_iff,
  inl, inr, arith, Bool-cases,
}
use xcp_ng_ceph_rbd.Osdmap.{Osds, ec}
use xcp_ng_ceph_rbd.Osdmap.Interval.{rank_from, found_shard, primary_shard}

-- The rank is a place of the OSD, no later than any other.
rank_from_lem :
    (osd : ℤ) (xs : List ℤ) (from i : ℕ)
    → get_elem? xs i ≡ some osd
    → (k : ℕ) × (rank_from osd xs from ≡ pos (from + k)) × (k ≤ i) × (get_elem? xs k ≡ some osd)
unfolding rank_from
rank_from_lem osd [] from i e = absurd cc
rank_from_lem osd (x ∷ xs) from zero e =
    let one : x ≡ osd = cc in rw ((eqb_ℤ_iff x osd).1 one) (0, ap pos (omega arith), omega arith, e)
rank_from_lem osd (x ∷ xs) from (suc i) e = elim (Bool-cases (eqb_ℤ x osd)) [
  | inl p ↦ rw p (0, ap pos (omega arith), omega arith, ap some ((eqb_ℤ_iff x osd).0 p))
  | inr p ↦
      let (k, r, le, at) = rank_from_lem osd xs (from + 1) i e in
      rw p (suc k, r ∙ ap pos (omega arith), omega arith, at)
]

-- If the primary of a group of an erasure-coded pool stands at a place of the acting set,
-- ceph_pg_to_primary_shard finds a shard, a place of the primary that is no later.
pub primary_shard_lem :
    (acting : Osds) (i : ℕ)
    → get_elem? acting.osds i ≡ some acting.primary
    → (k : ℕ) × (primary_shard ec acting ≡ some (pos k))
      × (k ≤ i)
      × (get_elem? acting.osds k ≡ some acting.primary)
unfolding primary_shard
primary_shard_lem acting i e =
    let (k, r, le, at) = rank_from_lem acting.primary acting.osds 0 i e in
    (k, ap found_shard (r ∙ ap pos (omega arith)), le, at)
