-- ===== src/Crush/Fits.antt =====
-- A well-formed crush map without tree buckets, with the working state that crush_init_workspace makes
-- for it, and the choice of an item in it. The decoder checks neither that items are there, nor that
-- there is no cycle, nor the sizes of weight sets: what holds here is up to the monitors.
use xcp_ng_ceph_rbd.Base.{
  ℕ, ◌≤◌, ◌<◌, ◌≡◌, ◌≢◌, ◌∙◌, List, Option, none, some, some, get_elem?, get_elem?-set_self,
  get_elem?-set_ne, ℤ, pos, negsuc,
}
use native.Mathlib.Decide.{ℕ_discrete}
use mathlib.Core.Path.{subst}
use xcp_ng_ceph_rbd.Crush.Outcome.{ok}
use xcp_ng_ceph_rbd.Crush.Map.{
  Bucket, size, CrushMap, ChooseArg, WorkBucket, Work, bucket_at, work_at, put_work,
}
use xcp_ng_ceph_rbd.Crush.Bucket.Perm.{Fits}
use xcp_ng_ceph_rbd.Crush.Bucket.Member.{ArraysFit, ArgFits, HasItem}

-- Bucket `n` of the map is `b`.
abbrev pub IsBucket : CrushMap → ℕ → Bucket → Type 0
IsBucket m n b = get_elem? m.buckets n ≡ some (some b)

-- A device of the map, or a bucket that is there and stands lower.
abbrev pub ItemFits : CrushMap → (ℕ → ℕ) → ℕ → ℤ → Type 0
ItemFits m rank n (pos d) = d < m.max_devices
ItemFits m rank n (negsuc k) = ((b : Bucket) × IsBucket m k b) × (rank k < rank n)

-- `rank` bounds the depth below a bucket: the map has no cycle. No bucket has the type of devices, and
-- none is a tree bucket.
pub record MapFits (m : CrushMap) (rank : ℕ → ℕ) (depth width : ℕ) : Type 0 where
  pub ids : (n : ℕ) (b : Bucket) → IsBucket m n b → b.id ≡ negsuc n
  pub arrays : (n : ℕ) (b : Bucket) → IsBucket m n b → ArraysFit (size b) b.alg
  pub types : (n : ℕ) (b : Bucket) → IsBucket m n b → b.type ≢ 0
  pub items :
      (n : ℕ) (b : Bucket) (item : ℤ) → IsBucket m n b → HasItem b item → ItemFits m rank n item
  pub ranks : (n : ℕ) → rank n ≤ depth
  pub sizes : (n : ℕ) (b : Bucket) → IsBucket m n b → size b ≤ width

-- Every bucket has its permutation.
abbrev pub WorkFits : CrushMap → Work → Type 0
WorkFits m w =
    (n : ℕ) (b : Bucket)
    → IsBucket m n b
    → (wb : WorkBucket) × (get_elem? w n ≡ some (some wb)) × Fits b wb

-- The choose arguments, where there are any, have one for every bucket.
abbrev pub ArgsFit : CrushMap → Option (List ChooseArg) → Type 0
ArgsFit m none = Unit {0}
ArgsFit m (some args) =
    (n : ℕ) (b : Bucket)
    → IsBucket m n b
    → (arg : ChooseArg) × (get_elem? args n ≡ some arg) × ArgFits (size b) (some arg)

pub bucket_at-IsBucket :
    (m : CrushMap) (n : ℕ) (b : Bucket) → IsBucket m n b → bucket_at m (negsuc n) ≡ ok b
unfolding bucket_at
bucket_at-IsBucket m n b e = rw e

pub work_at-WorkFits :
    (w : Work) (n : ℕ) (wb : WorkBucket)
    → get_elem? w n ≡ some (some wb)
    → work_at w (negsuc n) ≡ ok wb
unfolding work_at
work_at-WorkFits w n wb e = rw e

-- A bucket's new permutation is stored without touching the others.
pub put_work-WorkFits :
    (m : CrushMap) (w : Work) (n : ℕ) (b : Bucket) (wb : WorkBucket)
    → IsBucket m n b
    → Fits b wb
    → WorkFits m w
    → WorkFits m (put_work w (negsuc n) wb)
put_work-WorkFits m w n b wb e fits h k c ek = elim (ℕ_discrete n k) [
  | yes same ↦
      let eb : IsBucket m n c = rw same ek in
      let bc : b ≡ c = cc in
      let here = h n b e in
      (
        wb,
        rw (← same) (get_elem?-set_self w n (some wb) (some here.0) here.1),
        subst (λ x. Fits x wb) bc fits,
      )
  | no ne ↦ let (wc, ec, fc) = h k c ek in (wc, get_elem?-set_ne w n k (some wb) ne ∙ ec, fc)
]
