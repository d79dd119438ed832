-- ===== src/Crush/Firstn/Tests.antt =====
-- A placement over two hosts of two devices each, with a leaf under each host.
use xcp_ng_ceph_rbd.Base.{
  ℕ, zero, suc, ◌≤◌, ◌≡◌, ◌≢◌, inl, refl, true, List, [], ◌∷◌, none, some, length, get_elem?, ℤ,
  pos, negsuc, arith,
}
use mathlib.Core.Path.{subst}
use xcp_ng_ceph_rbd.Crush.Outcome.{ok}
use xcp_ng_ceph_rbd.Crush.Map.{Bucket, size, CrushMap, WorkBucket, Work, uniform, straw2}
use xcp_ng_ceph_rbd.Crush.Bucket.Perm.{Fits}
use xcp_ng_ceph_rbd.Crush.Bucket.Member.{ArraysFit}
use xcp_ng_ceph_rbd.Crush.Fits.{IsBucket, ItemFits, MapFits, WorkFits}
use xcp_ng_ceph_rbd.Crush.Firstn.{Args, choose_firstn}
use xcp_ng_ceph_rbd.Crush.Firstn.Result.{Good, choose_firstn-Good}

abbrev root : Bucket
root = record {
  id = negsuc 0;
  type = 2;
  alg = straw2 (0x20000 ∷ 0x20000 ∷ []);
  hash = 0;
  items = negsuc 1 ∷ negsuc 2 ∷ [];
}

abbrev host : ℤ → List ℤ → Bucket
host id items = record { id = id; type = 1; alg = uniform 0x10000; hash = 0; items = items }

abbrev left_host : Bucket
left_host = host (negsuc 1) (pos 0 ∷ pos 1 ∷ [])

abbrev right_host : Bucket
right_host = host (negsuc 2) (pos 2 ∷ pos 3 ∷ [])

abbrev cluster : CrushMap
cluster = record {
  buckets = some root ∷ some left_host ∷ some right_host ∷ [];
  rules = [];
  max_devices = 4;
  choose_local_tries = 0;
  choose_local_fallback_tries = 0;
  choose_total_tries = 50;
  chooseleaf_descend_once = 1;
  chooseleaf_vary_r = 1;
  chooseleaf_stable = 1;
}

abbrev level : ℕ → ℕ
level zero = 1
level (suc n) = 0

-- A statement about every bucket of the cluster.
every_bucket :
    (P : ℕ → Bucket → Type 0)
    → P 0 root
    → P 1 left_host
    → P 2 right_host
    → (n : ℕ) (b : Bucket) → IsBucket cluster n b
    → P n b
every_bucket P p q r zero b e = subst (P 0) (cc) p
every_bucket P p q r (suc zero) b e = subst (P 1) (cc) q
every_bucket P p q r (suc (suc zero)) b e = subst (P 2) (cc) r
every_bucket P p q r (suc (suc (suc n))) b e = absurd cc

abbrev ItemsFit : ℕ → Bucket → Type 0
ItemsFit n b = (i : ℕ) (item : ℤ) → get_elem? b.items i ≡ some item → ItemFits cluster level n item

two_items :
    (n : ℕ) (a b : ℤ)
    → ItemFits cluster level n a
    → ItemFits cluster level n b
    → (i : ℕ) (item : ℤ) → get_elem? (a ∷ b ∷ []) i ≡ some item
    → ItemFits cluster level n item
two_items n a b p q zero item e = subst (ItemFits cluster level n) (cc) p
two_items n a b p q (suc zero) item e = subst (ItemFits cluster level n) (cc) q
two_items n a b p q (suc (suc i)) item e = absurd cc

cluster-ItemsFit : (n : ℕ) (b : Bucket) → IsBucket cluster n b → ItemsFit n b
cluster-ItemsFit =
    every_bucket ItemsFit
      (two_items 0 (negsuc 1) (negsuc 2) ((left_host, refl), omega arith)
        ((right_host, refl), omega arith))
      (two_items 1 (pos 0) (pos 1) (omega arith) (omega arith))
      (two_items 2 (pos 2) (pos 3) (omega arith) (omega arith))

level-le : (n : ℕ) → level n ≤ 1
level-le zero = omega arith
level-le (suc n) = omega arith

cluster-MapFits : MapFits cluster level 1 2
cluster-MapFits = record {
  ids = every_bucket (λ n b. b.id ≡ negsuc n) refl refl refl;
  arrays = every_bucket (λ n b. ArraysFit (size b) b.alg) refl tt tt;
  types = every_bucket (λ n b. b.type ≢ 0) (omega arith) (omega arith) (omega arith);
  items = λ n b item e has. cluster-ItemsFit n b e has.0 item has.1;
  ranks = level-le;
  sizes = every_bucket (λ n b. size b ≤ 2) (omega arith) (omega arith) (omega arith);
}

abbrev fresh : WorkBucket
fresh = record { perm_x = 0; perm_n = 0; perm = 0 ∷ 0 ∷ [] }

abbrev workspace : Work
workspace = some fresh ∷ some fresh ∷ some fresh ∷ []

workspace-WorkFits : WorkFits cluster workspace
workspace-WorkFits =
    every_bucket (λ n b. (wb : WorkBucket) × (get_elem? workspace n ≡ some (some wb)) × Fits b wb)
      (fresh, refl, record { whole = refl; part = inl refl })
      (fresh, refl, record { whole = refl; part = inl refl })
      (fresh, refl, record { whole = refl; part = inl refl })

abbrev two_hosts : Args
two_hosts = record {
  weight = 0x10000 ∷ 0 ∷ 0x10000 ∷ 0x10000 ∷ [];
  x = 1234;
  type = pos 1;
  tries = 51;
  recurse_tries = 1;
  local_retries = 0;
  local_fallback_retries = 0;
  recurse_to_leaf = true;
  vary_r = 1;
  stable = 1;
  parent_r = 0;
  choose_args = none;
}

choose_firstn-Good_example :
    (out : List ℤ) × (out2 : List ℤ) × (w' : Work) × (choose_firstn cluster two_hosts root 400 2 3
        workspace
      ≡ ok (out, out2, w'))
    × Good cluster two_hosts out
    × (length out ≤ 2)
    × (length out ≤ 3)
    × WorkFits cluster w'
choose_firstn-Good_example =
    choose_firstn-Good two_hosts 0 root 400 2 3 workspace cluster-MapFits tt refl workspace-WorkFits
      (omega arith) (omega arith)
