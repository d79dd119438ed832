-- ===== src/Crush/Map.antt =====
-- The crush map of kernel-modules/src/libceph/include/linux/crush/crush.h, and the working state of
-- a placement. An array with its size is a list, and a null pointer is `none`.
pub mod FindRule
use xcp_ng_ceph_rbd.Base.{
  ℕ, ◌+◌, ◌&&◌, Bool, false, List, [], ◌∷◌, map, Option, none, some, length, get_elem?, set,
  replicate, leb, ◌==◌, if◌then◌else◌, ℤ, pos, negsuc,
}
use xcp_ng_ceph_rbd.Crush.Outcome.{Outcome, fault, must, ◌>>=◌}

-- The five kinds of bucket with the arrays of each, and any other value of `alg`.
pub data Alg : Type 0 where
  uniform : (item_weight : ℕ) → Alg
  list : (item_weights sum_weights : List ℕ) → Alg
  tree : (num_nodes : ℕ) (node_weights : List ℕ) → Alg
  straw : (item_weights straws : List ℕ) → Alg
  straw2 : (item_weights : List ℕ) → Alg
  unknown : Alg

-- struct crush_bucket. The id of bucket `n` of the map is -1 - n.
pub record Bucket : Type 0 where
  pub id : ℤ
  pub type : ℕ
  pub alg : Alg
  pub hash : ℕ
  pub items : List ℤ

abbrev pub size : Bucket → ℕ
size b = length b.items

pub data Op : Type 0 where
  take choose_firstn choose_indep chooseleaf_firstn chooseleaf_indep emit : Op
  set_choose_tries set_chooseleaf_tries set_choose_local_tries : Op
  set_choose_local_fallback_tries set_chooseleaf_vary_r set_chooseleaf_stable other : Op

pub record RuleStep : Type 0 where
  pub op : Op
  pub arg1 : ℤ
  pub arg2 : ℤ

pub record Rule : Type 0 where
  pub rule_set : ℕ
  pub type : ℕ
  pub min_size : ℕ
  pub max_size : ℕ
  pub steps : List RuleStep

pub record CrushMap : Type 0 where
  pub buckets : List (Option Bucket)
  pub rules : List (Option Rule)
  pub max_devices : ℕ
  pub choose_local_tries : ℕ
  pub choose_local_fallback_tries : ℕ
  pub choose_total_tries : ℕ
  pub chooseleaf_descend_once : ℕ
  pub chooseleaf_vary_r : ℕ
  pub chooseleaf_stable : ℕ

-- struct crush_choose_arg: `ids` and `weight_set` may be null.
pub record ChooseArg : Type 0 where
  pub ids : Option (List ℤ)
  pub weight_set : Option (List (List ℕ))

-- struct crush_work_bucket.
pub record WorkBucket : Type 0 where
  pub perm_x : ℕ
  pub perm_n : ℕ
  pub perm : List ℕ

abbrev pub Work : Type 0
Work = List (Option WorkBucket)

-- What reading `map->buckets[-1-item]` gives: outside the array or at a null pointer it is a fault.
unfoldable pub bucket_at : CrushMap → ℤ → Outcome Bucket
bucket_at m (pos n) = fault
bucket_at m (negsuc n) = do b ← must (get_elem? m.buckets n); must b

-- `work->work[-1-id]`.
unfoldable pub work_at : Work → ℤ → Outcome WorkBucket
work_at w (pos n) = fault
work_at w (negsuc n) = do b ← must (get_elem? w n); must b

abbrev pub put_work : Work → ℤ → WorkBucket → Work
put_work w (pos n) b = w
put_work w (negsuc n) b = set w n (some b)

-- crush_init_workspace, for a permutation area that holds `junk` before it is written.
pub init_bucket : ℕ → Option Bucket → Option WorkBucket
init_bucket junk none = none
init_bucket junk (some b) = some (record { perm_x = 0; perm_n = 0; perm = replicate (size b) junk })

pub init_workspace : ℕ → CrushMap → Work
init_workspace junk m = map (init_bucket junk) m.buckets

-- crush_find_rule: the index of the first rule that fits, and -1 if there is none.
abbrev pub rule_fits : Option Rule → ℕ → ℕ → ℕ → Bool
rule_fits none rule_set type sz = false
rule_fits (some r) rule_set type sz =
    r.rule_set == rule_set && (r.type == type && (leb r.min_size sz && leb sz r.max_size))

unfoldable pub find_rule_from : List (Option Rule) → ℕ → ℕ → ℕ → ℕ → ℤ
find_rule_from [] i rule_set type sz = negsuc 0
find_rule_from (r ∷ rs) i rule_set type sz =
    let later = find_rule_from rs (i + 1) rule_set type sz in
    if rule_fits r rule_set type sz then pos i else later

unfoldable pub find_rule : CrushMap → ℕ → ℕ → ℕ → ℤ
unfolding find_rule_from
find_rule m rule_set type sz = find_rule_from m.rules 0 rule_set type sz
