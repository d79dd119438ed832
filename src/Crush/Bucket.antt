-- ===== src/Crush/Bucket.antt =====
-- The bucket choose methods of kernel-modules/src/libceph/crush/mapper.c.
-- `x` is the hash input as a word, `r` the replica number, which is never negative.
pub mod Shuffle
pub mod Perm
pub mod Member
use xcp_ng_ceph_rbd.Base.{
  ℕ, zero, suc, ◌+◌, ◌-◌, ◌*◌, ◌/◌, ◌%◌, ◌^◌, ◌&&◌, ◌||◌, not, Bool, true, false, List, [], ◌∷◌,
  Option, none, some, length, get_elem?, set, ltb, leb, ◌==◌, if◌then◌else◌, ℤ, pos, negsuc, to_u32,
  u32, u64, sub_ℕ, ltb_ℤ,
}
use xcp_ng_ceph_rbd.Crush.Outcome.{Outcome, ok, fault, stuck, must, ◌>>=◌}
use xcp_ng_ceph_rbd.Crush.Hash.{hash32_2, hash32_3, hash32_4}
use xcp_ng_ceph_rbd.Crush.Ln.{crush_ln}
use xcp_ng_ceph_rbd.Crush.Map.{
  Alg, uniform, list, tree, straw, straw2, unknown, Bucket, size, WorkBucket, ChooseArg, CrushMap,
}

-- perm[i] = i from `i` on, for `n` entries.
pub identity_from : ℕ → ℕ → List ℕ → List ℕ
identity_from zero i perm = perm
identity_from (suc n) i perm = identity_from n (i + 1) (set perm i i)

-- `perm_n` after the shortcut for r = 0.
abbrev pub magic : ℕ
magic = 0xffff

-- One step of the shuffle: entry `p` trades places with one at or behind it.
pub swap_entries : List ℕ → ℕ → ℕ → Outcome (List ℕ)
swap_entries perm p i = do
  t ← must (get_elem? perm (p + i))
  s ← must (get_elem? perm p)
  ok (set (set perm (p + i) s) p t)

pub perm_step : Bucket → ℕ → ℕ → List ℕ → Outcome (List ℕ)
unfolding swap_entries
perm_step b x p perm =
    let i = hash32_3 b.hash x (to_u32 b.id) p % (size b - p) in
    if ltb p (size b - 1) && not (i == 0) then swap_entries perm p i else ok perm

-- `while (work->perm_n <= pr)`, for the `n` rounds that are left from `perm_n = p` on.
pub perm_extend : ℕ → Bucket → ℕ → ℕ → List ℕ → Outcome (List ℕ)
perm_extend zero b x p perm = ok perm
perm_extend (suc n) b x p perm = perm_step b x p perm >>= λ perm'. perm_extend n b x (p + 1) perm'

-- The permutation brought up to `pr`, and its entry there.
pub perm_continue : Bucket → ℕ → ℕ → WorkBucket → Outcome (ℕ × WorkBucket)
perm_continue b x pr w = do
  perm ← perm_extend (pr + 1 - w.perm_n) b x w.perm_n w.perm
  s ← must (get_elem? perm pr)
  let perm_n = w.perm_n + (pr + 1 - w.perm_n)
  ok (s, record { perm_x = w.perm_x; perm_n = perm_n; perm = perm })

-- `work->perm[0] = s; work->perm_n = 0xffff`.
pub perm_shortcut : Bucket → ℕ → WorkBucket → Outcome (ℕ × WorkBucket)
perm_shortcut b x w =
    let s = hash32_3 b.hash x (to_u32 b.id) 0 % size b in
    ok (s, record { perm_x = x; perm_n = magic; perm = set w.perm 0 s })

-- The clean-up after the shortcut: perm[perm[0]] = 0, and the rest in place.
pub perm_cleanup : Bucket → WorkBucket → Outcome WorkBucket
unfolding identity_from
perm_cleanup b w = do
  first ← must (get_elem? (identity_from (size b - 1) 1 w.perm) 0)
  ok (record w { perm_n = 1; perm = set (identity_from (size b - 1) 1 w.perm) first 0 })

-- bucket_perm_choose: the index `s` of the choice.
pub perm_index : Bucket → WorkBucket → ℕ → ℕ → Outcome (ℕ × WorkBucket)
unfolding identity_from
perm_index b w x r =
    let pr = u32 r % size b in
    if not (w.perm_x == x) || w.perm_n == 0
    then (if pr == 0
        then perm_shortcut b x w
        else perm_continue b x pr
            (record { perm_x = x; perm_n = 0; perm = identity_from (size b) 0 w.perm }))
    else if w.perm_n == magic
    then (perm_cleanup b w >>= λ w'. perm_continue b x pr w')
    else perm_continue b x pr w

pub perm_choose : Bucket → WorkBucket → ℕ → ℕ → Outcome (ℤ × WorkBucket)
perm_choose b w x r = do
  (s, w') ← perm_index b w x r
  item ← must (get_elem? b.items s)
  ok (item, w')

-- bucket_list_choose, from item `i - 1` down.
pub list_choose_from : Bucket → List ℕ → List ℕ → ℕ → ℕ → ℕ → Outcome ℤ
list_choose_from b item_weights sum_weights x r zero = must (get_elem? b.items 0)
list_choose_from b item_weights sum_weights x r (suc i) =
    let further = list_choose_from b item_weights sum_weights x r i in
    do
      item ← must (get_elem? b.items i)
      sum_weight ← must (get_elem? sum_weights i)
      item_weight ← must (get_elem? item_weights i)
      let w = hash32_4 b.hash x (to_u32 item) (u32 r) (to_u32 b.id) % 2 ^ 16
      if ltb (u64 (w * sum_weight) / 2 ^ 16) item_weight then ok item else further

-- The binary tree of nodes: `height` counts the trailing zeros, and never ends at 0.
pub height : ℕ → ℕ → Outcome ℕ
height zero n = stuck
height (suc fuel) n = elim (n % 2 == 0) [
  | true ↦ (height fuel (n / 2) >>= λ h. ok (h + 1))
  | false ↦ ok 0
]

-- bucket_tree_choose, from node `n` down; a node's fuel `n` is enough for its height.
pub tree_choose_from : ℕ → Bucket → List ℕ → ℕ → ℕ → ℕ → Outcome ℤ
tree_choose_from zero b node_weights x r n = stuck
tree_choose_from (suc fuel) b node_weights x r n = elim (n % 2 == 0) [
  | false ↦ must (get_elem? b.items (n / 2))
  | true ↦ do
    w ← must (get_elem? node_weights n)
    let t = hash32_4 b.hash x n (u32 r) (to_u32 b.id) * w / 2 ^ 32
    h ← height n n
    let l = n - 2 ^ (h - 1)
    left_weight ← must (get_elem? node_weights l)
    tree_choose_from fuel b node_weights x r (if ltb t left_weight then l else n + 2 ^ (h - 1))
]

-- bucket_straw_choose: the loop from item `i` on, with the best draw up to there.
pub straw_choose_from : Bucket → List ℕ → ℕ → ℕ → List ℤ → ℕ → ℕ → ℕ → Outcome ℕ
straw_choose_from b straws x r [] i high high_draw = ok high
straw_choose_from b straws x r (item ∷ rest) i high high_draw = do
  straw_length ← must (get_elem? straws i)
  let draw = u64 (hash32_3 b.hash x (to_u32 item) (u32 r) % 2 ^ 16 * straw_length)
  let better = i == 0 || ltb high_draw draw
  straw_choose_from b straws x r rest (i + 1) (if better then i else high)
      (if better then draw else high_draw)

-- get_choose_arg_weights and get_choose_arg_ids.
pub weight_set_at : List ℕ → Option (List (List ℕ)) → ℕ → Outcome (List ℕ)
weight_set_at item_weights none position = ok item_weights
weight_set_at item_weights (some weight_set) position = must (
    get_elem? weight_set
      (if leb (length weight_set) position then length weight_set - 1 else position))

pub choose_arg_weights : List ℕ → Option ChooseArg → ℕ → Outcome (List ℕ)
unfolding weight_set_at
choose_arg_weights item_weights none position = ok item_weights
choose_arg_weights item_weights (some arg) position =
    weight_set_at item_weights arg.weight_set position

abbrev pub choose_arg_ids : List ℤ → Option ChooseArg → List ℤ
choose_arg_ids items none = items
choose_arg_ids items (some arg) = elim arg.ids [ none ↦ items | some ids ↦ ids ]

-- div64_s64, towards zero.
abbrev pub div_ℤ : ℤ → ℕ → ℤ
div_ℤ (pos n) w = pos (n / w)
div_ℤ (negsuc n) w = sub_ℕ 0 (suc n / w)

-- The draw of one item: S64_MIN for no weight.
pub straw2_draw : Bucket → ℕ → ℕ → ℤ → ℕ → ℤ
straw2_draw b x r id weight =
    let u = hash32_3 b.hash x (to_u32 id) (u32 r) % 2 ^ 16 in
    if weight == 0 then negsuc (2 ^ 63 - 1) else div_ℤ (sub_ℕ (crush_ln u) 0x1000000000000) weight

pub straw2_choose_from : Bucket → List ℕ → List ℤ → ℕ → ℕ → ℕ → ℕ → ℕ → ℤ → Outcome ℕ
straw2_choose_from b weights ids x r zero i high high_draw = ok high
straw2_choose_from b weights ids x r (suc n) i high high_draw = do
  weight ← must (get_elem? weights i)
  id ← must (get_elem? ids i)
  let draw = straw2_draw b x r id weight
  let better = i == 0 || ltb_ℤ high_draw draw
  straw2_choose_from b weights ids x r n (i + 1) (if better then i else high)
      (if better then draw else high_draw)

pub straw2_choose : Bucket → List ℕ → ℕ → ℕ → Option ChooseArg → ℕ → Outcome ℤ
straw2_choose b item_weights x r arg position = do
  weights ← choose_arg_weights item_weights arg position
  high ← straw2_choose_from b weights (choose_arg_ids b.items arg) x r (size b) 0 0 (pos 0)
  must (get_elem? b.items high)

pub straw_choose : Bucket → List ℕ → ℕ → ℕ → Outcome ℤ
straw_choose b straws x r = do
  high ← straw_choose_from b straws x r b.items 0 0 0
  must (get_elem? b.items high)

-- The methods that leave the working state alone.
abbrev pub keep : WorkBucket → ℤ → Outcome (ℤ × WorkBucket)
keep w item = ok (item, w)

-- crush_bucket_choose, which is called for a bucket that is not empty.
pub choose_by : Alg → Bucket → WorkBucket → ℕ → ℕ → Option ChooseArg → ℕ → Outcome (ℤ × WorkBucket)
choose_by (uniform item_weight) b w x r arg position = perm_choose b w x r
choose_by (list item_weights sum_weights) b w x r arg position =
    list_choose_from b item_weights sum_weights x r (size b) >>= keep w
choose_by (tree num_nodes node_weights) b w x r arg position =
    tree_choose_from num_nodes b node_weights x r (num_nodes / 2) >>= keep w
choose_by (straw item_weights straws) b w x r arg position = straw_choose b straws x r >>= keep w
choose_by (straw2 item_weights) b w x r arg position =
    straw2_choose b item_weights x r arg position >>= keep w
choose_by unknown b w x r arg position = must (get_elem? b.items 0) >>= keep w

pub bucket_choose : Bucket → WorkBucket → ℕ → ℕ → Option ChooseArg → ℕ → Outcome (ℤ × WorkBucket)
bucket_choose b w x r arg position = choose_by b.alg b w x r arg position

-- is_out: the device is marked out, fully or by the draw of `x`.
unfoldable pub is_out : List ℕ → ℤ → ℕ → Outcome Bool
is_out weight (negsuc n) x = fault
is_out weight (pos item) x = elim (get_elem? weight item) [
  | none ↦ ok true
  | some w ↦
      if leb 0x10000 w
      then ok false
      else if w == 0
      then ok true
      else if ltb (hash32_2 0 x (u32 item) % 2 ^ 16) w
      then ok false
      else ok true
]
