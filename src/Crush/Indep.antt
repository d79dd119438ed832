-- ===== src/Crush/Indep.antt =====
-- crush_choose_indep of kernel-modules/src/libceph/crush/mapper.c.
-- `out` and `out2` hold the entries at `outpos` up to `endpos`; `out2` is `none` for NULL.
use xcp_ng_ceph_rbd.Base.{
  ℕ, zero, suc, ◌+◌, ◌-◌, ◌*◌, ◌%◌, ◌&&◌, not, Bool, true, false, List, map, Option, none, some,
  length, get_elem?, set, replicate, ◌==◌, if◌then◌else◌, ℤ, pos, eqb_ℤ,
}
use xcp_ng_ceph_rbd.Crush.Outcome.{Outcome, ok, fault, stuck, must, ◌>>=◌}
use xcp_ng_ceph_rbd.Crush.Map.{
  Alg, uniform, Bucket, size, CrushMap, ChooseArg, Work, bucket_at, work_at, put_work,
}
use xcp_ng_ceph_rbd.Crush.Bucket.{bucket_choose, is_out}
use xcp_ng_ceph_rbd.Crush.Firstn.{
  is_bad_item, item_type, is_no_bucket, is_device, collides, choose_arg_at,
}

abbrev pub item_undef : ℤ
item_undef = pos 0x7ffffffe

abbrev pub item_none : ℤ
item_none = pos 0x7fffffff

pub record Args : Type 0 where
  pub weight : List ℕ
  pub x : ℕ
  pub numrep : ℕ
  pub type : ℤ
  pub outpos : ℕ
  pub tries : ℕ
  pub recurse_tries : ℕ
  pub recurse_to_leaf : Bool
  pub parent_r : ℕ
  pub choose_args : Option (List ChooseArg)

abbrev pub is_uniform : Alg → Bool
is_uniform (uniform item_weight) = true
is_uniform _ = false

-- r' = r + n * f_total, with one more than n where the bucket's size would repeat the choice.
pub replica : Args → Bucket → (rep ftotal : ℕ) → ℕ
replica a b rep ftotal =
    let r = rep + a.parent_r in
    if is_uniform b.alg && size b % a.numrep == 0
    then r + (a.numrep + 1) * ftotal
    else r + a.numrep * ftotal

pub pick : Args → Bucket → ℕ → Work → Outcome (ℤ × Work)
pick a b r w = do
  wb ← work_at w b.id
  arg ← choose_arg_at a.choose_args b.id
  (item, wb') ← bucket_choose b wb a.x r arg a.outpos
  ok (item, put_work w b.id wb')

-- The recursive call for the one entry `rep` of `out2`: what the entry holds after it.
abbrev pub Leaf : Type 0
Leaf = Bucket → (rep parent_r : ℕ) → Work → Outcome (ℤ × Work)

-- How the descent for one entry goes on. `leave` breaks and leaves out[rep] undefined; a leaf that
-- was written to out2[rep] by then stays there.
pub data Progress : Type 0 where
  again : Bucket → Work → Progress
  leave : Option ℤ → Work → Progress
  drop : Work → Progress
  place : ℤ → Option ℤ → Work → Progress

-- The leaf: `none` is a break for out2[rep] == CRUSH_ITEM_NONE.
pub find_leaf : CrushMap → Args → Leaf → ℤ → (rep r : ℕ) → Work → Outcome (Option ℤ × Work)
find_leaf m a below item rep r w =
    if not a.recurse_to_leaf
    then ok (none, w)
    else if is_device item
    then ok (some item, w)
    else (bucket_at m item >>= λ b. below b rep r w >>= λ p. ok (some p.0, p.1))

abbrev pub is_none_leaf : ℤ → Option ℤ → Bool
is_none_leaf item none = false
is_none_leaf item (some l) = not (is_device item) && eqb_ℤ l item_none

pub check_out : Args → ℤ → ℤ → Option ℤ × Work → Outcome Progress
check_out a item itemtype (l, w) =
    if is_none_leaf item l
    then ok (leave l w)
    else if eqb_ℤ itemtype (pos 0)
    then (is_out a.weight item a.x >>= λ out?. ok (if out? then leave l w else place item l w))
    else ok (place item l w)

pub examine : CrushMap → Args → Leaf → (rep r : ℕ) → ℤ → List ℤ → Work → Outcome Progress
examine m a below rep r item out w = if is_bad_item m item then ok (drop w) else do
  itemtype ← item_type m item
  if not (eqb_ℤ itemtype a.type)
      then (if is_no_bucket m item then ok (drop w) else (bucket_at m item >>= λ b. ok (again b w)))
      else if collides item out
      then ok (leave none w)
      else (find_leaf m a below item rep r w >>= check_out a item itemtype)

pub descend_step :
    CrushMap → Args → Leaf → (rep ftotal : ℕ) → List ℤ → Bucket → Work → Outcome Progress
descend_step m a below rep ftotal out b w = if size b == 0 then ok (leave none w) else do
  let r = replica a b rep ftotal
  (item, w') ← pick a b r w
  examine m a below rep r item out w'

-- `for (;;)` through the intervening buckets.
pub descend :
    CrushMap → Args → Leaf → (fuel rep ftotal : ℕ) → List ℤ → Bucket → Work → Outcome Progress
descend m a below zero rep ftotal out b w = stuck
descend m a below (suc fuel) rep ftotal out b w = elim (descend_step m a below rep ftotal out b w) [
  | ok p ↦ elim p [
    | again b' w' ↦ descend m a below fuel rep ftotal out b' w'
    | leave l w' ↦ ok (leave l w')
    | drop w' ↦ ok (drop w')
    | place item l w' ↦ ok (place item l w')
  ]
  | fault ↦ fault
  | stuck ↦ stuck
]

-- The vectors, what is left to place, and the working state.
pub record State : Type 0 where
  pub out : List ℤ
  pub out2 : Option (List ℤ)
  pub left : ℕ
  pub work : Work

abbrev pub put_leaf : Option (List ℤ) → ℕ → Option ℤ → Option (List ℤ)
put_leaf none i l = none
put_leaf (some out2) i none = some out2
put_leaf (some out2) i (some l) = some (set out2 i l)

-- What the end of a descent does to entry `i`.
abbrev pub settle : State → ℕ → Progress → State
settle s i (again b w) = s
settle s i (leave l w) = record s { out2 = put_leaf s.out2 i l; work = w }
settle s i (drop w) = record s {
  out = set s.out i item_none;
  out2 = put_leaf s.out2 i (some item_none);
  left = s.left - 1;
  work = w;
}
settle s i (place item l w) = record s {
  out = set s.out i item;
  out2 = put_leaf s.out2 i l;
  left = s.left - 1;
  work = w;
}

-- One entry of the loop over `rep`: what is defined already is passed.
pub try_entry : CrushMap → Args → Leaf → (fuel ftotal : ℕ) → Bucket → ℕ → State → Outcome State
try_entry m a below fuel ftotal bucket i s = do
  entry ← must (get_elem? s.out i)
  if not (eqb_ℤ entry item_undef)
      then ok s
      else (descend m a below fuel (a.outpos + i) ftotal s.out bucket s.work >>= λ p.
          ok (settle s i p))

-- `for (rep = outpos; rep < endpos; rep++)`, for `n` entries from entry `i` on.
pub pass : CrushMap → Args → Leaf → (fuel ftotal : ℕ) → Bucket → (n i : ℕ) → State → Outcome State
pass m a below fuel ftotal bucket zero i s = ok s
pass m a below fuel ftotal bucket (suc n) i s = try_entry m a below fuel ftotal bucket i s >>= λ s'.
    pass m a below fuel ftotal bucket n (i + 1) s'

-- `for (ftotal = 0; left > 0 && ftotal < tries; ftotal++)`, with `n` tries to go.
pub rounds : CrushMap → Args → Leaf → (fuel : ℕ) → Bucket → (n ftotal : ℕ) → State → Outcome State
rounds m a below fuel bucket zero ftotal s = ok s
rounds m a below fuel bucket (suc n) ftotal s = elim (s.left == 0) [
  | true ↦ ok s
  | false ↦
      (pass m a below fuel ftotal bucket (length s.out) 0 s >>= λ s'.
      rounds m a below fuel bucket n (ftotal + 1) s')
]

-- The last loop: what is still undefined is none.
abbrev pub seal : ℤ → ℤ
seal item = if eqb_ℤ item item_undef then item_none else item

abbrev pub seal_leaves : Option (List ℤ) → Option (List ℤ)
seal_leaves none = none
seal_leaves (some out2) = some (map seal out2)

pub choose_from :
    CrushMap
    → Args
    → Leaf
    → (fuel : ℕ) → Bucket
    → (left : ℕ) → (with_leaves : Bool) → Work
    → Outcome State
choose_from m a below fuel bucket left with_leaves w =
    let undef = replicate left item_undef in
    let start : State = record {
      out = undef;
      out2 = if with_leaves then some undef else none;
      left = left;
      work = w;
    } in
    rounds m a below fuel bucket a.tries 0 start >>= λ s.
    ok (record s { out = map seal s.out; out2 = seal_leaves s.out2 })

abbrev pub no_below : Leaf
no_below b rep r w = fault

abbrev pub leaf_args : Args → (rep parent_r : ℕ) → Args
leaf_args a rep parent_r = record a {
  type = pos 0;
  outpos = rep;
  tries = a.recurse_tries;
  recurse_tries = 0;
  recurse_to_leaf = false;
  parent_r = parent_r;
}

-- The recursive call: one entry, at `rep`, and no vector of leaves.
pub leaf_below : CrushMap → Args → (fuel : ℕ) → Leaf
leaf_below m a fuel b rep r w = do
  s ← choose_from m (leaf_args a rep r) no_below fuel b 1 false w
  l ← must (get_elem? s.out 0)
  ok (l, s.work)

-- crush_choose_indep, as crush_do_rule calls it.
pub choose_indep : CrushMap → Args → (fuel : ℕ) → Bucket → (left : ℕ) → Work → Outcome State
choose_indep m a fuel bucket left w = choose_from m a (leaf_below m a fuel) fuel bucket left true w
