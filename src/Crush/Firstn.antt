-- ===== src/Crush/Firstn.antt =====
-- crush_choose_firstn of kernel-modules/src/libceph/crush/mapper.c.
-- `out` holds the entries out[0] to out[outpos - 1], so `outpos` is its length, and `out2` likewise.
-- The loop over one replica is a step function on its variables, run on fuel.
pub mod Pick
pub mod Ends
pub mod Step
pub mod Result
mod Tests
use xcp_ng_ceph_rbd.Base.{
  ℕ, zero, suc, ◌+◌, ◌-◌, ◌/◌, ◌^◌, ◌&&◌, ◌||◌, not, Bool, true, false, List, [], ◌∷◌, ◌++◌, Option,
  none, some, length, get_elem?, ltb, leb, ◌==◌, if◌then◌else◌, ℤ, pos, negsuc, eqb_ℤ,
}
use xcp_ng_ceph_rbd.Crush.Outcome.{Outcome, ok, fault, stuck, must, ◌>>=◌}
use xcp_ng_ceph_rbd.Crush.Map.{
  Bucket, size, CrushMap, ChooseArg, Work, bucket_at, work_at, put_work,
}
use xcp_ng_ceph_rbd.Crush.Bucket.{perm_choose, bucket_choose, is_out}

-- The arguments that stay the same through a call.
pub record Args : Type 0 where
  pub weight : List ℕ
  pub x : ℕ
  pub type : ℤ
  pub tries : ℕ
  pub recurse_tries : ℕ
  pub local_retries : ℕ
  pub local_fallback_retries : ℕ
  pub recurse_to_leaf : Bool
  pub vary_r : ℕ
  pub stable : ℕ
  pub parent_r : ℕ
  pub choose_args : Option (List ChooseArg)

-- `item >= map->max_devices`.
abbrev pub is_bad_item : CrushMap → ℤ → Bool
is_bad_item m (pos n) = leb m.max_devices n
is_bad_item m (negsuc n) = false

-- The type of an item: a device has type 0.
pub item_type : CrushMap → ℤ → Outcome ℤ
item_type m (pos n) = ok (pos 0)
item_type m (negsuc n) = bucket_at m (negsuc n) >>= λ b. ok (pos b.type)

-- `item >= 0 || (-1-item) >= map->max_buckets`.
abbrev pub is_no_bucket : CrushMap → ℤ → Bool
is_no_bucket m (pos n) = true
is_no_bucket m (negsuc n) = leb (length m.buckets) n

abbrev pub is_device : ℤ → Bool
is_device (pos n) = true
is_device (negsuc n) = false

abbrev pub collides : ℤ → List ℤ → Bool
collides item [] = false
collides item (o ∷ out) = eqb_ℤ o item || collides item out

-- `choose_args ? &choose_args[-1-in->id] : NULL`. Only straw2 buckets follow the pointer; here an
-- entry that is missing is a fault for each kind.
pub choose_arg_at : Option (List ChooseArg) → ℤ → Outcome (Option ChooseArg)
choose_arg_at none id = ok none
choose_arg_at (some args) (pos n) = fault
choose_arg_at (some args) (negsuc n) = must (get_elem? args n) >>= λ a. ok (some a)

-- The bucket's answer, by the exhaustive permutation or by its own method.
pub pick : Args → Bucket → ℕ → ℕ → ℕ → Work → Outcome (ℤ × Work)
pick a b flocal outpos r w = do
  wb ← work_at w b.id
  (item, wb') ←
      if ltb 0 a.local_fallback_retries
        && (leb (size b / 2) flocal && ltb a.local_fallback_retries flocal)
      then perm_choose b wb a.x r
      else (choose_arg_at a.choose_args b.id >>= λ arg. bucket_choose b wb a.x r arg outpos)
  ok (item, put_work w b.id wb')

-- What a call that looks for the leaf under bucket `b` answers: the entries of `out2` after it.
abbrev pub Leaf : Type 0
Leaf = Bucket → (sub_r : ℕ) → (out2 : List ℤ) → (count : ℕ) → Work → Outcome (List ℤ × Work)

-- The variables of the two inner loops.
pub record Search : Type 0 where
  pub cursor : Bucket
  pub ftotal : ℕ
  pub flocal : ℕ
  pub work : Work

-- The search goes on, gives the replica up (`skip_rep`), or has an item and the leaf under it.
pub data Progress : Type 0 where
  again : Search → Progress
  skip : Work → Progress
  got : ℤ → Option ℤ → Work → Progress

-- The `reject:` label for a refused item.
pub retry : Args → Bucket → Search → (collide : Bool) → Progress
retry a bucket s collide =
    let ftotal = s.ftotal + 1 in
    let flocal = s.flocal + 1 in
    if collide && leb flocal a.local_retries
    then again (record s { ftotal = ftotal; flocal = flocal })
    else if ltb 0 a.local_fallback_retries && leb flocal (size s.cursor + a.local_fallback_retries)
    then again (record s { ftotal = ftotal; flocal = flocal })
    else if ltb ftotal a.tries
    then again (record s { cursor = bucket; ftotal = ftotal; flocal = 0 })
    else skip s.work

-- The leaf for an item that does not collide: nothing is asked for, the item is one, or the call
-- for its bucket finds one. `none` is `reject = 1`.
pub data Found : Type 0 where
  no_leaf : Found
  leaf : Option ℤ → Found

abbrev pub last? : List ℤ → ℕ → Found
last? out2' n = elim (get_elem? out2' n) [ none ↦ no_leaf | some l ↦ leaf (some l) ]

pub find_leaf : CrushMap → Args → Leaf → ℤ → ℕ → List ℤ → ℕ → Work → Outcome (Found × Work)
find_leaf m a below item r out2 count w =
    if not a.recurse_to_leaf
    then ok (leaf none, w)
    else if is_device item
    then ok (leaf (some item), w)
    else do
      b ← bucket_at m item
      let sub_r = if a.vary_r == 0 then 0 else r / 2 ^ (a.vary_r - 1)
      (out2', w') ← below b sub_r out2 count w
      ok (last? out2' (length out2), w')

-- After the leaf: is the device out?
pub check_out : CrushMap → Args → Bucket → Search → ℤ → ℤ → Found × Work → Outcome Progress
check_out m a bucket s item itemtype (no_leaf, w) =
    ok (retry a bucket (record s { work = w }) false)
check_out m a bucket s item itemtype (leaf l, w) =
    if eqb_ℤ itemtype (pos 0)
    then (is_out a.weight item a.x >>= λ out?.
        ok (if out? then retry a bucket (record s { work = w }) false else got item l w))
    else ok (got item l w)

-- An item of the type that is asked for.
pub accept :
    CrushMap
    → Args
    → Leaf
    → Bucket
    → Search
    → (r : ℕ) → ℤ
    → ℤ
    → List ℤ
    → List ℤ
    → ℕ
    → Outcome Progress
accept m a below bucket s r item itemtype out out2 count =
    if collides item out
    then ok (retry a bucket s true)
    else (find_leaf m a below item r out2 count s.work >>= check_out m a bucket s item itemtype)

-- What follows the choice of an item.
pub examine :
    CrushMap → Args → Leaf → Bucket → Search → (r : ℕ) → ℤ → List ℤ → List ℤ → ℕ → Outcome Progress
examine m a below bucket s r item out out2 count =
    if is_bad_item m item then ok (skip s.work) else do
      itemtype ← item_type m item
      if not (eqb_ℤ itemtype a.type)
          then (if is_no_bucket m item
              then ok (skip s.work)
              else (bucket_at m item >>= λ b. ok (again (record s { cursor = b }))))
          else accept m a below bucket s r item itemtype out out2 count

-- One round of the inner loop.
pub search_step :
    CrushMap → Args → Leaf → Bucket → (rep : ℕ) → List ℤ → List ℤ → ℕ → Search → Outcome Progress
search_step m a below bucket rep out out2 count s =
    if size s.cursor == 0 then ok (retry a bucket s false) else do
      let r = rep + a.parent_r + s.ftotal
      (item, w) ← pick a s.cursor s.flocal (length out) r s.work
      examine m a below bucket (record s { work = w }) r item out out2 count

pub search_loop :
    CrushMap
    → Args
    → Leaf
    → Bucket
    → (fuel rep : ℕ) → List ℤ
    → List ℤ
    → ℕ
    → Search
    → Outcome Progress
search_loop m a below bucket zero rep out out2 count s = stuck
search_loop m a below bucket (suc fuel) rep out out2 count s =
    elim (search_step m a below bucket rep out out2 count s) [
      | ok p ↦ elim p [
        | again s' ↦ search_loop m a below bucket fuel rep out out2 count s'
        | skip w ↦ ok (skip w)
        | got item l w ↦ ok (got item l w)
      ]
      | fault ↦ fault
      | stuck ↦ stuck
    ]

abbrev pub keep_leaf : List ℤ → Option ℤ → List ℤ
keep_leaf out2 none = out2
keep_leaf out2 (some l) = out2 ++ (l ∷ [])

-- The loop over the replicas, for `n` of them from `rep` on; `count` is what fits in the result.
pub reps :
    CrushMap
    → Args
    → Leaf
    → Bucket
    → (fuel n rep : ℕ) → List ℤ
    → List ℤ
    → (count : ℕ) → Work
    → Outcome (List ℤ × List ℤ × Work)
reps m a below bucket fuel zero rep out out2 count w = ok (out, out2, w)
reps m a below bucket fuel (suc n) rep out out2 zero w = ok (out, out2, w)
reps m a below bucket fuel (suc n) rep out out2 (suc count) w =
    elim (search_loop m a below bucket fuel rep out out2 (suc count)
      (record { cursor = bucket; ftotal = 0; flocal = 0; work = w })) [
        | ok p ↦ elim p [
          | again s ↦ stuck
          | skip w' ↦ reps m a below bucket fuel n (rep + 1) out out2 (suc count) w'
          | got item l w' ↦
              reps m a below bucket fuel n (rep + 1) (out ++ (item ∷ [])) (keep_leaf out2 l) count
                w'
        ]
        | fault ↦ fault
        | stuck ↦ stuck
      ]

-- From `rep = stable ? 0 : outpos` up to `numrep`.
pub choose_from :
    CrushMap
    → Args
    → Leaf
    → Bucket
    → (fuel numrep : ℕ) → List ℤ
    → List ℤ
    → (count : ℕ) → Work
    → Outcome (List ℤ × List ℤ × Work)
choose_from m a below bucket fuel numrep out out2 count w =
    let start = if a.stable == 0 then length out else 0 in
    reps m a below bucket fuel (numrep - start) start out out2 count w

-- The recursive call asks for no leaf, so it makes none itself.
abbrev pub no_below : Leaf
no_below b sub_r out2 count w = fault

abbrev pub leaf_args : Args → ℕ → Args
leaf_args a sub_r = record a {
  type = pos 0;
  tries = a.recurse_tries;
  recurse_tries = 0;
  recurse_to_leaf = false;
  parent_r = sub_r;
}

pub leaf_below : CrushMap → Args → (fuel : ℕ) → Leaf
leaf_below m a fuel b sub_r out2 count w = do
  let numrep = if a.stable == 0 then length out2 + 1 else 1
  (out2', unused, w') ← choose_from m (leaf_args a sub_r) no_below b fuel numrep out2 [] count w
  ok (out2', w')

-- crush_choose_firstn, as crush_do_rule calls it: outpos is 0, and both vectors are empty.
pub choose_firstn :
    CrushMap → Args → Bucket → (fuel numrep out_size : ℕ) → Work → Outcome (List ℤ × List ℤ × Work)
choose_firstn m a bucket fuel numrep out_size w =
    choose_from m a (leaf_below m a fuel) bucket fuel numrep [] [] out_size w
