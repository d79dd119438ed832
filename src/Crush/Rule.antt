-- ===== src/Crush/Rule.antt =====
-- crush_do_rule of kernel-modules/src/libceph/crush/mapper.c.
use xcp_ng_ceph_rbd.Base.{
  ℕ, zero, suc, ◌+◌, ◌-◌, ◌&&◌, ◌||◌, not, Bool, true, false, List, [], ◌∷◌, ◌++◌, Option, none,
  some, length, get_elem?, min, ltb, leb, ◌==◌, if◌then◌else◌, ℤ, pos, negsuc,
}
use xcp_ng_ceph_rbd.Base
use xcp_ng_ceph_rbd.Crush.Outcome.{Outcome, ok, must, ◌>>=◌}
use xcp_ng_ceph_rbd.Crush.Map.{
  Bucket, CrushMap, ChooseArg, Work, RuleStep, Op, choose_firstn, choose_indep, chooseleaf_firstn,
  chooseleaf_indep, emit, set_choose_tries, set_chooseleaf_tries, set_choose_local_tries,
  set_choose_local_fallback_tries, set_chooseleaf_vary_r, set_chooseleaf_stable, other,
}
use xcp_ng_ceph_rbd.Crush.Firstn
use xcp_ng_ceph_rbd.Crush.Indep

-- The inputs of a placement besides the map: `fuel` bounds each search.
pub record Input : Type 0 where
  pub x : ℕ
  pub result_max : ℕ
  pub weight : List ℕ
  pub choose_args : Option (List ChooseArg)
  pub fuel : ℕ

-- The local variables: `w` is the working vector and `result` what was emitted.
pub record Vars : Type 0 where
  pub choose_tries : ℕ
  pub choose_leaf_tries : ℕ
  pub local_retries : ℕ
  pub local_fallback_retries : ℕ
  pub vary_r : ℕ
  pub stable : ℕ
  pub w : List ℤ
  pub result : List ℤ
  pub work : Work

-- `curstep->arg1 > 0` and `>= 0`.
abbrev pub if_positive : ℤ → ℕ → ℕ
if_positive (pos zero) old = old
if_positive (pos (suc n)) old = suc n
if_positive (negsuc n) old = old

abbrev pub if_nonneg : ℤ → ℕ → ℕ
if_nonneg (pos n) old = n
if_nonneg (negsuc n) old = old

-- A device of the map, or a bucket that is there.
abbrev pub can_take : CrushMap → ℤ → Bool
can_take m (pos n) = ltb n m.max_devices
can_take m (negsuc n) = elim (get_elem? m.buckets n) [
  | none ↦ false
  | some b ↦ elim b [ none ↦ false | some _ ↦ true ]
]

-- `numrep`, counted from the end of the result where the rule gives none or less.
abbrev pub num_replicas : ℤ → ℕ → ℕ
num_replicas (pos zero) result_max = result_max
num_replicas (pos (suc n)) result_max = suc n
num_replicas (negsuc n) result_max = result_max - suc n

-- The entries of `o` and of the leaves `c` up to here.
abbrev pub Vectors : Type 0
Vectors = List ℤ × List ℤ × Work

abbrev pub leaves : Option (List ℤ) → List ℤ
leaves none = []
leaves (some c) = c

module _ (m : CrushMap) (i : Input) where
  firstn_args : Vars → ℤ → Bool → Firstn.Args
  firstn_args v type leaf = record {
    weight = i.weight;
    x = i.x;
    type = type;
    tries = v.choose_tries;
    recurse_tries =
        if not (v.choose_leaf_tries == 0)
        then v.choose_leaf_tries
        else if not (m.chooseleaf_descend_once == 0)
        then 1
        else v.choose_tries;
    local_retries = v.local_retries;
    local_fallback_retries = v.local_fallback_retries;
    recurse_to_leaf = leaf;
    vary_r = v.vary_r;
    stable = v.stable;
    parent_r = 0;
    choose_args = i.choose_args;
  }

  indep_args : Vars → ℕ → ℤ → Bool → Indep.Args
  indep_args v numrep type leaf = record {
    weight = i.weight;
    x = i.x;
    numrep = numrep;
    type = type;
    outpos = 0;
    tries = v.choose_tries;
    recurse_tries = if not (v.choose_leaf_tries == 0) then v.choose_leaf_tries else 1;
    recurse_to_leaf = leaf;
    parent_r = 0;
    choose_args = i.choose_args;
  }

  -- One bucket of the working vector: its entries are put behind those of the ones before it.
  pub choose_one :
      Vars → (firstn leaf : Bool) → (numrep : ℕ) → ℤ → Bucket → Vectors → Outcome Vectors
  unfolding firstn_args indep_args
  choose_one v firstn leaf numrep type b (o, c, work) =
      let room = i.result_max - length o in
      if firstn
      then (Firstn.choose_firstn m (firstn_args v type leaf) b i.fuel numrep room work >>= λ r.
          ok (o ++ r.0, c ++ r.1, r.2))
      else (Indep.choose_indep m (indep_args v numrep type leaf) i.fuel b (min numrep room) work
          >>= λ s. ok (o ++ s.out, c ++ leaves s.out2, s.work))

  -- `for (i = 0; i < wsize; i++)`; an entry that names no bucket of the map is passed.
  pub choose_all :
      Vars → (firstn leaf : Bool) → (numrep : ℕ) → ℤ → List ℤ → Vectors → Outcome Vectors
  choose_all v firstn leaf numrep type [] vs = ok vs
  choose_all v firstn leaf numrep type (pos n ∷ rest) vs =
      choose_all v firstn leaf numrep type rest vs
  choose_all v firstn leaf numrep type (negsuc n ∷ rest) vs = elim (ltb n (length m.buckets)) [
    | false ↦ choose_all v firstn leaf numrep type rest vs
    | true ↦ do
      slot ← must (get_elem? m.buckets n)
      b ← must slot
      vs' ← choose_one v firstn leaf numrep type b vs
      choose_all v firstn leaf numrep type rest vs'
  ]

  -- A choose step: the leaves, where they are asked for, are what is kept.
  pub choose_op : Vars → RuleStep → (firstn leaf : Bool) → Outcome Vars
  choose_op v step firstn leaf =
      let numrep = num_replicas step.arg1 i.result_max in
      if numrep == 0
      then ok (record v { w = [] })
      else (choose_all v firstn leaf numrep step.arg2 v.w ([], [], v.work) >>= λ vs.
          ok (record v { w = if leaf then vs.1 else vs.0; work = vs.2 }))

  -- `if (wsize == 0) break;`
  pub guarded : Vars → RuleStep → (firstn leaf : Bool) → Outcome Vars
  unfolding choose_op
  guarded v step firstn leaf = elim v.w [ [] ↦ ok v | _ ∷ _ ↦ choose_op v step firstn leaf ]

  pub do_step : Op → RuleStep → Vars → Outcome Vars
  unfolding guarded
  do_step Op.take step v = ok (if can_take m step.arg1 then record v { w = step.arg1 ∷ [] } else v)
  do_step set_choose_tries step v =
      ok (record v { choose_tries = if_positive step.arg1 v.choose_tries })
  do_step set_chooseleaf_tries step v =
      ok (record v { choose_leaf_tries = if_positive step.arg1 v.choose_leaf_tries })
  do_step set_choose_local_tries step v =
      ok (record v { local_retries = if_nonneg step.arg1 v.local_retries })
  do_step set_choose_local_fallback_tries step v =
      ok (record v { local_fallback_retries = if_nonneg step.arg1 v.local_fallback_retries })
  do_step set_chooseleaf_vary_r step v = ok (record v { vary_r = if_nonneg step.arg1 v.vary_r })
  do_step set_chooseleaf_stable step v = ok (record v { stable = if_nonneg step.arg1 v.stable })
  do_step choose_firstn step v = guarded v step true false
  do_step chooseleaf_firstn step v = guarded v step true true
  do_step choose_indep step v = guarded v step false false
  do_step chooseleaf_indep step v = guarded v step false true
  do_step emit step v =
      ok (record v { w = []; result = v.result ++ Base.take (i.result_max - length v.result) v.w })
  do_step other step v = ok v

  pub do_steps : List RuleStep → Vars → Outcome Vars
  do_steps [] v = ok v
  do_steps (s ∷ rest) v = do_step s.op s v >>= λ v'. do_steps rest v'

  -- The result vector; a rule number that is out of range gives an empty one.
  pub do_rule : (ruleno : ℕ) → Work → Outcome (List ℤ)
  do_rule ruleno work = elim (get_elem? m.rules ruleno) [
    | none ↦ ok []
    | some slot ↦ do
      rule ← must slot
      v ← do_steps rule.steps (record {
        choose_tries = m.choose_total_tries + 1;
        choose_leaf_tries = 0;
        local_retries = m.choose_local_tries;
        local_fallback_retries = m.choose_local_fallback_tries;
        vary_r = m.chooseleaf_vary_r;
        stable = m.chooseleaf_stable;
        w = [];
        result = [];
        work = work;
      })
      ok v.result
  ]
