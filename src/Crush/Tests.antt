-- ===== src/Crush/Tests.antt =====
-- Bucket choices of kernel-modules/src/libceph/crush/mapper.c in a bucket of three devices, and a search for a rule.
use xcp_ng_ceph_rbd.Base.{
  ℕ, some, ◌≡◌, ◌%◌, ◌≢◌, inl, refl, List, [], ◌∷◌, none, ℤ, pos, negsuc, u32, arith,
}
use xcp_ng_ceph_rbd.Crush.Map.{Bucket, WorkBucket, uniform, straw2}
use xcp_ng_ceph_rbd.Crush.Map.{Rule, CrushMap, find_rule}
use xcp_ng_ceph_rbd.Crush.Map.FindRule.{FirstFit, find_rule-FirstFit}
use xcp_ng_ceph_rbd.Crush.Bucket.{perm_index, bucket_choose}
use xcp_ng_ceph_rbd.Crush.Bucket.Perm.{
  Fits, Answers, choice, perm_index-Answers, perm_index-injective,
}
use xcp_ng_ceph_rbd.Crush.Bucket.Member.{Chooses, bucket_choose-Chooses}

abbrev three : List ℤ
three = pos 0 ∷ pos 1 ∷ pos 2 ∷ []

abbrev even : Bucket
even = record { id = negsuc 0; type = 1; alg = uniform 0x10000; hash = 0; items = three }

abbrev drawn : Bucket
drawn = record {
  id = negsuc 0;
  type = 1;
  alg = straw2 (0x10000 ∷ 0 ∷ 0x8000 ∷ []);
  hash = 0;
  items = three;
}

-- As crush_init_workspace leaves it, over whatever the memory held.
abbrev fresh : WorkBucket
fresh = record { perm_x = 0; perm_n = 0; perm = 9 ∷ 9 ∷ 9 ∷ [] }

fresh-Fits : Fits even fresh
fresh-Fits = record { whole = refl; part = inl refl }

drawn-Fits : Fits drawn fresh
drawn-Fits = record { whole = refl; part = inl refl }

-- The same area with other values left in it, after a call for another input.
abbrev used : WorkBucket
used = record { perm_x = 4; perm_n = 0; perm = 7 ∷ 0 ∷ 7 ∷ [] }

used-Fits : Fits even used
used-Fits = record { whole = refl; part = inl refl }

abbrev first_answer : Answers even 17 1 (perm_index even fresh 17 1)
first_answer = perm_index-Answers even fresh 17 1 (omega arith) fresh-Fits

abbrev second_answer : Answers even 17 2 (perm_index even used 17 2)
second_answer = perm_index-Answers even used 17 2 (omega arith) used-Fits

injective_example : choice even 17 1 ≢ choice even 17 2
injective_example =
    perm_index-injective even fresh used 17 1 2 (choice even 17 1) (choice even 17 2) first_answer.0
      second_answer.0 (omega arith) (omega arith) (omega arith) fresh-Fits used-Fits (omega arith)
      first_answer.1 second_answer.1

answers_example : Answers even 17 (u32 5 % 3) (perm_index even fresh 17 5)
answers_example = perm_index-Answers even fresh 17 5 (omega arith) fresh-Fits

Chooses-example : Chooses drawn (bucket_choose drawn fresh 17 5 none 0)
Chooses-example = bucket_choose-Chooses drawn fresh 17 5 none 0 (omega arith) refl tt drawn-Fits

-- Rule 0 is for up to 2 copies, slot 1 is empty, and rules 2 and 3 are for 3 and more.
abbrev rule_for : ℕ → ℕ → Rule
rule_for low high = record { rule_set = 5; type = 1; min_size = low; max_size = high; steps = [] }

abbrev with_rules : CrushMap
with_rules = record {
  buckets = some even ∷ [];
  rules = some (rule_for 1 2) ∷ none ∷ some (rule_for 3 10) ∷ some (rule_for 3 12) ∷ [];
  max_devices = 3;
  choose_local_tries = 0;
  choose_local_fallback_tries = 0;
  choose_total_tries = 50;
  chooseleaf_descend_once = 1;
  chooseleaf_vary_r = 1;
  chooseleaf_stable = 1;
}

find_rule-4 : find_rule with_rules 5 1 4 ≡ pos 2
unfolding find_rule
find_rule-4 = refl

FirstFit_example : FirstFit with_rules.rules 0 5 1 4 (find_rule with_rules 5 1 4)
FirstFit_example = find_rule-FirstFit with_rules 5 1 4
