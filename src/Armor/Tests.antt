-- ===== src/Armor/Tests.antt =====
-- "Hello" in base64, and back.
use xcp_ng_ceph_rbd.Base.{◌≡◌, refl, List, [], ◌∷◌, ℕ, some, All, IsByte, arith}
use xcp_ng_ceph_rbd.Armor.{armor, unarmor}
use xcp_ng_ceph_rbd.Armor.RoundTrip.{unarmor-armor}

abbrev hello : List ℕ
hello = 72 ∷ 101 ∷ 108 ∷ 108 ∷ 111 ∷ []

-- "SGVsbG8=".
armor-hello : armor hello ≡ 83 ∷ 71 ∷ 86 ∷ 115 ∷ 98 ∷ 71 ∷ 56 ∷ 61 ∷ []
unfolding armor
armor-hello = refl

hello-All : All IsByte hello
hello-All = (omega arith, (omega arith, (omega arith, (omega arith, (omega arith, tt)))))

unarmor-armor_example : unarmor (armor hello) ≡ some hello
unarmor-armor_example = unarmor-armor hello hello-All
