-- ===== src/Crush/Outcome.antt =====
-- How a computation over the crush map ends. `fault` is a read through a null pointer or outside an
-- array, `stuck` a loop that runs out of its fuel.
use xcp_ng_ceph_rbd.Base.{Option, none, some}

pub data Outcome {ℓ} (A : Type ℓ) : Type ℓ where
  ok : A → Outcome A
  fault stuck : Outcome A

module _ {ℓ κ} {A : Type ℓ} {B : Type κ} where
  -- The rest of a computation runs only after a good end.
  infixl 5 ◌>>=◌
  abbrev pub ◌>>=◌ : Outcome A → (A → Outcome B) → Outcome B
  fault >>= rest = fault
  stuck >>= rest = stuck
  ok a >>= rest = rest a

-- A read that must succeed.
abbrev pub must {ℓ} : {A : Type ℓ} → Option A → Outcome A
must none = fault
must (some a) = ok a
