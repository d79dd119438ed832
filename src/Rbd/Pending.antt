-- ===== src/Rbd/Pending.antt =====
-- pending_result_dec: several requests that end in any order, and the first error among them.
use xcp_ng_ceph_rbd.Base.{
  ℕ, zero, suc, ◌≡◌, refl, ◌⊎◌, inl, inr, ◌&&◌, Bool, true, false, not, List, [], ◌∷◌, ◌++◌, Option,
  none, some, length, replicate, if◌then◌else◌, ℤ, pos, negsuc,
}
use xcp_ng_ceph_rbd.Crush.Outcome.{Outcome, ok, fault, ◌>>=◌}

-- struct pending_result.
pub record Pending : Type 0 where
  pub result : ℤ
  pub num_pending : ℕ

abbrev pub is_zero : ℤ → Bool
is_zero (pos zero) = true
is_zero (pos (suc n)) = false
is_zero (negsuc n) = false

-- The result of one more request is kept if it is the first error.
abbrev pub keep_first : (kept result : ℤ) → ℤ
keep_first kept result = if not (is_zero result) && is_zero kept then result else kept

abbrev pub dec_from : (num_pending : ℕ) → (kept result : ℤ) → Outcome (Bool × Pending × ℤ)
dec_from zero kept result = fault
dec_from (suc zero) kept result =
    ok (true, record { result = keep_first kept result; num_pending = 0 }, keep_first kept result)
dec_from (suc (suc n)) kept result =
    ok (false, record { result = keep_first kept result; num_pending = suc n }, result)

-- Whether nothing else is pending, and then the result of all.
pub pending_result_dec : Pending → ℤ → Outcome (Bool × Pending × ℤ)
pending_result_dec p result = dec_from p.num_pending p.result result

-- What a caller sees that is told of one end after the other.
abbrev pub answer : Bool → ℤ → Option ℤ
answer true result = some result
answer false result = none

unfoldable pub deliver : Pending → List ℤ → Outcome (List (Option ℤ))
deliver p [] = ok []
deliver p (result ∷ results) = pending_result_dec p result >>= λ (done, p', result').
    (deliver p' results >>= λ answers. ok (answer done result' ∷ answers))

-- The first error, `kept` before all others, or 0.
abbrev pub first_error : (kept : ℤ) → List ℤ → ℤ
first_error kept [] = kept
first_error kept (result ∷ results) = first_error (keep_first kept result) results

-- Of several pending requests whose ends come in any order, exactly the last tells that nothing is
-- pending, with the first error that came, an earlier one before it, or with 0; none of them finds
-- nothing pending.
pub deliver_lem :
    (kept result : ℤ) (results : List ℤ)
    → deliver (record { result = kept; num_pending = suc (length results) }) (result ∷ results)
      ≡ ok (replicate (length results) none ++ (some (first_error kept (result ∷ results)) ∷ []))
unfolding deliver pending_result_dec
deliver_lem kept result [] = refl
deliver_lem kept result (next ∷ results) =
    rw (deliver_lem (keep_first kept result) next results) refl

-- One end among the `suc n` that are pending is the last, or leaves the others.
pub pending_result_dec-cases :
    (p : Pending) (n : ℕ) (result : ℤ)
    → p.num_pending ≡ suc n
    → (pending_result_dec p result
        ≡ ok (
          true,
          record { result = keep_first p.result result; num_pending = 0 },
          keep_first p.result result,
        ))
      ⊎ ((m : ℕ) × (n ≡ suc m)
          × (pending_result_dec p result
              ≡ ok (
                false,
                record { result = keep_first p.result result; num_pending = suc m },
                result,
              )))
unfolding pending_result_dec
pending_result_dec-cases p zero result e = inl (rw e refl)
pending_result_dec-cases p (suc m) result e = inr (m, refl, rw e refl)

-- One more result: nothing was pending, or the result that is kept is that of keep_first, and the one
-- that is told is that or the new one.
pub pending_result_dec-any :
    (p : Pending) (result : ℤ)
    → (pending_result_dec p result ≡ fault)
      ⊎ ((done : Bool) × (q : Pending) × (told : ℤ) × (pending_result_dec p result
            ≡ ok (done, q, told))
          × (q.result ≡ keep_first p.result result)
          × ((told ≡ keep_first p.result result) ⊎ (told ≡ result)))
unfolding pending_result_dec
pending_result_dec-any p result = by p.num_pending
  where
    by :
        (n : ℕ)
        → (dec_from n p.result result ≡ fault)
          ⊎ ((done : Bool) × (q : Pending) × (told : ℤ) × (dec_from n p.result result
                ≡ ok (done, q, told))
              × (q.result ≡ keep_first p.result result)
              × ((told ≡ keep_first p.result result) ⊎ (told ≡ result)))
    by zero = inl refl
    by (suc zero) = inr (true, _, _, refl, refl, inl refl)
    by (suc (suc n)) = inr (false, _, _, refl, refl, inr refl)
