-- ===== src/Rbd/Image.antt =====
-- rbd_img_advance of kernel-modules/src/rbd/rbd.c: an image request takes the exclusive lock, starts its object requests, and ends
-- with the last of them.
use xcp_ng_ceph_rbd.Base.{
  ℕ, zero, suc, ◌+◌, ◌≢◌, ◌&&◌, not, ◌≡◌, refl, ap, ◌∙◌, Bool, true, false, List, [], ◌∷◌, ◌++◌,
  Option, none, some, length, replicate, if◌then◌else◌, ℤ, pos, negsuc, arith,
}
use xcp_ng_ceph_rbd.Crush.Outcome.{Outcome, ok, fault, stuck, ◌>>=◌}
use xcp_ng_ceph_rbd.Rbd.Pending.{
  Pending, is_zero, pending_result_dec, answer, deliver, first_error, deliver_lem,
}

-- enum rbd_img_state; the last but one is __RBD_IMG_OBJECT_REQUESTS.
pub data ImgState : Type 0 where
  start exclusive_lock waiting object_requests : ImgState

-- struct rbd_img_request, with what each object request answers when it is started: nothing yet, or
-- its result.
pub record Img : Type 0 where
  pub state : ImgState
  pub pending : Pending
  pub requests : List (Option ℤ)

-- The loop of rbd_img_object_requests: an error stops it, and nothing more is started.
unfoldable pub start_requests : List (Option ℤ) → Pending → Pending
start_requests [] p = p
start_requests (none ∷ rest) p =
    start_requests rest (record { result = p.result; num_pending = suc p.num_pending })
start_requests (some result ∷ rest) p =
    let further = start_requests rest p in
    if is_zero result then further else record { result = result; num_pending = p.num_pending }

pub is_idle : Pending → Bool
is_idle p = elim p.num_pending [ zero ↦ is_zero p.result | suc n ↦ false ]

-- rbd_img_object_requests, with its assertion that nothing is pending.
pub img_object_requests : Img → Outcome Pending
img_object_requests img =
    if is_idle img.pending then ok (start_requests img.requests img.pending) else fault

-- With no object request left to wait for, the request ends.
abbrev pub after_start : Img → (num_pending : ℕ) → Pending → Outcome (Bool × Img × ℤ)
after_start img zero p = ok (true, record img { state = object_requests; pending = p }, p.result)
after_start img (suc n) p = ok (false, record img { state = waiting; pending = p }, pos 0)

-- The state after the lock; `is_owner` is whether the client may go on.
pub locked : Img → (is_owner : Bool) → (result : ℤ) → Outcome (Bool × Img × ℤ)
locked img is_owner result =
    if is_zero result
    then if is_owner
      then (img_object_requests img >>= λ p. after_start img p.num_pending p)
      else fault
    else ok (true, img, result)

-- What rbd_img_exclusive_lock returned: an error, 0 for a lock to wait for, or that it is held.
abbrev pub try_lock : Img → (lock : ℤ) → (is_owner : Bool) → Outcome (Bool × Img × ℤ)
try_lock img (negsuc n) is_owner = ok (true, img, negsuc n)
try_lock img (pos zero) is_owner = ok (false, record img { state = exclusive_lock }, pos 0)
try_lock img (pos (suc n)) is_owner =
    locked (record img { state = exclusive_lock }) is_owner (pos 0)

-- rbd_img_advance, with the result that `*result` has in the end.
abbrev pub advance_from :
    ImgState → Img → (lock : ℤ) → (is_owner : Bool) → (result : ℤ) → Outcome (Bool × Img × ℤ)
advance_from start img lock is_owner result =
    if is_zero result then try_lock img lock is_owner else fault
advance_from exclusive_lock img lock is_owner result = locked img is_owner result
advance_from waiting img lock is_owner result =
    pending_result_dec img.pending result >>= λ (done, p, result').
    ok (done, record img { pending = p }, result')
advance_from object_requests img lock is_owner result = ok (true, img, result)

pub img_advance : Img → (lock : ℤ) → (is_owner : Bool) → (result : ℤ) → Outcome (Bool × Img × ℤ)
img_advance img lock is_owner result = advance_from img.state img lock is_owner result

-- An image request that waits, and the ends of object requests, one after the other.
pub img_deliver : Img → List ℤ → Outcome (List (Option ℤ))
img_deliver img [] = ok []
img_deliver img (result ∷ results) =
    img_advance img (pos 1) true result >>= λ (done, img', result').
    (img_deliver img' results >>= λ answers. ok (answer done result' ∷ answers))

-- A new request, and how many of its object requests are still to end once they were started.
abbrev pub new_img : List (Option ℤ) → Img
new_img requests = record {
  state = start;
  pending = record { result = pos 0; num_pending = 0 };
  requests = requests;
}

abbrev waiting_for : List (Option ℤ) → Pending → Img
waiting_for requests p = record { state = waiting; pending = p; requests = requests }

-- While an image request waits, it counts its object requests.
delivers :
    (requests : List (Option ℤ)) (results : List ℤ) (p : Pending)
    → img_deliver (waiting_for requests p) results ≡ deliver p results
unfolding img_deliver deliver img_advance
delivers requests [] p = refl
delivers requests (result ∷ results) p =
    step (λ q. delivers requests results q) (pending_result_dec p result)
  where
    step :
        ((q : Pending) → img_deliver (waiting_for requests q) results ≡ deliver q results)
        → (o : Outcome (Bool × Pending × ℤ))
        → ((o >>= λ (done, p', result'). ok (done, waiting_for requests p', result'))
            >>= λ (done, img', result').
                (img_deliver img' results >>= λ answers. ok (answer done result' ∷ answers)))
          ≡ (o >>= λ (done, p', result').
              (deliver p' results >>= λ answers. ok (answer done result' ∷ answers)))
    step further fault = refl
    step further stuck = refl
    step further (ok (done, p', result')) = rw (further p') refl

-- What the start of object requests leads to: how many of them are left to wait for, and the error
-- that stopped the start, or 0.
pub data Starts : List (Option ℤ) → (count : ℕ) → (result : ℤ) → Type 0 where
  all_started : Starts [] 0 (pos 0)
  one_waits :
      {rest : List (Option ℤ)} {n : ℕ} {e : ℤ} → Starts rest n e → Starts (none ∷ rest) (suc n) e
  one_ended :
      {rest : List (Option ℤ)} {n : ℕ} {e : ℤ} → Starts rest n e → Starts (some (pos 0) ∷ rest) n e
  one_failed : {rest : List (Option ℤ)} (e : ℤ) → e ≢ pos 0 → Starts (some e ∷ rest) 0 e

-- The first error of a list of results, or 0.
pub data FirstError : List ℤ → ℤ → Type 0 where
  no_error : FirstError [] (pos 0)
  later_error : {results : List ℤ} {e : ℤ} → FirstError results e → FirstError (pos 0 ∷ results) e
  here : {results : List ℤ} (e : ℤ) → e ≢ pos 0 → FirstError (e ∷ results) e

is_zero-false : (e : ℤ) → e ≢ pos 0 → is_zero e ≡ false
is_zero-false (pos zero) h = absurd (h refl)
is_zero-false (pos (suc n)) h = refl
is_zero-false (negsuc n) h = refl

start_requests-Starts :
    {requests : List (Option ℤ)} {n : ℕ} {e : ℤ}
    → Starts requests n e
    → (k : ℕ)
    → start_requests requests (record { result = pos 0; num_pending = k })
      ≡ record { result = e; num_pending = k + n }
unfolding start_requests
start_requests-Starts all_started k =
    ap (λ m. record { result = pos 0; num_pending = m }) (omega arith)
start_requests-Starts (one_waits {rest} {n} {e} s) k =
    start_requests-Starts s (suc k) ∙ ap (λ m. record { result = e; num_pending = m }) (omega arith)
start_requests-Starts (one_ended s) k = start_requests-Starts s k
start_requests-Starts (one_failed e h) k =
    rw (is_zero-false e h) (ap (λ m. record { result = e; num_pending = m }) (omega arith))

first_error-kept : (e : ℤ) → is_zero e ≡ false → (results : List ℤ) → first_error e results ≡ e
first_error-kept e h [] = refl
first_error-kept e h (r ∷ results) =
    ap (λ kept. first_error kept results) (keeps (is_zero r)) ∙ first_error-kept e h results
  where
    keeps : (b : Bool) → (if not b && is_zero e then r else e) ≡ e
    keeps true = refl
    keeps false = rw h refl

first_error-FirstError :
    {results : List ℤ} {e : ℤ} → FirstError results e → first_error (pos 0) results ≡ e
first_error-FirstError no_error = refl
first_error-FirstError (later_error h) = first_error-FirstError h
first_error-FirstError (here {results} e h) =
    rw (is_zero-false e h) (first_error-kept e (is_zero-false e h) results)

-- How an image request that has the lock goes on: it ends at once if no object request is left, or it
-- waits, and ends with the last of them.
abbrev pub Ended : List (Option ℤ) → List ℤ → ℤ → Type 0
Ended requests [] e =
    (img : Img) × (img_advance (new_img requests) (pos 1) true (pos 0) ≡ ok (true, img, e))
Ended requests (result ∷ results) e =
    (img : Img) × (img_advance (new_img requests) (pos 1) true (pos 0) ≡ ok (false, img, pos 0))
    × (img_deliver img (result ∷ results) ≡ ok (replicate (length results) none ++ (some e ∷ [])))

abbrev owner : List (Option ℤ) → Img
owner requests = record {
  state = exclusive_lock;
  pending = record { result = pos 0; num_pending = 0 };
  requests = requests;
}

ends_now :
    (img : Img) (num_pending : ℕ) (p : Pending)
    → num_pending ≡ 0
    → after_start img num_pending p
      ≡ ok (true, record img { state = object_requests; pending = p }, p.result)
ends_now img zero p e = refl
ends_now img (suc n) p e = absurd (omega arith)

begun :
    (requests : List (Option ℤ)) (n : ℕ) (e : ℤ)
    → Starts requests n e
    → start_requests requests (record { result = pos 0; num_pending = 0 })
      ≡ record { result = e; num_pending = n }
begun requests n e s =
    start_requests-Starts s 0 ∙ ap (λ m. record { result = e; num_pending = m }) (omega arith)

first_error-one :
    (kept : ℤ) (results : List ℤ) (e : ℤ)
    → FirstError (kept ∷ results) e
    → first_error kept results ≡ e
first_error-one _ _ _ (later_error h) = first_error-FirstError h
first_error-one _ results _ (here e h) = first_error-kept e (is_zero-false e h) results

-- An image request that has the lock, whose start leaves `n` object requests to wait for and `kept` as
-- the error that stopped it, ends exactly once: when it starts, if `n` is 0, and else with the last of
-- the `n` results. It ends with the error that stopped the start, or else with the first error that
-- came, or with 0.
pub img_advance-Ended :
    (requests : List (Option ℤ)) (results : List ℤ) (n : ℕ) (kept e : ℤ)
    → Starts requests n kept
    → n ≡ length results
    → FirstError (kept ∷ results) e
    → Ended requests results e
unfolding img_advance locked img_object_requests is_idle
img_advance-Ended requests [] n kept e s same h =
    rw
      (
        begun requests n kept s,
        ends_now (owner requests) n (record { result = kept; num_pending = n }) same,
        first_error-one kept [] e h,
      )
      (_, refl)
img_advance-Ended requests (result ∷ results) n kept e s same h =
    let p : Pending = record { result = kept; num_pending = suc (length results) } in
    let start =
      begun requests n kept s ∙ ap (λ m. record { result = kept; num_pending = m }) same in
    rw start (
      waiting_for requests p,
      refl,
      delivers requests (result ∷ results) p
          ∙ deliver_lem kept result results
          ∙ ap (λ x. ok (replicate (length results) none ++ (some x ∷ [])))
              (first_error-one kept (result ∷ results) e h),
    )
