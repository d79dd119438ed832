-- ===== src/MsgrV2/Plain/Stream.antt =====
-- Streams of bytes, the bytes of an epilogue, and what is known of crc32c.
use xcp_ng_ceph_rbd.Base.{
  ℕ, zero, suc, ◌+◌, ◌≤◌, ◌≡◌, refl, ap, sym, ◌∙◌, Bool, true, false, List, [], ◌∷◌, ◌++◌, length,
  take, drop, leb, ◌==◌, if◌then◌else◌, arith, IsU32, ==_iff, length-append, append-nil,
  append_assoc, take-append_exact, take-append-drop, length-take,
}
use xcp_ng_ceph_rbd.Crush.Outcome.{ok}
use xcp_ng_ceph_rbd.Pagelist.{le_bytes}
use xcp_ng_ceph_rbd.MsgrV2.Frame.{get_le, max_control_len, max_data_len}
use xcp_ng_ceph_rbd.MsgrV2.Frame.RoundTrip.{get_le-le_bytes, length-le_bytes, drop-append_exact}
use xcp_ng_ceph_rbd.MsgrV2.OnWire.{epilogue_plain_len, tail_onwire_len}
use xcp_ng_ceph_rbd.MsgrV2.Plain.{
  Epilogue, Msg, joined, epilogue_bytes, Wanted, sum, recv, decode_epilogue,
}

-- What the header announces, in pieces of memory for all of the data.
abbrev pub IsFor : Wanted → Msg → Type 0
IsFor wanted msg =
    (wanted.front_len ≡ length msg.front)
    × (wanted.middle_len ≡ length msg.middle)
    × (sum wanted.piece_lens ≡ length (joined msg.pieces))

pub is_empty : {A : Type 0} (xs : List A) → (length xs == 0) ≡ true → xs ≡ []
is_empty [] e = refl
is_empty (x ∷ xs) e = absurd (omega (arith, (==_iff (suc (length xs)) 0).0 e))

pub recv-append : (xs ys : List ℕ) (n : ℕ) → n ≡ length xs → recv n (xs ++ ys) ≡ ok (xs, ys)
recv-append xs ys n e = rw (fits, front, behind) refl
  where
    fits : leb n (length (xs ++ ys)) ≡ true
    fits = ground (arith, length-append xs ys)

    front : take n (xs ++ ys) ≡ xs
    front = ap (λ k. take k (xs ++ ys)) e ∙ take-append_exact xs ys

    behind : drop n (xs ++ ys) ≡ ys
    behind = ap (λ k. drop k (xs ++ ys)) e ∙ drop-append_exact xs ys

pub recv-le :
    (n : ℕ) (bytes rest : List ℕ)
    → n ≤ length bytes
    → recv n (bytes ++ rest) ≡ ok (take n bytes, drop n bytes ++ rest)
recv-le n bytes rest h =
    ap (λ s. recv n s)
      (ap (λ t. t ++ rest) (sym (take-append-drop n bytes))
        ∙ append_assoc (take n bytes) (drop n bytes) rest)
    ∙ recv-append (take n bytes) (drop n bytes ++ rest) n (omega (arith, length-take n bytes))

pub drop-all : (n : ℕ) (xs : List ℕ) → length xs ≤ n → drop n xs ≡ []
drop-all zero [] h = refl
drop-all zero (x ∷ xs) h = absurd (omega arith)
drop-all (suc n) [] h = refl
drop-all (suc n) (x ∷ xs) h = drop-all n xs (omega arith)

pub take-all : (n : ℕ) (xs : List ℕ) → length xs ≤ n → take n xs ≡ xs
take-all zero [] h = refl
take-all zero (x ∷ xs) h = absurd (omega arith)
take-all (suc n) [] h = refl
take-all (suc n) (x ∷ xs) h = ap (λ t. x ∷ t) (take-all n xs (omega arith))

-- A complete epilogue of three words is read as it was written.
pub decode_epilogue-bytes :
    (f m d : ℕ)
    → IsU32 f
    → IsU32 m
    → IsU32 d
    → decode_epilogue
        (epilogue_bytes (record { late_status = 14; front_crc = f; middle_crc = m; data_crc = d }))
      ≡ ok (14, f, m, d)
unfolding decode_epilogue
decode_epilogue-bytes f m d hf hm hd =
    rw
      (
        get_le-le_bytes 1 14 (le_bytes 4 f ++ (le_bytes 4 m ++ le_bytes 4 d)) (omega arith),
        get_le-le_bytes 4 f (le_bytes 4 m ++ le_bytes 4 d) hf,
        get_le-le_bytes 4 m (le_bytes 4 d) hm,
        ap (λ p. get_le 4 p) (sym (append-nil (le_bytes 4 d))) ∙ get_le-le_bytes 4 d [] hd,
      )
      refl

pub length-epilogue_bytes : (e : Epilogue) → epilogue_plain_len ≡ length (epilogue_bytes e)
length-epilogue_bytes e = omega (
  arith,
  length-append (le_bytes 1 e.late_status)
      (le_bytes 4 e.front_crc ++ (le_bytes 4 e.middle_crc ++ le_bytes 4 e.data_crc)),
  length-append (le_bytes 4 e.front_crc) (le_bytes 4 e.middle_crc ++ le_bytes 4 e.data_crc),
  length-append (le_bytes 4 e.middle_crc) (le_bytes 4 e.data_crc),
  length-le_bytes 1 e.late_status,
  length-le_bytes 4 e.front_crc,
  length-le_bytes 4 e.middle_crc,
  length-le_bytes 4 e.data_crc,
)

-- What crc32c is: a word, which for bytes in two parts is that of the second from that of the first.
pub record IsCrc (crc32c : ℕ → List ℕ → ℕ) : Type 0 where
  pub word : (seed : ℕ) (bytes : List ℕ) → IsU32 (crc32c seed bytes)
  pub split : (seed : ℕ) (xs ys : List ℕ) → crc32c (crc32c seed xs) ys ≡ crc32c seed (xs ++ ys)

pub if_word : (b : Bool) {x y : ℕ} → IsU32 x → IsU32 y → IsU32 (if b then x else y)
if_word true hx hy = hx
if_word false hx hy = hy

pub append_four : (s f m b e : List ℕ) → (((s ++ f) ++ m) ++ b) ++ e ≡ s ++ (f ++ (m ++ (b ++ e)))
append_four s f m b e =
    append_assoc ((s ++ f) ++ m) b e
    ∙ append_assoc (s ++ f) m (b ++ e)
    ∙ append_assoc s f (m ++ (b ++ e))

pub plain_lem :
    (f m d : ℕ)
    → 1 ≤ f + m + d
    → f ≤ max_control_len
    → m ≤ max_control_len
    → d ≤ max_data_len
    → tail_onwire_len f m d false ≡ ok (f + m + d + epilogue_plain_len)
unfolding tail_onwire_len
plain_lem f m d some hf hm hd = ground arith
