-- ===== src/MsgrV2/Control/Bounds.antt =====
-- The pieces of memory of a head lie in their buffers and are as long as the head on the wire.
use xcp_ng_ceph_rbd.Base.{
  ℕ, ◌+◌, ◌-◌, ◌≤◌, ◌≡◌, ◌↔◌, ◌⊎◌, inl, inr, refl, ap, sym, ◌∙◌, Bool-cases, ==_iff, Bool, true,
  false, List, [], ◌∷◌, leb, ltb, ◌==◌, if◌then◌else◌, arith,
}
use xcp_ng_ceph_rbd.Crush.Outcome.{ok}
use xcp_ng_ceph_rbd.MsgrV2.Frame.{max_control_len}
use xcp_ng_ceph_rbd.MsgrV2.OnWire.{
  crc_len, tag_len, preamble_len, inline_len, preamble_secure_len, padded_len, head_onwire_len,
}
use xcp_ng_ceph_rbd.MsgrV2.Control.{
  Buffer, base, extdata, in_buf, Kvec, kvec, Queued, queued, allocated, prepare_head_plain,
  prepare_head_secure_small, prepare_head_secure_big, prepare_control, prepare_read_control,
}

abbrev pub total : List Kvec → ℕ
total [] = 0
total (k ∷ ks) = k.len + total ks

-- The sizes of the three buffers.
abbrev pub size : (base_len extdata_len : ℕ) → Buffer → ℕ
size base_len extdata_len base = base_len
size base_len extdata_len extdata = extdata_len
size base_len extdata_len in_buf = preamble_secure_len

abbrev pub IsInside : (base_len extdata_len : ℕ) → List Kvec → Type 0
IsInside base_len extdata_len [] = Unit
IsInside base_len extdata_len (k ∷ ks) =
    (k.off + k.len ≤ size base_len extdata_len k.buffer) × IsInside base_len extdata_len ks

-- The length of the head as a number.
abbrev pub head_len : (ctrl_len : ℕ) → (secure : Bool) → ℕ
head_len ctrl_len true =
    if ltb inline_len ctrl_len
    then preamble_secure_len + (padded_len (ctrl_len - inline_len) + tag_len)
    else preamble_secure_len
head_len ctrl_len false =
    if ctrl_len == 0 then preamble_len else preamble_len + (ctrl_len + crc_len)

head_onwire_len-head_len :
    (ctrl_len : ℕ) (secure : Bool)
    → ctrl_len ≤ max_control_len
    → head_onwire_len ctrl_len secure ≡ ok (head_len ctrl_len secure)
unfolding head_onwire_len
head_onwire_len-head_len ctrl_len true h = ground arith
head_onwire_len-head_len ctrl_len false h = ground arith

-- A control segment that is written: with a buffer of the length that head_onwire_len tells for its
-- first part, what is queued lies in its buffers and is as long as the head for the whole.
abbrev Fills : Queued → (ctrl_len extdata_len : ℕ) → (secure : Bool) → Type 0
Fills r ctrl_len extdata_len secure =
    (ks : List Kvec) × (r ≡ queued ks)
    × IsInside (head_len ctrl_len secure) extdata_len ks
    × (total ks ≡ head_len (ctrl_len + extdata_len) secure)

plain-Fills :
    (ctrl_len extdata_len : ℕ)
    → 1 ≤ ctrl_len
    → Fills (queued (prepare_head_plain ctrl_len extdata_len)) ctrl_len extdata_len false
unfolding prepare_head_plain
plain-Fills ctrl_len extdata_len some = elim (Bool-cases (extdata_len == 0)) [
  | inl empty ↦ (
    kvec base 0 (preamble_len + ctrl_len + crc_len) ∷ [],
    rw empty refl,
    (ground arith, tt),
    ground (arith, (==_iff extdata_len 0).0 empty),
  )
  | inr full ↦ (
    kvec base 0 (preamble_len + ctrl_len + crc_len - crc_len)
        ∷ kvec extdata 0 extdata_len
        ∷ kvec base (preamble_len + ctrl_len + crc_len - crc_len) crc_len
        ∷ [],
    rw full refl,
    (ground arith, (omega arith, (ground arith, tt))),
    ground arith,
  )
]

secure-Fills :
    (crypt : ℕ → Bool) (ctrl_len : ℕ)
    → ((n : ℕ) → crypt n ≡ true)
    → Fills
        (if leb ctrl_len inline_len
          then prepare_head_secure_small crypt
          else prepare_head_secure_big crypt ctrl_len)
        ctrl_len
        0
        true
unfolding prepare_head_secure_small prepare_head_secure_big
secure-Fills crypt ctrl_len works = elim (Bool-cases (leb ctrl_len inline_len)) [
  | inl small ↦ (
    kvec base 0 preamble_secure_len ∷ [],
    rw (small, works 0) refl,
    (ground arith, tt),
    ground arith,
  )
  | inr big ↦ (
    kvec base 0 80
        ∷ kvec base (80 + padded_len (ctrl_len - inline_len) + tag_len) tag_len
        ∷ kvec base 80 (80 + padded_len (ctrl_len - inline_len) + tag_len - 80)
        ∷ [],
    rw (big, works 0, works 1) refl,
    (ground arith, (ground arith, (ground arith, tt))),
    ground arith,
  )
]

-- The head of a control frame: what is queued lies in the buffer of the length that head_onwire_len
-- tells for the first part, and in the further data, and is as long as it tells for the whole.
pub prepare_control_lem :
    (crypt : ℕ → Bool) (secure to_be_signed : Bool) (ctrl_len extdata_len : ℕ)
    → ((n : ℕ) → crypt n ≡ true)
    → 1 ≤ ctrl_len
    → ctrl_len + extdata_len ≤ max_control_len
    → (secure ≡ true → (extdata_len ≡ 0) × (to_be_signed ≡ false))
    → (base_len : ℕ) × (ks : List Kvec) × (head_onwire_len ctrl_len secure ≡ ok base_len)
      × (prepare_control crypt secure false to_be_signed ctrl_len extdata_len ≡ queued ks)
      × IsInside base_len extdata_len ks
      × (head_onwire_len (ctrl_len + extdata_len) secure ≡ ok (total ks))
unfolding prepare_control
prepare_control_lem crypt false to_be_signed ctrl_len extdata_len works some fits plain =
    let (ks, e, inside, sum) = plain-Fills ctrl_len extdata_len some in
    (
      head_len ctrl_len false,
      ks,
      head_onwire_len-head_len ctrl_len false (omega arith),
      rw (used) e,
      inside,
      head_onwire_len-head_len (ctrl_len + extdata_len) false fits ∙ ap (λ n. ok n) (sym sum),
    )
  where
    used : (ctrl_len == 0) ≡ false
    used = ground arith
prepare_control_lem crypt true to_be_signed ctrl_len extdata_len works some fits plain =
    let (ks, e, inside, sum) = secure-Fills crypt ctrl_len works in
    let (absent, unsigned) = plain refl in
    rw (absent, unsigned)
      (
        head_len ctrl_len true,
        ks,
        head_onwire_len-head_len ctrl_len true (omega arith),
        rw (used) e,
        inside,
        head_onwire_len-head_len (ctrl_len + 0) true (omega arith) ∙ ap (λ n. ok n) (sym sum),
      )
  where
    used : (ctrl_len == 0) ≡ false
    used = ground arith

-- What is set up to read: pieces in a buffer of the size that was allocated for them, or without one.
abbrev pub Reads : Queued → (size : ℕ) → List Kvec → Type 0
Reads (queued ks') size ks = (size ≡ 0) × (ks ≡ ks')
Reads (allocated size' ks') size ks = (size ≡ size') × (ks ≡ ks')
Reads _ size ks = ⊥

-- What is set up to read a control segment stays in the buffer that is allocated for it, if there is one,
-- and in that of the connection, unless the segment is empty and the
-- connection is in the handshake: then the checksum is read behind the end of the buffer. A segment that
-- is not empty is as long as the head on the wire without its preamble.
pub prepare_read_control_iff :
    (alloc : ℕ → Bool) (handshake : Bool) (ctrl_len : ℕ)
    → ((n : ℕ) → alloc n ≡ true)
    → ctrl_len ≤ max_control_len
    → (head : ℕ) × (r : Queued) × (size : ℕ) × (ks : List Kvec) × (head_onwire_len ctrl_len false
        ≡ ok head)
      × (prepare_read_control alloc handshake ctrl_len ≡ ok r)
      × Reads r size ks
      × (IsInside size 0 ks ↔ ((handshake ≡ false) ⊎ (1 ≤ ctrl_len)))
      × (1 ≤ ctrl_len → preamble_len + total ks ≡ head)
unfolding prepare_read_control
prepare_read_control_iff alloc true ctrl_len memory fits =
    let ks = kvec base preamble_len ctrl_len ∷ kvec base (preamble_len + ctrl_len) crc_len ∷ [] in
    (
      head_len ctrl_len false,
      allocated (head_len ctrl_len false) ks,
      head_len ctrl_len false,
      ks,
      head_onwire_len-head_len ctrl_len false fits,
      rw (head_onwire_len-head_len ctrl_len false fits, memory (head_len ctrl_len false)) refl,
      (refl, refl),
      ground arith,
      λ some. ground arith,
    )
prepare_read_control_iff alloc false ctrl_len memory fits =
    elim (Bool-cases (leb ctrl_len inline_len)) [
      | inl small ↦
          let ks = kvec in_buf preamble_len ctrl_len ∷ kvec in_buf 0 crc_len ∷ [] in
          (
            head_len ctrl_len false,
            queued ks,
            0,
            ks,
            head_onwire_len-head_len ctrl_len false fits,
            rw small refl,
            (refl, refl),
            ground arith,
            λ some. ground arith,
          )
      | inr big ↦
          let ks = kvec base 0 ctrl_len ∷ kvec in_buf 0 crc_len ∷ [] in
          (
            head_len ctrl_len false,
            allocated ctrl_len ks,
            ctrl_len,
            ks,
            head_onwire_len-head_len ctrl_len false fits,
            rw (big, memory ctrl_len) refl,
            (refl, refl),
            ground arith,
            λ some. ground arith,
          )
    ]
