-- ===== src/MsgrV2/Control.antt =====
-- The head of a frame, of messenger_v2.c: which pieces of memory are queued for the preamble and the
-- control segment, and which are set up to read a control segment. `crypt` tells of each call of
-- gcm_crypt, by its number, whether it ends well, and `alloc` of each size whether there is memory.
pub mod Bounds
use xcp_ng_ceph_rbd.Base.{
  ℕ, ◌+◌, ◌-◌, ◌*◌, ◌/◌, ◌%◌, ◌&&◌, ◌||◌, Bool, true, false, not, List, [], ◌∷◌, leb, ltb, ◌==◌,
  if◌then◌else◌,
}
use xcp_ng_ceph_rbd.Crush.Outcome.{Outcome, ok, ◌>>=◌}
use xcp_ng_ceph_rbd.MsgrV2.OnWire.{
  crc_len, tag_len, preamble_len, inline_len, preamble_secure_len, padded_len, padding_len,
  head_onwire_len,
}

-- The buffer of the frame, the further data of a control segment, and in_buf of the connection.
pub data Buffer : Type 0 where
  base extdata in_buf : Buffer

pub record Kvec : Type 0 where
  pub buffer : Buffer
  pub off : ℕ
  pub len : ℕ

abbrev pub kvec : Buffer → ℕ → ℕ → Kvec
kvec buffer off len = record { buffer = buffer; off = off; len = len }

-- The pieces, or the pieces behind the allocation of a buffer of a size; -EINVAL, -ENOMEM, or the error
-- of gcm_crypt.
pub data Queued : Type 0 where
  queued : List Kvec → Queued
  allocated : (size : ℕ) → List Kvec → Queued
  einval enomem crypt_error : Queued

pub prepare_head_plain : (ctrl_len extdata_len : ℕ) → List Kvec
prepare_head_plain ctrl_len extdata_len =
    let base_len = preamble_len + ctrl_len + crc_len in
    if extdata_len == 0
    then kvec base 0 base_len ∷ []
    else kvec base 0 (base_len - crc_len)
      ∷ kvec extdata 0 extdata_len
      ∷ kvec base (base_len - crc_len) crc_len
      ∷ []

pub prepare_head_secure_small : (crypt : ℕ → Bool) → Queued
prepare_head_secure_small crypt =
    if crypt 0 then queued (kvec base 0 preamble_secure_len ∷ []) else crypt_error

-- `rem` is where the part of the control segment begins that is not in the preamble.
pub prepare_head_secure_big : (crypt : ℕ → Bool) → (ctrl_len : ℕ) → Queued
prepare_head_secure_big crypt ctrl_len =
    let rem = preamble_len + inline_len in
    let rem_tag = rem + padded_len (ctrl_len - inline_len) in
    let pmbl_tag = rem_tag + tag_len in
    if crypt 0 && crypt 1
    then queued (kvec base 0 rem ∷ kvec base pmbl_tag tag_len ∷ kvec base rem (pmbl_tag - rem) ∷ [])
    else crypt_error

-- __prepare_control, behind the preamble.
pub prepare_control :
    (crypt : ℕ → Bool)
    → (secure is_vmalloc to_be_signed : Bool) → (ctrl_len extdata_len : ℕ) → Queued
prepare_control crypt secure is_vmalloc to_be_signed ctrl_len extdata_len =
    if is_vmalloc || ctrl_len == 0
    then einval
    else if secure
    then if not (extdata_len == 0) || to_be_signed
      then einval
      else if leb ctrl_len inline_len
      then prepare_head_secure_small crypt
      else prepare_head_secure_big crypt ctrl_len
    else queued (prepare_head_plain ctrl_len extdata_len)

-- prepare_read_control; `handshake` tells that the connection is in the state V2_HELLO or V2_AUTH, when
-- the preamble is kept in front. Else in_buf, or a buffer of the size of the segment, is read to.
abbrev pub with_buffer : (alloc : ℕ → Bool) → (size : ℕ) → List Kvec → Queued
with_buffer alloc size kvecs = if alloc size then allocated size kvecs else enomem

abbrev pub read_whole : (alloc : ℕ → Bool) → (ctrl_len : ℕ) → ℕ → Outcome Queued
read_whole alloc ctrl_len head_len = ok (
    with_buffer alloc head_len
      (kvec base preamble_len ctrl_len ∷ kvec base (preamble_len + ctrl_len) crc_len ∷ []))

pub prepare_read_control : (alloc : ℕ → Bool) → (handshake : Bool) → (ctrl_len : ℕ) → Outcome Queued
prepare_read_control alloc handshake ctrl_len =
    if handshake
    then head_onwire_len ctrl_len false >>= read_whole alloc ctrl_len
    else if leb ctrl_len inline_len
    then ok (queued (kvec in_buf preamble_len ctrl_len ∷ kvec in_buf 0 crc_len ∷ []))
    else ok (with_buffer alloc ctrl_len (kvec base 0 ctrl_len ∷ kvec in_buf 0 crc_len ∷ []))

-- prepare_read_control_remainder.
pub prepare_read_control_remainder : (alloc : ℕ → Bool) → (ctrl_len : ℕ) → Queued
prepare_read_control_remainder alloc ctrl_len =
    let rem_len = ctrl_len - inline_len in
    with_buffer alloc ctrl_len
      (kvec base inline_len rem_len ∷ kvec in_buf 0 (padding_len rem_len + tag_len) ∷ [])
