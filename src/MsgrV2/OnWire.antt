-- ===== src/MsgrV2/OnWire.antt =====
-- How many bytes a frame takes, of messenger_v2.c. A BUG_ON is a fault.
use xcp_ng_ceph_rbd.Base.{
  ℕ, ◌+◌, ◌-◌, ◌*◌, ◌/◌, ◌%◌, ◌≤◌, ◌<◌, ◌≡◌, ◌⊎◌, ◌&&◌, ◌||◌, Bool, true, false, not, ltb, ◌==◌,
  if◌then◌else◌, arith,
}
use xcp_ng_ceph_rbd.Crush.Outcome.{Outcome, ok, fault}
use xcp_ng_ceph_rbd.MsgrV2.Frame.{max_control_len, max_data_len, is_bad_len}

-- CEPH_GCM_BLOCK_LEN, also CEPH_GCM_TAG_LEN.
abbrev pub block_len : ℕ
block_len = 16

abbrev pub tag_len : ℕ
tag_len = 16

abbrev pub crc_len : ℕ
crc_len = 4

abbrev pub preamble_len : ℕ
preamble_len = 32

abbrev pub inline_len : ℕ
inline_len = 48

-- CEPH_PREAMBLE_SECURE_LEN.
abbrev pub preamble_secure_len : ℕ
preamble_secure_len = preamble_len + inline_len + tag_len

-- CEPH_EPILOGUE_PLAIN_LEN and CEPH_EPILOGUE_SECURE_LEN.
abbrev pub epilogue_plain_len : ℕ
epilogue_plain_len = 1 + 3 * crc_len

abbrev pub epilogue_secure_len : ℕ
epilogue_secure_len = block_len + tag_len

-- need_padding, padded_len and padding_len.
abbrev pub need_padding : ℕ → Bool
need_padding len = not (len % block_len == 0)

abbrev pub padded_len : ℕ → ℕ
padded_len len = (len + block_len - 1) / block_len * block_len

abbrev pub padding_len : ℕ → ℕ
padding_len len = padded_len len - len

unfoldable pub head_onwire_len : (ctrl_len : ℕ) → (secure : Bool) → Outcome ℕ
head_onwire_len ctrl_len secure =
    if is_bad_len max_control_len ctrl_len
    then fault
    else if secure
    then ok (
        if ltb inline_len ctrl_len
        then preamble_secure_len + (padded_len (ctrl_len - inline_len) + tag_len)
        else preamble_secure_len)
    else ok (if ctrl_len == 0 then preamble_len else preamble_len + (ctrl_len + crc_len))

-- __tail_onwire_len.
unfoldable pub tail_onwire_len : (front_len middle_len data_len : ℕ) → (secure : Bool) → Outcome ℕ
tail_onwire_len front_len middle_len data_len secure =
    if is_bad_len max_control_len front_len
      || (is_bad_len max_control_len middle_len || is_bad_len max_data_len data_len)
    then fault
    else if front_len == 0 && (middle_len == 0 && data_len == 0)
    then ok 0
    else if secure
    then ok
        (padded_len front_len + padded_len middle_len + padded_len data_len + epilogue_secure_len)
    else ok (front_len + middle_len + data_len + epilogue_plain_len)

-- Padding goes up to the next block.
pub padded_len-lt :
    (n : ℕ) → (n ≤ padded_len n) × (padded_len n < n + block_len) × (padded_len n % block_len ≡ 0)
padded_len-lt n = (omega arith, omega arith, omega arith)

-- No padding where none is needed.
pub need_padding-padding_len :
    (n : ℕ)
    → ((need_padding n ≡ false) × (padding_len n ≡ 0))
      ⊎ ((need_padding n ≡ true) × (1 ≤ padding_len n))
need_padding-padding_len n = ground arith
