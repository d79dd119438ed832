-- ===== src/MsgrV2/Frame.antt =====
-- The preamble of a frame: its description, how it is written and how it is read.
pub mod Valid
pub mod RoundTrip
pub mod Init
pub mod Accepts
use xcp_ng_ceph_rbd.Base.{
  ℕ, zero, suc, ◌+◌, ◌-◌, ◌*◌, ◌^◌, ◌||◌, Bool, List, [], ◌∷◌, ◌++◌, length, take, drop, get_or,
  ltb, leb, ◌==◌, if◌then◌else◌, u8,
}
use xcp_ng_ceph_rbd.Crush.Outcome.{Outcome, ok, fault, ◌>>=◌}
use xcp_ng_ceph_rbd.Pagelist.{le_bytes}

-- CEPH_MSG_MAX_CONTROL_LEN, also those of the front and of the middle.
abbrev pub max_control_len : ℕ
max_control_len = 16777216

abbrev pub max_data_len : ℕ
max_data_len = 67108864

-- struct ceph_frame_desc; each array has four entries.
pub record Desc : Type 0 where
  pub tag : ℕ
  pub seg_cnt : ℕ
  pub lens : List ℕ
  pub aligns : List ℕ

-- On a machine with 64-bit pointers and pages of 4096 bytes.
abbrev pub frame_aligns : List ℕ
frame_aligns = 8 ∷ 8 ∷ 8 ∷ 4096 ∷ []

-- The first `n` entries of a cleared array to which `xs` is copied.
abbrev pub zero_fill : ℕ → List ℕ → List ℕ
zero_fill zero xs = []
zero_fill (suc n) [] = 0 ∷ zero_fill n []
zero_fill (suc n) (x ∷ xs) = x ∷ zero_fill n xs

-- calc_segment_count, down from the last of `i` entries.
pub count_from : ℕ → List ℕ → ℕ
count_from zero lens = 1
count_from (suc i) lens =
    let rest = count_from i lens in if get_or lens i 0 == 0 then rest else suc i

pub calc_segment_count : List ℕ → ℕ
calc_segment_count lens = count_from (length lens) lens

-- An array that is read behind its end, and BUG_ON, are a fault.
pub init_frame_desc : (tag : ℕ) → (lens : List ℕ) → Outcome Desc
init_frame_desc tag lens =
    if ltb (length lens) (calc_segment_count lens) || ltb 4 (calc_segment_count lens)
    then fault
    else ok (record {
      tag = tag;
      seg_cnt = calc_segment_count lens;
      lens = zero_fill 4 (take (calc_segment_count lens) lens);
      aligns = zero_fill 4 (take (calc_segment_count lens) frame_aligns);
    })

abbrev pub encode_segs : List ℕ → List ℕ → List ℕ
encode_segs (n ∷ lens) (a ∷ aligns) = le_bytes 4 n ++ (le_bytes 2 a ++ encode_segs lens aligns)
encode_segs _ _ = []

-- The bytes in front of the checksum.
abbrev pub preamble_body : Desc → List ℕ
preamble_body d =
    zero_fill 28
      (u8 d.tag ∷ u8 d.seg_cnt ∷ encode_segs (take d.seg_cnt d.lens) (take d.seg_cnt d.aligns))

pub encode_preamble : (crc32c : ℕ → List ℕ → ℕ) → Desc → Outcome (List ℕ)
encode_preamble crc32c d =
    if ltb 4 d.seg_cnt
    then fault
    else ok (preamble_body d ++ le_bytes 4 (crc32c 0 (preamble_body d)))

-- ceph_decode_8, ceph_decode_16 and ceph_decode_32: the next `n` bytes as a number, and the rest.
pub get_le : ℕ → List ℕ → Outcome (ℕ × List ℕ)
get_le zero p = ok (0, p)
get_le (suc n) [] = fault
get_le (suc n) (b ∷ p) = get_le n p >>= λ r. ok (b + 256 * r.0, r.1)

-- 0 with the description, -EBADMSG and -EINVAL.
pub data Verdict : Type 0 where
  accepted : Desc → Verdict
  bad_crc invalid : Verdict

pub decode_segs : ℕ → List ℕ → Outcome (List ℕ × List ℕ)
decode_segs zero p = ok ([], [])
decode_segs (suc cnt) p =
    get_le 4 p >>= λ n. get_le 2 n.1 >>= λ a. decode_segs cnt a.1 >>= λ r. ok (n.0 ∷ r.0, a.0 ∷ r.1)

-- A length is refused if it is negative as an int or over the limit.
abbrev pub is_bad_len : (limit : ℕ) → ℕ → Bool
is_bad_len limit n = leb (2 ^ 31) n || ltb limit n

pub check_desc : Desc → Verdict
check_desc d =
    if is_bad_len max_control_len (get_or d.lens 0 0)
    then invalid
    else if is_bad_len max_control_len (get_or d.lens 1 0)
    then invalid
    else if is_bad_len max_control_len (get_or d.lens 2 0)
    then invalid
    else if is_bad_len max_data_len (get_or d.lens 3 0)
    then invalid
    else if get_or d.lens (d.seg_cnt - 1) 0 == 0
    then invalid
    else accepted d

pub with_segs : (tag seg_cnt : ℕ) → List ℕ × List ℕ → Desc
with_segs tag seg_cnt r = record {
  tag = tag;
  seg_cnt = seg_cnt;
  lens = zero_fill 4 r.0;
  aligns = zero_fill 4 r.1;
}

pub decode_counted : (tag seg_cnt : ℕ) → List ℕ → Outcome Verdict
decode_counted tag seg_cnt p =
    if ltb seg_cnt 1 || ltb 4 seg_cnt
    then ok invalid
    else decode_segs seg_cnt p >>= λ r. ok (check_desc (with_segs tag seg_cnt r))

pub decode_body : List ℕ → Outcome Verdict
decode_body p = get_le 1 p >>= λ tag. get_le 1 tag.1 >>= λ cnt. decode_counted tag.0 cnt.0 cnt.1

pub decode_preamble : (crc32c : ℕ → List ℕ → ℕ) → List ℕ → Outcome Verdict
decode_preamble crc32c p = get_le 4 (drop 28 p) >>= λ expected.
    if crc32c 0 (take 28 p) == expected.0 then decode_body p else ok bad_crc
