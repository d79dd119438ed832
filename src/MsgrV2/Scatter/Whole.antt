-- ===== src/MsgrV2/Scatter/Whole.antt =====
-- The table of a whole message against the length of the tail of its frame.
use xcp_ng_ceph_rbd.Base.{
  ℕ, ◌+◌, ◌*◌, ◌&&◌, ◌≤◌, ◌≡◌, refl, Bool, true, false, List, [], ◌∷◌, ◌++◌, length, ◌==◌,
  if◌then◌else◌, arith, length-append,
}
use xcp_ng_ceph_rbd.Crush.Outcome.{ok}
use xcp_ng_ceph_rbd.Pagelist.{page_size}
use xcp_ng_ceph_rbd.MsgrV2.Frame.{max_control_len, max_data_len}
use xcp_ng_ceph_rbd.MsgrV2.OnWire.{block_len, tag_len, padded_len, tail_onwire_len}
use xcp_ng_ceph_rbd.MsgrV2.Scatter.{
  Sg, on_buf, calc_sg_cnt, Message, table, message_cnt, message_sgs, setup_message_sgs,
}
use xcp_ng_ceph_rbd.MsgrV2.Scatter.Entries.{
  total, total-append, Spans, init_sgs-Spans, IsPart, place_of,
}
use xcp_ng_ceph_rbd.MsgrV2.Scatter.Data.{IsGiven, data-Counted, place_in}

-- A message within the limits of a frame that is not empty, with its data at hand.
pub record IsReady (fuel : ℕ) (msg : Message) : Type 0 where
  pub front_fits : msg.front_len ≤ max_control_len
  pub middle_fits : msg.middle_len ≤ max_control_len
  pub data_fits : msg.data_len ≤ max_data_len
  pub used : 1 ≤ msg.front_len + msg.middle_len + msg.data_len
  pub front_pages : msg.front_len ≤ fuel * page_size
  pub middle_pages : msg.middle_len ≤ fuel * page_size
  pub given : IsGiven fuel msg.source msg.data_len

abbrev segment_bytes : Message → ℕ
segment_bytes msg = padded_len msg.front_len + padded_len msg.middle_len + padded_len msg.data_len

abbrev pub last_len : Bool → ℕ
last_len add_tag = block_len + (if add_tag then tag_len else 0)

-- The entries of the front, the middle and the data, each with its padding, and the one of the epilogue.
abbrev pub IsWhole : Message → (add_tag : Bool) → List Sg → Type 0
IsWhole msg add_tag sgs =
    (front : List Sg) × (middle : List Sg) × (rest : List Sg) × (sgs
      ≡ front ++ (middle ++ (rest ++ (on_buf (last_len add_tag) ∷ []))))
    × IsPart (place_of msg.front_vmalloc) msg.front_len front
    × IsPart (place_of msg.middle_vmalloc) msg.middle_len middle
    × IsPart (place_in msg.source) msg.data_len rest

message-Counted :
    (fuel : ℕ) (msg : Message) (add_tag : Bool)
    → IsReady fuel msg
    → (cnt : ℕ) × (message_cnt msg ≡ ok cnt)
      × Spans
          (message_sgs fuel msg add_tag)
          cnt
          (segment_bytes msg + last_len add_tag)
          (IsWhole msg add_tag)
unfolding message_cnt message_sgs
message-Counted fuel msg add_tag h =
    let (front, ef, nf, tf, pf) =
      init_sgs-Spans fuel msg.front_vmalloc msg.front_len h.front_pages in
    let (middle, em, nm, tm, pm) =
      init_sgs-Spans fuel msg.middle_vmalloc msg.middle_len h.middle_pages in
    let (cnt, counted, (rest, ed, nd, td, pd)) =
      data-Counted fuel msg.source msg.data_len h.given in
    let last : List Sg = on_buf (last_len add_tag) ∷ [] in
    rw (counted, ef, em, ed)
      (
        1
            + calc_sg_cnt msg.front_vmalloc msg.front_len
            + calc_sg_cnt msg.middle_vmalloc msg.middle_len
            + cnt,
        refl,
        (
          front ++ (middle ++ (rest ++ last)),
          refl,
          omega (
            arith,
            length-append front (middle ++ (rest ++ last)),
            length-append middle (rest ++ last),
            length-append rest last,
          ),
          omega (
            arith,
            total-append front (middle ++ (rest ++ last)),
            total-append middle (rest ++ last),
            total-append rest last,
          ),
          (front, middle, rest, refl, pf, pm, pd),
        ),
      )

tail_onwire_len-secure :
    (fuel : ℕ) (msg : Message)
    → IsReady fuel msg
    → tail_onwire_len msg.front_len msg.middle_len msg.data_len true
      ≡ ok (segment_bytes msg + (block_len + tag_len))
unfolding tail_onwire_len
tail_onwire_len-secure fuel msg h = ground arith

-- With memory the table has as many entries as were counted, and they hold as many bytes as the tail
-- of the frame on the wire, but for the tag where it is not asked for: the bytes of the front, of the
-- middle and of the data, where they stand and in their order, each with its padding, and the epilogue.
pub setup_message_sgs_lem :
    (alloc : ℕ → Bool) (fuel : ℕ) (msg : Message) (add_tag : Bool)
    → IsReady fuel msg
    → ((cnt : ℕ) → alloc cnt ≡ true)
    → (cnt : ℕ) × (sgs : List Sg) × (tail_len : ℕ) × (setup_message_sgs alloc fuel msg add_tag
        ≡ ok (table cnt sgs))
      × (length sgs ≡ cnt)
      × (tail_onwire_len msg.front_len msg.middle_len msg.data_len true ≡ ok tail_len)
      × (total sgs + (if add_tag then 0 else tag_len) ≡ tail_len)
      × IsWhole msg add_tag sgs
unfolding setup_message_sgs
setup_message_sgs_lem alloc fuel msg add_tag h memory =
    let (cnt, counted, (sgs, set, many, all, whole)) = message-Counted fuel msg add_tag h in
    (
      cnt,
      sgs,
      segment_bytes msg + (block_len + tag_len),
      rw (used, counted, memory cnt, set) refl,
      many,
      tail_onwire_len-secure fuel msg h,
      tag_in add_tag all,
      whole,
    )
  where
    used : (msg.front_len == 0 && (msg.middle_len == 0 && msg.data_len == 0)) ≡ false
    used = ground (arith, h.used)

    tag_in :
        (tag : Bool) {n : ℕ}
        → n ≡ segment_bytes msg + last_len tag
        → n + (if tag then 0 else tag_len) ≡ segment_bytes msg + (block_len + tag_len)
    tag_in true e = omega arith
    tag_in false e = omega arith
