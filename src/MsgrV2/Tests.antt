-- ===== src/MsgrV2/Tests.antt =====
-- Runs on concrete frames, and witnesses of the theorems.
use xcp_ng_ceph_rbd.Base.{
  ℕ, ◌+◌, ◌%◌, ◌^◌, ◌<◌, ◌≤◌, ◌≡◌, ◌≢◌, ◌↔◌, ◌⊎◌, refl, true, false, List, [], ◌∷◌, ◌++◌, length,
  take, drop, arith,
}
use xcp_ng_ceph_rbd.Crush.Outcome.{ok}
use xcp_ng_ceph_rbd.MsgrV2.Frame.{
  Desc, init_frame_desc, encode_preamble, get_le, accepted, bad_crc, invalid, decode_preamble,
}
use xcp_ng_ceph_rbd.MsgrV2.Frame.Valid.{IsValid}
use xcp_ng_ceph_rbd.MsgrV2.Frame.Init.{decode_preamble-init_frame_desc}
use xcp_ng_ceph_rbd.MsgrV2.Frame.Accepts.{decode_preamble-IsValid}
use xcp_ng_ceph_rbd.MsgrV2.OnWire.{tag_len, preamble_len, tail_onwire_len, head_onwire_len}
use xcp_ng_ceph_rbd.MsgrV2.Scatter.{Sg, Message, cursor, table, setup_message_sgs}
use xcp_ng_ceph_rbd.MsgrV2.Scatter.Entries.{total}
use xcp_ng_ceph_rbd.MsgrV2.Scatter.Whole.{IsWhole, setup_message_sgs_lem}
use xcp_ng_ceph_rbd.MsgrV2.Plain.{
  Epilogue, finish_message, Msg, Writer, Wanted, received, write_tail, read_tail,
}
use xcp_ng_ceph_rbd.MsgrV2.Plain.Stream.{IsCrc}
use xcp_ng_ceph_rbd.MsgrV2.Plain.Delivers.{read_tail-write_tail}
use xcp_ng_ceph_rbd.MsgrV2.Control.{Kvec, Queued, queued, prepare_control, prepare_read_control}
use xcp_ng_ceph_rbd.MsgrV2.Control.Bounds.{IsInside, prepare_control_lem, prepare_read_control_iff}
use xcp_ng_ceph_rbd.MsgrV2.Control.Bounds

-- A checksum in place of crc32c: the sum of the bytes.
abbrev checksum : ℕ → List ℕ → ℕ
checksum seed [] = seed % 2 ^ 32
checksum seed (byte ∷ bytes) = checksum (seed + byte) bytes

checksum-word : (seed : ℕ) (bytes : List ℕ) → checksum seed bytes < 2 ^ 32
checksum-word seed [] = omega arith
checksum-word seed (byte ∷ bytes) = checksum-word (seed + byte) bytes

checksum-mod :
    (m n : ℕ) (bytes : List ℕ) → m % 2 ^ 32 ≡ n % 2 ^ 32 → checksum m bytes ≡ checksum n bytes
checksum-mod m n [] e = e
checksum-mod m n (byte ∷ bytes) e = checksum-mod (m + byte) (n + byte) bytes (omega arith)

checksum-split :
    (seed : ℕ) (xs ys : List ℕ) → checksum (checksum seed xs) ys ≡ checksum seed (xs ++ ys)
checksum-split seed [] ys = checksum-mod (seed % 2 ^ 32) seed ys (omega arith)
checksum-split seed (x ∷ xs) ys = checksum-split (seed + x) xs ys

checksum-IsCrc : IsCrc checksum
checksum-IsCrc = record { word = checksum-word; split = checksum-split }

-- A message of 41 bytes of header and 5 bytes of front.
abbrev message_lens : List ℕ
message_lens = 41 ∷ 5 ∷ 0 ∷ 0 ∷ []

decode_preamble-init_frame_desc_example :
    (d : Desc) × (p : List ℕ) × (init_frame_desc 17 message_lens ≡ ok d)
    × (encode_preamble checksum d ≡ ok p)
    × (length p ≡ 32)
    × (decode_preamble checksum p ≡ ok (accepted d))
    × (d.tag ≡ 17)
    × (d.lens ≡ message_lens)
decode_preamble-init_frame_desc_example =
    decode_preamble-init_frame_desc checksum checksum-word 17 message_lens 1 (omega arith)
      (omega arith) (omega arith) (λ e. omega (arith, e))

-- A preamble with two segments, of which the last is empty, and its sum.
abbrev empty_last : List ℕ
empty_last =
    17 ∷ 2 ∷ 41 ∷ 0 ∷ 0 ∷ 0 ∷ 8 ∷ 0 ∷ 0 ∷ 0 ∷ 0 ∷ 0 ∷ 8 ∷ 0 ∷ 0 ∷ 0 ∷ 0 ∷ 0 ∷ 0 ∷ 0 ∷ 0 ∷ 0 ∷ 0 ∷ 0
    ∷ 0 ∷ 0 ∷ 0 ∷ 0 ∷ 76 ∷ 0 ∷ 0 ∷ 0 ∷ []

decode_preamble-IsValid_example :
    (expected : ℕ) × (get_le 4 (drop 28 empty_last) ≡ ok (expected, []))
    × (((checksum 0 (take 28 empty_last) ≢ expected)
          × (decode_preamble checksum empty_last ≡ ok bad_crc))
        ⊎ ((checksum 0 (take 28 empty_last) ≡ expected)
            × ((decode_preamble checksum empty_last ≡ ok invalid)
                ⊎ ((d : Desc) × (decode_preamble checksum empty_last ≡ ok (accepted d))
                    × IsValid d))))
decode_preamble-IsValid_example = decode_preamble-IsValid checksum empty_last refl (omega arith)

-- A front in vmalloc'ed memory over two pages, and data of 20 bytes in two pieces.
abbrev two_pieces : Message
two_pieces = record {
  front_len = 5000;
  front_vmalloc = true;
  middle_len = 0;
  middle_vmalloc = false;
  data_len = 20;
  source = cursor (12 ∷ 8 ∷ []);
}

setup_message_sgs_lem_example :
    (cnt : ℕ) × (sgs : List Sg) × (tail_len : ℕ) × (setup_message_sgs (λ n. true) 2 two_pieces false
      ≡ ok (table cnt sgs))
    × (length sgs ≡ cnt)
    × (tail_onwire_len 5000 0 20 true ≡ ok tail_len)
    × (total sgs + tag_len ≡ tail_len)
    × IsWhole two_pieces false sgs
setup_message_sgs_lem_example =
    setup_message_sgs_lem (λ n. true) 2 two_pieces false
      (record {
        front_fits = omega arith;
        middle_fits = omega arith;
        data_fits = omega arith;
        used = omega arith;
        front_pages = omega arith;
        middle_pages = omega arith;
        given = refl;
      })
      (λ n. refl)

-- A front of three bytes and data of five, written in pieces of two and three, read in one of five.
abbrev greeting : Msg
greeting = record {
  front = 1 ∷ 2 ∷ 3 ∷ [];
  middle = [];
  pieces = (10 ∷ 20 ∷ []) ∷ (30 ∷ 40 ∷ 50 ∷ []) ∷ [];
}

abbrev one_piece : Wanted
one_piece = record { front_len = 3; middle_len = 0; piece_lens = 5 ∷ [] }

abbrev no_epilogue : Epilogue
no_epilogue = record { late_status = 0; front_crc = 0; middle_crc = 0; data_crc = 0 }

read_tail-write_tail_example :
    (w : Writer) × (write_tail checksum greeting
        (record { sent = []; epil = no_epilogue; state = finish_message })
      ≡ ok w)
    × (tail_onwire_len 3 0 5 false ≡ ok (length w.sent))
    × (read_tail checksum one_piece (w.sent ++ (9 ∷ []))
        ≡ ok (received (1 ∷ 2 ∷ 3 ∷ []) [] (10 ∷ 20 ∷ 30 ∷ 40 ∷ 50 ∷ []), 9 ∷ []))
read_tail-write_tail_example =
    read_tail-write_tail checksum checksum-IsCrc greeting one_piece no_epilogue (9 ∷ [])
      (omega arith) (omega arith) (omega arith) (omega arith) (refl, refl, refl)

prepare_control_lem_example :
    (base_len : ℕ) × (ks : List Kvec) × (head_onwire_len 100 true ≡ ok base_len)
    × (prepare_control (λ n. true) true false false 100 0 ≡ queued ks)
    × IsInside base_len 0 ks
    × (head_onwire_len 100 true ≡ ok (Bounds.total ks))
prepare_control_lem_example =
    prepare_control_lem (λ n. true) true false 100 0 (λ n. refl) (omega arith) (omega arith)
      (λ e. (refl, refl))

-- An empty control segment in the handshake.
prepare_read_control_iff_example :
    (head : ℕ) × (r : Queued) × (size : ℕ) × (ks : List Kvec) × (head_onwire_len 0 false ≡ ok head)
    × (prepare_read_control (λ n. true) true 0 ≡ ok r)
    × Bounds.Reads r size ks
    × (IsInside size 0 ks ↔ ((true ≡ false) ⊎ (1 ≤ 0)))
    × (1 ≤ 0 → preamble_len + Bounds.total ks ≡ head)
prepare_read_control_iff_example =
    prepare_read_control_iff (λ n. true) true 0 (λ n. refl) (omega arith)
