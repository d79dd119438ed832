-- ===== src/MsgrV2/Plain.antt =====
-- The tail of a message in plain mode, of messenger_v2.c: front, middle, data and epilogue. What is
-- queued is the bytes in the order in which they are sent; the state machine of either side is run from
-- the end of the head to the end of the epilogue. The pieces in which a cursor walks the data are given
-- as their bytes to the writer, and as their lengths to the reader. Bytes that do not come are a fault.
pub mod Stream
pub mod Write
pub mod Delivers
use xcp_ng_ceph_rbd.Base.{
  ℕ, zero, suc, ◌+◌, ◌-◌, ◌^◌, ◌&&◌, ◌||◌, Bool, true, false, not, List, [], ◌∷◌, ◌++◌, length,
  take, drop, leb, bit_and, ◌==◌, if◌then◌else◌,
}
use xcp_ng_ceph_rbd.Crush.Outcome.{Outcome, ok, fault, ◌>>=◌}
use xcp_ng_ceph_rbd.Pagelist.{le_bytes}
use xcp_ng_ceph_rbd.MsgrV2.Frame.{get_le}
use xcp_ng_ceph_rbd.MsgrV2.OnWire.{epilogue_plain_len}

-- -1 as a __u32.
abbrev pub minus_one : ℕ
minus_one = 4294967295

-- out_epil of struct ceph_connection_v2_info.
pub record Epilogue : Type 0 where
  pub late_status : ℕ
  pub front_crc : ℕ
  pub middle_crc : ℕ
  pub data_crc : ℕ

-- OUT_S_QUEUE_DATA, and OUT_S_FINISH_MESSAGE.
pub data OutState : Type 0 where
  queue_data finish_message : OutState

pub record Msg : Type 0 where
  pub front : List ℕ
  pub middle : List ℕ
  pub pieces : List (List ℕ)

abbrev pub joined : List (List ℕ) → List ℕ
joined [] = []
joined (piece ∷ pieces) = piece ++ joined pieces

pub record Writer : Type 0 where
  pub sent : List ℕ
  pub epil : Epilogue
  pub state : OutState

-- FRAME_LATE_STATUS_ABORTED and FRAME_LATE_STATUS_COMPLETE.
abbrev pub late_status_of : (aborted : Bool) → ℕ
late_status_of aborted = if aborted then 1 else 14

-- The 13 bytes of the epilogue, as the structure is packed.
abbrev pub epilogue_bytes : Epilogue → List ℕ
epilogue_bytes e =
    le_bytes 1 e.late_status
    ++ (le_bytes 4 e.front_crc ++ (le_bytes 4 e.middle_crc ++ le_bytes 4 e.data_crc))

abbrev pub encode_epilogue_plain : (aborted : Bool) → Epilogue → Epilogue
encode_epilogue_plain aborted e = record e { late_status = late_status_of aborted }

abbrev pub prepare_epilogue_plain : (aborted : Bool) → Writer → Writer
prepare_epilogue_plain aborted w = record {
  sent = w.sent ++ epilogue_bytes (encode_epilogue_plain aborted w.epil);
  epil = encode_epilogue_plain aborted w.epil;
  state = finish_message;
}

module _ (crc32c : ℕ → List ℕ → ℕ) where
  -- The parts of prepare_message_plain behind the head.
  abbrev pub put_front : List ℕ → Writer → Writer
  put_front front w =
      if length front == 0
      then record w { epil = record (w.epil) { front_crc = minus_one } }
      else record w {
        sent = w.sent ++ front;
        epil = record (w.epil) { front_crc = crc32c minus_one front };
      }

  abbrev pub put_middle : List ℕ → (data_len : ℕ) → Writer → Writer
  put_middle middle data_len w =
      if length middle == 0
      then record w {
        epil = record (w.epil) { middle_crc = if data_len == 0 then 0 else minus_one };
      }
      else record w {
        sent = w.sent ++ middle;
        epil = record (w.epil) { middle_crc = crc32c minus_one middle };
      }

  abbrev pub end_segments : (data_len : ℕ) → Writer → Writer
  end_segments data_len w =
      if data_len == 0
      then prepare_epilogue_plain false (record w { epil = record (w.epil) { data_crc = 0 } })
      else record w { state = queue_data }

  pub prepare_message_plain : Msg → Writer → Writer
  prepare_message_plain msg w =
      if length msg.front == 0 && length msg.middle == 0
      then if length (joined msg.pieces) == 0
        then record w { state = finish_message }
        else record w {
          epil = record (w.epil) { front_crc = minus_one; middle_crc = minus_one };
          state = queue_data;
        }
      else end_segments (length (joined msg.pieces))
          (put_middle msg.middle (length (joined msg.pieces)) (put_front msg.front w))

  -- queue_data_cont, until the cursor has no bytes left.
  pub queue_data_cont : List (List ℕ) → Writer → Outcome Writer
  queue_data_cont [] w = fault
  queue_data_cont (piece ∷ pieces) w =
      let w' : Writer = record w {
        sent = w.sent ++ piece;
        epil = record (w.epil) { data_crc = crc32c w.epil.data_crc piece };
      } in
      let rest = queue_data_cont pieces w' in
      if length (joined pieces) == 0 then ok (prepare_epilogue_plain false w') else rest

  -- populate_out_iter, to the end of the message.
  abbrev pub finish_tail : OutState → List (List ℕ) → Writer → Outcome Writer
  finish_tail finish_message pieces w = ok w
  finish_tail queue_data pieces w =
      queue_data_cont pieces (record w { epil = record (w.epil) { data_crc = minus_one } })

  pub write_tail : Msg → Writer → Outcome Writer
  write_tail msg w = let w' = prepare_message_plain msg w in finish_tail w'.state msg.pieces w'

-- The lengths of the segments from the header, and those of the pieces of memory for the data.
pub record Wanted : Type 0 where
  pub front_len : ℕ
  pub middle_len : ℕ
  pub piece_lens : List ℕ

abbrev pub sum : List ℕ → ℕ
sum [] = 0
sum (n ∷ ns) = n + sum ns

abbrev pub recv : (n : ℕ) → List ℕ → Outcome (List ℕ × List ℕ)
recv n stream = if leb n (length stream) then ok (take n stream, drop n stream) else fault

-- What is read: -EINVAL, -EBADMSG, or a message, which is handed on.
pub data Reading : Type 0 where
  bad_epilogue bad_crc : Reading
  received : (front middle bytes : List ℕ) → Reading

abbrev pub is_complete : (late_status : ℕ) → Bool
is_complete late_status = bit_and late_status 15 == 14

-- decode_epilogue, with the three checksums.
pub decode_epilogue : List ℕ → Outcome (ℕ × ℕ × ℕ × ℕ)
decode_epilogue p = get_le 1 p >>= λ status. get_le 4 status.1 >>= λ front.
    get_le 4 front.1 >>= λ middle.
    get_le 4 middle.1 >>= λ rest. ok (status.0, front.0, middle.0, rest.0)

module _ (crc32c : ℕ → List ℕ → ℕ) where
  abbrev pub in_front_crc : List ℕ → ℕ
  in_front_crc front = if length front == 0 then minus_one else crc32c minus_one front

  abbrev pub in_middle_crc : List ℕ → (data_len : ℕ) → ℕ
  in_middle_crc middle data_len =
      if length middle == 0 then if data_len == 0 then 0 else minus_one else crc32c minus_one middle

  abbrev pub verify_epilogue_crcs :
      (front middle bytes : List ℕ) → (in_data_crc : ℕ) → (crcs : ℕ × ℕ × ℕ × ℕ) → Reading
  verify_epilogue_crcs front middle bytes in_data_crc crcs =
      if not (in_front_crc front == crcs.1)
      then bad_crc
      else if not (in_middle_crc middle (length bytes) == crcs.2)
      then bad_crc
      else if not ((if length bytes == 0 then 0 else in_data_crc) == crcs.3)
      then bad_crc
      else received front middle bytes

  -- handle_epilogue, with the bytes that follow.
  pub handle_epilogue :
      (front middle bytes : List ℕ) → (in_data_crc : ℕ) → List ℕ → Outcome (Reading × List ℕ)
  handle_epilogue front middle bytes in_data_crc stream = recv epilogue_plain_len stream >>= λ got.
      decode_epilogue got.0 >>= λ crcs. ok (
        (if is_complete crcs.0
            then verify_epilogue_crcs front middle bytes in_data_crc crcs
            else bad_epilogue),
        got.1,
      )

  -- prepare_read_data_cont, until the cursor has no bytes left: the bytes, their checksum and the rest.
  pub read_data : List ℕ → (in_data_crc : ℕ) → List ℕ → Outcome (List ℕ × ℕ × List ℕ)
  read_data [] in_data_crc stream = fault
  read_data (n ∷ lens) in_data_crc stream = recv n stream >>= λ got.
      if sum lens == 0
      then ok (got.0, crc32c in_data_crc got.0, got.1)
      else read_data lens (crc32c in_data_crc got.0) got.1 >>= λ r. ok (got.0 ++ r.0, r.1, r.2)

  -- prepare_read_tail_plain and what populate_in_iter runs after it.
  pub read_tail : Wanted → List ℕ → Outcome (Reading × List ℕ)
  read_tail wanted stream = recv wanted.front_len stream >>= λ front.
      recv wanted.middle_len front.1 >>= λ middle.
      if sum wanted.piece_lens == 0
      then handle_epilogue front.0 middle.0 [] minus_one middle.1
      else read_data wanted.piece_lens minus_one middle.1 >>= λ r.
          handle_epilogue front.0 middle.0 r.0 r.1 r.2
