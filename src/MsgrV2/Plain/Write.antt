-- ===== src/MsgrV2/Plain/Write.antt =====
-- What the writer of a message in plain mode sends.
use xcp_ng_ceph_rbd.Base.{
  ℕ, ◌+◌, ◌≤◌, ◌≡◌, refl, ap, ◌∙◌, true, false, inl, inr, List, [], ◌∷◌, ◌++◌, length, ◌==◌,
  if◌then◌else◌, arith, Bool-cases, append-nil, append_assoc,
}
use xcp_ng_ceph_rbd.Crush.Outcome.{ok}
use xcp_ng_ceph_rbd.MsgrV2.Plain.{
  minus_one, Epilogue, queue_data, finish_message, Msg, joined, Writer, epilogue_bytes,
  prepare_epilogue_plain, put_front, put_middle, end_segments, prepare_message_plain,
  queue_data_cont, finish_tail, write_tail, in_front_crc, in_middle_crc,
}
use xcp_ng_ceph_rbd.MsgrV2.Plain.Stream.{is_empty, IsCrc, append_four}

module _ (crc32c : ℕ → List ℕ → ℕ) (crc : IsCrc crc32c) where
  abbrev pub data_crc_of : List ℕ → ℕ
  data_crc_of bytes = if length bytes == 0 then 0 else crc32c minus_one bytes

  -- The epilogue of a message.
  abbrev pub epilogue_of : (front middle bytes : List ℕ) → Epilogue
  epilogue_of front middle bytes = record {
    late_status = 14;
    front_crc = in_front_crc crc32c front;
    middle_crc = in_middle_crc crc32c middle (length bytes);
    data_crc = data_crc_of bytes;
  }

  queue_data_cont-joined :
      (pieces : List (List ℕ)) (w : Writer)
      → 1 ≤ length (joined pieces)
      → queue_data_cont crc32c pieces w
        ≡ ok (
            prepare_epilogue_plain false (record w {
              sent = w.sent ++ joined pieces;
              epil = record (w.epil) { data_crc = crc32c w.epil.data_crc (joined pieces) };
            }))
  unfolding queue_data_cont
  queue_data_cont-joined [] w some = absurd (omega arith)
  queue_data_cont-joined (piece ∷ pieces) w some = elim (Bool-cases (length (joined pieces) == 0)) [
    | inl last ↦ rw (last, is_empty (joined pieces) last, append-nil piece) refl
    | inr more ↦
        rw
          (
            more,
            queue_data_cont-joined pieces
                (record {
                  sent = w.sent ++ piece;
                  epil = record (w.epil) { data_crc = crc32c w.epil.data_crc piece };
                  state = w.state;
                })
                (nonzero more),
            append_assoc w.sent piece (joined pieces),
            crc.split w.epil.data_crc piece (joined pieces),
          )
          refl
  ]
    where
      nonzero : (length (joined pieces) == 0) ≡ false → 1 ≤ length (joined pieces)
      nonzero e = ground arith

  put_front_lem :
      (front : List ℕ) (w : Writer)
      → put_front crc32c front w ≡ record w {
        sent = w.sent ++ front;
        epil = record (w.epil) { front_crc = in_front_crc crc32c front };
      }
  put_front_lem front w = elim (Bool-cases (length front == 0)) [
    | inl empty ↦ rw (empty, is_empty front empty, append-nil w.sent) refl
    | inr some ↦ rw some refl
  ]

  put_middle_lem :
      (middle : List ℕ) (data_len : ℕ) (w : Writer)
      → put_middle crc32c middle data_len w ≡ record w {
        sent = w.sent ++ middle;
        epil = record (w.epil) { middle_crc = in_middle_crc crc32c middle data_len };
      }
  put_middle_lem middle data_len w = elim (Bool-cases (length middle == 0)) [
    | inl empty ↦ rw (empty, is_empty middle empty, append-nil w.sent) refl
    | inr some ↦ rw some refl
  ]

  prepare_message_plain_lem :
      (msg : Msg) (w : Writer)
      → 1 ≤ length msg.front + length msg.middle + length (joined msg.pieces)
      → prepare_message_plain crc32c msg w
        ≡ end_segments crc32c (length (joined msg.pieces)) (
            put_middle crc32c msg.middle
              (length (joined msg.pieces))
              (put_front crc32c msg.front w))
  unfolding prepare_message_plain
  prepare_message_plain_lem msg w some = elim (Bool-cases (length msg.front == 0)) [
    | inl front ↦ elim (Bool-cases (length msg.middle == 0)) [
      | inl middle ↦ rw (front, middle, used front middle) refl
      | inr middle ↦ rw (front, middle) refl
    ]
    | inr front ↦ rw front refl
  ]
    where
      used :
          (length msg.front == 0) ≡ true
          → (length msg.middle == 0) ≡ true
          → (length (joined msg.pieces) == 0) ≡ false
      used front middle = ground arith

  -- The writer at the end of the segments that it has put.
  closed : (pieces : List (List ℕ)) → Writer → Writer
  closed pieces w = prepare_epilogue_plain false (record w {
    sent = w.sent ++ joined pieces;
    epil = record (w.epil) { data_crc = data_crc_of (joined pieces) };
  })

  finish_tail_lem :
      (pieces : List (List ℕ)) (w : Writer)
      → let w' = end_segments crc32c (length (joined pieces)) w in
        finish_tail crc32c w'.state pieces w' ≡ ok (closed pieces w)
  unfolding closed
  finish_tail_lem pieces w = elim (Bool-cases (length (joined pieces) == 0)) [
    | inl empty ↦ rw (empty, is_empty (joined pieces) empty, append-nil w.sent) refl
    | inr some ↦
        rw
          (
            some,
            queue_data_cont-joined pieces
                (record w { state = queue_data; epil = record (w.epil) { data_crc = minus_one } })
                (nonzero some),
          )
          refl
  ]
    where
      nonzero : (length (joined pieces) == 0) ≡ false → 1 ≤ length (joined pieces)
      nonzero e = ground arith

  -- All that is written of a message, behind what stands already.
  unfoldable pub tail_bytes : (front middle bytes : List ℕ) → List ℕ
  tail_bytes front middle bytes =
      front ++ (middle ++ (bytes ++ epilogue_bytes (epilogue_of front middle bytes)))

  pub write_tail_lem :
      (msg : Msg) (w : Writer)
      → 1 ≤ length msg.front + length msg.middle + length (joined msg.pieces)
      → write_tail crc32c msg w
        ≡ ok (record {
          sent = w.sent ++ tail_bytes msg.front msg.middle (joined msg.pieces);
          epil = epilogue_of msg.front msg.middle (joined msg.pieces);
          state = finish_message;
        })
  unfolding write_tail tail_bytes closed
  write_tail_lem msg w some =
      ap (λ v. finish_tail crc32c v.state msg.pieces v) (prepare_message_plain_lem msg w some)
      ∙ finish_tail_lem msg.pieces
          (put_middle crc32c msg.middle (length (joined msg.pieces)) (put_front crc32c msg.front w))
      ∙ ap (λ v. ok (closed msg.pieces v))
          (put_middle_lem msg.middle (length (joined msg.pieces)) (put_front crc32c msg.front w))
      ∙ ap
          (λ v. ok (
            closed msg.pieces (record v {
              sent = v.sent ++ msg.middle;
              epil = record (v.epil) {
                middle_crc = in_middle_crc crc32c msg.middle (length (joined msg.pieces));
              };
            })))
          (put_front_lem msg.front w)
      ∙ ap
          (λ s. ok (record {
            sent = s;
            epil = epilogue_of msg.front msg.middle (joined msg.pieces);
            state = finish_message;
          }))
          (append_four w.sent msg.front msg.middle (joined msg.pieces)
            (epilogue_bytes (epilogue_of msg.front msg.middle (joined msg.pieces))))
