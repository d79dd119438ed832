-- ===== src/MsgrV2/Plain/Delivers.antt =====
-- What the writer of a message in plain mode sends, the reader takes as the same message.
use xcp_ng_ceph_rbd.Base.{
  ℕ, ◌+◌, ◌≤◌, ◌≡◌, refl, ap, sym, ◌∙◌, true, false, inl, inr, List, [], ◌∷◌, ◌++◌, length, take,
  drop, ◌==◌, if◌then◌else◌, arith, IsU32, Bool-cases, ==_iff, length-append, append_assoc,
  take-append-drop, length-drop,
}
use xcp_ng_ceph_rbd.Crush.Outcome.{ok, ◌>>=◌}
use xcp_ng_ceph_rbd.MsgrV2.Frame.{max_control_len, max_data_len}
use xcp_ng_ceph_rbd.MsgrV2.Frame.RoundTrip.{eq_self}
use xcp_ng_ceph_rbd.MsgrV2.OnWire.{epilogue_plain_len, tail_onwire_len}
use xcp_ng_ceph_rbd.MsgrV2.Plain.{
  minus_one, Epilogue, finish_message, Msg, joined, Writer, epilogue_bytes, write_tail, Wanted, sum,
  received, in_front_crc, in_middle_crc, handle_epilogue, read_data, read_tail,
}
use xcp_ng_ceph_rbd.MsgrV2.Plain.Stream.{
  is_empty, recv-append, decode_epilogue-bytes, length-epilogue_bytes, recv-le, drop-all, take-all,
  IsCrc, if_word, plain_lem, IsFor,
}
use xcp_ng_ceph_rbd.MsgrV2.Plain.Write.{epilogue_of, data_crc_of, tail_bytes, write_tail_lem}

module _ (crc32c : ℕ → List ℕ → ℕ) (crc : IsCrc crc32c) where
  read_data-append :
      (lens : List ℕ) (seed : ℕ) (bytes rest : List ℕ)
      → sum lens ≡ length bytes
      → 1 ≤ length bytes
      → read_data crc32c lens seed (bytes ++ rest) ≡ ok (bytes, crc32c seed bytes, rest)
  unfolding read_data
  read_data-append [] seed bytes rest e some = absurd (omega arith)
  read_data-append (n ∷ lens) seed bytes rest e some = elim (Bool-cases (sum lens == 0)) [
    | inl last ↦
        rw
          (
            recv-le n bytes rest (omega arith),
            last,
            take-all n bytes (whole last),
            drop-all n bytes (whole last),
          )
          refl
    | inr more ↦
        rw
          (
            recv-le n bytes rest (omega arith),
            more,
            read_data-append lens (crc32c seed (take n bytes)) (drop n bytes) rest
                (omega (arith, length-drop n bytes))
                (omega (arith, length-drop n bytes, nonzero more)),
            take-append-drop n bytes,
            crc.split seed (take n bytes) (drop n bytes),
          )
          (ap (λ b. ok (bytes, crc32c seed b, rest)) (take-append-drop n bytes))
  ]
    where
      whole : (sum lens == 0) ≡ true → length bytes ≤ n
      whole eq = omega (arith, (==_iff (sum lens) 0).0 eq)

      nonzero : (sum lens == 0) ≡ false → 1 ≤ sum lens
      nonzero eq = ground arith

  in_crc_word :
      (front middle bytes : List ℕ)
      → IsU32 (in_front_crc crc32c front)
        × IsU32 (in_middle_crc crc32c middle (length bytes))
        × IsU32 (data_crc_of crc32c crc bytes)
  in_crc_word front middle bytes = (
    if_word (length front == 0) (omega arith) (crc.word minus_one front),
    if_word (length middle == 0) (if_word (length bytes == 0) (omega arith) (omega arith))
        (crc.word minus_one middle),
    if_word (length bytes == 0) (omega arith) (crc.word minus_one bytes),
  )

  handle_epilogue_lem :
      (front middle bytes rest : List ℕ) (in_data_crc : ℕ)
      → (if length bytes == 0 then 0 else in_data_crc) ≡ data_crc_of crc32c crc bytes
      → handle_epilogue crc32c front middle bytes in_data_crc
          (epilogue_bytes (epilogue_of crc32c crc front middle bytes) ++ rest)
        ≡ ok (received front middle bytes, rest)
  unfolding handle_epilogue
  handle_epilogue_lem front middle bytes rest in_data_crc same =
      let (f, m, d) = in_crc_word front middle bytes in
      rw
        (
          recv-append (epilogue_bytes (epilogue_of crc32c crc front middle bytes)) rest
              epilogue_plain_len
              (length-epilogue_bytes (epilogue_of crc32c crc front middle bytes)),
          decode_epilogue-bytes (in_front_crc crc32c front)
              (in_middle_crc crc32c middle (length bytes)) (data_crc_of crc32c crc bytes) f m d,
          same,
          eq_self (in_front_crc crc32c front),
          eq_self (in_middle_crc crc32c middle (length bytes)),
          eq_self (data_crc_of crc32c crc bytes),
        )
        refl

  -- The data and the epilogue, behind front and middle.
  read_rest_lem :
      (front middle bytes rest : List ℕ) (lens : List ℕ)
      → sum lens ≡ length bytes
      → (if sum lens == 0
          then handle_epilogue crc32c front middle [] minus_one
              (bytes ++ (epilogue_bytes (epilogue_of crc32c crc front middle bytes) ++ rest))
          else read_data crc32c lens minus_one
              (bytes ++ (epilogue_bytes (epilogue_of crc32c crc front middle bytes) ++ rest))
            >>= λ r. handle_epilogue crc32c front middle r.0 r.1 r.2)
        ≡ ok (received front middle bytes, rest)
  read_rest_lem front middle bytes rest lens e = elim (Bool-cases (sum lens == 0)) [
    | inl empty ↦
        rw (empty, is_empty bytes (ap (λ n. n == 0) (sym e) ∙ empty))
          (handle_epilogue_lem front middle [] rest minus_one refl)
    | inr some ↦
        rw
          (
            some,
            read_data-append lens minus_one bytes
                (epilogue_bytes (epilogue_of crc32c crc front middle bytes) ++ rest) e
                (nonzero some),
          )
          (handle_epilogue_lem front middle bytes rest (crc32c minus_one bytes) refl)
  ]
    where
      nonzero : (sum lens == 0) ≡ false → 1 ≤ length bytes
      nonzero eq = ground arith

  read_tail_lem :
      (msg : Msg) (wanted : Wanted) (rest : List ℕ)
      → IsFor wanted msg
      → read_tail crc32c wanted
          (tail_bytes crc32c crc msg.front msg.middle (joined msg.pieces) ++ rest)
        ≡ ok (received msg.front msg.middle (joined msg.pieces), rest)
  unfolding read_tail tail_bytes
  read_tail_lem msg wanted rest (ef, em, ed) =
      rw
        (
          append_assoc msg.front (msg.middle ++ (joined msg.pieces ++ last)) rest,
          recv-append msg.front ((msg.middle ++ (joined msg.pieces ++ last)) ++ rest)
              wanted.front_len ef,
          append_assoc msg.middle (joined msg.pieces ++ last) rest,
          recv-append msg.middle ((joined msg.pieces ++ last) ++ rest) wanted.middle_len em,
          append_assoc (joined msg.pieces) last rest,
        )
        (read_rest_lem msg.front msg.middle (joined msg.pieces) rest wanted.piece_lens ed)
    where
      last : List ℕ
      last = epilogue_bytes (epilogue_of crc32c crc msg.front msg.middle (joined msg.pieces))

  length-tail_bytes :
      (front middle bytes : List ℕ)
      → 1 ≤ length front + length middle + length bytes
      → length front ≤ max_control_len
      → length middle ≤ max_control_len
      → length bytes ≤ max_data_len
      → tail_onwire_len (length front) (length middle) (length bytes) false
        ≡ ok (length (tail_bytes crc32c crc front middle bytes))
  unfolding tail_bytes
  length-tail_bytes front middle bytes some hf hm hd =
      plain_lem (length front) (length middle) (length bytes) some hf hm hd
      ∙ ap (λ n. ok n)
          (omega (
            arith,
            length-append front (middle ++ (bytes ++ last)),
            length-append middle (bytes ++ last),
            length-append bytes last,
            length-epilogue_bytes (epilogue_of crc32c crc front middle bytes),
          ))
    where
      last : List ℕ
      last = epilogue_bytes (epilogue_of crc32c crc front middle bytes)

-- What the writer sends for a message within the limits has the length that was announced for it, and
-- the reader, with its own pieces of memory, takes the same front, middle and data from it.
pub read_tail-write_tail :
    (crc32c : ℕ → List ℕ → ℕ)
    → IsCrc crc32c
    → (msg : Msg) (wanted : Wanted) (e : Epilogue) (rest : List ℕ)
    → 1 ≤ length msg.front + length msg.middle + length (joined msg.pieces)
    → length msg.front ≤ max_control_len
    → length msg.middle ≤ max_control_len
    → length (joined msg.pieces) ≤ max_data_len
    → IsFor wanted msg
    → (w : Writer) × (write_tail crc32c msg (record { sent = []; epil = e; state = finish_message })
        ≡ ok w)
      × (tail_onwire_len wanted.front_len wanted.middle_len (sum wanted.piece_lens) false
          ≡ ok (length w.sent))
      × (read_tail crc32c wanted (w.sent ++ rest)
          ≡ ok (received msg.front msg.middle (joined msg.pieces), rest))
read_tail-write_tail crc32c crc msg wanted e rest some hf hm hd (ef, em, ed) = (
  record {
    sent = tail_bytes crc32c crc msg.front msg.middle (joined msg.pieces);
    epil = epilogue_of crc32c crc msg.front msg.middle (joined msg.pieces);
    state = finish_message;
  },
  write_tail_lem crc32c crc msg (record { sent = []; epil = e; state = finish_message }) some,
  rw (ef, em, ed)
      (length-tail_bytes crc32c crc msg.front msg.middle (joined msg.pieces) some hf hm hd),
  read_tail_lem crc32c crc msg wanted rest (ef, em, ed),
)
