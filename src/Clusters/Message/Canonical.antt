-- ===== src/Clusters/Message/Canonical.antt =====
-- utils/clusters/message.go: what the decoder answers on any buffer of bytes.
use emberdb.Prelude.{
  ℕ, ◌+◌, ◌/◌, ◌%◌, ◌^◌, ◌≤◌, ◌<◌, ◌≡◌, refl, sym, ap, ◌∙◌, Option, some, [], ◌++◌, arith, Str,
  length, str_eq, if_both, ltb, ◌==◌, not,
}
use emberdb.Prelude.BigEndian.{put_u16, put_u32}
use emberdb.Prelude.Reader.{
  IsBytes, with_read, read_bytes-Reads, read_u16-Reads, read_u32-Reads, copy_into, length-zero,
}
use emberdb.Clusters.Node.{slot_words}
use emberdb.Clusters.Message.{
  ClusterMsg, Deserialized, message, refused, too_short, invalid_signature, length_mismatch,
  invalid_payload, signature, header_size, gossip_size, name_size, word_at, words_of, put_words,
  put_fields, put_gossips, encode_cluster_msg, serialize_cluster_msg, read_fields, read_payload,
  read_length, deserialize_cluster_msg,
}
use emberdb.Clusters.Message.Gossips.{read_name-Reads, read_gossips-Reads}
use emberdb.Clusters.Message.Slots.{read_words-Reads, length-read_words, words_of-word_at}
use mathlib.Core.List.{append_assoc, append-nil}

-- What an answer tells of the buffer: a message is serialized to it, and only a buffer without room
-- for a header is too short.
abbrev pub Answers : Str → Deserialized → Type 0
Answers buf (message msg) = serialize_cluster_msg msg ≡ some buf
Answers buf (refused too_short) = length buf < header_size
Answers buf (refused e) = header_size ≤ length buf

abbrev Answered : Str → Option Deserialized → Type 0
Answered buf r = (d : Deserialized) × (r ≡ some d) × Answers buf d

put_u16_mod : (n : ℕ) → put_u16 (n % 2 ^ 16) ≡ put_u16 n
put_u16_mod n =
    let hi : n % 2 ^ 16 / 2 ^ 8 % 256 ≡ n / 2 ^ 8 % 256 = omega arith in
    let lo : n % 2 ^ 16 % 256 ≡ n % 256 = omega arith in rw (hi, lo) refl

module _ (sig : Str) where
  read_fields-Reads :
      (tot_len : ℕ) (buf : Str)
      → IsBytes buf
      → 2098 ≤ length buf
      → (msg : ClusterMsg) × (rest : Str) × (read_fields sig tot_len buf ≡ some (msg, rest))
        × (buf ≡ put_fields msg ++ rest)
        × (msg.sig ≡ sig)
        × (msg.tot_len ≡ tot_len)
        × (length buf ≡ 2098 + length rest)
        × IsBytes rest
  unfolding read_fields put_fields
  read_fields-Reads tot_len buf bs h =
      with_read put_u16 read_u16-Reads buf bs (omega arith) λ type b1 e1 s1 l1 k1.
        with_read put_u16 read_u16-Reads b1 k1 (omega arith) λ port b2 e2 s2 l2 k2.
          with_read (copy_into name_size) read_name-Reads b2 k2 (omega arith)
            λ sender b3 e3 s3 l3 k3.
              with_read put_u16 read_u16-Reads b3 k3 (omega arith) λ cport b4 e4 s4 l4 k4.
                with_read put_u16 read_u16-Reads b4 k4 (omega arith) λ flags b5 e5 s5 l5 k5.
                  with_read put_u16 read_u16-Reads b5 k5 (omega arith) λ state b6 e6 s6 l6 k6.
                    with_read put_words (read_words-Reads slot_words) b6 k6 (omega arith)
                      λ ws b7 e7 s7 l7 k7.
                        let same : words_of slot_words (word_at ws) ≡ ws =
                          rw (length-read_words slot_words b6 ws b7 e7) at (words_of-word_at ws) in
                        let end : b5 ≡ put_u16 (state % 2 ^ 16) ++ (put_words ws ++ b7) =
                          s6
                          ∙ ap (λ t. put_u16 state ++ t) s7
                          ∙ ap (λ t. t ++ (put_words ws ++ b7)) (sym (put_u16_mod state)) in
                        (
                          record {
                            sig = sig;
                            type = type;
                            tot_len = tot_len;
                            count = 0;
                            port = port;
                            sender = sender;
                            cport = cport;
                            flags = flags;
                            state = state;
                            slots = word_at ws;
                            gossip = [];
                          },
                          b7,
                          rw (e1, e2, e3, e4, e5, e6, e7) refl,
                          rw (same, append_assoc (copy_into name_size sender))
                              (rw (s1, s2, s3, s4, s5, end) refl),
                          refl,
                          refl,
                          omega arith,
                          k7,
                        )

  read_payload-Answered :
      (whole buf : Str) (msg : ClusterMsg)
      → IsBytes buf
      → header_size ≤ length whole
      → length whole ≡ msg.tot_len
      → whole ≡ msg.sig ++ (put_u32 msg.tot_len ++ (put_fields msg ++ buf))
      → Answered whole (read_payload (msg, buf))
  unfolding read_payload encode_cluster_msg serialize_cluster_msg put_fields
  read_payload-Answered whole buf msg bs long len e =
      let n = length buf / gossip_size in
      if_both (Answered whole) (not (length buf % gossip_size == 0)) _ _
        (λ _. (refused invalid_payload, refl, long))
        λ t.
          with_read put_gossips (read_gossips-Reads n) buf bs (omega arith) λ gs rest e1 s1 l1 k1.
            let msg' = record msg { count = n % 2 ^ 16; gossip = gs } in
            let none_left : rest ≡ [] = length-zero rest (ground arith) in
            let all : buf ≡ put_gossips gs =
              s1 ∙ ap (λ r. put_gossips gs ++ r) none_left ∙ append-nil (put_gossips gs) in
            let same : encode_cluster_msg msg' ≡ whole =
              sym (e ∙ ap (λ b. msg.sig ++ (put_u32 msg.tot_len ++ (put_fields msg ++ b))) all) in
            (message msg', rw e1 refl, rw same (ground arith))

  read_length-Answered :
      (whole buf : Str)
      → IsBytes buf
      → header_size ≤ length whole
      → length whole ≡ 4 + length buf
      → whole ≡ sig ++ buf
      → Answered whole (read_length sig (length whole) buf)
  unfolding read_length
  read_length-Answered whole buf bs long len e =
      with_read put_u32 read_u32-Reads buf bs (omega arith) λ tot b1 e1 s1 l1 k1. rw e1 (
        if_both (Answered whole) (not (tot == length whole)) _ _
          (λ _. (refused length_mismatch, refl, long))
          λ t.
            let (msg, b2, e2, s2, signed, total, l2, k2) =
              read_fields-Reads tot b1 k1 (omega arith) in
            let split : whole ≡ msg.sig ++ (put_u32 msg.tot_len ++ (put_fields msg ++ b2)) =
              rw (signed, total) (e ∙ ap (λ b. sig ++ b) (s1 ∙ ap (λ b. put_u32 tot ++ b) s2)) in
            rw e2 (read_payload-Answered whole b2 msg k2 long (ground (arith, total)) split))

-- On any bytes deserializeClusterMsg returns, without a slice out of range: too short only for a
-- buffer without room for a header, another error only for a longer one, and a message only where
-- serializing it gives the same bytes again.
pub deserialize-Answers :
    (buf : Str)
    → IsBytes buf
    → (d : Deserialized) × (deserialize_cluster_msg buf ≡ some d) × Answers buf d
unfolding deserialize_cluster_msg
deserialize-Answers buf bs =
    if_both (Answered buf) (ltb (length buf) header_size) _ _
      (λ t. (refused too_short, refl, ground arith))
      λ t.
        with_read (λ s. s) (read_bytes-Reads 4) buf bs (ground arith)
          λ sig b1 e1 s1 l1 k1. rw e1 (
            if_both (Answered buf) (not (str_eq sig signature)) _ _
              (λ _. (refused invalid_signature, refl, ground arith))
              (λ _. read_length-Answered sig buf b1 k1 (ground arith) l1 s1))
