-- ===== src/Clusters/Message/RoundTrip.antt =====
-- utils/clusters/message.go: a message that is sent is the message that is received.
use emberdb.Prelude.{
  ℕ, ◌+◌, ◌*◌, ◌/◌, ◌%◌, ◌^◌, ◌<◌, ◌≡◌, refl, sym, ap, ◌∙◌, some, List, [], ◌++◌, arith, Str, All,
  length, length-append, str_eq, str_eq_iff, ltb, true, false,
}
use emberdb.Prelude.BigEndian.{put_u32}
use emberdb.Prelude.Reader.{
  read_bytes, read_bytes-put, read_u16-put, read_u32-put, copy_into, length-copy_into,
}
use emberdb.Clusters.Node.{Bitmap, slot_words}
use emberdb.Clusters.Message.{
  ClusterMsg, message, signature, header_size, gossip_size, name_size, word_at, words_of,
  put_fields, put_gossips, encode_cluster_msg, serialize_cluster_msg, read_fields, read_payload,
  read_length, deserialize_cluster_msg,
}
use emberdb.Clusters.Message.Gossips.{
  IsName, IsGossip, read_name-put, read_gossips-put, length-put_gossips,
}
use emberdb.Clusters.Message.Slots.{
  read_words-put, length-put_words, length-words_of, word_at-words_of, All-words_of,
}
use mathlib.Core.List.{append_assoc, append-nil}

-- A message as Go stores it, with the signature and the total length that its sender sets.
pub record IsMessage (msg : ClusterMsg) : Type 0 where
  pub signed : msg.sig ≡ signature
  pub total : msg.tot_len ≡ header_size + length msg.gossip * gossip_size
  pub small : msg.tot_len < 2 ^ 32
  pub type : msg.type < 2 ^ 16
  pub port : msg.port < 2 ^ 16
  pub sender : IsName msg.sender
  pub cport : msg.cport < 2 ^ 16
  pub flags : msg.flags < 2 ^ 16
  pub state : msg.state < 2 ^ 16
  pub words : (i : ℕ) → i < slot_words → msg.slots i < 2 ^ 64
  pub gossip : All IsGossip msg.gossip

module _ (msg : ClusterMsg) where
  abbrev pub stored_words : List ℕ
  stored_words = words_of slot_words msg.slots

  abbrev header : ClusterMsg
  header = record msg { count = 0; slots = word_at stored_words; gossip = [] }

  -- the message as its reader finds it
  abbrev pub received : ClusterMsg
  received = record header { count = length msg.gossip % 2 ^ 16; gossip = msg.gossip }

  length-put_fields : length (put_fields msg) ≡ 2098
  unfolding put_fields
  length-put_fields = omega (
    arith,
    length-append (copy_into name_size msg.sender),
    length-copy_into name_size msg.sender,
    length-put_words stored_words,
    length-words_of slot_words msg.slots,
  )

  pub length-encode :
      msg.sig ≡ signature
      → length (encode_cluster_msg msg) ≡ header_size + length msg.gossip * gossip_size
  unfolding encode_cluster_msg
  length-encode h = omega (
    arith,
    ap length h,
    length-append msg.sig,
    length-append (put_fields msg) (put_gossips msg.gossip),
    length-put_fields,
    length-put_gossips msg.gossip,
  )

  module _ (h : IsMessage msg) where
    read_fields-put :
        (rest : Str)
        → read_fields msg.sig msg.tot_len (put_fields msg ++ rest) ≡ some (header, rest)
    unfolding read_fields put_fields
    read_fields-put rest =
        let small_state : msg.state % 2 ^ 16 ≡ msg.state = let k = h.state in omega arith in
        let words = read_words-put stored_words rest (All-words_of slot_words msg.slots h.words) in
        let words' = rw (length-words_of slot_words msg.slots) at words in
        rw
          (
            small_state,
            append_assoc (copy_into name_size msg.sender),
            read_u16-put msg.type _ h.type,
            read_u16-put msg.port _ h.port,
            read_name-put msg.sender _ h.sender,
            read_u16-put msg.cport _ h.cport,
            read_u16-put msg.flags _ h.flags,
            read_u16-put msg.state _ h.state,
            words',
          )
          refl

    read_payload-put : read_payload (header, put_gossips msg.gossip) ≡ some (message received)
    unfolding read_payload
    read_payload-put =
        let n = length msg.gossip in
        let len = length-put_gossips msg.gossip in
        let quotient : length (put_gossips msg.gossip) / gossip_size ≡ n = omega arith in
        let remainder : length (put_gossips msg.gossip) % gossip_size ≡ 0 = omega arith in
        let entries = rw append-nil at (read_gossips-put msg.gossip [] h.gossip) in
        rw (quotient, remainder, entries) refl

    read_length-put :
        read_length msg.sig msg.tot_len
          (put_u32 msg.tot_len ++ (put_fields msg ++ put_gossips msg.gossip))
        ≡ some (message received)
    unfolding read_length
    read_length-put =
        rw (read_u32-put msg.tot_len _ h.small, read_fields-put (put_gossips msg.gossip))
          (ground (arith, read_payload-put))

    pub deserialize-encode :
        deserialize_cluster_msg (encode_cluster_msg msg) ≡ some (message received)
    unfolding deserialize_cluster_msg encode_cluster_msg
    deserialize-encode =
        let rest = put_u32 msg.tot_len ++ (put_fields msg ++ put_gossips msg.gossip) in
        let len : length (encode_cluster_msg msg) ≡ msg.tot_len =
          length-encode h.signed ∙ sym h.total in
        let long : ltb msg.tot_len header_size ≡ false = let t = h.total in ground arith in
        let sig_len : length msg.sig ≡ 4 = ap length h.signed in
        let head : read_bytes 4 (encode_cluster_msg msg) ≡ some (msg.sig, rest) =
          rw sig_len at (read_bytes-put msg.sig rest) in
        let same : str_eq msg.sig signature ≡ true = (str_eq_iff _ _).1 h.signed in
        rw (len, long, head, same) read_length-put

    pub serialize-encode : serialize_cluster_msg msg ≡ some (encode_cluster_msg msg)
    unfolding serialize_cluster_msg
    serialize-encode = ground (arith, length-encode h.signed, h.total)

-- A message with the signature, the right total length, names that fit and end in no zero byte, and
-- numbers in the ranges of their fields is serialized, and what its reader deserializes is that
-- message: its word of each slot and every field, with the number of the entries for a count.
pub deserialize-serialize :
    (msg : ClusterMsg)
    → IsMessage msg
    → (buf : Str) × (slots : Bitmap) × (serialize_cluster_msg msg ≡ some buf)
      × ((i : ℕ) → i < slot_words → slots i ≡ msg.slots i)
      × (deserialize_cluster_msg buf
          ≡ some (message (record msg { count = length msg.gossip % 2 ^ 16; slots = slots })))
deserialize-serialize msg h = (
  encode_cluster_msg msg,
  word_at (stored_words msg),
  serialize-encode msg h,
  word_at-words_of slot_words msg.slots,
  deserialize-encode msg h,
)
