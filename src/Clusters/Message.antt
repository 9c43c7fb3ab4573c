-- ===== src/Clusters/Message.antt =====
-- utils/clusters/message.go: the messages of the cluster bus, with the gossip entries of gossip.go.
-- A buffer is a list of bytes, and what is left of it stands for the offset.
pub mod Gossips
pub mod Slots
pub mod RoundTrip
pub mod Canonical
use emberdb.Prelude.{
  ℕ, zero, suc, ◌+◌, ◌*◌, ◌/◌, ◌%◌, ◌^◌, not, Option, none, some, List, [], ◌∷◌, ◌++◌, Str, bytes,
  str_eq, ltb, ◌==◌, if◌then◌else◌, length, get_elem?, or_zero,
}
use emberdb.Prelude.BigEndian.{put_u16, put_u32, put_u64}
use emberdb.Prelude.Reader.{◌>>=◌, read_bytes, read_u16, read_u32, read_u64, trim_right, copy_into}
use emberdb.Clusters.Node.{Bitmap, slot_words}

-- clusterMsgDataGossip
pub record Gossip : Type 0 where
  pub node_name : Str
  pub cport : ℕ
  pub port : ℕ
  pub flags : ℕ
  pub ping_sent : ℕ
  pub pong_received : ℕ

-- clusterMsg
pub record ClusterMsg : Type 0 where
  pub sig : Str
  pub type : ℕ
  pub tot_len : ℕ
  pub count : ℕ
  pub port : ℕ
  pub sender : Str
  pub cport : ℕ
  pub flags : ℕ
  pub state : ℕ
  pub slots : Bitmap
  pub gossip : List Gossip

-- CLUSTERMSG_HEADER_SIZE and CLUSTERMSG_GOSSIP_SIZE
abbrev pub header_size : ℕ
header_size = 2106

abbrev pub gossip_size : ℕ
gossip_size = 54

abbrev pub name_size : ℕ
name_size = 40

abbrev pub signature : Str
signature = bytes "RCmb"

-- the errors, in the order in which they are tested for
pub data MsgError : Type 0 where
  too_short invalid_signature length_mismatch invalid_payload : MsgError

-- `(*clusterMsg, error)`
pub data Deserialized : Type 0 where
  message : ClusterMsg → Deserialized
  refused : MsgError → Deserialized

unfoldable pub read_name : Str → Option (Str × Str)
read_name buf = do (s, rest) ← read_bytes name_size buf; some (trim_right s, rest)

unfoldable pub read_gossip : Str → Option (Gossip × Str)
read_gossip buf = do
  (name, buf) ← read_name buf
  (sent, buf) ← read_u32 buf
  (received, buf) ← read_u32 buf
  (port, buf) ← read_u16 buf
  (cport, buf) ← read_u16 buf
  (flags, buf) ← read_u16 buf
  some (
    record {
      node_name = name;
      cport = cport;
      port = port;
      flags = flags;
      ping_sent = sent;
      pong_received = received;
    },
    buf,
  )

-- the loop over the gossip entries
unfoldable pub read_gossips : ℕ → Str → Option (List Gossip × Str)
read_gossips zero buf = some ([], buf)
read_gossips (suc n) buf = do
  (g, buf) ← read_gossip buf
  (gs, buf) ← read_gossips n buf
  some (g ∷ gs, buf)

-- the loop over the words of the bitmap
unfoldable pub read_words : ℕ → Str → Option (List ℕ × Str)
read_words zero buf = some ([], buf)
read_words (suc n) buf = do
  (w, buf) ← read_u64 buf
  (ws, buf) ← read_words n buf
  some (w ∷ ws, buf)

-- the array that the words are stored in
unfoldable pub word_at : List ℕ → Bitmap
word_at ws i = or_zero 0 (get_elem? ws i)

-- What stands between the total length and the gossip.
unfoldable pub read_fields : Str → ℕ → Str → Option (ClusterMsg × Str)
read_fields sig tot_len buf = do
  (type, buf) ← read_u16 buf
  (port, buf) ← read_u16 buf
  (sender, buf) ← read_name buf
  (cport, buf) ← read_u16 buf
  (flags, buf) ← read_u16 buf
  (state, buf) ← read_u16 buf
  (words, buf) ← read_words slot_words buf
  some (
    record {
      sig = sig;
      type = type;
      tot_len = tot_len;
      count = 0;
      port = port;
      sender = sender;
      cport = cport;
      flags = flags;
      state = state;
      slots = word_at words;
      gossip = [];
    },
    buf,
  )

-- `remaining` bytes are left, of which each entry takes 54.
unfoldable pub read_payload : ClusterMsg × Str → Option Deserialized
read_payload (msg, buf) =
    let n = length buf / gossip_size in
    if not (length buf % gossip_size == 0) then some (refused invalid_payload) else do
      (gossip, rest) ← read_gossips n buf
      some (message (record msg { count = n % 2 ^ 16; gossip = gossip }))

unfoldable pub read_length : Str → ℕ → Str → Option Deserialized
read_length sig size buf = do
  (tot_len, buf) ← read_u32 buf
  if not (tot_len == size)
      then some (refused length_mismatch)
      else (read_fields sig tot_len buf >>= read_payload)

-- No value stands for a slice out of range, which panics.
unfoldable pub deserialize_cluster_msg : Str → Option Deserialized
deserialize_cluster_msg buf = if ltb (length buf) header_size then some (refused too_short) else do
  (sig, rest) ← read_bytes 4 buf
  if not (str_eq sig signature)
      then some (refused invalid_signature)
      else read_length sig (length buf) rest

unfoldable pub put_gossip : Gossip → Str
put_gossip g =
    copy_into name_size g.node_name
    ++ (put_u32 g.ping_sent
        ++ (put_u32 g.pong_received ++ (put_u16 g.port ++ (put_u16 g.cport ++ put_u16 g.flags))))

unfoldable pub put_gossips : List Gossip → Str
put_gossips [] = []
put_gossips (g ∷ gs) = put_gossip g ++ put_gossips gs

unfoldable pub put_words : List ℕ → Str
put_words [] = []
put_words (w ∷ ws) = put_u64 w ++ put_words ws

-- the first `n` words of the array
unfoldable pub words_of : ℕ → Bitmap → List ℕ
words_of zero slots = []
words_of (suc n) slots = slots 0 ∷ words_of n (λ i. slots (suc i))

unfoldable pub put_fields : ClusterMsg → Str
put_fields msg =
    put_u16 msg.type
    ++ (put_u16 msg.port
        ++ (copy_into name_size msg.sender
            ++ (put_u16 msg.cport
                ++ (put_u16 msg.flags
                    ++ (put_u16 (msg.state % 2 ^ 16)
                        ++ put_words (words_of slot_words msg.slots))))))

unfoldable pub encode_cluster_msg : ClusterMsg → Str
encode_cluster_msg msg =
    msg.sig ++ (put_u32 msg.tot_len ++ (put_fields msg ++ put_gossips msg.gossip))

-- nil where the length is not the one that the header names
unfoldable pub serialize_cluster_msg : ClusterMsg → Option Str
serialize_cluster_msg msg =
    let buf = encode_cluster_msg msg in if not (length buf == msg.tot_len) then none else some buf
