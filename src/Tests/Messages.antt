-- ===== src/Tests/Messages.antt =====
-- Messages of the cluster bus.
use emberdb.Prelude.{
  ℕ, zero, suc, ◌-◌, ◌++◌, ◌%◌, ◌^◌, ◌<◌, ◌≡◌, refl, [], ◌∷◌, some, arith, bytes, Str, length,
}
use emberdb.Prelude.BigEndian.{put_u32}
use emberdb.Prelude.Reader.{IsBytes, trim_right}
use emberdb.Clusters.Node.{Bitmap, slot_words}
use emberdb.Clusters.Message.{
  Gossip, ClusterMsg, message, Deserialized, signature, header_size, serialize_cluster_msg,
  deserialize_cluster_msg,
}
use emberdb.Clusters.Message.Gossips.{IsName}
use emberdb.Clusters.Message.RoundTrip.{IsMessage, deserialize-serialize}
use emberdb.Clusters.Message.Canonical.{Answers, deserialize-Answers}

abbrev entry : Gossip
entry = record {
  node_name = bytes "b";
  cport = 17001;
  port = 7001;
  flags = 0;
  ping_sent = 0;
  pong_received = 1700000000;
}

abbrev pub hello : ClusterMsg
hello = record {
  sig = signature;
  type = 1;
  tot_len = 2160;
  count = 1;
  port = 7000;
  sender = bytes "a";
  cport = 17000;
  flags = 0;
  state = 0;
  slots = λ _. 5;
  gossip = entry ∷ [];
}

pub IsName-a : IsName (bytes "a")
unfolding trim_right
IsName-a = (omega arith, refl)

pub IsName-b : IsName (bytes "b")
unfolding trim_right
IsName-b = (omega arith, refl)

pub hello-IsMessage : IsMessage hello
hello-IsMessage = record {
  signed = refl;
  total = refl;
  small = omega arith;
  type = omega arith;
  port = omega arith;
  sender = IsName-a;
  cport = omega arith;
  flags = omega arith;
  state = omega arith;
  words = λ i h. omega arith;
  gossip = ((IsName-b, omega arith, omega arith, omega arith, omega arith, omega arith), tt);
}

deserialize-serialize_example :
    (buf : Str) × (slots : Bitmap) × (serialize_cluster_msg hello ≡ some buf)
    × ((i : ℕ) → i < slot_words → slots i ≡ hello.slots i)
    × (deserialize_cluster_msg buf
        ≡ some (message (record hello { count = length hello.gossip % 2 ^ 16; slots = slots })))
deserialize-serialize_example = deserialize-serialize hello hello-IsMessage

abbrev zeros : ℕ → Str
zeros zero = []
zeros (suc n) = 0 ∷ zeros n

zeros-IsBytes : (n : ℕ) → IsBytes (zeros n)
zeros-IsBytes zero = tt
zeros-IsBytes (suc n) = (omega arith, zeros-IsBytes n)

-- a header of a message without entries
abbrev bare : Str
bare = signature ++ (put_u32 header_size ++ zeros (header_size - 8))

bare-IsBytes : IsBytes bare
bare-IsBytes = (
  omega arith,
  (
    omega arith,
    (
      omega arith,
      (
        omega arith,
        (omega arith, (omega arith, (omega arith, (omega arith, zeros-IsBytes (header_size - 8))))),
      ),
    ),
  ),
)

deserialize-Answers_example :
    (d : Deserialized) × (deserialize_cluster_msg bare ≡ some d) × Answers bare d
deserialize-Answers_example = deserialize-Answers bare bare-IsBytes
