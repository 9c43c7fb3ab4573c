-- ===== src/Clusters/Reading.antt =====
-- utils/clusters/link.go: the loop that reads messages off a link.
pub mod Ends
pub mod Served
pub mod Malformed
use emberdb.Prelude.{
  ℕ, zero, suc, ◌+◌, ◌-◌, Option, none, some, [], ◌∷◌, ◌++◌, Str, str_eq, ltb, if◌then◌else◌,
  length,
}
use emberdb.Prelude.Reader.{◌>>=◌, read_bytes, read_u32}
use emberdb.Clusters.Message.{
  ClusterMsg, Deserialized, message, refused, signature, deserialize_cluster_msg,
}
use emberdb.Clusters.Gossip.{Cluster}
use emberdb.Clusters.Bus.{Link, cluster_process_msg}

-- How a round of the loop ends: it returns, since the connection ends or the signature is another
-- one, it panics, or it has a message and the rest of what the connection gives.
pub data Round : Type 0 where
  return panic : Round
  got : ClusterMsg → Str → Round

-- The error is dropped, and a nil message is read.
unfoldable pub received_message : Option Deserialized → Str → Round
received_message (some (message msg)) rest = got msg rest
received_message (some (refused e)) rest = panic
received_message none rest = panic

-- `io.ReadFull` of the bytes after the prefix
unfoldable pub read_body : Str → Option (Str × Str) → Round
read_body prefix none = return
read_body prefix (some (body, rest)) =
    received_message (deserialize_cluster_msg (prefix ++ body)) rest

-- A buffer of fewer than eight bytes has no room for the prefix.
unfoldable pub read_frame : Str → ℕ → Str → Round
read_frame prefix tot_len rest =
    if ltb tot_len 8 then panic else read_body prefix (read_bytes (tot_len - 8) rest)

unfoldable pub read_size : Str → Str → Option (ℕ × Str) → Round
read_size prefix rest none = panic
read_size prefix rest (some (tot_len, _)) = read_frame prefix tot_len rest

unfoldable pub check_signature : Str → Str → Option (Str × Str) → Round
check_signature prefix rest none = panic
check_signature prefix rest (some (sig, size)) =
    if str_eq sig signature then read_size prefix rest (read_u32 size) else return

unfoldable pub read_prefix : Option (Str × Str) → Round
read_prefix none = return
read_prefix (some (prefix, rest)) = check_signature prefix rest (read_bytes 4 prefix)

-- one round, on the bytes that the connection gives until it ends
unfoldable pub read_round : Str → Round
read_round stream = read_prefix (read_bytes 8 stream)

-- `running` stands for the end of the fuel.
pub data Ended : Type 0 where
  returned : Cluster → Link → Ended
  panicked running : Ended

-- `draws` and `times` are the numbers drawn and the times in each round.
module _ (uuids : ℕ → Str) (draws : ℕ → ℕ → ℕ) (times : ℕ → ℕ) where
  unfoldable pub cluster_read_loop : ℕ → ℕ → Cluster → Link → Str → Ended
  cluster_read_loop zero k c link stream = running
  cluster_read_loop (suc fuel) k c link stream = elim (read_round stream) [
    | return ↦ returned c link
    | panic ↦ panicked
    | got msg rest ↦ elim (cluster_process_msg uuids (draws k) (times k) c link msg) [
      | none ↦ panicked
      | some (c', link') ↦ cluster_read_loop fuel (k + 1) c' link' rest
    ]
  ]

  -- Each round takes eight bytes at least, so that a round more than the bytes is enough.
  unfoldable pub read_link : Cluster → Link → Str → Ended
  read_link c link stream = cluster_read_loop (length stream + 1) 0 c link stream
