-- ===== src/Clusters/Reading/Malformed.antt =====
-- utils/clusters/link.go: a message that a peer has not made as it should.
use emberdb.Prelude.{
  ℕ, ◌+◌, ◌-◌, ◌<◌, ◌≤◌, ◌≡◌, refl, ap, ◌∙◌, inl, inr, some, [], ◌++◌, arith, Str, str_eq, length,
  ltb, Bool-cases,
}
use emberdb.Prelude.BigEndian.{put_u32}
use emberdb.Prelude.Reader.{read_bytes, read_u32, read_u32-put, length-read_bytes, read_bytes-some}
use emberdb.Clusters.Message.{signature, header_size, deserialize_cluster_msg}
use emberdb.Clusters.Gossip.{Cluster}
use emberdb.Clusters.Bus.{Link}
use emberdb.Clusters.Reading.{
  panic, received_message, read_body, read_frame, read_size, check_signature, read_prefix,
  read_round, panicked, cluster_read_loop, read_link,
}

short_body :
    (tot_len : ℕ) (body rest : Str)
    → tot_len < header_size
    → length body + 8 ≡ tot_len
    → read_body (signature ++ put_u32 tot_len) (some (body, rest)) ≡ panic
unfolding read_body received_message deserialize_cluster_msg
short_body tot_len body rest h k = ground arith

short_frame :
    (tot_len : ℕ) (rest : Str)
    → tot_len < header_size
    → tot_len - 8 ≤ length rest
    → read_frame (signature ++ put_u32 tot_len) tot_len rest ≡ panic
unfolding read_frame
short_frame tot_len rest h k = elim (Bool-cases (ltb tot_len 8)) [
  | inl short ↦ rw short refl
  | inr long ↦
      let ((body, left), e) = read_bytes-some (tot_len - 8) rest k in
      let size = length-read_bytes (tot_len - 8) rest body left e in
      rw (long, e) (short_body tot_len body left h (ground arith))
]

short_round :
    (tot_len : ℕ) (rest : Str)
    → tot_len < header_size
    → tot_len - 8 ≤ length rest
    → read_round (signature ++ (put_u32 tot_len ++ rest)) ≡ panic
unfolding read_round read_prefix check_signature read_size read_bytes str_eq read_u32
short_round tot_len rest h k =
    let size : read_u32 (put_u32 tot_len) ≡ some (tot_len, []) =
      read_u32-put tot_len [] (omega arith) in
    ap (read_size (signature ++ put_u32 tot_len) rest) size ∙ short_frame tot_len rest h k

-- A frame with the right signature and a total length below that of a header ends clusterReadLoop in
-- a panic, whatever the state: whether the length is below eight, and the slice for the prefix is out
-- of range, or the decoder refuses the message, and its nil is followed.
pub read_link-panics :
    (uuids : ℕ → Str) (draws : ℕ → ℕ → ℕ) (times : ℕ → ℕ) (c : Cluster) (link : Link) (tot_len : ℕ)
    (rest : Str)
    → tot_len < header_size
    → tot_len - 8 ≤ length rest
    → read_link uuids draws times c link (signature ++ (put_u32 tot_len ++ rest)) ≡ panicked
unfolding read_link cluster_read_loop
read_link-panics uuids draws times c link tot_len rest h k =
    ground (arith, short_round tot_len rest h k)
