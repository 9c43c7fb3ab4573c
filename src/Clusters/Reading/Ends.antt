-- ===== src/Clusters/Reading/Ends.antt =====
-- utils/clusters/link.go: the loop that reads a link ends with its connection.
use emberdb.Prelude.{
  ℕ, zero, suc, ◌+◌, ◌-◌, ◌<◌, ◌≤◌, ◌≡◌, ◌≢◌, ◌⊎◌, if_both, refl, inl, inr, Option, none, some,
  arith, Str, length, ltb, str_eq, Option-cases, Bool-cases,
}
use emberdb.Prelude.Reader.{read_bytes, read_u32, length-read_bytes_rest}
use emberdb.Clusters.Message.{
  ClusterMsg, Deserialized, message, refused, signature, deserialize_cluster_msg,
}
use emberdb.Clusters.Gossip.{Cluster}
use emberdb.Clusters.Bus.{Link, cluster_process_msg}
use emberdb.Clusters.Reading.{
  Round, return, panic, got, received_message, read_body, read_frame, read_size, check_signature,
  read_prefix, read_round, running, cluster_read_loop, read_link,
}

-- What a round leaves is no longer than `n`.
abbrev Leaves : ℕ → Round → Type 0
Leaves n return = Unit
Leaves n panic = Unit
Leaves n (got msg rest) = length rest ≤ n

received_message-Leaves :
    (o : Option Deserialized) (rest : Str) (n : ℕ)
    → length rest ≤ n
    → Leaves n (received_message o rest)
unfolding received_message
received_message-Leaves none rest n h = tt
received_message-Leaves (some (message msg)) rest n h = h
received_message-Leaves (some (refused e)) rest n h = tt

read_frame-Leaves :
    (prefix : Str) (tot_len : ℕ) (rest : Str)
    → Leaves (length rest) (read_frame prefix tot_len rest)
unfolding read_frame read_body
read_frame-Leaves prefix tot_len rest = elim (Bool-cases (ltb tot_len 8)) [
  | inl short ↦ rw short tt
  | inr long ↦ rw long (elim (Option-cases (read_bytes (tot_len - 8) rest)) [
    | inl e ↦ rw e tt
    | inr ((body, left), e) ↦ rw e (
        received_message-Leaves (deserialize_cluster_msg _) left (length rest)
          (omega (arith, length-read_bytes_rest (tot_len - 8) rest body left e)))
  ])
]

read_size-Leaves :
    (prefix rest : Str) (o : Option (ℕ × Str)) → Leaves (length rest) (read_size prefix rest o)
unfolding read_size
read_size-Leaves prefix rest none = tt
read_size-Leaves prefix rest (some (tot_len, left)) = read_frame-Leaves prefix tot_len rest

check_signature-Leaves :
    (prefix rest : Str) (o : Option (Str × Str))
    → Leaves (length rest) (check_signature prefix rest o)
unfolding check_signature
check_signature-Leaves prefix rest none = tt
check_signature-Leaves prefix rest (some (sig, size)) =
    if_both (Leaves (length rest)) (str_eq sig signature) _ _
      (λ _. read_size-Leaves prefix rest (read_u32 size)) (λ _. tt)

read_round-got :
    (stream : Str) (msg : ClusterMsg) (rest : Str)
    → read_round stream ≡ got msg rest
    → length rest < length stream
unfolding read_round read_prefix
read_round-got stream msg rest h = elim (Option-cases (read_bytes 8 stream)) [
  | inl e ↦ absurd (ground (arith, e))
  | inr ((prefix, left), e) ↦
      let same : check_signature prefix left (read_bytes 4 prefix) ≡ got msg rest =
        ground (arith, e) in
      let fits : length rest ≤ length left =
        rw same at (check_signature-Leaves prefix left (read_bytes 4 prefix)) in
      omega (arith, length-read_bytes_rest 8 stream prefix left e)
]

Round-cases :
    (r : Round)
    → (r ≡ return) ⊎ ((r ≡ panic) ⊎ ((msg : ClusterMsg) × (rest : Str) × (r ≡ got msg rest)))
Round-cases return = inl refl
Round-cases panic = inr (inl refl)
Round-cases (got msg rest) = inr (inr (msg, rest, refl))

module _ (uuids : ℕ → Str) (draws : ℕ → ℕ → ℕ) (times : ℕ → ℕ) where
  cluster_read_loop-ends :
      (fuel k : ℕ) (c : Cluster) (link : Link) (stream : Str)
      → length stream < fuel
      → cluster_read_loop uuids draws times fuel k c link stream ≢ running
  unfolding cluster_read_loop
  cluster_read_loop-ends zero k c link stream h = absurd (omega arith)
  cluster_read_loop-ends (suc fuel) k c link stream h = elim (Round-cases (read_round stream)) [
    | inl e ↦ λ r. ground (arith, e)
    | inr (inl e) ↦ λ r. ground (arith, e)
    | inr (inr (msg, rest, e)) ↦
        let shorter = read_round-got stream msg rest e in
        elim (Option-cases (cluster_process_msg uuids (draws k) (times k) c link msg)) [
          | inl f ↦ λ r. ground (arith, e, f)
          | inr ((c', link'), f) ↦ λ r.
              cluster_read_loop-ends fuel (k + 1) c' link' rest (omega arith) (ground (arith, e, f))
        ]
  ]

  -- The fuel of `read_link` is enough for whatever bytes a connection gives.
  pub read_link-ends :
      (c : Cluster) (link : Link) (stream : Str)
      → read_link uuids draws times c link stream ≢ running
  unfolding read_link
  read_link-ends c link stream =
      cluster_read_loop-ends (length stream + 1) 0 c link stream (omega arith)
