-- ===== src/Clusters/Reading/Served.antt =====
-- utils/clusters/link.go: the messages of a peer are processed in the order in which they were sent.
use emberdb.Prelude.{
  ℕ, zero, suc, ◌+◌, ◌-◌, ◌<◌, ◌≤◌, ◌≡◌, refl, sym, ap, ◌∙◌, true, false, Option, some, List, [],
  ◌∷◌, ◌++◌, arith, Str, All, length, length-append, ltb, str_eq, str_eq_iff,
}
use emberdb.Prelude.BigEndian.{put_u32}
use emberdb.Prelude.Reader.{◌>>=◌, read_bytes, read_bytes-put, read_u32, read_u32-put}
use emberdb.Clusters.Message.{
  ClusterMsg, message, signature, put_fields, put_gossips, encode_cluster_msg,
  deserialize_cluster_msg,
}
use emberdb.Clusters.Message.RoundTrip.{IsMessage, received, deserialize-encode, length-encode}
use emberdb.Clusters.Gossip.{Cluster}
use emberdb.Clusters.Gossip.Named.{IsNamed}
use emberdb.Clusters.Bus.{Link, cluster_process_msg}
use emberdb.Clusters.Bus.Receiving.{cluster_process_msg_lem}
use emberdb.Clusters.Reading.{
  return, got, received_message, read_body, read_frame, read_size, check_signature, read_prefix,
  read_round, returned, cluster_read_loop, read_link,
}
use mathlib.Core.List.{append_assoc}

read_round-encode :
    (msg : ClusterMsg) (rest : Str)
    → IsMessage msg
    → read_round (encode_cluster_msg msg ++ rest) ≡ got (received msg) rest
unfolding read_round read_prefix check_signature read_size read_frame read_body received_message
    encode_cluster_msg
read_round-encode msg rest h =
    let body = put_fields msg ++ put_gossips msg.gossip in
    let prefix = msg.sig ++ put_u32 msg.tot_len in
    let sig_len : length msg.sig ≡ 4 = ap length h.signed in
    let prefix_len : length prefix ≡ 8 =
      omega (arith, length-append msg.sig (put_u32 msg.tot_len)) in
    let whole : encode_cluster_msg msg ≡ prefix ++ body =
      sym (append_assoc msg.sig (put_u32 msg.tot_len) body) in
    let total : length (encode_cluster_msg msg) ≡ msg.tot_len =
      length-encode msg h.signed ∙ sym h.total in
    let body_len : length body ≡ msg.tot_len - 8 =
      omega (arith, ap length whole, length-append prefix body) in
    let long : ltb msg.tot_len 8 ≡ false = let t = h.total in ground arith in
    let head : read_bytes 8 (encode_cluster_msg msg ++ rest) ≡ some (prefix, body ++ rest) =
      ap (λ t. read_bytes 8 (t ++ rest)) whole
      ∙ ap (read_bytes 8) (append_assoc prefix body rest)
      ∙ (rw prefix_len at (read_bytes-put prefix (body ++ rest))) in
    let sig : read_bytes 4 prefix ≡ some (msg.sig, put_u32 msg.tot_len) =
      rw sig_len at (read_bytes-put msg.sig (put_u32 msg.tot_len)) in
    let same : str_eq msg.sig signature ≡ true = (str_eq_iff _ _).1 h.signed in
    let size : read_u32 (put_u32 msg.tot_len) ≡ some (msg.tot_len, []) =
      read_u32-put msg.tot_len [] h.small in
    let read : read_bytes (msg.tot_len - 8) (body ++ rest) ≡ some (body, rest) =
      rw body_len at (read_bytes-put body rest) in
    let decoded : deserialize_cluster_msg (prefix ++ body) ≡ some (message (received msg)) =
      ap deserialize_cluster_msg (sym whole) ∙ deserialize-encode msg h in
    rw (head, sig, same, size, long, read, decoded) refl

read_round-nil : read_round [] ≡ return
unfolding read_round read_prefix read_bytes
read_round-nil = refl

-- The bytes of the messages, one after the other.
abbrev pub stream_of : List ClusterMsg → Str
stream_of [] = []
stream_of (msg ∷ msgs) = encode_cluster_msg msg ++ stream_of msgs

module _ (uuids : ℕ → Str) (draws : ℕ → ℕ → ℕ) (times : ℕ → ℕ) where
  -- The messages, each as its reader finds it, processed in order from the round `k` on.
  abbrev pub deliver : ℕ → Cluster → Link → List ClusterMsg → Option (Cluster × Link)
  deliver k c link [] = some (c, link)
  deliver k c link (msg ∷ msgs) = do
    (c', link') ← cluster_process_msg uuids (draws k) (times k) c link (received msg)
    deliver (k + 1) c' link' msgs

  cluster_read_loop-deliver :
      (msgs : List ClusterMsg) (fuel k self : ℕ) (c : Cluster) (link : Link)
      → All IsMessage msgs
      → length msgs < fuel
      → IsNamed c
      → c.state.self ≡ some self
      → ((p : ℕ) → link.node ≡ some p → p < c.next)
      → (c' : Cluster) × (link' : Link) × (cluster_read_loop uuids draws times fuel k c link
            (stream_of msgs)
          ≡ returned c' link')
        × (deliver k c link msgs ≡ some (c', link'))
        × IsNamed c'
  unfolding cluster_read_loop
  cluster_read_loop-deliver msgs zero k self c link ok h named me used = absurd (omega arith)
  cluster_read_loop-deliver [] (suc fuel) k self c link ok h named me used =
      (c, link, ground (arith, read_round-nil), refl, named)
  cluster_read_loop-deliver (msg ∷ msgs) (suc fuel) k self c link ok h named me used =
      let (c', link', p, e, named', me', linked, in_use, _) =
        cluster_process_msg_lem uuids (draws k) (times k) self c link (received msg) named me
          used in
      let used' : (q : ℕ) → link'.node ≡ some q → q < c'.next =
        λ q f. ground (arith, linked, in_use) in
      let (c'', link'', run, spec, named'') =
        cluster_read_loop-deliver msgs fuel (k + 1) self c' link' ok.1 (omega arith) named' me'
          used' in
      (
        c'',
        link'',
        ground (arith, read_round-encode msg (stream_of msgs) ok.0, e, run),
        ground (arith, e, spec),
        named'',
      )

  length-stream_of :
      (msgs : List ClusterMsg) → All IsMessage msgs → length msgs ≤ length (stream_of msgs)
  length-stream_of [] ok = omega arith
  length-stream_of (msg ∷ msgs) ok = omega (
    arith,
    length-append (encode_cluster_msg msg) (stream_of msgs),
    length-encode msg ok.0.signed,
    length-stream_of msgs ok.1,
  )

  -- From a state whose nodes lie in the map under their own names, and a link without a node or with
  -- one in use, clusterReadLoop on the bytes of valid messages returns, in the state and with the link
  -- that processing the messages in their order gives, and the nodes lie under their names again.
  pub read_link-deliver :
      (msgs : List ClusterMsg) (self : ℕ) (c : Cluster) (link : Link)
      → All IsMessage msgs
      → IsNamed c
      → c.state.self ≡ some self
      → ((p : ℕ) → link.node ≡ some p → p < c.next)
      → (c' : Cluster) × (link' : Link) × (read_link uuids draws times c link (stream_of msgs)
          ≡ returned c' link')
        × (deliver 0 c link msgs ≡ some (c', link'))
        × IsNamed c'
  unfolding read_link
  read_link-deliver msgs self c link ok named me used =
      cluster_read_loop-deliver msgs (length (stream_of msgs) + 1) 0 self c link ok
        (omega (arith, length-stream_of msgs ok)) named me used
