-- ===== src/Clusters/Bus/Sending.antt =====
-- utils/clusters: what clusterSendPing sends, and what its reader makes of it.
use emberdb.Prelude.{
  ℕ, ◌+◌, ◌-◌, ◌*◌, ◌%◌, ◌^◌, ◌≤◌, ◌<◌, ◌≡◌, refl, ap, ◌∙◌, inl, inr, Option, some, List, [], ◌∷◌,
  ◌++◌, arith, Str, All, length, length-map, map, sym, NoDup, Option-cases,
}
use emberdb.Clusters.Node.{slot_words, set_ping_sent}
use emberdb.Clusters.State.{ClusterState, with_node}
use emberdb.Clusters.Message.{
  Gossip, ClusterMsg, message, serialize_cluster_msg, deserialize_cluster_msg,
}
use emberdb.Clusters.Message.Gossips.{IsGossip}
use emberdb.Clusters.Message.RoundTrip.{IsMessage, deserialize-serialize}
use emberdb.Clusters.Gossip.{gossip_of}
use emberdb.Clusters.Bus.{
  Link, Selection, all_nodes, cluster_msg_build_hdr, wanted_nodes, note_ping, select_nodes,
  finish_hdr, send, cluster_send_ping,
}
use emberdb.Clusters.Bus.Wire.{
  name_read, name_read-IsName, entry_read, msg_read, serialize-msg_read,
}
use emberdb.Clusters.Bus.Selecting.{IsOther, IsSelection, names, select_nodes-IsSelection}

-- The sender knows itself, its bitmap is of 64-bit words and its state a 16-bit one, and the map has
-- fewer than 2^20 nodes.
pub record CanSend (s : ClusterState) (self : ℕ) : Type 0 where
  pub is_self : s.self ≡ some self
  pub words : (i : ℕ) → i < slot_words → (s.heap self).owned_slots i < 2 ^ 64
  pub state_small : s.state < 2 ^ 16
  pub few_nodes : length (all_nodes s) < 2 ^ 20

wanted_nodes-le : (n : ℕ) → wanted_nodes n ≤ n + 3
wanted_nodes-le n = ground arith

IsOther-IsGossip :
    (s : ClusterState) (link_node : Option ℕ) (gs : List Gossip)
    → All (IsOther s link_node) gs
    → All IsGossip (map entry_read gs)
unfolding gossip_of
IsOther-IsGossip s link_node [] h = tt
IsOther-IsGossip s link_node (g ∷ gs) h = (
  rw (h.0.1) (
    name_read-IsName (s.heap h.0.0).name,
    omega arith,
    omega arith,
    omega arith,
    omega arith,
    omega arith,
  ),
  IsOther-IsGossip s link_node gs h.1,
)

module _ (s : ClusterState) (self : ℕ) (can : CanSend s self) (link : Link) (type now : ℕ) where
  abbrev hdr : ClusterMsg
  hdr = cluster_msg_build_hdr s self type

  abbrev wanted : ℕ
  wanted = wanted_nodes (length (all_nodes s))

  -- Noting the time of a ping changes no node of the map.
  note_ping-same :
      (s' : ClusterState) → note_ping s link type now ≡ some s' → all_nodes s' ≡ all_nodes s
  unfolding note_ping with_node set_ping_sent all_nodes
  note_ping-same s' e = elim (Option-cases link.node) [
    | inl nobody ↦ ground (arith, nobody)
    | inr (q, l) ↦ ground (arith, l)
  ]

  selection-IsMessage :
      (s' : ClusterState) (sel : Selection)
      → IsSelection s' link.node hdr wanted sel
      → IsMessage (msg_read (finish_hdr sel))
  unfolding cluster_msg_build_hdr finish_hdr
  selection-IsMessage s' sel h =
      let size = length-map entry_read sel.hdr.gossip in
      let few = can.few_nodes in
      let bound = h.bounded in
      let most = wanted_nodes-le (length (all_nodes s)) in
      let counted = h.counted in
      let header = h.same_header in
      record {
        signed = ap (λ (m : ClusterMsg). m.sig) header;
        total = omega arith;
        small = omega arith;
        type = rw header (omega arith);
        port = rw header (omega arith);
        sender = name_read-IsName sel.hdr.sender;
        cport = rw header (omega arith);
        flags = rw header (omega arith);
        state = rw header can.state_small;
        words = rw header can.words;
        gossip = IsOther-IsGossip s' link.node sel.hdr.gossip h.others;
      }

-- The run of the whole, from the runs of its parts.
cluster_send_ping-some :
    (s s' : ClusterState) (self : ℕ) (link : Link) (draws : ℕ → ℕ) (type now : ℕ) (sel : Selection)
    (buf : Str)
    → let n = length (all_nodes s) in
      let wanted = wanted_nodes n in
      let hdr = cluster_msg_build_hdr s self type in
      s.self ≡ some self
      → note_ping s link type now ≡ some s'
      → select_nodes s' draws link.node wanted
          (wanted * 3)
          0
          (record { fresh = n - 1; count = 0; selected = []; hdr = hdr })
        ≡ some sel
      → serialize_cluster_msg (finish_hdr sel) ≡ some buf
      → cluster_send_ping s draws now link type
        ≡ some (s', record link { sent = link.sent ++ (buf ∷ []) })
unfolding cluster_send_ping send
cluster_send_ping-some s s' self link draws type now sel buf me noted e written =
    ground (arith, me, noted, e, written)

-- A node that knows itself, whose bitmap is of 64-bit words and whose state is a 16-bit one, in a map
-- of fewer than 2^20 nodes, sends a message on the link, whatever nodes are drawn, unless the link is
-- inbound, without a node, and the message a PING. Its reader deserializes that message: the type, the
-- name and the slots of the sender, and entries of other nodes than the sender and the node of the
-- link, no name twice, and not more than a tenth of the nodes or three. Each name, whatever it is, is
-- read as its first 40 bytes without zeros at the end, which cuts the last one from the name of a node
-- in a handshake.
pub cluster_send_ping_lem :
    (s s' : ClusterState) (self : ℕ) (link : Link) (draws : ℕ → ℕ) (type now : ℕ)
    → CanSend s self
    → note_ping s link type now ≡ some s'
    → (buf : Str) × (m : ClusterMsg) × (cluster_send_ping s draws now link type
        ≡ some (s', record link { sent = link.sent ++ (buf ∷ []) }))
      × (deserialize_cluster_msg buf ≡ some (message m))
      × (m.type ≡ type % 2 ^ 16)
      × (m.sender ≡ name_read (s.heap self).name)
      × ((i : ℕ) → i < slot_words → m.slots i ≡ (s.heap self).owned_slots i)
      × (gs : List Gossip) × (m.gossip ≡ map entry_read gs)
      × All (IsOther s' link.node) gs
      × NoDup (names gs)
      × (length gs ≤ wanted_nodes (length (all_nodes s)))
unfolding cluster_send_ping send cluster_msg_build_hdr finish_hdr
cluster_send_ping_lem s s' self link draws type now can noted =
    let same_nodes = note_ping-same s self can link type now s' noted in
    let hdr = cluster_msg_build_hdr s self type in
    let n = length (all_nodes s) in
    let wanted = wanted_nodes n in
    let start : Selection = record { fresh = n - 1; count = 0; selected = []; hdr = hdr } in
    let start_ok : IsSelection s' link.node hdr wanted start = record {
      same_header = refl;
      counted = refl;
      bounded = omega arith;
      left_over = omega (arith, ap length same_nodes);
      others = tt;
      seen = λ k. refl;
      distinct = tt;
    } in
    let (sel, e, h) =
      select_nodes-IsSelection s' link.node draws hdr wanted (wanted * 3) 0 start start_ok in
    let valid = selection-IsMessage s self can link type now s' sel h in
    let (buf, slots, written, same_slots, read) =
      deserialize-serialize (msg_read (finish_hdr sel)) valid in
    let written' : serialize_cluster_msg (finish_hdr sel) ≡ some buf =
      sym (serialize-msg_read (finish_hdr sel)) ∙ written in
    let header = h.same_header in
    (
      buf,
      record (msg_read (finish_hdr sel)) {
        count = length (map entry_read sel.hdr.gossip) % 2 ^ 16;
        slots = slots;
      },
      cluster_send_ping-some s s' self link draws type now sel buf can.is_self noted e written',
      read,
      ap (λ (m : ClusterMsg). m.type) header,
      ap (λ (m : ClusterMsg). name_read m.sender) header,
      λ i k. same_slots i k ∙ ap (λ (m : ClusterMsg). m.slots i) header,
      sel.hdr.gossip,
      refl,
      h.others,
      h.distinct,
      omega (arith, h.counted, h.bounded),
    )
