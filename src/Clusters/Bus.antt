-- ===== src/Clusters/Bus.antt =====
-- The cluster bus: `clusterMsgBuildHdr` of utils/clusters/message.go, `clusterProcessMsg` of
-- gossip.go, and `getRandomNode`, `clusterSendPing` and `ClusterStartHandshake` of cluster.go.
pub mod Wire
pub mod Selecting
pub mod Sending
pub mod Receiving
use emberdb.Prelude.{
  ℕ, zero, suc, ◌+◌, ◌-◌, ◌*◌, ◌/◌, ◌%◌, ◌^◌, Bool, true, false, ◌&&◌, ◌||◌, Option, none, some,
  List, [], ◌∷◌, ◌++◌, Str, bytes, ltb, ◌==◌, if◌then◌else◌, length, contains,
}
use emberdb.Prelude.Reader.{◌>>=◌}
use emberdb.Dict
use emberdb.Dict.{Dict}
use emberdb.Clusters.Node.{
  ClusterNode, new_node, set_ping_sent, set_owned_slots, mark_pong_received, update_message,
}
use emberdb.Clusters.State.{ClusterState, set_node, delete_node, with_node}
use emberdb.Clusters.Message.{
  ClusterMsg, signature, header_size, gossip_size, serialize_cluster_msg,
}
use emberdb.Clusters.Gossip.{Cluster, cluster_set_gossip_entry, cluster_process_gossip}

-- CLUSTERMSG_TYPE_PING and CLUSTERMSG_TYPE_PONG
abbrev pub ping : ℕ
ping = 0

abbrev pub pong : ℕ
pong = 1

-- A link to a node, if that is known, over a connection from `host`. `sent` is all that has ever been
-- put into its channel, in order, and not what the channel holds, which the write loop empties: a step
-- that puts a buffer into a channel with 256 of them waits until there is room, and is the step of the
-- model once it has gone on.
pub record Link : Type 0 where
  pub node : Option ℕ
  pub inbound : Bool
  pub host : Str
  pub sent : List Str

-- The header of a message from the node `self`.
unfoldable pub cluster_msg_build_hdr : ClusterState → ℕ → ℕ → ClusterMsg
cluster_msg_build_hdr s self type =
    let n = s.heap self in
    record {
      sig = signature;
      type = type % 2 ^ 16;
      tot_len = 0;
      count = 0;
      port = n.client_port % 2 ^ 16;
      sender = n.name;
      cport = n.cluster_bus_port % 2 ^ 16;
      flags = n.flags % 2 ^ 16;
      state = s.state;
      slots = n.owned_slots;
      gossip = [];
    }

-- the pointers that a loop over the map visits
unfoldable pub visited : Dict ℕ → List Str → List ℕ
visited nodes [] = []
visited nodes (name ∷ names) =
    let rest = visited nodes names in elim (Dict.get nodes name) [ none ↦ rest | some p ↦ p ∷ rest ]

unfoldable pub all_nodes : ClusterState → List ℕ
all_nodes s = visited s.nodes (Dict.keys s.nodes)

-- The loop that counts `n` down; no value stands for the nil at its end.
unfoldable pub count_down : List ℕ → ℕ → Option ℕ
count_down [] n = none
count_down (p ∷ ps) zero = some p
count_down (p ∷ ps) (suc n) = count_down ps n

-- `rand.IntN(len(nodes))` is a drawn number modulo the length.
unfoldable pub get_random_node : List ℕ → ℕ → Option ℕ
get_random_node nodes draw = count_down nodes (draw % length nodes)

-- The variables of the loop in `clusterSendPing`.
pub record Selection : Type 0 where
  pub fresh : ℕ
  pub count : ℕ
  pub selected : List Str
  pub hdr : ClusterMsg

abbrev pub same_pointer : Option ℕ → ℕ → Bool
same_pointer none p = false
same_pointer (some q) p = q == p

-- `draws` are the numbers drawn, in order.
module _ (s : ClusterState) (draws : ℕ → ℕ) (link_node : Option ℕ) where
  unfoldable pub select_node : Selection → ℕ → Selection
  select_node sel p =
      let n = s.heap p in
      if same_pointer s.self p || same_pointer link_node p
      then sel
      else if contains sel.selected n.name
      then sel
      else record {
        fresh = sel.fresh - 1;
        count = sel.count + 1;
        selected = n.name ∷ sel.selected;
        hdr = cluster_set_gossip_entry sel.hdr n;
      }

  -- The loop, with the iterations that are left and the number of those made. A nil node has no
  -- snapshot.
  unfoldable pub select_nodes : ℕ → ℕ → ℕ → Selection → Option Selection
  select_nodes wanted zero k sel = some sel
  select_nodes wanted (suc left) k sel = elim (ltb 0 sel.fresh && ltb sel.count wanted) [
    | false ↦ some sel
    | true ↦ elim (get_random_node (all_nodes s) (draws k)) [
      | none ↦ none
      | some p ↦ select_nodes wanted left (k + 1) (select_node sel p)
    ]
  ]

abbrev pub wanted_nodes : ℕ → ℕ
wanted_nodes n =
    let tenth = n / 10 in
    let wanted = if ltb tenth 3 then 3 else tenth in if wanted == n - 1 then n - 1 else wanted

-- `linkNode.SetPingSent` where the link is inbound, which a nil node does not stand.
unfoldable pub note_ping : ClusterState → Link → ℕ → ℕ → Option ClusterState
note_ping s link type now =
    if link.inbound && type == ping
    then elim link.node [
      | none ↦ none
      | some p ↦ some (with_node s p (set_ping_sent (s.heap p) now))
    ]
    else some s

-- `link.Send() <- sendBuf`, unless there is no buffer
unfoldable pub send : Link → Option Str → Link
send link none = link
send link (some buf) = record link { sent = link.sent ++ (buf ∷ []) }

-- the length and the count, once the entries are selected
unfoldable pub finish_hdr : Selection → ClusterMsg
finish_hdr sel = record sel.hdr {
  tot_len = (header_size + gossip_size * sel.count) % 2 ^ 32;
  count = sel.count % 2 ^ 16;
}

unfoldable pub cluster_send_ping :
    ClusterState → (ℕ → ℕ) → ℕ → Link → ℕ → Option (ClusterState × Link)
cluster_send_ping s draws now link type =
    let n = length (all_nodes s) in
    let wanted = wanted_nodes n in
    do
      self ← s.self
      noted ← note_ping s link type now
      sel ← select_nodes noted draws link.node wanted (wanted * 3) 0 (record {
        fresh = n - 1;
        count = 0;
        selected = [];
        hdr = cluster_msg_build_hdr s self type;
      })
      some (noted, send link (serialize_cluster_msg (finish_hdr sel)))

-- `strings.HasPrefix`
unfoldable pub has_prefix : Str → Str → Bool
has_prefix s [] = true
has_prefix [] (b ∷ prefix) = false
has_prefix (a ∷ s) (b ∷ prefix) = a == b && has_prefix s prefix

-- `node.UpdateMessage(...)` with the fields of a message
unfoldable pub update_from : ClusterNode → ClusterMsg → ClusterNode
update_from n msg = update_message n msg.sender msg.port msg.cport msg.flags msg.slots

-- The node of the link takes the message in: under its new name, where its name was temporary.
unfoldable pub take_known : ClusterState → ℕ → ClusterMsg → ClusterState
take_known s p msg =
    let n = s.heap p in
    if has_prefix n.name (bytes "temp_")
    then with_node (delete_node s n.name) p (update_from n msg)
    else with_node s p (set_owned_slots n msg.slots)

-- The node that the message is from: that of the link, or a new one, which the link gets.
unfoldable pub take_sender : (ℕ → Str) → Cluster → Link → ClusterMsg → Cluster × Link × ℕ
take_sender uuids c link msg = elim link.node [
  | some p ↦ (record c { state = take_known c.state p msg }, link, p)
  | none ↦
      let n = update_from (new_node (uuids c.next) msg.port link.host msg.flags false) msg in
      (
        record { state = with_node c.state c.next n; next = c.next + 1 },
        record link { node = some c.next },
        c.next,
      )
]

-- the switch on the type of the message
unfoldable pub answer : (ℕ → ℕ) → ℕ → ClusterState → Link → ℕ → ℕ → Option (ClusterState × Link)
answer draws now s link p type =
    if type == ping
    then cluster_send_ping s draws now link pong
    else if type == pong
    then some (with_node s p (mark_pong_received (s.heap p) now), link)
    else some (s, link)

unfoldable pub cluster_process_msg :
    (ℕ → Str) → (ℕ → ℕ) → ℕ → Cluster → Link → ClusterMsg → Option (Cluster × Link)
cluster_process_msg uuids draws now c link msg =
    let (taken, link', p) = take_sender uuids c link msg in
    let stored = record taken { state = set_node taken.state p } in
    do
      learned ← cluster_process_gossip uuids stored msg
      (s, link'') ← answer draws now learned.state link' p msg.type
      some (record learned { state = s }, link'')

-- CLUSTER_HANDSHAKE_NODE|CLUSTER_MEET_NODE
abbrev pub handshake_flags : ℕ
handshake_flags = 160

-- The node of the handshake, and the PING on the link to it if the connection is made.
unfoldable pub cluster_start_handshake :
    (ℕ → Str) → (ℕ → ℕ) → ℕ → Bool → Cluster → Str → ℕ → Option (Cluster × Option Link)
cluster_start_handshake uuids draws now connects c host port =
    let n = new_node (uuids c.next) port host handshake_flags true in
    let c' : Cluster = record {
      state = set_node (with_node c.state c.next n) c.next;
      next = c.next + 1;
    } in
    let link : Link = record { node = some c.next; inbound = false; host = host; sent = [] } in
    if connects
    then (do
      (s, link') ← cluster_send_ping c'.state draws now link ping
      some (record c' { state = s }, some link'))
    else some (c', none)
