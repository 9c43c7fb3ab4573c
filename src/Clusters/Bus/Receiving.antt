-- ===== src/Clusters/Bus/Receiving.antt =====
-- utils/clusters/gossip.go: a node takes a message in.
use emberdb.Prelude.{
  ℕ, ◌-◌, ◌*◌, ◌<◌, ◌≡◌, refl, ◌∙◌, inl, inr, Option, none, some, [], arith, Str, bytes, str_eq_iff,
  length, ◌==◌, if_both, Option-cases,
}
use emberdb.Dict
use emberdb.Clusters.Node.{set_owned_slots, update_gossip, update_message, mark_pong_received}
use emberdb.Clusters.State.{ClusterState, get_node, set_node, delete_node, with_node}
use emberdb.Clusters.Message.{ClusterMsg, serialize_cluster_msg}
use emberdb.Clusters.Gossip.{Cluster}
use emberdb.Clusters.Gossip.Named.{IsNamed}
use emberdb.Clusters.Gossip.Learned.{cluster_process_gossip_lem}
use emberdb.Clusters.Bus.{
  Link, Selection, ping, pong, all_nodes, cluster_msg_build_hdr, wanted_nodes, note_ping,
  finish_hdr, send, cluster_send_ping, has_prefix, update_from, take_known, take_sender, answer,
  cluster_process_msg,
}
use emberdb.Clusters.Bus.Selecting.{select_nodes-IsSelection}

-- the state with the sender in the map
abbrev stored : Cluster → ℕ → Cluster
stored c p = record c { state = set_node c.state p }

take_known-IsNamed :
    (c : Cluster) (p : ℕ) (msg : ClusterMsg)
    → IsNamed c
    → p < c.next
    → IsNamed (stored (record c { state = take_known c.state p msg }) p)
      × (((take_known c.state p msg).heap p).owned_slots ≡ msg.slots)
      × ((take_known c.state p msg).self ≡ c.state.self)
unfolding take_known set_node get_node delete_node with_node update_from update_message
    update_gossip set_owned_slots
take_known-IsNamed c p msg h used =
    let P : ClusterState → Type 0 = λ s.
      IsNamed (stored (record c { state = s }) p)
      × ((s.heap p).owned_slots ≡ msg.slots)
      × (s.self ≡ c.state.self) in
    if_both P (has_prefix (c.state.heap p).name (bytes "temp_")) _ _
      (λ _. (
        record {
          named = λ name q e. grind (
            arith,
            h.named name q,
            Dict.get-put (Dict.remove c.state.nodes (c.state.heap p).name),
            Dict.get-remove c.state.nodes,
            str_eq_iff msg.sender name,
            str_eq_iff (c.state.heap p).name name,
          );
          self_used = h.self_used;
        },
        ground arith,
        refl,
      ))
      (λ _. (
        record {
          named = λ name q e. grind (
            arith,
            h.named name q,
            Dict.get-put c.state.nodes,
            str_eq_iff (c.state.heap p).name name,
          );
          self_used = h.self_used;
        },
        ground arith,
        refl,
      ))

-- The sender of the message: the node of the link, in use, with the slots of the message, and with
-- its name in the map.
abbrev IsSender : Cluster → ClusterMsg → Cluster × Link × ℕ → Type 0
IsSender c msg (taken, link, p) =
    IsNamed (stored taken p)
    × (p < taken.next)
    × (link.node ≡ some p)
    × ((taken.state.heap p).owned_slots ≡ msg.slots)
    × (taken.state.self ≡ c.state.self)

take_sender-IsSender :
    (uuids : ℕ → Str) (c : Cluster) (link : Link) (msg : ClusterMsg)
    → IsNamed c
    → ((p : ℕ) → link.node ≡ some p → p < c.next)
    → IsSender c msg (take_sender uuids c link msg)
unfolding take_sender set_node get_node with_node update_from update_message update_gossip
    set_owned_slots
take_sender-IsSender uuids c link msg h used = elim (Option-cases link.node) [
  | inr (p, e) ↦
      let (named, slots, self) = take_known-IsNamed c p msg h (used p e) in
      rw e (named, used p e, refl, slots, self)
  | inl nobody ↦ rw nobody (
    record {
      named = λ name q e.
          grind (arith, h.named name q, Dict.get-put c.state.nodes, str_eq_iff msg.sender name);
      self_used = λ q e. omega (arith, h.self_used q e);
    },
    omega arith,
    refl,
    ground arith,
    refl,
  )
]

node-send : (link : Link) (buf : Option Str) → (send link buf).node ≡ link.node
unfolding send
node-send link none = refl
node-send link (some buf) = refl

-- A PONG is always sent, or dropped for its length: the loop ends, and the state stays.
send_pong-some :
    (s : ClusterState) (self : ℕ) (draws : ℕ → ℕ) (now : ℕ) (link : Link)
    → s.self ≡ some self
    → (link' : Link) × (cluster_send_ping s draws now link pong ≡ some (s, link'))
      × (link'.node ≡ link.node)
unfolding cluster_send_ping note_ping cluster_msg_build_hdr
send_pong-some s self draws now link me =
    let hdr = cluster_msg_build_hdr s self pong in
    let n = length (all_nodes s) in
    let wanted = wanted_nodes n in
    let start : Selection = record { fresh = n - 1; count = 0; selected = []; hdr = hdr } in
    let (sel, e, h) =
      select_nodes-IsSelection s link.node draws hdr wanted (wanted * 3) 0 start (record {
        same_header = refl;
        counted = refl;
        bounded = omega arith;
        left_over = omega arith;
        others = tt;
        seen = λ k. refl;
        distinct = tt;
      }) in
    (
      send link (serialize_cluster_msg (finish_hdr sel)),
      ground (arith, me, e),
      node-send link (serialize_cluster_msg (finish_hdr sel)),
    )

-- What holds after the answer: nothing that the message has brought is lost.
abbrev Keeps : Cluster → ℕ → Link → ClusterState × Link → Type 0
Keeps c p link (s', link') =
    IsNamed (record c { state = s' })
    × (s'.self ≡ c.state.self)
    × ((s'.heap p).owned_slots ≡ (c.state.heap p).owned_slots)
    × (link'.node ≡ link.node)

answer-Keeps :
    (c : Cluster) (self : ℕ) (draws : ℕ → ℕ) (now : ℕ) (link : Link) (p type : ℕ)
    → IsNamed c
    → c.state.self ≡ some self
    → (r : ClusterState × Link) × (answer draws now c.state link p type ≡ some r) × Keeps c p link r
unfolding answer with_node mark_pong_received get_node
answer-Keeps c self draws now link p type h me =
    let P : Option (ClusterState × Link) → Type 0 =
      λ o. (r : ClusterState × Link) × (o ≡ some r) × Keeps c p link r in
    if_both P (type == ping) _ _
      (λ _.
        let (link', e, same) = send_pong-some c.state self draws now link me in
        ((c.state, link'), e, (h, refl, refl, same)))
      λ _.
        if_both P (type == pong) _ _
          (λ _. (
            _,
            refl,
            (
              record {
                named = λ name q e. grind (arith, h.named name q e);
                self_used = h.self_used;
              },
              refl,
              ground arith,
              refl,
            ),
          ))
          (λ _. (_, refl, (h, refl, refl, refl)))

-- In a state whose nodes lie in the map under their own names, clusterProcessMsg on a link without a
-- node or with a node in use ends without a panic, whatever the message. That property of the map
-- holds again, this node is still itself, and the link has a node in use, whose slots are those of the
-- message.
pub cluster_process_msg_lem :
    (uuids : ℕ → Str) (draws : ℕ → ℕ) (now self : ℕ) (c : Cluster) (link : Link) (msg : ClusterMsg)
    → IsNamed c
    → c.state.self ≡ some self
    → ((p : ℕ) → link.node ≡ some p → p < c.next)
    → (c' : Cluster) × (link' : Link) × (p : ℕ) × (cluster_process_msg uuids draws now c link msg
        ≡ some (c', link'))
      × IsNamed c'
      × (c'.state.self ≡ some self)
      × (link'.node ≡ some p)
      × (p < c'.next)
      × ((c'.state.heap p).owned_slots ≡ msg.slots)
unfolding cluster_process_msg set_node
cluster_process_msg_lem uuids draws now self c link msg h me used =
    let r = take_sender uuids c link msg in
    let taken = r.0 in
    let p = r.2 in
    let (named, in_use, linked, slots, same_self) = take_sender-IsSender uuids c link msg h used in
    let (learned, e, kept, _) =
      cluster_process_gossip_lem uuids (stored taken p) msg self named (same_self ∙ me) in
    let ((s', link'), e', (named', self', slots', linked')) =
      answer-Keeps learned self draws now r.1 p msg.type kept.is_named
        (kept.same_self ∙ same_self ∙ me) in
    (
      record learned { state = s' },
      link',
      p,
      rw (e, e') refl,
      named',
      self' ∙ kept.same_self ∙ same_self ∙ me,
      linked' ∙ linked,
      omega (arith, kept.grown),
      slots' ∙ kept.owned p in_use ∙ slots,
    )
