-- ===== src/Clusters/Gossip.antt =====
-- utils/clusters/gossip.go: entries of a message, made from a node and taken into the state.
pub mod Named
pub mod Learned
pub mod Owners
use emberdb.Prelude.{
  ℕ, ◌+◌, ◌%◌, ◌^◌, false, Option, none, some, List, [], ◌∷◌, ◌++◌, Str, str_eq, if◌then◌else◌,
}
use emberdb.Prelude.Reader.{◌>>=◌}
use emberdb.Clusters.Node.{ClusterNode, new_node, update_gossip}
use emberdb.Clusters.State.{ClusterState, get_node, set_node, with_node}
use emberdb.Clusters.Message.{Gossip, ClusterMsg}

-- The state of the cluster, and the first pointer that no node has yet.
pub record Cluster : Type 0 where
  pub state : ClusterState
  pub next : ℕ

-- A Unix time as uint32; the zero time gives 0.
abbrev pub unix32 : ℕ → ℕ
unix32 t = t % 2 ^ 32

unfoldable pub gossip_of : ClusterNode → Gossip
gossip_of n = record {
  node_name = n.name;
  cport = n.cluster_bus_port % 2 ^ 16;
  port = n.tcp_port % 2 ^ 16;
  flags = n.flags % 2 ^ 16;
  ping_sent = unix32 n.ping_sent;
  pong_received = unix32 n.pong_received;
}

unfoldable pub cluster_set_gossip_entry : ClusterMsg → ClusterNode → ClusterMsg
cluster_set_gossip_entry hdr n = record hdr { gossip = hdr.gossip ++ (gossip_of n ∷ []) }

-- `node.UpdateGossip(...)` with the fields of the entry
unfoldable pub refresh : ClusterNode → Gossip → ClusterNode
refresh n g = update_gossip n g.node_name g.port g.cport g.flags

-- `uuids` are the strings that new nodes draw, by their pointers.
module _ (uuids : ℕ → Str) where
  -- a node of the entry, known under the name of the entry
  unfoldable pub learn : Cluster → Gossip → Cluster
  learn c g =
      let node = refresh (new_node (uuids c.next) g.port [] g.flags false) g in
      record { state = set_node (with_node c.state c.next node) c.next; next = c.next + 1 }

  unfoldable pub take_entry : Cluster → Gossip → Cluster
  take_entry c g = elim (get_node c.state g.node_name) [
    | none ↦ learn c g
    | some p ↦ record c { state = with_node c.state p (refresh (c.state.heap p) g) }
  ]

  -- `self` is the pointer to this node, whose name no entry changes.
  unfoldable pub process_entry : ℕ → Cluster → Gossip → Cluster
  process_entry self c g = if str_eq g.node_name (c.state.heap self).name then c else take_entry c g

  -- the loop over the entries
  unfoldable pub process_entries : ℕ → Cluster → List Gossip → Cluster
  process_entries self c [] = c
  process_entries self c (g ∷ gs) = process_entries self (process_entry self c g) gs

  -- Without a node of its own, an entry follows a nil pointer: no value.
  unfoldable pub cluster_process_gossip : Cluster → ClusterMsg → Option Cluster
  cluster_process_gossip c msg = elim c.state.self [
    | some self ↦ some (process_entries self c msg.gossip)
    | none ↦ elim msg.gossip [ [] ↦ some c | _ ∷ _ ↦ none ]
  ]
