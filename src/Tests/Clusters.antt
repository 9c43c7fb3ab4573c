-- ===== src/Tests/Clusters.antt =====
-- Two nodes, the first of which is this one; the second owns the slot 70.
use emberdb.Prelude.{
  ℕ, ◌+◌, ◌%◌, ◌^◌, ◌<◌, ◌≤◌, ◌≡◌, refl, true, false, none, some, [], ◌∷◌, ◌++◌, map, List, arith,
  bytes, drop_str, Str, ◌==◌, if◌then◌else◌, str_eq, str_eq_iff, All, NoDup, length,
}
use emberdb.Prelude.BigEndian.{put_u32}
use emberdb.Prelude.Decimal.{atoi, digits_value}
use emberdb.Dict
use emberdb.Clusters.Node.{ClusterNode, Bitmap, slot_words, count_slots, with_slot, new_node}
use emberdb.Clusters.Node.Bitmap.{Counted}
use emberdb.Clusters.State.{ClusterState, get_node, get_slot_owner}
use emberdb.Clusters.Message.{ClusterMsg, Gossip, message, signature, deserialize_cluster_msg}
use emberdb.Clusters.Gossip.{Cluster, process_entries, cluster_process_gossip}
use emberdb.Clusters.Gossip.Named.{IsNamed, Extends}
use emberdb.Clusters.Gossip.Learned.{IsLearned, cluster_process_gossip_lem}
use emberdb.Clusters.Gossip.Owners.{cluster_process_gossip-owners}
use emberdb.Clusters.Bus.{
  Link, ping, pong, note_ping, all_nodes, wanted_nodes, cluster_send_ping, cluster_process_msg,
}
use emberdb.Clusters.Bus.Selecting.{IsOther, names}
use emberdb.Clusters.Bus.Wire.{name_read, entry_read}
use emberdb.Clusters.Bus.Sending.{CanSend, cluster_send_ping_lem}
use emberdb.Clusters.Bus.Receiving.{cluster_process_msg_lem}
use emberdb.Clusters.Reading.{returned, panicked, read_link}
use emberdb.Clusters.Reading.Served.{stream_of, deliver, read_link-deliver}
use emberdb.Clusters.Reading.Malformed.{read_link-panics}
use emberdb.Clusters.SetSlot.{parse_slot, cluster_set_slot}
use emberdb.Clusters.SetSlot.Assigned.{IsAssigned, set_slot_node_lem}
use emberdb.Clusters.SetSlot.Refused.{Settles, cluster_set_slot-Settles}
use emberdb.Tests.Messages.{hello, hello-IsMessage}

abbrev pub named : Str → Bitmap → ClusterNode
named name slots = record (new_node name 7000 (bytes "h") 0 false) {
  owned_slots = slots;
  num_slots = count_slots slots;
}

abbrev pub pair : ClusterState
pair = record {
  heap =
      λ i. if i == 0 then named (bytes "a") (λ _. 0) else named (bytes "b") (with_slot (λ _. 0) 70);
  self = some 0;
  nodes = Dict.put (Dict.put Dict.empty (bytes "b") 1) (bytes "a") 0;
  slots = λ _. none;
  state = 0;
  importing = λ _. none;
  migrating = λ _. none;
}

abbrev two : Cluster
two = record { state = pair; next = 2 }

abbrev uuids : ℕ → Str
uuids k = bytes "u" ++ (k ∷ [])

two-IsNamed : IsNamed two
unfolding get_node new_node
two-IsNamed = record {
  named = λ name p e. grind (
    arith,
    Dict.get-put {V = ℕ} (Dict.put Dict.empty (bytes "b") 1) (bytes "a") name 0,
    Dict.get-put {V = ℕ} Dict.empty (bytes "b") name 1,
    Dict.get-empty {V = ℕ} name,
    str_eq_iff (bytes "a") name,
    str_eq_iff (bytes "b") name,
  );
  self_used = λ p e. ground arith;
}

cluster_process_gossip_lem_example :
    (c' : Cluster) × (cluster_process_gossip uuids two hello ≡ some c')
    × Extends 0 two c'
    × All (IsLearned (two.state.heap 0).name c'.state) hello.gossip
cluster_process_gossip_lem_example = cluster_process_gossip_lem uuids two hello 0 two-IsNamed refl

cluster_process_gossip-owners_example :
    get_slot_owner (process_entries uuids 0 two hello.gossip).state (bytes "b" ∷ bytes "a" ∷ []) 70
    ≡ get_slot_owner pair (bytes "b" ∷ bytes "a" ∷ []) 70
cluster_process_gossip-owners_example =
    cluster_process_gossip-owners uuids two (process_entries uuids 0 two hello.gossip) hello 0
      (bytes "b" ∷ bytes "a" ∷ []) 70 two-IsNamed refl (unfold cluster_process_gossip in refl)

pub pair-CanSend : CanSend pair 0
unfolding new_node all_nodes emberdb.Clusters.Bus.visited Dict.keys Dict.put Dict.get str_eq
    drop_str Dict.empty
pair-CanSend = record {
  is_self = refl;
  words = λ i h. omega arith;
  state_small = omega arith;
  few_nodes = omega arith;
}

abbrev pub outbound : Link
outbound = record { node = some 1; inbound = false; host = bytes "h"; sent = [] }

cluster_send_ping_lem_example :
    (buf : Str) × (m : ClusterMsg) × (cluster_send_ping pair (λ k. k) 9 outbound ping
      ≡ some (pair, record outbound { sent = [] ++ (buf ∷ []) }))
    × (deserialize_cluster_msg buf ≡ some (message m))
    × (m.type ≡ ping % 2 ^ 16)
    × (m.sender ≡ name_read (pair.heap 0).name)
    × ((i : ℕ) → i < slot_words → m.slots i ≡ (pair.heap 0).owned_slots i)
    × (gs : List Gossip) × (m.gossip ≡ map entry_read gs)
    × All (IsOther pair (some 1)) gs
    × NoDup (names gs)
    × (length gs ≤ wanted_nodes (length (all_nodes pair)))
cluster_send_ping_lem_example =
    cluster_send_ping_lem pair pair 0 outbound (λ k. k) ping 9 pair-CanSend
      (unfold note_ping in refl)

abbrev inbound : Link
inbound = record { node = none; inbound = true; host = bytes "h"; sent = [] }

cluster_process_msg_lem_example :
    (c' : Cluster) × (link' : Link) × (p : ℕ) × (cluster_process_msg uuids
        (λ k. k)
        9
        two
        inbound
        hello
      ≡ some (c', link'))
    × IsNamed c'
    × (c'.state.self ≡ some 0)
    × (link'.node ≡ some p)
    × (p < c'.next)
    × ((c'.state.heap p).owned_slots ≡ hello.slots)
cluster_process_msg_lem_example =
    cluster_process_msg_lem uuids (λ k. k) 9 0 two inbound hello two-IsNamed refl
      (λ p e. ground arith)

abbrev draws : ℕ → ℕ → ℕ
draws k i = k + i

abbrev times : ℕ → ℕ
times k = k

read_link-deliver_example :
    (c' : Cluster) × (link' : Link) × (read_link uuids draws times two inbound
        (stream_of (hello ∷ []))
      ≡ returned c' link')
    × (deliver uuids draws times 0 two inbound (hello ∷ []) ≡ some (c', link'))
    × IsNamed c'
read_link-deliver_example =
    read_link-deliver uuids draws times (hello ∷ []) 0 two inbound (hello-IsMessage, tt) two-IsNamed
      refl (λ p e. ground arith)

read_link-panics_example :
    read_link uuids draws times two inbound (signature ++ (put_u32 12 ++ bytes "abcdef")) ≡ panicked
read_link-panics_example =
    read_link-panics uuids draws times two inbound 12 (bytes "abcdef") (omega arith) (omega arith)

pair-Counted : Counted (pair.heap 0)
unfolding new_node
pair-Counted = refl

set_slot_node_lem_example :
    (s' : ClusterState) × (cluster_set_slot pair (bytes "70" ∷ bytes "NODE" ∷ bytes "b" ∷ [])
      ≡ some (none, s'))
    × IsAssigned pair 70 1 0 s'
unfolding digits_value Dict.get Dict.put str_eq
set_slot_node_lem_example =
    set_slot_node_lem pair (bytes "70") (bytes "NODE") (bytes "b") 70 1 0
      (unfold parse_slot atoi in refl) refl (unfold get_node in refl) refl pair-Counted

cluster_set_slot-Settles_example :
    Settles pair (cluster_set_slot pair (bytes "70" ∷ bytes "soon" ∷ bytes "b" ∷ []))
cluster_set_slot-Settles_example =
    cluster_set_slot-Settles pair 0 refl (bytes "70" ∷ bytes "soon" ∷ bytes "b" ∷ [])
