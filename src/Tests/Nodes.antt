-- ===== src/Tests/Nodes.antt =====
-- Nodes and the owners of slots.
use emberdb.Prelude.{◌≡◌, refl, true, false, none, some, bytes, ◌==◌, if◌then◌else◌}
use emberdb.Prelude.Int.{pos}
use emberdb.Prelude.Words.{test_bit, set_bit}
use emberdb.Dict
use emberdb.Dict.{Dict}
use emberdb.Clusters.Node.{ClusterNode, Bitmap, count_slots, has_slot, with_slot}
use emberdb.Clusters.State.{ClusterState, owns, get_slot_owner, first_owner}
use emberdb.Clusters.State.Owners.{Known, get_slot_owner-some}
use emberdb.Prelude.{str_eq, drop_str}

abbrev node : Bitmap → ClusterNode
node slots = record {
  name = bytes "n";
  host = bytes "h";
  client_port = 6379;
  cluster_bus_port = 16379;
  owned_slots = slots;
  num_slots = count_slots slots;
  flags = 0;
  tcp_host = bytes "h";
  tcp_port = 6379;
  pong_received = 0;
  ping_sent = 0;
  balance = pos 0;
}

-- No slots, and the slot 70.
abbrev bare : ClusterNode
bare = node (λ _. 0)

abbrev rich : ClusterNode
rich = node (with_slot (λ _. 0) 70)

rich_has : has_slot rich.owned_slots 70 ≡ true
unfolding has_slot with_slot test_bit set_bit
rich_has = refl

bare_has : has_slot bare.owned_slots 70 ≡ false
unfolding has_slot test_bit
bare_has = refl

-- The node 0 is this one and owns nothing; the node 1 owns the slot 70.
abbrev two_nodes : ClusterState
two_nodes = record {
  heap = λ i. if i == 0 then bare else rich;
  self = some 0;
  nodes = Dict.put (Dict.put Dict.empty (bytes "b") 1) (bytes "a") 0;
  slots = λ _. none;
  state = 0;
  importing = λ _. none;
  migrating = λ _. none;
}

other_owner : get_slot_owner two_nodes (Dict.keys two_nodes.nodes) 70 ≡ some 1
unfolding get_slot_owner owns has_slot test_bit first_owner Dict.keys Dict.put Dict.get str_eq
    drop_str with_slot set_bit Dict.empty
other_owner = refl

get_slot_owner-some_example : (owns two_nodes 70 1 ≡ true) × Known two_nodes 1
get_slot_owner-some_example =
    get_slot_owner-some two_nodes (Dict.keys two_nodes.nodes) 70 1 other_owner
