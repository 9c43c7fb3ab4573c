-- ===== src/Server/Cluster.antt =====
-- cmd/ember-server/commands_cluster.go: SETSLOT and CLUSTER.
pub mod Slots
pub mod Adding
use emberdb.Prelude.{
  ℕ, zero, suc, ◌+◌, ◌-◌, ◌*◌, Bool, true, false, not, ◌||◌, Option, none, some, List, [], ◌∷◌,
  ◌++◌, Str, bytes, str_eq, ltb, leb, ◌&&◌, ◌==◌, if◌then◌else◌, map,
}
use emberdb.Prelude.Int.{ℤ, pos, negsuc}
use emberdb.Prelude.Decimal.{atoi, itoa}
use emberdb.Dict
use emberdb.Dict.{Dict}
use emberdb.Slot.{slot_count}
use emberdb.Clusters.Node.{ClusterNode, add_slot_range}
use emberdb.Clusters.State.{ClusterState, get_slot_owner, with_node}
use emberdb.Clusters.SetSlot.{
  SetSlotError, invalid_arguments, invalid_slot, invalid_range, unknown_node, unsupported_state,
  cluster_set_slot,
}
use emberdb.Server.{SlotRange, Reply, ok, failure, bulk, slot_ranges, strings_array, Server}

-- The replies of a handler, in order, and the cluster it leaves; no value stands for a panic.
abbrev pub ClusterHandled : Type 0
ClusterHandled = Option (List Reply × ClusterState)

abbrev pub cluster_reply : ClusterState → Reply → ClusterHandled
cluster_reply s r = some (r ∷ [], s)

abbrev pub refuse : ClusterState → Str → ClusterHandled
refuse s text = cluster_reply s (failure text)

abbrev pub set_slot_error_text : SetSlotError → Str
set_slot_error_text invalid_arguments = bytes "invalid SETSLOT arguments"
set_slot_error_text invalid_slot = bytes "invalid slot"
set_slot_error_text invalid_range = bytes "invalid slot range"
set_slot_error_text (unknown_node id) = bytes "unknown node " ++ id
set_slot_error_text (unsupported_state word) = bytes "unsupported SETSLOT state " ++ word

set_slot_replies : Option (Option SetSlotError × ClusterState) → ClusterHandled
set_slot_replies none = none
set_slot_replies (some (none, s)) = cluster_reply s ok
set_slot_replies (some (some e, s)) = refuse s (bytes "SETSLOT ERROR: " ++ set_slot_error_text e)

unfoldable pub handle_set_slot : ClusterState → List Str → ClusterHandled
unfolding set_slot_replies
handle_set_slot s args = set_slot_replies (cluster_set_slot s args)

-- A run of slots that one node owns.
pub record Range : Type 0 where
  pub first : ℕ
  pub last : ℕ
  pub node : ℕ

abbrev pub is_owner : ℕ → Option ℕ → Bool
is_owner owner none = false
is_owner owner (some node) = node == owner

-- The inner loop of `clusterSlots`, with the number of the slots after `end`. Each lookup of a slot
-- visits the nodes in an order of its own: the inner loop looks a slot up once at most, and so does
-- the outer one.
unfoldable pub range_end : ClusterState → (ℕ → List Str) → ℕ → ℕ → ℕ → ℕ
range_end s visits owner zero end = end
range_end s visits owner (suc left) end =
    let more = range_end s visits owner left (end + 1) in
    if is_owner owner (get_slot_owner s (visits (2 * (end + 1) + 1)) (end + 1)) then more else end

-- The outer loop from `start` on. It has at most as many rounds as there are slots.
unfoldable pub cluster_ranges : ClusterState → (ℕ → List Str) → ℕ → ℕ → List Range
cluster_ranges s visits zero start = []
cluster_ranges s visits (suc fuel) start = elim (ltb start slot_count) [
  | false ↦ []
  | true ↦ elim (get_slot_owner s (visits (2 * start)) start) [
    | none ↦ cluster_ranges s visits fuel (start + 1)
    | some owner ↦
        let end = range_end s visits owner (slot_count - 1 - start) start in
        record { first = start; last = end; node = owner } ∷ cluster_ranges s visits fuel (end + 1)
  ]
]

abbrev shown : ClusterState → Range → SlotRange
shown s r =
    let n = s.heap r.node in
    record { first = r.first; last = r.last; host = n.host; port = n.client_port; name = n.name }

unfoldable pub cluster_slots : ClusterState → (ℕ → List Str) → List SlotRange
cluster_slots s visits = map (shown s) (cluster_ranges s visits slot_count 0)

-- `CLUSTER ADDSLOTSRANGE`, once its arguments are parsed: the table, and the bitmap of this node.
unfoldable pub add_range : ClusterState → ℕ → ℕ → ClusterHandled
add_range s start end = elim s.self [
  | none ↦ none
  | some me ↦ elim (add_slot_range (s.heap me) start end) [
    | none ↦ none
    | some n ↦
        let table : ℕ → Option ℕ = λ i. if leb start i && leb i end then some me else s.slots i in
        cluster_reply (with_node (record s { slots = table }) me n) ok
  ]
]

range_text : ℤ → ℤ → Str
range_text start end = bytes "ERR invalid slot range " ++ (itoa start ++ (bytes "-" ++ itoa end))

-- The two errors end in the text of Atoi's error, which is left out.
unfoldable pub checked_range : ClusterState → Option ℤ → Option ℤ → ClusterHandled
unfolding range_text
checked_range s none end = refuse s (bytes "ERR invalid start slot: ")
checked_range s (some start) none = refuse s (bytes "ERR invalid end slot: ")
checked_range s (some (negsuc n)) (some end) = refuse s (range_text (negsuc n) end)
checked_range s (some (pos start)) (some (negsuc n)) = refuse s (range_text (pos start) (negsuc n))
checked_range s (some (pos start)) (some (pos end)) =
    if ltb end start || leb slot_count end
    then refuse s (range_text (pos start) (pos end))
    else add_range s start end

abbrev wrong_number : Str → Str
wrong_number word = bytes "Wrong number of arguments for 'CLUSTER" ++ (word ++ bytes "' command")

unfoldable pub handle_add_slots_range : ClusterState → List Str → ClusterHandled
handle_add_slots_range s (word ∷ start ∷ end ∷ []) = checked_range s (atoi start) (atoi end)
handle_add_slots_range s _ = refuse s (wrong_number (bytes " ADDSLOTSRANGE"))

unfoldable pub handle_my_addr : ClusterState → ClusterHandled
handle_my_addr s = elim s.self [
  | none ↦ none
  | some me ↦
      let n = s.heap me in cluster_reply s (strings_array (n.host ∷ itoa (pos n.client_port) ∷ []))
]

unfoldable pub handle_slots : ClusterState → (ℕ → List Str) → List Str → ClusterHandled
handle_slots s visits (word ∷ []) = cluster_reply s (slot_ranges (cluster_slots s visits))
handle_slots s visits _ = refuse s (wrong_number (bytes " SLOTS"))

nodes_reply : ClusterState → Option Str → ClusterHandled
nodes_reply s none = refuse s (bytes "encode cluster nodes: ")
nodes_reply s (some payload) = cluster_reply s (bulk payload)

-- the outcome of a handshake: its error, if any, and the state it leaves
met : Option (Option Str × ClusterState) → ClusterHandled
met none = none
met (some (none, s)) = cluster_reply s ok
met (some (some text, s)) = refuse s (bytes "ERR cluster meet: " ++ text)

-- the snapshots, by name, in the order of the map
snapshots : (ℕ → ClusterNode) → Dict ℕ → List Str → List (Str × ClusterNode)
snapshots heap nodes [] = []
snapshots heap nodes (name ∷ names) =
    let rest = snapshots heap nodes names in
    elim (Dict.get nodes name) [ none ↦ rest | some p ↦ (name, heap p) ∷ rest ]

-- `marshal` stands for `json.Marshal` on the snapshots by name, and `handshake` for
-- `ClusterStartHandshake`, which dials.
module _ (marshal : List (Str × ClusterNode) → Option Str)
    (handshake : ClusterState → Str → ℤ → Option (Option Str × ClusterState)) where
  unfoldable pub meet_port : ClusterState → Str → Option ℤ → ClusterHandled
  unfolding met
  meet_port s host none = refuse s (bytes "ERR invalid cluster port: ")
  meet_port s host (some port) = met (handshake s host port)

  unfoldable pub handle_meet : ClusterState → List Str → ClusterHandled
  handle_meet s (word ∷ host ∷ port ∷ []) = meet_port s host (atoi port)
  handle_meet s _ = refuse s (wrong_number (bytes " MEET"))

  unfoldable pub handle_nodes : ClusterState → ClusterHandled
  unfolding nodes_reply snapshots
  handle_nodes s = nodes_reply s (marshal (snapshots s.heap s.nodes (Dict.keys s.nodes)))

  -- the switch on the first argument
  unfoldable pub cluster_command : ClusterState → (ℕ → List Str) → Str → List Str → ClusterHandled
  cluster_command s visits word args =
      if str_eq word (bytes "SLOTS")
      then handle_slots s visits args
      else if str_eq word (bytes "NODES")
      then handle_nodes s
      else if str_eq word (bytes "ADDSLOTSRANGE")
      then handle_add_slots_range s args
      else if str_eq word (bytes "MYADDR")
      then handle_my_addr s
      else if str_eq word (bytes "MEET")
      then handle_meet s args
      else refuse s (bytes "NO SUCH COMMAND")

  unfoldable pub handle_cluster : Server → List Str → ClusterHandled
  handle_cluster sv args =
      if not sv.cluster_enabled
      then refuse sv.state (bytes "Clustering is not enabled")
      else elim args [
        | [] ↦ refuse sv.state (wrong_number [])
        | word ∷ rest ↦ cluster_command sv.state sv.visits word (word ∷ rest)
      ]
