-- ===== src/Server.antt =====
-- cmd/ember-server: what a command handler works with, and the routing of a key.
pub mod Strings
pub mod Lists
pub mod Hashes
pub mod Sets
pub mod SortedSets
pub mod Keys
pub mod Cluster
pub mod Migrate
pub mod Subscriptions
pub mod Connection
pub mod Dispatch
pub mod Routing
use emberdb.Prelude.{
  ℕ, ◌≡◌, ◌-◌, Bool, false, Option, none, some, List, [], ◌∷◌, ◌++◌, Str, bytes, leb, ◌==◌, ◌&&◌,
  if◌then◌else◌, map,
}
use emberdb.Prelude.Int.{ℤ}
use emberdb.Slot.{Runtime, slot_for_key}
use emberdb.Store.{KvStore}
use emberdb.Clusters.State.{ClusterState, get_slot_owner}

-- One element of the array of `CLUSTER SLOTS`: its first and its last slot, and the node.
pub record SlotRange : Type 0 where
  pub first : ℕ
  pub last : ℕ
  pub host : Str
  pub port : ℕ
  pub name : Str

-- What a handler writes to the connection: `WriteOK`, `WriteStatusString`, `WriteError`, `WriteInt`,
-- `WriteString` or `WriteBytes`, `WriteNullString`, the arrays, whose missing elements are nil, the
-- array of ranges of slots, and the raw reply `-MOVED slot host:port`.
pub data Reply : Type 0 where
  ok null : Reply
  status failure bulk : Str → Reply
  integer : ℕ → Reply
  array : List (Option Str) → Reply
  slot_ranges : List SlotRange → Reply
  moved : ℕ → Str → ℕ → Reply

-- The replies of a handler, in order, and the store it leaves; no value stands for a panic.
abbrev pub Handled : Type 0 → Type 0
Handled F = Option (List Reply × KvStore F)

module _ {F : Type 0} where
  abbrev pub reply : KvStore F → Reply → Handled F
  reply kv r = some (r ∷ [], kv)

  -- No list stands for a slice out of range, which panics.
  unfoldable pub list_reply : KvStore F → Option (List Str) → Handled F
  list_reply kv none = none
  list_reply kv (some list) = some (array (map some list) ∷ [], kv)

-- `WriteArrayString`
abbrev pub strings_array : List Str → Reply
strings_array xs = array (map some xs)

-- `if !ok { WriteNullString } else { WriteString }`
abbrev pub string_or_null : Option Str → Reply
string_or_null none = null
string_or_null (some s) = bulk s

-- `strings.ToUpper` on ASCII letters
abbrev upper_byte : ℕ → ℕ
upper_byte c = if leb b'a' c && leb c b'z' then c - 32 else c

abbrev pub to_upper : Str → Str
to_upper s = map upper_byte s

-- `clusterEnabled` and the global `serverState`. `visits` are the orders in which a command ranges over
-- the map of nodes, by the number of the call: Go draws an order for each.
pub record Server : Type 0 where
  pub cluster_enabled : Bool
  pub state : ClusterState
  pub visits : ℕ → List Str

-- what `toMoveorNotToMove` finds: "OK", or the reply it writes
pub data Route : Type 0 where
  served : Route
  elsewhere : Reply → Route

-- `ownerNode != serverState.Self`
abbrev pub is_self : Option ℕ → ℕ → Bool
is_self none node = false
is_self (some me) node = me == node

pub route_to : ClusterState → ℕ → Option ℕ → Route
route_to s slot none = elsewhere (failure (bytes "CLUSTERDOWN Hash slot not served"))
route_to s slot (some node) =
    let owner = s.heap node in
    if is_self s.self node then served else elsewhere (moved slot owner.host owner.client_port)

module _ {F : Type 0} where
  abbrev pub routed : Route → KvStore F → Handled F → Handled F
  routed served kv rest = rest
  routed (elsewhere r) kv rest = reply kv r

module _ {F : Type 0} (rt : Runtime F) (sv : Server) where
  unfoldable pub to_move_or_not_to_move : Str → Route
  unfolding route_to
  to_move_or_not_to_move key =
      let slot = slot_for_key rt key in
      route_to sv.state slot (get_slot_owner sv.state (sv.visits 0) slot)

  -- `if clusterEnabled && toMoveorNotToMove(key, rconn, kv) != "OK" { return }`, and the rest
  unfoldable pub with_route : Str → KvStore F → Handled F → Handled F
  with_route key kv rest =
      if sv.cluster_enabled then routed (to_move_or_not_to_move key) kv rest else rest
