-- ===== src/Clusters/State.antt =====
-- utils/clusters/state.go: what a node knows of the cluster. The nodes lie on a heap, since the map
-- and the field `Self` share them; a pointer to a node is an index into it.
pub mod Owners
use emberdb.Prelude.{ℕ, ◌≡◌, Bool, Option, none, some, List, [], ◌∷◌, Str, ◌==◌, if◌then◌else◌}
use emberdb.Dict
use emberdb.Dict.{Dict}
use emberdb.Clusters.Node.{ClusterNode, has_slot}

-- The maps of slots are functions, and no node stands for nil or a missing slot.
pub record ClusterState : Type 0 where
  pub heap : ℕ → ClusterNode
  pub self : Option ℕ
  pub nodes : Dict ℕ
  pub slots : ℕ → Option ℕ
  pub state : ℕ
  pub importing : ℕ → Option ℕ
  pub migrating : ℕ → Option ℕ

unfoldable pub get_node : ClusterState → Str → Option ℕ
get_node s name = Dict.get s.nodes name

unfoldable pub set_node : ClusterState → ℕ → ClusterState
set_node s node = record s { nodes = Dict.put s.nodes (s.heap node).name node }

unfoldable pub delete_node : ClusterState → Str → ClusterState
delete_node s name = record s { nodes = Dict.remove s.nodes name }

unfoldable pub owns : ClusterState → ℕ → ℕ → Bool
owns s slot node = has_slot (s.heap node).owned_slots slot

-- The loop over the map, whose names it visits in the order of the list; a name that is not in the
-- map is none that it visits.
unfoldable pub first_owner : ClusterState → ℕ → List Str → Option ℕ
first_owner s slot [] = none
first_owner s slot (name ∷ names) =
    let rest = first_owner s slot names in
    elim (Dict.get s.nodes name) [
      | none ↦ rest
      | some node ↦ if owns s slot node then some node else rest
    ]

self_owner : ClusterState → ℕ → Option ℕ → Option ℕ
self_owner s slot none = none
self_owner s slot (some node) = if owns s slot node then some node else none

owner_or : Option ℕ → Option ℕ → Option ℕ
owner_or none other = other
owner_or (some node) other = some node

-- The slot is below 16384; another one would be out of range. `order` is the order in which this
-- call visits the map, which Go draws for each call anew.
unfoldable pub get_slot_owner : ClusterState → List Str → ℕ → Option ℕ
unfolding self_owner owner_or
get_slot_owner s order slot = owner_or (self_owner s slot s.self) (first_owner s slot order)

unfoldable pub set_slot_stable : ClusterState → ℕ → ClusterState
set_slot_stable s slot = record s {
  importing = λ i. if slot == i then none else s.importing i;
  migrating = λ i. if slot == i then none else s.migrating i;
}

unfoldable pub importing_slots_from : ClusterState → ℕ → ℕ → ClusterState
importing_slots_from s slot node = record s {
  importing = λ i. if slot == i then some node else s.importing i;
}

unfoldable pub migrating_slots_to : ClusterState → ℕ → ℕ → ClusterState
migrating_slots_to s slot node = record s {
  migrating = λ i. if slot == i then some node else s.migrating i;
}

unfoldable pub get_node_from_slot : ClusterState → ℕ → Option ℕ
get_node_from_slot s slot = s.slots slot

-- what an assignment through the pointer `p` makes of the heap
unfoldable pub with_node : ClusterState → ℕ → ClusterNode → ClusterState
with_node s p n = record s { heap = λ i. if p == i then n else s.heap i }
