-- ===== src/Clusters/MoveSlots.antt =====
-- utils/clusters/cluster.go: `clusterMoveSlots`, the commands that move slots between two servers.
pub mod Script
pub mod Moved
use emberdb.Prelude.{
  ℕ, zero, suc, ◌+◌, ◌||◌, Option, none, some, List, [], ◌∷◌, ◌++◌, Str, bytes, str_eq, ltb, ◌==◌,
  if◌then◌else◌, length, take,
}
use emberdb.Prelude.Sort.{sort_stable}
use emberdb.Clusters.Node.{ClusterNode}
use emberdb.Clusters.Network.{
  Address, Event, Net, Step, MoveResult, Outcome, address, setslot, keys_request, migrate_request,
  keys_of, expect_ok, dial, write, importing, migrating, migrate, delete, node_target, node_source,
  node_other, unselected, no_source_host, no_target_host, nil_entry, no_host, unconnected_node,
  unconnected, result, error, onward, stopped, keyed, unkeyed,
}

-- What follows unless there is an error.
unfoldable pub after : Outcome → (List Event → Outcome) → Outcome
after (onward log) next = next log
after (stopped log e) next = stopped log e

unfoldable pub after_fuel : Outcome → (List Event → Option Outcome) → Option Outcome
after_fuel (onward log) next = next log
after_fuel (stopped log e) next = some (stopped log e)

module _ (net : Net) where
  unfoldable pub command : Step → ℕ → Address → List Str → List Event → Outcome
  command step slot to args log =
      expect_ok step slot (log ++ (write to args ∷ [])) (net.answer log (write to args))

  -- MIGRATE and DELETE of a batch of keys
  unfoldable pub migrate_keys : ClusterNode → ClusterNode → ℕ → List Str → List Event → Outcome
  migrate_keys src dst slot keys log =
      after (command migrate slot (address src) (migrate_request dst keys) log)
        λ l. command delete slot (address src) (bytes "DELETE" ∷ keys) l

  -- The loop over the batches, with fuel.
  unfoldable pub migrate_batches : ℕ → ClusterNode → ClusterNode → ℕ → List Event → Option Outcome
  migrate_batches zero src dst slot log = none
  migrate_batches (suc fuel) src dst slot log =
      let ask = write (address src) (keys_request slot) in
      let asked = log ++ (ask ∷ []) in
      elim (keys_of slot (net.answer log ask)) [
        | unkeyed e ↦ some (stopped asked e)
        | keyed [] ↦ some (onward asked)
        | keyed (key ∷ keys) ↦ elim (migrate_keys src dst slot (key ∷ keys) asked) [
          | stopped l e ↦ some (stopped l e)
          | onward l ↦ migrate_batches fuel src dst slot l
        ]
      ]

  -- A node that is neither of the two is told on a connection of its own.
  unfoldable pub tell_node : ClusterNode → ClusterNode → ℕ → List Event → Outcome
  tell_node dst n slot log =
      let knock = dial (address n) in
      if str_eq n.host []
      then stopped log (no_host n.name slot)
      else if net.reaches log knock
      then command (node_other n.name) slot (address n) (setslot slot (bytes "NODE") dst.name)
          (log ++ (knock ∷ []))
      else stopped (log ++ (knock ∷ [])) (unconnected_node n.name slot)

  -- the loop over the entries of the map, in the order in which it is visited
  unfoldable pub tell_nodes :
      ClusterNode → ClusterNode → ℕ → List (Str × Option ClusterNode) → List Event → Outcome
  tell_nodes src dst slot [] log = onward log
  tell_nodes src dst slot ((name, none) ∷ rest) log = stopped log (nil_entry name)
  tell_nodes src dst slot ((name, some n) ∷ rest) log =
      if str_eq n.name dst.name || str_eq n.name src.name
      then tell_nodes src dst slot rest log
      else after (tell_node dst n slot log) (tell_nodes src dst slot rest)

  -- the two ends of a slot are told of its new owner, and then all the others
  unfoldable pub assign_owner :
      ClusterNode → ClusterNode → ℕ → List (Str × Option ClusterNode) → List Event → Outcome
  assign_owner src dst slot nodes log =
      let args = setslot slot (bytes "NODE") dst.name in
      after (command node_target slot (address dst) args log)
        λ l. after (command node_source slot (address src) args l) (tell_nodes src dst slot nodes)

  unfoldable pub mark_slot : ClusterNode → ClusterNode → ℕ → List Event → Outcome
  mark_slot src dst slot log =
      after (command importing slot (address dst) (setslot slot (bytes "IMPORTING") src.name) log)
        λ l. command migrating slot (address src) (setslot slot (bytes "MIGRATING") dst.name) l

  -- what follows the batches of a slot
  unfoldable pub finish_slot :
      ClusterNode
      → ClusterNode
      → List (Str × Option ClusterNode)
      → ℕ
      → Option Outcome
      → Option Outcome
  finish_slot src dst nodes slot none = none
  finish_slot src dst nodes slot (some o) = some (after o (assign_owner src dst slot nodes))

  -- one slot, with fuel for its batches
  unfoldable pub move_slot :
      ℕ
      → ClusterNode
      → ClusterNode
      → List (Str × Option ClusterNode)
      → ℕ
      → List Event
      → Option Outcome
  move_slot fuel src dst nodes slot log =
      after_fuel (mark_slot src dst slot log)
        λ l. finish_slot src dst nodes slot (migrate_batches fuel src dst slot l)

  -- the loop over the slots: for each it visits the entries of the map anew, in the order
  -- `visits k` for the `k`-th
  unfoldable pub move_each :
      ℕ
      → ClusterNode
      → ClusterNode
      → (ℕ → List (Str × Option ClusterNode))
      → ℕ
      → List ℕ
      → List Event
      → Option Outcome
  move_each fuel src dst visits k [] log = some (onward log)
  move_each fuel src dst visits k (slot ∷ slots) log =
      elim (move_slot fuel src dst (visits k) slot log) [
        | none ↦ none
        | some o ↦ after_fuel o (move_each fuel src dst visits (k + 1) slots)
      ]

  -- `net.Dial` to one of the two ends
  unfoldable pub connect : ClusterNode → List Event → Outcome
  connect n log =
      let knock = dial (address n) in
      if net.reaches log knock
      then onward (log ++ (knock ∷ []))
      else stopped (log ++ (knock ∷ [])) (unconnected n.name (address n))

  unfoldable pub move_between :
      ℕ
      → ClusterNode
      → ClusterNode
      → (ℕ → List (Str × Option ClusterNode))
      → List ℕ
      → Option Outcome
  move_between fuel src dst visits slots =
      after_fuel (after (connect dst []) (connect src)) (move_each fuel src dst visits 0 slots)

  result_of : Outcome → List Event × MoveResult
  result_of (onward log) = (log, result 1)
  result_of (stopped log e) = (log, error e)

  -- Fuel bounds the batches of each slot, and no value is left where it is used up.
  unfoldable pub cluster_move_slots :
      ℕ
      → ClusterNode
      → ClusterNode
      → List ℕ
      → ℕ
      → (ℕ → List (Str × Option ClusterNode))
      → Option (List Event × MoveResult)
  unfolding result_of
  cluster_move_slots fuel src dst slots numslots visits =
      if numslots == 0
      then some ([], result 1)
      else if ltb (length slots) numslots
      then some ([], error (unselected numslots (length slots)))
      else if str_eq src.host []
      then some ([], error (no_source_host src.name))
      else if str_eq dst.host []
      then some ([], error (no_target_host dst.name))
      else elim (move_between fuel src dst visits (take numslots (sort_stable ltb slots))) [
        | none ↦ none
        | some o ↦ some (result_of o)
      ]
