-- ===== src/Clusters/MoveSlots/Moved.antt =====
-- utils/clusters/cluster.go: a move of slots that every server answers.
use emberdb.Prelude.{
  ℕ, zero, suc, ◌+◌, ◌<◌, ◌≤◌, ◌≡◌, refl, inl, inr, false, ◌||◌, ◌==◌, Option, some, List, [], ◌∷◌,
  ◌++◌, arith, Str, bytes, str_eq, ltb, All, length, take, map, Bool-cases,
}
use emberdb.Prelude.Sort.{sort_stable}
use emberdb.Clusters.Node.{ClusterNode}
use emberdb.Clusters.Network.{
  Event, write, address, keys_request, migrate_request, migrate, delete, Net, result, onward, Step,
  Address, keyed, keys_in, keys_of, expect_ok,
}
use emberdb.Clusters.MoveSlots.{
  after, after_fuel, command, migrate_keys, migrate_batches, tell_node, tell_nodes, assign_owner,
  mark_slot, finish_slot, move_slot, move_each, connect, move_between, cluster_move_slots,
}
use emberdb.Clusters.MoveSlots.Script.{
  event_of, Follows, play, play-append, play-map, Follows-append, ok, batches_script, tell_script,
  assign_script, mark_script, slot_script, slots_script, move_script,
}

-- the entries of the map
abbrev pub entries : List (Str × ClusterNode) → List (Str × Option ClusterNode)
entries nodes = map (λ (e : Str × ClusterNode). (e.0, some e.1)) nodes

abbrev pub HasHost : Str × ClusterNode → Type 0
HasHost e = str_eq e.1.host [] ≡ false

-- Fewer batches than `fuel`, and none of them empty.
abbrev pub AreBatches : ℕ → List (List Str) → Type 0
AreBatches fuel batches = (length batches < fuel) × All (λ (b : List Str). 0 < length b) batches

keys_in-some : (slot : ℕ) (keys : List Str) → keys_in slot (map some keys) ≡ keyed keys
unfolding keys_in
keys_in-some slot [] = refl
keys_in-some slot (key ∷ keys) = rw (keys_in-some slot keys) refl

module _ (net : Net) where
  command-ok :
      (step : Step) (slot : ℕ) (to : Address) (args : List Str) (log : List Event)
      → net.answer log (write to args) ≡ ok
      → command net step slot to args log ≡ onward (log ++ (write to args ∷ []))
  unfolding command expect_ok str_eq
  command-ok step slot to args log h = rw h refl

  module _ (src dst : ClusterNode) where
    migrate_batches-play :
        (batches : List (List Str)) (fuel slot : ℕ) (log : List Event)
        → AreBatches fuel batches
        → Follows net log (batches_script src dst slot batches)
        → migrate_batches net fuel src dst slot log
          ≡ some (onward (play log (batches_script src dst slot batches)))
    unfolding migrate_batches migrate_keys keys_of after
    migrate_batches-play batches zero slot log few h = absurd (omega arith)
    migrate_batches-play [] (suc fuel) slot log few h =
        let none_left : keys_of slot (net.answer log (write (address src) (keys_request slot)))
            ≡ keyed [] =
          rw (h.0) (unfold keys_in in refl) in
        ground (arith, none_left)
    migrate_batches-play ([] ∷ batches) (suc fuel) slot log few h = absurd (omega arith)
    migrate_batches-play ((key ∷ keys) ∷ batches) (suc fuel) slot log few h =
        let asked : keys_of slot (net.answer log (write (address src) (keys_request slot)))
            ≡ keyed (key ∷ keys) =
          rw (h.0) (keys_in-some slot (key ∷ keys)) in
        let moved =
          command-ok migrate slot (address src) (migrate_request dst (key ∷ keys)) _ (h.1.0) in
        let deleted =
          command-ok delete slot (address src) (bytes "DELETE" ∷ key ∷ keys) _ (h.1.1.0) in
        let rest = migrate_batches-play batches fuel slot _ (omega arith, few.1.1) (h.1.1.1) in
        ground (arith, asked, moved, deleted, rest)

    tell_nodes-play :
        (nodes : List (Str × ClusterNode)) (slot : ℕ) (log : List Event)
        → All HasHost nodes
        → Follows net log (tell_script src dst slot nodes)
        → tell_nodes net src dst slot (entries nodes) log
          ≡ onward (play log (tell_script src dst slot nodes))
    unfolding tell_nodes tell_node after
    tell_nodes-play [] slot log hosts h = refl
    tell_nodes-play ((name, n) ∷ nodes) slot log hosts h =
        elim (Bool-cases (str_eq n.name dst.name || str_eq n.name src.name)) [
          | inl skip ↦ let h' = rw skip at h in rw skip (tell_nodes-play nodes slot log hosts.1 h')
          | inr other ↦
              let h' = rw other at h in
              let host : str_eq n.host [] ≡ false = hosts.0 in
              rw (other, host, h'.0, command-ok _ slot _ _ _ h'.1.0)
                (tell_nodes-play nodes slot _ hosts.1 h'.1.1)
        ]

    module _ (visits : ℕ → List (Str × ClusterNode)) (hosts : (k : ℕ) → All HasHost (visits k))
        (batches : ℕ → List (List Str)) (fuel : ℕ)
        (few : (slot : ℕ) → AreBatches fuel (batches slot)) where
      assign_owner-play :
          (k slot : ℕ) (log : List Event)
          → Follows net log (assign_script src dst slot (visits k))
          → assign_owner net src dst slot (entries (visits k)) log
            ≡ onward (play log (assign_script src dst slot (visits k)))
      unfolding assign_owner after
      assign_owner-play k slot log h =
          rw (command-ok _ slot _ _ _ h.0, command-ok _ slot _ _ _ h.1.0)
            (tell_nodes-play (visits k) slot _ (hosts k) h.1.1)

      mark_slot-play :
          (slot : ℕ) (log : List Event)
          → Follows net log (mark_script src dst slot)
          → mark_slot net src dst slot log ≡ onward (play log (mark_script src dst slot))
      unfolding mark_slot after
      mark_slot-play slot log h =
          rw (command-ok _ slot _ _ _ h.0, command-ok _ slot _ _ _ h.1.0) refl

      move_slot-play :
          (k slot : ℕ) (log : List Event)
          → Follows net log (slot_script src dst (visits k) batches slot)
          → move_slot net fuel src dst (entries (visits k)) slot log
            ≡ some (onward (play log (slot_script src dst (visits k) batches slot)))
      unfolding move_slot finish_slot after after_fuel
      move_slot-play k slot log h =
          let bs = batches_script src dst slot (batches slot) in
          let us = assign_script src dst slot (visits k) in
          let l = play log (mark_script src dst slot) in
          let (h1, h2) = Follows-append net l bs us h.1.1 in
          let marked = mark_slot-play slot log (h.0, (h.1.0, tt)) in
          let emptied = migrate_batches-play (batches slot) fuel slot l (few slot) h1 in
          let assigned = assign_owner-play k slot (play l bs) h2 in
          let joined : play l (bs ++ us) ≡ play (play l bs) us = play-append l bs us in
          rw (marked, emptied, assigned, joined) refl

      move_each-play :
          (slots : List ℕ) (k : ℕ) (log : List Event)
          → Follows net log (slots_script src dst visits batches k slots)
          → move_each net fuel src dst (λ j. entries (visits j)) k slots log
            ≡ some (onward (play log (slots_script src dst visits batches k slots)))
      unfolding move_each after_fuel
      move_each-play [] k log h = refl
      move_each-play (slot ∷ slots) k log h =
          let ts = slot_script src dst (visits k) batches slot in
          let us = slots_script src dst visits batches (k + 1) slots in
          let (h1, h2) = Follows-append net log ts us h in
          let first = move_slot-play k slot log h1 in
          let rest = move_each-play slots (k + 1) _ h2 in
          ground (arith, first, rest, play-append log ts us)

      -- Where the servers answer a move of `numslots` of the slots as its script has it, with at least
      -- as much fuel as each slot has replies of keys, and every node of the map has a host,
      -- clusterMoveSlots sends what the script has and nothing else, in its order, and returns 1: for
      -- each slot in ascending order IMPORTING to the target and MIGRATING to the source, the batches
      -- up to an empty one, NODE to the target and to the source, and then to every other node, in the
      -- order in which the map is visited for that slot, which may differ from slot to slot.
      pub cluster_move_slots_lem :
          (slots : List ℕ) (numslots : ℕ)
          → 0 < numslots
          → numslots ≤ length slots
          → str_eq src.host [] ≡ false
          → str_eq dst.host [] ≡ false
          → Follows net []
              (move_script src dst visits batches (take numslots (sort_stable ltb slots)))
          → cluster_move_slots net fuel src dst slots numslots (λ j. entries (visits j))
            ≡ some (
              map event_of
                  (move_script src dst visits batches (take numslots (sort_stable ltb slots))),
              result 1,
            )
      unfolding cluster_move_slots move_between connect after after_fuel
      cluster_move_slots_lem slots numslots some_slot enough from to h =
          let chosen = take numslots (sort_stable ltb slots) in
          let some' : (numslots == 0) ≡ false = ground arith in
          let enough' : ltb (length slots) numslots ≡ false = ground arith in
          rw
            (
              some',
              enough',
              from,
              to,
              h.0,
              h.1.0,
              move_each-play chosen 0 _ h.1.1,
              play-map _ (slots_script src dst visits batches 0 chosen),
            )
            refl
