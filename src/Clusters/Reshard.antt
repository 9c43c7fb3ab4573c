-- ===== src/Clusters/Reshard.antt =====
-- utils/clusters/cluster.go: `clusterComputeReshardTable`, the slots that a node gives away.
pub mod Chosen
use emberdb.Prelude.{ℕ, zero, suc, ◌+◌, true, false, List, [], ◌∷◌, leb}
use emberdb.Slot.{slot_count}
use emberdb.Clusters.Node.{ClusterNode, Bitmap, has_slot}

-- clusterNodeRehardItem
pub record ReshardItem : Type 0 where
  pub node : ClusterNode
  pub slot : ℕ

-- The loop over the slots from `slot` on, of which `left` are left. `count` is the number of the
-- items so far, which is the length of `moved` as well.
unfoldable pub reshard_loop : ClusterNode → Bitmap → ℕ → ℕ → ℕ → ℕ → List ReshardItem
reshard_loop source owned numslots count zero slot = []
reshard_loop source owned numslots count (suc left) slot = elim (has_slot owned slot) [
  | false ↦ reshard_loop source owned numslots count left (slot + 1)
  | true ↦ elim (leb numslots count) [
    | true ↦ []
    | false ↦
        record { node = source; slot = slot }
        ∷ reshard_loop source owned numslots (count + 1) left (slot + 1)
  ]
]

unfoldable pub compute_reshard_table : ℕ → ClusterNode → List ReshardItem
compute_reshard_table numslots source =
    reshard_loop source source.owned_slots numslots 0 slot_count 0
