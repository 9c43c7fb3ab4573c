-- ===== src/Clusters/Rebalance.antt =====
-- utils/clusters/cluster.go: `ClusterRebalanceNodes`, which plans the moves of slots between nodes.
pub mod Targets
pub mod Balanced
pub mod Completed
pub mod Ends
use emberdb.Prelude.{
  ℕ, zero, suc, ◌+◌, ◌-◌, ◌/◌, ◌%◌, Bool, true, false, not, Option, none, some, List, [], ◌∷◌, ◌++◌,
  Str, str_lt, ltb, ◌==◌, if◌then◌else◌, length, get_elem?, map,
}
use emberdb.Prelude.Int.{ℤ, pos, negsuc, ◌-ℤ◌, ltb_ℤ, pos_part, wrap32}
use emberdb.Slot.{slot_count}
use emberdb.Clusters.Node.{ClusterNode, set_balance, adjust_balance}
use emberdb.Clusters.Network.{MoveError, MoveResult, result, error}
use emberdb.Clusters.Reshard.{ReshardItem, compute_reshard_table}

pub data RebalanceError : Type 0 where
  no_nodes : RebalanceError
  nil_node : Str → RebalanceError
  too_few : Str → ℕ → ℕ → RebalanceError
  not_moved : MoveError → RebalanceError
  bad_result : ℕ → RebalanceError

-- A move that is asked for: the slots, the number of those moved before, and that of all.
pub record Move : Type 0 where
  pub source : ClusterNode
  pub target : ClusterNode
  pub slots : List ℕ
  pub moved_slots : ℕ
  pub total_slots : ℕ

-- The moves in order, and the error or the nodes in the end.
pub data Rebalanced : Type 0 where
  completed : List Move → List ClusterNode → Rebalanced
  failed : List Move → RebalanceError → Rebalanced

unfoldable pub target : ℕ → ℕ → ℕ
target n i = let base = slot_count / n in if ltb i (slot_count % n) then base + 1 else base

-- `int32(node.GetNumSlots()) - int32(target)`
unfoldable pub balance_of : ℕ → ℕ → ℤ
balance_of num_slots target = wrap32 (wrap32 (pos num_slots) -ℤ wrap32 (pos target))

-- the loop over the nodes, `n` of them, from the index `i` on
unfoldable pub set_balances : ℕ → ℕ → List ClusterNode → List ClusterNode
set_balances n i [] = []
set_balances n i (node ∷ nodes) =
    set_balance node (balance_of node.num_slots (target n i)) ∷ set_balances n (i + 1) nodes

-- `totalSlots`
unfoldable pub total_slots : List ClusterNode → ℕ
total_slots [] = 0
total_slots (node ∷ nodes) = pos_part node.balance + total_slots nodes

abbrev pub less_name : ClusterNode → ClusterNode → Bool
less_name a b = str_lt a.name b.name

abbrev pub less_balance : ClusterNode → ClusterNode → Bool
less_balance a b = ltb_ℤ a.balance b.balance

-- `nodes[i] = node`, for an index in range
unfoldable pub set_at : ℕ → ClusterNode → List ClusterNode → List ClusterNode
set_at i node [] = []
set_at zero node (x ∷ xs) = node ∷ xs
set_at (suc i) node (x ∷ xs) = x ∷ set_at i node xs

-- the larger of the two balances
abbrev pub numslots_of : ClusterNode → ClusterNode → ℤ
numslots_of dst src = if ltb_ℤ src.balance dst.balance then dst.balance else src.balance

-- `AdjustBalance` by `delta`, and by `nudge` where that gives 0
abbrev adjusted : ClusterNode → ℤ → ℤ → ClusterNode
adjusted node delta nudge =
    let n = adjust_balance node delta in
    elim n.balance [ pos zero ↦ adjust_balance n nudge | pos (suc k) ↦ n | negsuc k ↦ n ]

-- The variables of the loop.
pub record Loop : Type 0 where
  pub nodes : List ClusterNode
  pub result : ℕ
  pub moved_slots : ℕ
  pub moves : List Move

-- What a round comes to: an error after some moves, or the next round.
pub data Next : Type 0 where
  stop : List Move → RebalanceError → Next
  go : Loop → Next

-- `move` is what `clusterMoveSlots` comes to for each move, which depends on the other servers: the
-- result of `cluster_move_slots`, on fuel enough for them.
module _ (move : Move → MoveResult) (total : ℕ) where
  unfoldable pub after_move : Loop → Move → MoveResult → Next
  after_move l m (error e) = stop (l.moves ++ (m ∷ [])) (not_moved e)
  after_move l m (result r) =
      if not (r == 1)
      then stop (l.moves ++ (m ∷ [])) (bad_result r)
      else go (record l {
        result = r;
        moved_slots = l.moved_slots + length m.slots;
        moves = l.moves ++ (m ∷ []);
      })

  -- the slots of the reshard table that `n` slots of `src` make, asked to move to `dst`
  unfoldable pub move_of : Loop → ClusterNode → ClusterNode → ℕ → Move
  move_of l dst src n = record {
    source = src;
    target = dst;
    slots = map (λ (x : ReshardItem). x.slot) (compute_reshard_table n src);
    moved_slots = l.moved_slots;
    total_slots = total;
  }

  -- the nodes at the indices `i` and `j` with their balances adjusted
  unfoldable pub adjust_both : Loop → ℕ → ℕ → ClusterNode → ClusterNode → ℕ → Loop
  adjust_both l i j dst src n =
      let dst' = adjusted dst (pos n) (pos 1) in
      let src' = adjusted src (pos 0 -ℤ pos n) (negsuc 0) in
      record l { nodes = set_at j src' (set_at i dst' l.nodes) }

  -- `n` slots are to move, from the node `src` at the index `j` to `dst` at `i`.
  unfoldable pub move_round : Loop → ℕ → ℕ → ClusterNode → ClusterNode → ℕ → Next
  move_round l i j dst src n =
      let m = move_of l dst src n in
      if length m.slots == n
      then after_move l m (move m)
      else if l.result == 0
      then stop l.moves (too_few src.name (length m.slots) n)
      else after_move (adjust_both l i j dst src n) m (move m)

  unfoldable pub round_of : Loop → ℕ → ℕ → ClusterNode → ClusterNode → ℤ → Next
  round_of l i j dst src (pos n) = if ltb 0 n then move_round l i j dst src n else go l
  round_of l i j dst src (negsuc n) = go l

  -- The loop, with fuel. Without a node at an index there is a panic, for which no value stands.
  unfoldable pub rebalance_loop : ℕ → Loop → ℕ → ℕ → Option Rebalanced
  rebalance_loop zero l i j = none
  rebalance_loop (suc fuel) l i j = elim (ltb i j) [
    | false ↦ some (completed l.moves l.nodes)
    | true ↦ elim (get_elem? l.nodes i) [
      | none ↦ none
      | some dst ↦ elim (get_elem? l.nodes j) [
        | none ↦ none
        | some src ↦ elim (round_of l i j dst src (numslots_of dst src)) [
          | stop moves e ↦ some (failed moves e)
          | go l' ↦ rebalance_loop fuel l' (i + 1) (j - 1)
        ]
      ]
    ]
  ]

-- The nodes of a map, or the name of one that is nil.
pub data Live : Type 0 where
  live : List ClusterNode → Live
  nil_at : Str → Live

with_live : ClusterNode → Live → Live
with_live node (live nodes) = live (node ∷ nodes)
with_live node (nil_at name) = nil_at name

unfoldable pub live_nodes : List (Str × Option ClusterNode) → Live
unfolding with_live
live_nodes [] = live []
live_nodes ((name, none) ∷ rest) = nil_at name
live_nodes ((name, some node) ∷ rest) = with_live node (live_nodes rest)

-- `sort` is `sort.Slice`, which leaves equal elements in any order.
module _ (sort : (ClusterNode → ClusterNode → Bool) → List ClusterNode → List ClusterNode) where
  -- the nodes with their balances, in the order of these
  unfoldable pub by_balance : List ClusterNode → List ClusterNode
  by_balance nodes = sort less_balance (set_balances (length nodes) 0 (sort less_name nodes))

  -- As many rounds as nodes are enough, since the indices meet in the middle.
  unfoldable pub rebalance_live : (Move → MoveResult) → List ClusterNode → Option Rebalanced
  rebalance_live move nodes =
      let sorted = by_balance nodes in
      rebalance_loop move (total_slots sorted) (length nodes)
        (record { nodes = sorted; result = 0; moved_slots = 0; moves = [] }) 0 (length nodes - 1)

  -- The entries of the map, in the order in which it is visited.
  unfoldable pub cluster_rebalance_nodes :
      (Move → MoveResult) → List (Str × Option ClusterNode) → Option Rebalanced
  cluster_rebalance_nodes move [] = some (failed [] no_nodes)
  cluster_rebalance_nodes move (entry ∷ entries) = elim (live_nodes (entry ∷ entries)) [
    | nil_at name ↦ some (failed [] (nil_node name))
    | live nodes ↦ rebalance_live move nodes
  ]
