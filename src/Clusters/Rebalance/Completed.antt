-- ===== src/Clusters/Rebalance/Completed.antt =====
-- utils/clusters/cluster.go: the moves that a rebalance asks for.
use emberdb.Prelude.{
  ℕ, zero, suc, ◌+◌, ◌-◌, ◌*◌, ◌<◌, ◌≤◌, ◌≡◌, refl, sym, ap, ◌∙◌, inl, inr, Bool, get_elem?, true,
  false, some, List, [], ◌∷◌, ◌++◌, arith, ltb, ◌==◌, if◌then◌else◌, length, take, All,
  length-append, Bool-cases, get_elem?-lt,
}
use emberdb.Prelude.Sort.{IsSorted}
use emberdb.Prelude.Sort.Permutes.{IsSort}
use emberdb.Prelude.Int.{ℤ, pos, negsuc}
use emberdb.Slot.{slot_count}
use emberdb.Clusters.Node.{ClusterNode}
use emberdb.Clusters.Node.Bitmap.{Counted}
use emberdb.Clusters.Reshard.Chosen.{Ascends, IsOwned, compute_reshard_table_lem}
use emberdb.Clusters.Network.{MoveResult, result}
use emberdb.Clusters.Rebalance.{
  Move, completed, total_slots, less_balance, Loop, Next, go, after_move, move_of, move_round,
  round_of, rebalance_loop, by_balance, rebalance_live,
}
use mathlib.Core.List.{append_assoc, append-nil}
use emberdb.Clusters.Rebalance.Balanced.{
  has_surplus, surplus_count, IsBalanced, All-append, All-get_elem?, surplus_count-take,
  sorted_pair, take-length, length-by_balance, by_balance-IsSorted, by_balance-IsBalanced,
}

-- A move of as many slots as its source has too many, in ascending order, all of its own.
abbrev pub IsRight : Move → Type 0
IsRight m =
    (pos (length m.slots) ≡ m.source.balance)
    × Ascends 0 m.slots
    × All (IsOwned m.source.owned_slots) m.slots

-- A move between two of the nodes.
abbrev pub IsBetween : List ClusterNode → Move → Type 0
IsBetween xs m =
    ((i : ℕ) × (get_elem? xs i ≡ some m.target)) × ((j : ℕ) × (get_elem? xs j ≡ some m.source))

module _ (move : Move → MoveResult) (total : ℕ) where
  abbrev more_room : ClusterNode → ℕ
  more_room src = if has_surplus src then 1 else 0

  -- What a round gives: the next one, with right moves of the node `src` alone.
  abbrev Goes : Loop → ClusterNode → Next → Type 0
  Goes l src r =
      (l' : Loop) × (r ≡ go l')
      × (l'.nodes ≡ l.nodes)
      × (ms : List Move) × (l'.moves ≡ l.moves ++ ms)
      × All IsRight ms
      × (length ms ≡ more_room src)

  stays : (l : Loop) (src : ClusterNode) → more_room src ≡ 0 → Goes l src (go l)
  stays l src none_left = (l, refl, refl, [], sym (append-nil l.moves), tt, sym none_left)

  move_round-Goes :
      (l : Loop) (i j : ℕ) (dst src : ClusterNode) (k : ℕ)
      → src.balance ≡ pos (suc k)
      → IsBalanced src
      → let m = move_of move total l dst src (suc k) in
        (IsRight m → move m ≡ result 1) → Goes l src (move_round move total l i j dst src (suc k))
  unfolding move_round after_move move_of
  move_round-Goes l i j dst src k e (counted, fits) moves =
      let m = move_of move total l dst src (suc k) in
      let (_, up, own, size) = compute_reshard_table_lem (suc k) src counted in
      let enough : suc k ≤ src.num_slots = rw e at fits in
      let full : length m.slots ≡ suc k = omega arith in
      let same : (length m.slots == suc k) ≡ true = ground arith in
      let good : IsRight m = (ap pos full ∙ sym e, up, own) in
      (
        record l {
          result = 1;
          moved_slots = l.moved_slots + length m.slots;
          moves = l.moves ++ (m ∷ []);
        },
        rw (same, moves good) refl,
        refl,
        m ∷ [],
        refl,
        (good, tt),
        ground (arith, e),
      )

  round_of-Goes :
      (l : Loop) (i j : ℕ) (dst src : ClusterNode) (z : ℤ)
      → src.balance ≡ z
      → IsBalanced src
      → ((n : ℕ) → let m = move_of move total l dst src n in IsRight m → move m ≡ result 1)
      → Goes l src (round_of move total l i j dst src z)
  unfolding round_of
  round_of-Goes l i j dst src (pos zero) e ok moves = stays l src (ground (arith, e))
  round_of-Goes l i j dst src (pos (suc k)) e ok moves =
      let more : ltb 0 (suc k) ≡ true = ground arith in
      rw more (move_round-Goes l i j dst src k e ok (moves (suc k)))
  round_of-Goes l i j dst src (negsuc n) e ok moves = stays l src (ground (arith, e))

  module _ (xs : List ClusterNode) (sorted : IsSorted less_balance xs) (ok : All IsBalanced xs)
      (moves_all : (m : Move) → IsBetween xs m → IsRight m → move m ≡ result 1) where
    -- The loop from the indices `i` and `j` on.
    rebalance_loop_lem :
        (fuel i j : ℕ) (l : Loop)
        → l.nodes ≡ xs
        → j < length xs
        → 0 < fuel
        → j < i + fuel
        → (ms : List Move) × (rebalance_loop move total fuel l i j
            ≡ some (completed (l.moves ++ ms) xs))
          × All IsRight ms
          × (length ms ≤ surplus_count (take (suc j) xs))
          × (length ms * 2 ≤ suc j - i)
    unfolding rebalance_loop
    rebalance_loop_lem zero i j l same inside some_fuel enough = absurd (omega arith)
    rebalance_loop_lem (suc fuel) i j l same inside some_fuel enough = elim (Bool-cases (ltb i j)) [
      | inr met ↦ ([], ground (arith, met, same, append-nil l.moves), tt, omega arith, omega arith)
      | inl apart ↦
          let (dst, at_i) = get_elem?-lt xs i (ground arith) in
          let (src, at_j) = get_elem?-lt xs j inside in
          let order : less_balance src dst ≡ false =
            sorted_pair xs i j dst src sorted (ground arith) at_i at_j in
          let fine = All-get_elem? IsBalanced xs j src ok at_j in
          let (l', next, nodes, ms, moves, right, one) =
            round_of-Goes l i j dst src src.balance refl fine
              (λ n good. moves_all _ (unfold move_of in ((i, at_i), (j, at_j))) good) in
          let (ms', rest, right', count, half) =
            rebalance_loop_lem fuel (i + 1) (j - 1) l' (nodes ∙ same) (omega arith) (ground arith)
              (ground arith) in
          let back : suc (j - 1) ≡ j = ground arith in
          let count' = rw back at count in
          let at_most : more_room src ≤ 1 = ground arith in
          let below : i < j = ground arith in
          (
            ms ++ ms',
            ground (
              arith,
              apart,
              same,
              at_i,
              at_j,
              order,
              next,
              rest,
              moves,
              append_assoc l.moves ms ms',
            ),
            All-append IsRight ms ms' right right',
            omega (arith, length-append ms ms', surplus_count-take xs j src at_j, one, count'),
            omega (arith, length-append ms ms', one, half, at_most, below),
          )
    ]

-- Where every right move between two of the nodes succeeds, the nodes, of which there is one at
-- least, have the right numbers of slots and none more than all, a rebalance completes, in whatever
-- order `sort.Slice` leaves equal nodes. A move is right that is of as many slots as its source has
-- too many, in ascending order and all of them its own, and each move of the rebalance is right.
-- There are no more moves than nodes with a surplus, and no more than half as many as nodes.
pub rebalance_live_lem :
    (sort : (ClusterNode → ClusterNode → Bool) → List ClusterNode → List ClusterNode)
    → IsSort sort
    → (move : Move → MoveResult) (nodes : List ClusterNode)
    → ((m : Move) → IsBetween (by_balance sort nodes) m → IsRight m → move m ≡ result 1)
    → 0 < length nodes
    → All (λ node. Counted node × (node.num_slots ≤ slot_count)) nodes
    → (moves : List Move) × (rebalance_live sort move nodes
        ≡ some (completed moves (by_balance sort nodes)))
      × All IsRight moves
      × (length moves ≤ surplus_count (by_balance sort nodes))
      × (length moves * 2 ≤ length nodes)
unfolding rebalance_live
rebalance_live_lem sort is_sort move nodes moves_all some_node fair =
    let xs = by_balance sort nodes in
    let n = length nodes in
    let size = length-by_balance sort is_sort nodes in
    let start : Loop = record { nodes = xs; result = 0; moved_slots = 0; moves = [] } in
    let (moves, done, right, count, half) =
      rebalance_loop_lem move (total_slots xs) xs (by_balance-IsSorted sort is_sort nodes)
        (by_balance-IsBalanced sort is_sort nodes some_node fair) moves_all n 0 (n - 1) start refl
        (omega arith) some_node (omega arith) in
    let last : suc (n - 1) ≡ length xs = omega arith in
    let count' = rw (last, take-length xs) at count in (moves, done, right, count', omega arith)
