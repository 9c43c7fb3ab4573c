-- ===== src/Clusters/Rebalance/Ends.antt =====
-- utils/clusters/cluster.go: a rebalance ends, whatever becomes of its moves.
use emberdb.Prelude.{
  ℕ, zero, suc, ◌+◌, ◌-◌, ◌<◌, ◌≡◌, refl, ap, ◌∙◌, inl, inr, ◌⊎◌, not, Bool, Option, none, some,
  List, [], ◌∷◌, arith, Str, ltb, ◌==◌, length, get_elem?-lt, Bool-cases, if_both,
}
use emberdb.Prelude.Sort.Permutes.{IsSort}
use emberdb.Prelude.Int.{ℤ, pos, negsuc}
use emberdb.Clusters.Node.{ClusterNode}
use emberdb.Clusters.Network.{MoveResult, result, error}
use emberdb.Clusters.Rebalance.{
  Move, Rebalanced, RebalanceError, completed, failed, Loop, Next, stop, go, set_at, total_slots,
  numslots_of, after_move, move_of, adjust_both, move_round, round_of, rebalance_loop, Live, live,
  nil_at, nil_node, live_nodes, by_balance, rebalance_live, cluster_rebalance_nodes,
}
use emberdb.Clusters.Rebalance.Balanced.{length-by_balance}

length-set_at :
    (i : ℕ) (node : ClusterNode) (xs : List ClusterNode) → length (set_at i node xs) ≡ length xs
unfolding set_at
length-set_at i node [] = refl
length-set_at zero node (x ∷ xs) = refl
length-set_at (suc i) node (x ∷ xs) = ap suc (length-set_at i node xs)

-- The next round has as many nodes.
abbrev Keeps : ℕ → Next → Type 0
Keeps n (stop ms e) = Unit
Keeps n (go l) = length l.nodes ≡ n

module _ (move : Move → MoveResult) (total : ℕ) where
  after_move-Keeps :
      (n : ℕ) (l : Loop) (m : Move) (r : MoveResult)
      → length l.nodes ≡ n
      → Keeps n (after_move move total l m r)
  unfolding after_move
  after_move-Keeps n l m (error e) h = tt
  after_move-Keeps n l m (result r) h = if_both (Keeps n) (not (r == 1)) _ _ (λ _. tt) (λ _. h)

  length-adjust_both :
      (l : Loop) (i j : ℕ) (dst src : ClusterNode) (k : ℕ)
      → length (adjust_both move total l i j dst src k).nodes ≡ length l.nodes
  unfolding adjust_both
  length-adjust_both l i j dst src k = length-set_at j _ _ ∙ length-set_at i _ l.nodes

  round_of-Keeps :
      (l : Loop) (i j : ℕ) (dst src : ClusterNode) (z : ℤ)
      → Keeps (length l.nodes) (round_of move total l i j dst src z)
  unfolding round_of move_round
  round_of-Keeps l i j dst src (negsuc k) = refl
  round_of-Keeps l i j dst src (pos k) =
      let m = move_of move total l dst src k in
      if_both (Keeps (length l.nodes)) (ltb 0 k) _ _
        (λ _.
          if_both (Keeps (length l.nodes)) (length m.slots == k) _ _
            (λ _. after_move-Keeps _ l m (move m) refl)
            λ _.
              if_both (Keeps (length l.nodes)) (l.result == 0) _ _ (λ _. tt)
                (λ _. after_move-Keeps _ _ m (move m) (length-adjust_both l i j dst src k)))
        (λ _. refl)

  Next-cases :
      (r : Next)
      → ((ms : List Move) × (e : RebalanceError) × (r ≡ stop ms e)) ⊎ ((l : Loop) × (r ≡ go l))
  Next-cases (stop ms e) = inl (ms, e, refl)
  Next-cases (go l) = inr (l, refl)

  rebalance_loop-ends :
      (fuel i j : ℕ) (l : Loop)
      → j < length l.nodes
      → 0 < fuel
      → j < i + fuel
      → (r : Rebalanced) × (rebalance_loop move total fuel l i j ≡ some r)
  unfolding rebalance_loop
  rebalance_loop-ends zero i j l inside some_fuel enough = absurd (omega arith)
  rebalance_loop-ends (suc fuel) i j l inside some_fuel enough = elim (Bool-cases (ltb i j)) [
    | inr met ↦ (completed l.moves l.nodes, ground (arith, met))
    | inl apart ↦
        let (dst, at_i) = get_elem?-lt l.nodes i (ground arith) in
        let (src, at_j) = get_elem?-lt l.nodes j inside in
        let z = numslots_of dst src in
        elim (Next-cases (round_of move total l i j dst src z)) [
          | inl (ms, e, stopped) ↦ (failed ms e, ground (arith, apart, at_i, at_j, stopped))
          | inr (l', next) ↦
              let size : length l'.nodes ≡ length l.nodes =
                rw next at (round_of-Keeps l i j dst src z) in
              let (r, rest) =
                rebalance_loop-ends fuel (i + 1) (j - 1) l' (ground arith) (ground arith)
                  (ground arith) in
              (r, ground (arith, apart, at_i, at_j, next, rest))
        ]
  ]

Live-cases :
    (o : Live) → ((name : Str) × (o ≡ nil_at name)) ⊎ ((ns : List ClusterNode) × (o ≡ live ns))
Live-cases (nil_at name) = inl (name, refl)
Live-cases (live ns) = inr (ns, refl)

length-live_nodes :
    (name : Str) (o : Option ClusterNode) (rest : List (Str × Option ClusterNode))
    (nodes : List ClusterNode)
    → live_nodes ((name, o) ∷ rest) ≡ live nodes
    → 0 < length nodes
unfolding live_nodes
length-live_nodes name none rest nodes h = absurd (ground (arith, h))
length-live_nodes name (some node) rest nodes h = elim (Live-cases (live_nodes rest)) [
  | inl (at, e) ↦ absurd (ground (arith, e, h))
  | inr (ns, e) ↦ ground (arith, e, h)
]

rebalance_live-ends :
    (sort : (ClusterNode → ClusterNode → Bool) → List ClusterNode → List ClusterNode)
    (right : IsSort sort) (move : Move → MoveResult) (nodes : List ClusterNode)
    → 0 < length nodes
    → (r : Rebalanced) × (rebalance_live sort move nodes ≡ some r)
unfolding rebalance_live
rebalance_live-ends sort right move nodes some_node =
    let size = length-by_balance sort right nodes in
    rebalance_loop-ends move (total_slots (by_balance sort nodes)) (length nodes) 0
      (length nodes - 1) _ (omega arith) some_node (omega arith)

-- ClusterRebalanceNodes on any map ends, without a panic and with all its rounds made, whatever the
-- moves between the servers come to and in whatever order `sort.Slice` leaves equal nodes.
pub cluster_rebalance_nodes-ends :
    (sort : (ClusterNode → ClusterNode → Bool) → List ClusterNode → List ClusterNode)
    → IsSort sort
    → (move : Move → MoveResult) (entries : List (Str × Option ClusterNode))
    → (r : Rebalanced) × (cluster_rebalance_nodes sort move entries ≡ some r)
unfolding cluster_rebalance_nodes
cluster_rebalance_nodes-ends sort right move [] = (_, refl)
cluster_rebalance_nodes-ends sort right move ((name, o) ∷ rest) =
    elim (Live-cases (live_nodes ((name, o) ∷ rest))) [
      | inl (at, e) ↦ (failed [] (nil_node at), ground (arith, e))
      | inr (ns, e) ↦
          let (r, done) =
            rebalance_live-ends sort right move ns (length-live_nodes name o rest ns e) in
          (r, ground (arith, e, done))
    ]
