-- ===== src/Tests/Operations.antt =====
-- Reshard tables, rebalances, and the commands on the cluster and on subscriptions.
use emberdb.Prelude.{
  ℕ, ◌+◌, ◌-◌, ◌*◌, ◌<◌, ◌≤◌, ◌≡◌, zero, suc, ◌%◌, ◌==◌, sym, ◌∙◌, inl, inr, contains, str_eq_iff,
  Bool-cases, if_both, ◌&&◌, ◌||◌, false, str_eq, not, refl, true, none, some, List, [], ◌∷◌, arith,
  bytes, min, Str, All, length, take, NoDup, if◌then◌else◌,
}
use emberdb.Prelude.Sort.{sort_stable}
use emberdb.Prelude.Int.{wrap32, ◌-ℤ◌}
use emberdb.Prelude.Sort.Permutes.{sort_stable-IsSort}
use emberdb.Dict
use emberdb.Slot.{slot_count}
use emberdb.Store.{new_kv_store}
use emberdb.Clusters.Node.{ClusterNode, set_balance, Bitmap, has_slot, count_slots, new_node}
use emberdb.Clusters.State.{get_slot_owner, get_node, owns}
use emberdb.Clusters.Gossip.Owners.{test_bit-zero}
use emberdb.Clusters.State.Owners.{Lists, Known, IsSingle, get_slot_owner-order}
use emberdb.Prelude.Words.{test_bit}
use emberdb.Clusters.Reshard.{compute_reshard_table}
use emberdb.Clusters.Reshard.Chosen.{
  slots_of, owned_from, Ascends, IsOwned, compute_reshard_table_lem,
}
use emberdb.Clusters.Network.{MoveResult, result, error, no_source_host}
use emberdb.Clusters.Rebalance.{
  Move, Rebalanced, completed, target, set_balances, by_balance, rebalance_live,
  cluster_rebalance_nodes,
}
use emberdb.Clusters.Rebalance.Targets.{sum_targets, targets_lem}
use emberdb.Clusters.Rebalance.Balanced.{surplus_count, All-get_elem?}
use emberdb.Clusters.Rebalance.Completed.{IsRight, IsBetween, rebalance_live_lem}
use emberdb.Clusters.Rebalance.Ends.{cluster_rebalance_nodes-ends}
use emberdb.Server.Cluster.{cluster_ranges}
use emberdb.Server.Cluster.Slots.{Ascending, owner_in, cluster_ranges_lem}
use emberdb.Server.Migrate.{Transfer, answered, handle_migrate}
use emberdb.Server.Migrate.Kept.{handle_migrate-same}
use emberdb.PubSub.{PubSub, new_pub_sub, subscribe}
use emberdb.PubSub.Valid.{new_pub_sub-IsValid, subscribe_lem}
use emberdb.Server.Subscriptions.{Subscriptions, held, end_connection}
use emberdb.Server.Subscriptions.Ended.{LeftWithout, end_connection_lem}
use emberdb.Tests.Fixture.{toy, key}
use emberdb.Tests.Clusters.{named, pair}

abbrev few : ClusterNode
few = named (bytes "a") (λ _. 0)

abbrev many : ClusterNode
many = named (bytes "b") (λ _. 18446744073709551615)

abbrev uneven : List ClusterNode
uneven = few ∷ many ∷ []

-- Like `clusterMoveSlots`, which asks for the hosts of both nodes.
abbrev moves_hosted : Move → MoveResult
moves_hosted m =
    if str_eq m.source.host [] || str_eq m.target.host []
    then error (no_source_host m.source.name)
    else result 1

abbrev HasHost : ClusterNode → Type 0
HasHost n = str_eq n.host [] ≡ false

uneven-HasHost : All HasHost (by_balance sort_stable uneven)
unfolding by_balance set_balances set_balance str_eq sort_stable new_node emberdb.Prelude.str_lt
    emberdb.Clusters.Rebalance.balance_of wrap32 ◌-ℤ◌ count_slots emberdb.Clusters.Node.count_words
    emberdb.Prelude.Words.ones_count target
uneven-HasHost = (refl, (refl, tt))

hosted_moved : (m : Move) → IsBetween (by_balance sort_stable uneven) m → moves_hosted m ≡ result 1
hosted_moved m ((i, at_i), (j, at_j)) =
    let to = All-get_elem? HasHost (by_balance sort_stable uneven) i m.target uneven-HasHost at_i in
    let from =
      All-get_elem? HasHost (by_balance sort_stable uneven) j m.source uneven-HasHost at_j in
    rw (from, to) refl

compute_reshard_table_lem_example :
    let slots = slots_of (compute_reshard_table 3 many) in
    (slots ≡ take 3 (owned_from many.owned_slots slot_count 0))
    × Ascends 0 slots
    × All (IsOwned many.owned_slots) slots
    × (length slots ≡ min 3 many.num_slots)
unfolding new_node
compute_reshard_table_lem_example = compute_reshard_table_lem 3 many refl

targets_lem_example : (sum_targets 3 3 ≡ slot_count) × ((i j : ℕ) → target 3 i ≤ target 3 j + 1)
targets_lem_example = targets_lem 3 (omega arith)

rebalance_live_lem_example :
    (moves : List Move) × (rebalance_live sort_stable moves_hosted uneven
      ≡ some (completed moves (by_balance sort_stable uneven)))
    × All IsRight moves
    × (length moves ≤ surplus_count (by_balance sort_stable uneven))
    × (length moves * 2 ≤ length uneven)
unfolding new_node count_slots emberdb.Clusters.Node.count_words emberdb.Prelude.Words.ones_count
rebalance_live_lem_example =
    rebalance_live_lem sort_stable sort_stable-IsSort moves_hosted uneven
      (λ m between right. hosted_moved m between) (omega arith)
      ((refl, omega arith), ((refl, omega arith), tt))

cluster_rebalance_nodes-ends_example :
    (r : Rebalanced) × (cluster_rebalance_nodes sort_stable moves_hosted
        ((bytes "a", some few) ∷ (bytes "b", some many) ∷ [])
      ≡ some r)
cluster_rebalance_nodes-ends_example =
    cluster_rebalance_nodes-ends sort_stable sort_stable-IsSort moves_hosted
      ((bytes "a", some few) ∷ (bytes "b", some many) ∷ [])

-- The lookups visit the two nodes in one order and in the other by turns.
abbrev visits : ℕ → List Str
visits k = if k % 2 == 0 then bytes "a" ∷ bytes "b" ∷ [] else bytes "b" ∷ bytes "a" ∷ []

pair_nodes :
    (name : Str) (p : ℕ)
    → get_node pair name ≡ some p
    → (p ≤ 1)
      × (contains (bytes "a" ∷ bytes "b" ∷ []) name ≡ true)
      × (contains (bytes "b" ∷ bytes "a" ∷ []) name ≡ true)
unfolding get_node contains
pair_nodes name p e = grind (
  arith,
  Dict.get-put {V = ℕ} (Dict.put Dict.empty (bytes "b") 1) (bytes "a") name 0,
  Dict.get-put {V = ℕ} Dict.empty (bytes "b") name 1,
  Dict.get-empty {V = ℕ} name,
  str_eq_iff (bytes "a") name,
  str_eq_iff (bytes "b") name,
)

pair_order : Lists pair (bytes "b" ∷ bytes "a" ∷ [])
pair_order name p e = let (_, _, ba) = pair_nodes name p e in ba

pair_visits : (k : ℕ) → Lists pair (visits k)
pair_visits k name p e =
    let (_, ab, ba) = pair_nodes name p e in
    if_both (λ order. contains order name ≡ true) (k % 2 == 0) _ _ (λ _. ab) (λ _. ba)

pair-Known : (p : ℕ) → Known pair p → p ≤ 1
pair-Known p (inl e) = ground arith
pair-Known p (inr (name, e)) = (pair_nodes name p e).0

pair-owns : (t p : ℕ) → owns pair t p ≡ true → Known pair p → p ≡ 1
unfolding owns has_slot test_bit new_node
pair-owns t zero mine known = absurd (cc (mine, test_bit-zero (t % 64)))
pair-owns t (suc p) mine known = let h = pair-Known (suc p) known in omega arith

pair-IsSingle : (t : ℕ) → IsSingle pair t
pair-IsSingle t p q mine known mine' known' =
    pair-owns t p mine known ∙ sym (pair-owns t q mine' known')

cluster_ranges_lem_example :
    Ascending 0 (cluster_ranges pair visits slot_count 0)
    × ((t : ℕ)
        → t < slot_count
        → owner_in (cluster_ranges pair visits slot_count 0) t
          ≡ get_slot_owner pair (bytes "b" ∷ bytes "a" ∷ []) t)
cluster_ranges_lem_example =
    cluster_ranges_lem pair visits (bytes "b" ∷ bytes "a" ∷ []) pair_visits pair_order
      (λ t h. pair-IsSingle t)

get_slot_owner-order_example :
    get_slot_owner pair (bytes "a" ∷ bytes "b" ∷ []) 70
    ≡ get_slot_owner pair (bytes "b" ∷ bytes "a" ∷ []) 70
get_slot_owner-order_example =
    get_slot_owner-order pair (bytes "a" ∷ bytes "b" ∷ []) (bytes "b" ∷ bytes "a" ∷ []) 70
      (pair-IsSingle 70) (λ name p e. let (_, ab, _) = pair_nodes name p e in ab) pair_order

abbrev request : List Str
request = bytes "h" ∷ bytes "7001" ∷ bytes "0" ∷ bytes "u" ∷ bytes "5" ∷ bytes "KEYS" ∷ []

abbrev pub accepts : Str → Str → Str → Str → Transfer
accepts host port _ payload = answered none

handle_migrate-same_example :
    ((handle_migrate toy accepts (new_kv_store true) request).1 ≡ new_kv_store true)
    × (length (handle_migrate toy accepts (new_kv_store true) request).0 ≡ 1)
handle_migrate-same_example = handle_migrate-same toy accepts (new_kv_store true) request

abbrev subscribed : PubSub
subscribed = (subscribe new_pub_sub key).1

abbrev subs : Subscriptions
subs = Dict.put Dict.empty key (0 ∷ [])

end_connection_lem_example :
    (ps' : PubSub) × (end_connection subscribed subs ≡ some ps')
    × LeftWithout subscribed (λ c j. emberdb.PubSub.has j (held subs c)) ps'
end_connection_lem_example =
    end_connection_lem subscribed subs (subscribe_lem new_pub_sub key new_pub_sub-IsValid).0
