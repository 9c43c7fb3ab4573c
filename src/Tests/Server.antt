-- ===== src/Tests/Server.antt =====
-- Commands on a node of a cluster.
use emberdb.Prelude.{
  ◌-◌, ◌^◌, ◌≡◌, refl, ap, ◌∙◌, is_some, ◌⊎◌, true, false, none, some, [], ◌∷◌, Str, bytes, str_eq,
  drop_str, ◌==◌, if◌then◌else◌,
}
use emberdb.Prelude.Int.{pos}
use emberdb.Prelude.Words.{test_bit}
use emberdb.Prelude.Decimal.{atoi, digits_value}
use emberdb.Dict
use emberdb.Slot.{slot_for_key, hash_part, index_byte}
use emberdb.Store.{KvStore, incrby_not_integer, new_kv_store}
use emberdb.Strings.{set, incr_by}
use emberdb.Strings.Batch.{set_all}
use emberdb.Clusters.Node.{ClusterNode, has_slot}
use emberdb.Clusters.State.{ClusterState, get_node, get_slot_owner, first_owner, owns}
use emberdb.Clusters.State.Owners.{Lists}
use emberdb.Server.{with_route, Reply, ok, failure, served, Server, reply, to_move_or_not_to_move}
use emberdb.Server.Strings.{handle_set, handle_mset, split_keys, cross_slot}
use emberdb.Server.Keys.{handle_restore_asking}
use emberdb.Server.Keys.Restores.{handle_restore_asking-fails}
use emberdb.Server.Dispatch.{run, rpush}
use emberdb.Server.Dispatch as Dispatch
use emberdb.Server.Routing.Batch.{pairs_of, handle_mset-set_all}
use emberdb.Server.Routing.{run-elsewhere, Redirects}
use emberdb.Tests.Fixture.{rolling, toy, key}

abbrev node : Str → Prim.Native.Nat.ℕ → ClusterNode
node host word = record {
  name = host;
  host = host;
  client_port = 6379;
  cluster_bus_port = 16379;
  owned_slots = λ _. word;
  num_slots = 0;
  flags = 0;
  tcp_host = host;
  tcp_port = 6379;
  pong_received = 0;
  ping_sent = 0;
  balance = pos 0;
}

-- The node "a" owns every slot and the node "b" none.
abbrev state_of : Prim.Native.Nat.ℕ → ClusterState
state_of me = record {
  heap = λ i. if i == 0 then node (bytes "a") (2 ^ 64 - 1) else node (bytes "b") 0;
  self = some me;
  nodes = Dict.put (Dict.put Dict.empty (bytes "b") 1) (bytes "a") 0;
  slots = λ _. none;
  state = 0;
  importing = λ _. none;
  migrating = λ _. none;
}

abbrev server_with : Prim.Native.Nat.ℕ → Server
server_with me = record {
  cluster_enabled = true;
  state = state_of me;
  visits = λ k. Dict.keys (state_of me).nodes;
}

abbrev owner : Server
owner = server_with 0

abbrev stranger : Server
stranger = server_with 1

abbrev store : KvStore Prim.Native.Nat.ℕ
store = new_kv_store true

here : to_move_or_not_to_move toy owner key ≡ served
unfolding to_move_or_not_to_move get_slot_owner owns has_slot test_bit first_owner Dict.keys
    Dict.put Dict.get Dict.empty str_eq drop_str slot_for_key hash_part index_byte rolling
here = refl

stranger_visits : Lists stranger.state (stranger.visits 0)
unfolding get_node
stranger_visits name p e = Dict.contains-keys stranger.state.nodes name ∙ ap is_some e

stranger_lacks : owns stranger.state (slot_for_key toy key) 1 ≡ false
unfolding owns has_slot test_bit slot_for_key rolling hash_part index_byte
stranger_lacks = refl

run-elsewhere_example :
    (r : Reply) × (run toy stranger store rpush (key ∷ bytes "v" ∷ []) ≡ reply store r)
    × (((text : Str) × (r ≡ failure text)
          × ((s : ClusterState)
              → run toy (record stranger { state = s }) store rpush (key ∷ bytes "v" ∷ [])
                ≡ reply store r))
        ⊎ Redirects toy stranger store key r)
run-elsewhere_example =
    run-elsewhere toy stranger store key rpush (bytes "v" ∷ []) 1 refl refl stranger_visits refl
      stranger_lacks

not_a_number : (incr_by toy store key (bytes "x")).0 ≡ some incrby_not_integer
unfolding incr_by atoi digits_value
not_a_number = refl

one_slot : cross_slot toy (slot_for_key toy key) (split_keys (key ∷ bytes "2" ∷ [])) ≡ false
unfolding cross_slot split_keys slot_for_key hash_part index_byte rolling
one_slot = refl

handle_mset-set_all_example :
    handle_mset toy owner store (key ∷ bytes "1" ∷ key ∷ bytes "2" ∷ [])
    ≡ reply (set_all toy store (pairs_of (key ∷ bytes "1" ∷ key ∷ bytes "2" ∷ []))) ok
handle_mset-set_all_example =
    handle_mset-set_all toy owner store key (bytes "1") (key ∷ bytes "2" ∷ []) refl
      (unfold new_kv_store in refl) (λ on. (one_slot, here))

handle_restore_asking-fails_example :
    (handle_restore_asking toy store (key ∷ bytes "0" ∷ bytes "d" ∷ []) ≡ none)
    ⊎ ((text : Str) × (handle_restore_asking toy store (key ∷ bytes "0" ∷ bytes "d" ∷ [])
          ≡ reply store (failure text)))
handle_restore_asking-fails_example =
    handle_restore_asking-fails toy store (key ∷ bytes "0" ∷ bytes "d" ∷ [])

set_done :
    run toy owner store Dispatch.set (key ∷ bytes "v" ∷ [])
    ≡ some (ok ∷ [], set toy store key (bytes "v"))
unfolding run handle_set with_route
set_done = rw here
