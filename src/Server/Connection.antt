-- ===== src/Server/Connection.antt =====
-- cmd/ember-server/main.go: `handleConnection`, for any number of connections to one server.
pub mod Sound
use emberdb.Prelude.{
  ℕ, Bool, Option, none, some, List, [], ◌∷◌, ◌++◌, Str, bytes, str_eq, ◌==◌, if◌then◌else◌, map,
  lower_byte, ◌≡◌,
}
use emberdb.Dict
use emberdb.Slot.{Runtime}
use emberdb.Store.{KvStore, new_kv_store}
use emberdb.PubSub.{PubSub, new_pub_sub}
use emberdb.Prelude.Int.{ℤ}
use emberdb.Clusters.Node.{ClusterNode}
use emberdb.Clusters.State.{ClusterState}
use emberdb.Server.{Handled, Reply, failure, Server}
use emberdb.Server.Dispatch.{Command, command_of, run}
use emberdb.Server.Cluster.{ClusterHandled, handle_set_slot, handle_cluster}
use emberdb.Server.Migrate.{Transfer, handle_migrate}
use emberdb.Server.Subscriptions.{
  Subscriptions, Subscribed, handle_publish, handle_subscribe, handle_unsubscribe, end_connection,
}

-- The store, the channels, what the node knows of the cluster, and the subscriptions of each
-- connection. `clusterEnabled` is the flag of the store, which is made with it.
pub record System (F : Type 0) : Type 0 where
  pub kv : KvStore F
  pub ps : PubSub
  pub state : ClusterState
  pub connections : ℕ → Subscriptions

abbrev pub server_of : {F : Type 0} → System F → (ℕ → List Str) → Server
server_of sys visits = record {
  cluster_enabled = sys.kv.cluster_enabled;
  state = sys.state;
  visits = visits;
}

-- The replies to a request and the system it leaves; no value stands for a panic.
abbrev pub Served : Type 0 → Type 0
Served F = Option (List Reply × System F)

abbrev pub bytes_to_lower : Str → Str
bytes_to_lower b = map lower_byte b

module _ {F : Type 0} (sys : System F) where
  unfoldable pub with_store : Handled F → Served F
  with_store none = none
  with_store (some (rs, kv)) = some (rs, record sys { kv = kv })

  unfoldable pub with_cluster : ClusterHandled → Served F
  with_cluster none = none
  with_cluster (some (rs, s)) = some (rs, record sys { state = s })

  unfoldable pub with_channels : Option (List Reply × PubSub) → Served F
  with_channels none = none
  with_channels (some (rs, ps)) = some (rs, record sys { ps = ps })

  unfoldable pub with_subscriptions : ℕ → Subscribed → Served F
  with_subscriptions i none = none
  with_subscriptions i (some (rs, ps, subs)) =
      some
        (rs, record sys { ps = ps; connections = λ j. if j == i then subs else sys.connections j })

  unfoldable pub without_connection : ℕ → Option PubSub → Option (System F)
  without_connection i none = none
  without_connection i (some ps) =
      some (record sys {
        ps = ps;
        connections = λ j. if j == i then Dict.empty else sys.connections j;
      })

  -- The deferred function at the end of the connection `i`.
  unfoldable pub close : ℕ → Option (System F)
  close i = without_connection i (end_connection sys.ps (sys.connections i))

-- `restore_at` is what comes of RESTORE-ASKING at another server, `marshal` is `json.Marshal`, and
-- `handshake` is what comes of a handshake.
module _ {F : Type 0} (rt : Runtime F) (restore_at : Str → Str → Str → Str → Transfer)
    (marshal : List (Str × ClusterNode) → Option Str)
    (handshake : ClusterState → Str → ℤ → Option (Option Str × ClusterState)) where
  -- The cases of the switch that use more than the store, and its default.
  unfoldable pub serve_other : System F → (ℕ → List Str) → ℕ → Str → List Str → Served F
  serve_other sys visits i cmd args =
      if str_eq cmd (bytes "publish")
      then with_channels sys (handle_publish sys.ps args)
      else if str_eq cmd (bytes "subscribe")
      then with_subscriptions sys i (some (handle_subscribe sys.ps (sys.connections i) args))
      else if str_eq cmd (bytes "unsubscribe")
      then with_subscriptions sys i (handle_unsubscribe sys.ps (sys.connections i) args)
      else if str_eq cmd (bytes "setslot")
      then with_cluster sys (handle_set_slot sys.state args)
      else if str_eq cmd (bytes "migrate")
      then with_store sys (some (handle_migrate rt restore_at sys.kv args))
      else if str_eq cmd (bytes "cluster")
      then with_cluster sys (handle_cluster marshal handshake (server_of sys visits) args)
      else some (failure (bytes "unknown command '" ++ (cmd ++ bytes "'")) ∷ [], sys)

  unfoldable pub serve_command :
      System F → (ℕ → List Str) → ℕ → Str → List Str → Option Command → Served F
  serve_command sys visits i cmd args (some c) =
      with_store sys (run rt (server_of sys visits) sys.kv c args)
  serve_command sys visits i cmd args none = serve_other sys visits i cmd args

  -- A round of the loop on the connection `i`, with the orders in which it visits the nodes. Without a word `args[0]` is out of range.
  unfoldable pub serve : System F → (ℕ → List Str) → ℕ → List Str → Served F
  serve sys visits i [] = none
  serve sys visits i (word ∷ args) =
      let cmd = bytes_to_lower word in serve_command sys visits i cmd args (command_of cmd)

  -- What the server comes to: requests on any connections, and ends of connections, in any order.
  pub data Reaches : System F → Type 0 where
    starts :
        (enabled : Bool) (s : ClusterState)
        → Reaches (record {
          kv = new_kv_store enabled;
          ps = new_pub_sub;
          state = s;
          connections = λ i. Dict.empty;
        })
    serves :
        {sys sys' : System F} (visits : ℕ → List Str) (i : ℕ) (request : List Str) (rs : List Reply)
        → Reaches sys
        → serve sys visits i request ≡ some (rs, sys')
        → Reaches sys'
    closes : {sys sys' : System F} (i : ℕ) → Reaches sys → close sys i ≡ some sys' → Reaches sys'
