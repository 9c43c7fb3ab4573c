-- ===== src/Tests/Connections.antt =====
-- A server after a request.
use emberdb.Prelude.{
  ℕ, refl, Option, none, some, List, [], ◌∷◌, Str, bytes, true, str_eq, ◌==◌, if◌then◌else◌,
}
use emberdb.Prelude.Int.{ℤ}
use emberdb.Dict
use emberdb.Store.{new_kv_store}
use emberdb.PubSub.{new_pub_sub, subscribe}
use emberdb.Clusters.Node.{ClusterNode}
use emberdb.Clusters.State.{ClusterState}
use emberdb.Server.{ok}
use emberdb.Server.Dispatch.{command_of}
use emberdb.Server.Subscriptions.{handle_subscribe, subscribe_loop}
use emberdb.Server.Connection.{
  System, serve, serve_other, serve_command, with_subscriptions, Reaches, starts, serves,
}
use emberdb.Server.Connection.Sound.{IsSound, Reaches-IsSound}
use emberdb.Tests.Fixture.{toy, key}
use emberdb.Tests.Clusters.{pair}
use emberdb.Tests.Operations.{accepts}

abbrev marshal : List (Str × ClusterNode) → Option Str
marshal nodes = some (bytes "{}")

abbrev handshake : ClusterState → Str → ℤ → Option (Option Str × ClusterState)
handshake s host port = some (none, s)

abbrev started : System ℕ
started = record {
  kv = new_kv_store true;
  ps = new_pub_sub;
  state = pair;
  connections = λ i. Dict.empty;
}

abbrev subscribed : System ℕ
subscribed = record {
  kv = new_kv_store true;
  ps = (subscribe new_pub_sub key).1;
  state = pair;
  connections = λ j. if j == 4 then Dict.put Dict.empty key (0 ∷ []) else Dict.empty;
}

abbrev request : List Str
request = bytes "SubScribe" ∷ key ∷ []

subscribed-Reaches : Reaches toy accepts marshal handshake subscribed
unfolding command_of emberdb.Server.Dispatch.command_in str_eq serve serve_command serve_other
    handle_subscribe subscribe_loop subscribe Dict.get Dict.empty with_subscriptions new_pub_sub
subscribed-Reaches = serves (λ k. Dict.keys pair.nodes) 4 request (ok ∷ []) (starts true pair) refl

Reaches-IsSound_example : IsSound toy subscribed
Reaches-IsSound_example =
    Reaches-IsSound toy accepts marshal handshake subscribed subscribed-Reaches
