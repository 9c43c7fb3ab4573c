-- ===== src/Clusters/Cron.antt =====
-- utils/clusters/cluster.go: `ClusterCron`, which sends a PING once in ten ticks.
pub mod Pinged
use emberdb.Prelude.{
  ℕ, zero, suc, ◌%◌, Bool, not, ◌&&◌, ◌||◌, Option, none, some, List, [], ◌∷◌, ◌==◌, if◌then◌else◌,
  length, is_some,
}
use emberdb.Prelude.Reader.{◌>>=◌}
use emberdb.Prelude.Words.{test_bit}
use emberdb.Clusters.State.{ClusterState}
use emberdb.Clusters.Bus.{Link, ping, all_nodes, same_pointer, cluster_send_ping}

-- The outbound links of the nodes, by their pointers.
abbrev pub Links : Type 0
Links = ℕ → Option Link

-- Another node with a link, no PING under way, and neither of the flags 128 and 32.
abbrev pub can_ping : ClusterState → Links → ℕ → Bool
can_ping s links p =
    not (same_pointer s.self p)
    && (is_some (links p)
        && (((s.heap p).ping_sent == 0)
            && not (test_bit (s.heap p).flags 7 || test_bit (s.heap p).flags 5)))

-- The loop over the nodes, with `n` of them still to be counted: the first one from there on that
-- can be pinged. Since no link is chosen before, the time of the last PONG does not matter.
unfoldable pub choose_node : ClusterState → Links → ℕ → List ℕ → Option ℕ
choose_node s links n [] = none
choose_node s links (suc n) (p ∷ ps) = choose_node s links n ps
choose_node s links zero (p ∷ ps) =
    let rest = choose_node s links zero ps in if can_ping s links p then some p else rest

unfoldable pub ping_node :
    ClusterState → Links → (ℕ → ℕ) → ℕ → Option ℕ → Option (ClusterState × Links)
ping_node s links draws now none = some (s, links)
ping_node s links draws now (some p) = elim (links p) [
  | none ↦ some (s, links)
  | some link ↦ do
    (s', link') ← cluster_send_ping s draws now link ping
    some (s', λ q. if q == p then some link' else links q)
]

-- `draw` and `draws` are what the random numbers come to, `draw` below the number of the nodes. Without
-- a node the draw panics, for which no value stands.
unfoldable pub cluster_cron :
    ClusterState → Links → ℕ → (ℕ → ℕ) → ℕ → ℕ → Option (ClusterState × Links)
cluster_cron s links draw draws now iterations =
    let nodes = all_nodes s in
    if not (iterations % 10 == 0)
    then some (s, links)
    else if length nodes == 0
    then none
    else ping_node s links draws now (choose_node s links (draw % length nodes) nodes)
