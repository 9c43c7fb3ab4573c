-- ===== src/Tests/Moves.antt =====
-- Moves of slots between servers, and ticks of the cluster.
use emberdb.Prelude.{
  ℕ, ◌≡◌, refl, true, none, some, List, [], ◌∷◌, arith, bytes, Str, str_eq, ◌==◌, if◌then◌else◌,
  if_both, All, map, take, ltb, length, drop_str, drop,
}
use emberdb.Prelude.Sort.{sort_stable}
use emberdb.Dict
use emberdb.Store.{new_kv_store}
use emberdb.Clusters.Node.{ClusterNode, new_node}
use emberdb.Clusters.Network.{
  Net, Event, dial, write, Answer, array, unexpected, result, migrate_request,
}
use emberdb.Clusters.MoveSlots.{cluster_move_slots}
use emberdb.Clusters.MoveSlots.Script.{ok, event_of, move_script}
use emberdb.Clusters.MoveSlots.Moved.{entries, HasHost, AreBatches, cluster_move_slots_lem}
use emberdb.Clusters.Bus.{Link, all_nodes}
use emberdb.Clusters.Cron.{Links, cluster_cron}
use emberdb.Clusters.Cron.Pinged.{pinged, Pings, cluster_cron_lem}
use emberdb.Server.{failure}
use emberdb.Server.Migrate.{handle_migrate}
use emberdb.Server.Migrate.Refused.{handle_migrate-refused}
use emberdb.Tests.Fixture.{toy, key}
use emberdb.Tests.Clusters.{named, pair, pair-CanSend, outbound}
use emberdb.Tests.Operations.{accepts}

abbrev source : ClusterNode
source = named (bytes "a") (λ _. 0)

abbrev destination : ClusterNode
destination = named (bytes "b") (λ _. 0)

abbrev third : ClusterNode
third = named (bytes "c") (λ _. 0)

abbrev fourth : ClusterNode
fourth = named (bytes "d") (λ _. 0)

-- The map is visited in another order for the second slot.
abbrev visits : ℕ → List (Str × ClusterNode)
visits k =
    if k == 0
    then (bytes "a", source)
      ∷ (bytes "c", third)
      ∷ (bytes "b", destination)
      ∷ (bytes "d", fourth)
      ∷ []
    else (bytes "d", fourth)
      ∷ (bytes "b", destination)
      ∷ (bytes "c", third)
      ∷ (bytes "a", source)
      ∷ []

All-HasHost : (k : ℕ) → All HasHost (visits k)
unfolding str_eq new_node
All-HasHost k =
    if_both (All HasHost) (k == 0) _ _ (λ _. (refl, (refl, (refl, (refl, tt)))))
      (λ _. (refl, (refl, (refl, (refl, tt)))))

-- The source has a key in the first slot.
abbrev reply : ℕ → Event → Answer
reply n (dial to) = unexpected
reply n (write to []) = ok
reply n (write to (word ∷ args)) =
    if str_eq word (bytes "GETKEYSINSLOT")
    then if n == 4 then array (some key ∷ []) else array []
    else ok

abbrev servers : Net
servers = record { reaches = λ log e. true; answer = λ log e. reply (length log) e }

abbrev batches : ℕ → List (List Str)
batches slot = if slot == 3 then (key ∷ []) ∷ [] else []

few-AreBatches : (slot : ℕ) → AreBatches 2 (batches slot)
few-AreBatches slot =
    if_both (AreBatches 2) (slot == 3) _ _ (λ _. (omega arith, (omega arith, tt)))
      (λ _. (omega arith, tt))

cluster_move_slots_lem_example :
    cluster_move_slots servers 2 source destination (7 ∷ 3 ∷ []) 2 (λ j. entries (visits j))
    ≡ some (
      map event_of
          (move_script source destination visits batches (take 2 (sort_stable ltb (7 ∷ 3 ∷ [])))),
      result 1,
    )
unfolding str_eq sort_stable new_node
cluster_move_slots_lem_example =
    cluster_move_slots_lem servers source destination visits All-HasHost batches 2 few-AreBatches
      (7 ∷ 3 ∷ []) 2 (omega arith) (omega arith) refl refl
      (
        refl,
        (
          refl,
          (
            refl,
            (
              refl,
              (
                refl,
                (
                  refl,
                  (
                    refl,
                    (
                      refl,
                      (
                        refl,
                        (
                          refl,
                          (
                            refl,
                            (
                              refl,
                              (
                                refl,
                                (
                                  refl,
                                  (
                                    refl,
                                    (
                                      refl,
                                      (refl, (refl, (refl, (refl, (refl, (refl, (refl, tt))))))),
                                    ),
                                  ),
                                ),
                              ),
                            ),
                          ),
                        ),
                      ),
                    ),
                  ),
                ),
              ),
            ),
          ),
        ),
      )

abbrev links : Links
links p = if p == 1 then some outbound else none

cluster_cron_lem_example :
    (links' : Links) × (cluster_cron pair links 0 (λ k. k) 9 20 ≡ some (pair, links'))
    × Pings pair 0 links links' (pinged pair links 0 20)
unfolding all_nodes emberdb.Clusters.Bus.visited Dict.keys Dict.put Dict.get str_eq drop_str
    Dict.empty
cluster_cron_lem_example =
    cluster_cron_lem pair 0 pair-CanSend links (λ p link e. ground arith) (λ k. k) 9 0 20
      (omega arith)

handle_migrate-refused_example :
    handle_migrate toy accepts (new_kv_store true) (drop 1 (migrate_request destination (key ∷ [])))
    ≡ (failure (bytes "Wrong number of arguments for 'MIGRATE' command") ∷ [], new_kv_store true)
handle_migrate-refused_example =
    handle_migrate-refused toy accepts (new_kv_store true) destination key []
