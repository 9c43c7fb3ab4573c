-- ===== src/Clusters/Gossip/Learned.antt =====
-- utils/clusters/gossip.go: what a node knows after it has taken in the entries of a message.
use emberdb.Prelude.{ℕ, ◌≡◌, ◌≢◌, ◌∙◌, true, some, List, [], ◌∷◌, Str, All, is_some}
use mathlib.Core.Path.{subst}
use emberdb.Clusters.State.{ClusterState, get_node}
use emberdb.Clusters.Message.{Gossip, ClusterMsg}
use emberdb.Clusters.Gossip.{Cluster, process_entry, process_entries, cluster_process_gossip}
use emberdb.Clusters.Gossip.Named.{
  IsNamed, Extends, Extends-refl, Extends-trans, process_entry-Takes,
}

-- The entry has the name of this node, or a name that is in the map.
abbrev pub IsLearned : Str → ClusterState → Gossip → Type 0
IsLearned name s g = g.node_name ≢ name → is_some (get_node s g.node_name) ≡ true

module _ (uuids : ℕ → Str) (self : ℕ) where
  process_entries-Extends :
      (gs : List Gossip) (c : Cluster)
      → IsNamed c
      → c.state.self ≡ some self
      → Extends self c (process_entries uuids self c gs)
        × All (IsLearned (c.state.heap self).name (process_entries uuids self c gs).state) gs
  unfolding process_entries
  process_entries-Extends [] c h me = (Extends-refl self c h, tt)
  process_entries-Extends (g ∷ gs) c h me =
      let c' = process_entry uuids self c g in
      let (first, taken) = process_entry-Takes uuids c g h self me in
      let (rest, learned) = process_entries-Extends gs c' first.is_named (first.same_self ∙ me) in
      (
        Extends-trans self c c' (process_entries uuids self c' gs) first rest,
        (
          λ other. rest.known g.node_name (taken other),
          subst (λ n. All (IsLearned n.name (process_entries uuids self c' gs).state) gs)
              first.same_node learned,
        ),
      )

-- In a state whose nodes lie in the map under their own names, clusterProcessGossip keeps that, this
-- node and its record, and the pointer of each name that was known; and afterwards every name of an
-- entry is known, if it is not the name of this node.
pub cluster_process_gossip_lem :
    (uuids : ℕ → Str) (c : Cluster) (msg : ClusterMsg) (self : ℕ)
    → IsNamed c
    → c.state.self ≡ some self
    → (c' : Cluster) × (cluster_process_gossip uuids c msg ≡ some c')
      × Extends self c c'
      × All (IsLearned (c.state.heap self).name c'.state) msg.gossip
unfolding cluster_process_gossip
cluster_process_gossip_lem uuids c msg self h me =
    let (kept, learned) = process_entries-Extends uuids self msg.gossip c h me in
    (process_entries uuids self c msg.gossip, rw me, kept, learned)
