-- ===== src/Server/Migrate/Refused.antt =====
-- The MIGRATE of utils/clusters/cluster.go, taken in by cmd/ember-server/commands_cluster.go.
use emberdb.Prelude.{◌≡◌, List, [], ◌∷◌, Str, bytes, drop, arith}
use emberdb.Slot.{Runtime}
use emberdb.Store.{KvStore}
use emberdb.Clusters.Node.{ClusterNode}
use emberdb.Clusters.Network.{migrate_request}
use emberdb.Server.{failure}
use emberdb.Server.Migrate.{Transfer, handle_migrate}

-- The MIGRATE that clusterMoveSlots sends for a batch with keys is refused for the number of its
-- arguments: no key is sent on, and the store is as it was.
pub handle_migrate-refused :
    {F : Type 0} (rt : Runtime F) (restore_at : Str → Str → Str → Str → Transfer) (kv : KvStore F)
    (dst : ClusterNode) (key : Str) (keys : List Str)
    → handle_migrate rt restore_at kv (drop 1 (migrate_request dst (key ∷ keys)))
      ≡ (failure (bytes "Wrong number of arguments for 'MIGRATE' command") ∷ [], kv)
unfolding handle_migrate
handle_migrate-refused rt restore_at kv dst key keys = ground arith
