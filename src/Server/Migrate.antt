-- ===== src/Server/Migrate.antt =====
-- cmd/ember-server/commands_cluster.go: MIGRATE.
pub mod Kept
pub mod Refused
use emberdb.Prelude.{
  ℕ, not, Option, none, some, List, [], ◌∷◌, ◌++◌, Str, bytes, str_eq, ◌==◌, if◌then◌else◌, length,
  get_elem?, drop, or_zero,
}
use emberdb.Slot.{Runtime}
use emberdb.Store.{KvStore}
use emberdb.Strings.{get}
use emberdb.Keys.{delete}
use emberdb.Clusters.Rdb.{encode_binary_dump}
use emberdb.Server.{Reply, ok, failure}

-- What comes of a dump that is sent to another server: no connection, or its answer, which is OK or
-- else an error.
pub data Transfer : Type 0 where
  unreachable : Str → Transfer
  answered : Option Str → Transfer

abbrev migrate_error : Str → Reply
migrate_error text = failure (bytes "ERROR: " ++ text)

-- `restore_at host port key dump` stands for the connection and RESTORE-ASKING.
module _ {F : Type 0} (rt : Runtime F) (restore_at : Str → Str → Str → Str → Transfer) where
  -- one key: the error it writes, if any, and the store afterwards
  unfoldable pub migrated : KvStore F → Str → Transfer → List Reply × KvStore F
  migrated kv key (unreachable text) = (migrate_error text ∷ [], kv)
  migrated kv key (answered (some text)) = (migrate_error text ∷ [], kv)
  migrated kv key (answered none) =
      let r = delete rt kv key in
      (if r.0 == 1 then [] else failure (bytes "ERR DELETING KEY") ∷ [], r.1)

  -- the loop over the keys
  unfoldable pub migrate_keys : Str → Str → KvStore F → List Str → List Reply × KvStore F
  migrate_keys host port kv [] = ([], kv)
  migrate_keys host port kv (key ∷ keys) =
      let dump = encode_binary_dump (get rt kv key) in
      let one = migrated kv key (restore_at host port key dump) in
      let rest = migrate_keys host port one.1 keys in (one.0 ++ rest.0, rest.1)

  -- Six arguments are there, so that each index is in range.
  unfoldable pub handle_migrate : KvStore F → List Str → List Reply × KvStore F
  handle_migrate kv args =
      let arg : ℕ → Str = λ i. or_zero [] (get_elem? args i) in
      let moved = migrate_keys (arg 0) (arg 1) kv (drop 6 args) in
      if not (length args == 6)
      then (failure (bytes "Wrong number of arguments for 'MIGRATE' command") ∷ [], kv)
      else if not (str_eq (arg 5) (bytes "KEYS"))
      then (failure (bytes "INVALID MIGRATE COMMAND SYNTAX") ∷ [], kv)
      else (moved.0 ++ (ok ∷ []), moved.1)
