-- ===== src/Server/Keys.antt =====
-- cmd/ember-server/commands.go, FLUSHALL of main.go, and the handlers of commands_cluster.go that
-- use only the store: GETKEYSINSLOT and RESTORE-ASKING.
pub mod Restores
use emberdb.Prelude.{
  ℕ, ◌-◌, ◌^◌, not, Option, none, some, List, [], ◌∷◌, ◌++◌, Str, bytes, ◌==◌, if◌then◌else◌,
  length, get_elem?,
}
use emberdb.Prelude.Int.{ℤ, pos, negsuc}
use emberdb.Prelude.Decimal.{atoi, itoa}
use emberdb.Slot.{Runtime}
use emberdb.Store.{KvStore}
use emberdb.Strings.{set}
use emberdb.Keys.{delete, flush_all, get_keys_in_slot}
use emberdb.Clusters.State.{ClusterState}
use emberdb.Clusters.Rdb.{
  Restored, restored, refused, DumpError, invalid_dump, unsupported_type, invalid_length,
  restore_data_from_binary_dump,
}
use emberdb.Server.{Reply, ok, status, failure, bulk, Handled, reply, strings_array, Server}

-- the three replies of a node of a cluster; without a node of its own, a nil pointer is followed
unfoldable pub ping_replies : {F : Type 0} → KvStore F → ClusterState → Option ℕ → Handled F
ping_replies kv s none = none
ping_replies kv s (some me) =
    let node = s.heap me in
    some (
      status (bytes "PONG from " ++ (node.name ++ bytes "\n"))
          ∷ status (bytes "PONG from " ++ (itoa (pos node.client_port) ++ bytes "\n"))
          ∷ status (bytes "PONG from " ++ (itoa (pos node.cluster_bus_port) ++ bytes "\n"))
          ∷ [],
      kv,
    )

unfoldable pub handle_ping : {F : Type 0} → Server → KvStore F → Handled F
unfolding ping_replies
handle_ping sv kv =
    if sv.cluster_enabled
    then ping_replies kv sv.state sv.state.self
    else reply kv (status (bytes "PONG"))

unfoldable pub handle_echo : {F : Type 0} → KvStore F → List Str → Handled F
handle_echo kv [] = reply kv (failure (bytes "wrong number of arguments for 'ECHO' command"))
handle_echo kv (x ∷ []) = reply kv (bulk x)
handle_echo kv (x ∷ y ∷ args) = reply kv (strings_array (x ∷ y ∷ args))

unfoldable pub handle_flush_all : {F : Type 0} → KvStore F → Handled F
handle_flush_all kv = reply (flush_all kv) ok

-- `uint64(slot)`
abbrev pub to_uint64 : ℤ → ℕ
to_uint64 (pos n) = n
to_uint64 (negsuc n) = 2 ^ 64 - 1 - n

-- The two errors end in the text of Atoi's error, which is left out.
keys_in_slot_reply : {F : Type 0} → KvStore F → Option ℤ → Option ℤ → Reply
keys_in_slot_reply kv none batch = failure (bytes "Error converting slot to int ")
keys_in_slot_reply kv (some slot) none = failure (bytes "Error converting batchSize to int ")
keys_in_slot_reply kv (some slot) (some batch) =
    strings_array (get_keys_in_slot kv (to_uint64 slot) batch)

unfoldable pub handle_get_keys_in_slot : {F : Type 0} → KvStore F → List Str → Handled F
unfolding keys_in_slot_reply
handle_get_keys_in_slot kv (slot ∷ batch ∷ []) =
    reply kv (keys_in_slot_reply kv (atoi slot) (atoi batch))
handle_get_keys_in_slot kv _ =
    reply kv (failure (bytes "Wrong number of arguments for 'GETKEYSINSLOT' command"))

abbrev pub dump_error_text : DumpError → Str
dump_error_text invalid_dump = bytes "invalid dump"
dump_error_text unsupported_type = bytes "unsupported dump type"
dump_error_text invalid_length = bytes "invalid dump length"

module _ {F : Type 0} (rt : Runtime F) where
  unfoldable pub deleted_one : ℕ × KvStore F → Handled F
  deleted_one (n, kv) =
      if n == 1 then reply kv ok else reply kv (failure (bytes "ERROR deleting key\n"))

  -- the loop over several keys, and OK at the end
  unfoldable pub delete_loop : KvStore F → List Str → List Reply × KvStore F
  delete_loop kv [] = (ok ∷ [], kv)
  delete_loop kv (key ∷ keys) =
      let r = delete rt kv key in
      let rest = delete_loop r.1 keys in
      if r.0 == 1 then rest else (failure (bytes "ERROR deleting key\n") ∷ rest.0, rest.1)

  unfoldable pub handle_delete : KvStore F → List Str → Handled F
  unfolding deleted_one delete_loop
  handle_delete kv (key ∷ []) = deleted_one (delete rt kv key)
  handle_delete kv args = some (delete_loop kv args)

  unfoldable pub restore_reply : KvStore F → Str → Restored → Handled F
  restore_reply kv key (refused e) =
      reply kv (failure (bytes "RESTORE ASKING ERROR: " ++ dump_error_text e))
  restore_reply kv key (restored value) = reply (set rt kv key value) ok

  -- no fourth argument: the index is out of range
  unfoldable pub restore_dump : KvStore F → Option Str → Option Str → Handled F
  restore_dump kv (some key) (some dump) = restore_reply kv key (restore_data_from_binary_dump dump)
  restore_dump kv _ _ = none

  unfoldable pub handle_restore_asking : KvStore F → List Str → Handled F
  unfolding restore_reply restore_dump
  handle_restore_asking kv args =
      if not (length args == 3)
      then reply kv (failure (bytes "Wrong number of arguments for 'RESTORE-ASKING' command"))
      else restore_dump kv (get_elem? args 0) (get_elem? args 3)
