-- ===== src/Server/Hashes.antt =====
-- cmd/ember-server/commands_hashes.go.
use emberdb.Prelude.{
  ◌%◌, Option, none, some, List, [], ◌∷◌, Str, bytes, ◌==◌, if◌then◌else◌, length,
}
use emberdb.Dict
use emberdb.Dict.{Dict}
use emberdb.Slot.{Runtime}
use emberdb.Store.{KvStore}
use emberdb.Hashes.{hset, hget, hmset, hmget, hgetall, hdel}
use emberdb.Server.{
  ok, failure, integer, array, Handled, reply, strings_array, string_or_null, Server, with_route,
}

-- `fields[args[i]] = args[i+1]`; no value stands for `args[i+1]` out of range, which panics.
unfoldable pub collect_fields : Dict Str → List Str → Option (Dict Str)
collect_fields fields [] = some fields
collect_fields fields (f ∷ []) = none
collect_fields fields (f ∷ v ∷ args) = collect_fields (Dict.put fields f v) args

module _ {F : Type 0} (rt : Runtime F) where
  unfoldable pub hmset_reply : KvStore F → Str → Option (Dict Str) → Handled F
  hmset_reply kv key none = none
  hmset_reply kv key (some fields) = reply (hmset rt kv key fields) ok

module _ {F : Type 0} (rt : Runtime F) (sv : Server) where
  unfoldable pub handle_hset : KvStore F → List Str → Handled F
  handle_hset kv (key ∷ field ∷ value ∷ []) =
      with_route rt sv key kv (reply (hset rt kv key field value) ok)
  handle_hset kv _ = reply kv (failure (bytes "ERR HSET requires 3 arguments"))

  unfoldable pub handle_hget : KvStore F → List Str → Handled F
  handle_hget kv (key ∷ field ∷ []) =
      with_route rt sv key kv (reply kv (string_or_null (hget rt kv key field)))
  handle_hget kv _ = reply kv (failure (bytes "ERR HGET requires 2 arguments"))

  unfoldable pub handle_hmset : KvStore F → List Str → Handled F
  handle_hmset kv (key ∷ field ∷ value ∷ rest) =
      let fields = collect_fields Dict.empty (field ∷ value ∷ rest) in
      if length (key ∷ field ∷ value ∷ rest) % 2 == 0
      then reply kv (failure (bytes "ERR HMSET requires field/value pairs"))
      else with_route rt sv key kv (hmset_reply rt kv key fields)
  handle_hmset kv _ = reply kv (failure (bytes "ERR HMSET requires field/value pairs"))

  unfoldable pub handle_hmget : KvStore F → List Str → Handled F
  handle_hmget kv (key ∷ field ∷ rest) =
      with_route rt sv key kv (reply kv (array (hmget rt kv key (field ∷ rest))))
  handle_hmget kv _ = reply kv (failure (bytes "ERR HMGET requires at least 2 arguments"))

  unfoldable pub handle_hgetall : KvStore F → List Str → Handled F
  handle_hgetall kv (key ∷ []) =
      with_route rt sv key kv (reply kv (strings_array (hgetall rt kv key)))
  handle_hgetall kv _ = reply kv (failure (bytes "ERR HGETALL requires 1 argument"))

  unfoldable pub handle_hdel : KvStore F → List Str → Handled F
  handle_hdel kv (key ∷ field ∷ rest) =
      let r = hdel rt kv key (field ∷ rest) in with_route rt sv key kv (reply r.1 (integer r.0))
  handle_hdel kv _ = reply kv (failure (bytes "ERR HDEL requires at least 2 arguments"))
