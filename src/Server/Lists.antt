-- ===== src/Server/Lists.antt =====
-- cmd/ember-server/commands_lists.go.
use emberdb.Prelude.{Option, none, some, List, [], ◌∷◌, ◌++◌, Str, bytes, str_eq, if◌then◌else◌}
use emberdb.Prelude.Int.{ℤ}
use emberdb.Prelude.Decimal.{atoi}
use emberdb.Slot.{Runtime}
use emberdb.Store.{KvStore}
use emberdb.Lists.{lpush, rpush, lpop, rpop, lrange, llen}
use emberdb.Server.{
  failure, integer, Handled, reply, list_reply, string_or_null, to_upper, Server, with_route,
}

module _ {F : Type 0} (rt : Runtime F) (sv : Server) where
  unfoldable pub handle_push : Str → KvStore F → List Str → Handled F
  handle_push cmd kv (key ∷ value ∷ rest) =
      let r =
        if str_eq cmd (bytes "lpush")
        then lpush rt kv key (value ∷ rest)
        else rpush rt kv key (value ∷ rest) in
      with_route rt sv key kv (reply r.1 (integer r.0))
  handle_push cmd kv _ =
      reply kv (failure (bytes "ERR " ++ (to_upper cmd ++ bytes " requires at least 2 arguments")))

  unfoldable pub handle_pop : Str → KvStore F → List Str → Handled F
  handle_pop cmd kv (key ∷ []) =
      let r = if str_eq cmd (bytes "lpop") then lpop rt kv key else rpop rt kv key in
      with_route rt sv key kv (reply r.1 (string_or_null r.0))
  handle_pop cmd kv _ =
      reply kv (failure (bytes "ERR " ++ (to_upper cmd ++ bytes " requires 1 argument")))

  unfoldable pub lrange_reply : KvStore F → Str → Option ℤ → Option ℤ → Handled F
  lrange_reply kv key none end =
      reply kv (failure (bytes "ERR LRANGE start index must be an integer"))
  lrange_reply kv key (some start) none =
      reply kv (failure (bytes "ERR LRANGE end index must be an integer"))
  lrange_reply kv key (some start) (some end) = list_reply kv (lrange rt kv key start end)

  unfoldable pub handle_lrange : KvStore F → List Str → Handled F
  unfolding lrange_reply
  handle_lrange kv (key ∷ start ∷ end ∷ []) =
      with_route rt sv key kv (lrange_reply kv key (atoi start) (atoi end))
  handle_lrange kv _ = reply kv (failure (bytes "ERR LRANGE requires 3 arguments"))

  unfoldable pub handle_llen : KvStore F → List Str → Handled F
  handle_llen kv (key ∷ []) = with_route rt sv key kv (reply kv (integer (llen rt kv key)))
  handle_llen kv _ = reply kv (failure (bytes "ERR LLEN requires 1 argument"))
