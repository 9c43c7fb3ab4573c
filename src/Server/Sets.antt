-- ===== src/Server/Sets.antt =====
-- cmd/ember-server/commands_sets.go.
use emberdb.Prelude.{List, [], ◌∷◌, ◌++◌, Str, bytes, str_eq, if◌then◌else◌}
use emberdb.Slot.{Runtime}
use emberdb.Store.{KvStore}
use emberdb.Sets.{sadd, srem, smembers, sismember}
use emberdb.Server.{failure, integer, Handled, reply, strings_array, to_upper, Server, with_route}

module _ {F : Type 0} (rt : Runtime F) (sv : Server) where
  unfoldable pub handle_set_members : Str → KvStore F → List Str → Handled F
  handle_set_members cmd kv (key ∷ member ∷ rest) =
      let r =
        if str_eq cmd (bytes "sadd")
        then sadd rt kv key (member ∷ rest)
        else srem rt kv key (member ∷ rest) in
      with_route rt sv key kv (reply r.1 (integer r.0))
  handle_set_members cmd kv _ =
      reply kv (failure (bytes "ERR " ++ (to_upper cmd ++ bytes " requires at least 2 arguments")))

  unfoldable pub handle_smembers : KvStore F → List Str → Handled F
  handle_smembers kv (key ∷ []) =
      with_route rt sv key kv (reply kv (strings_array (smembers rt kv key)))
  handle_smembers kv _ = reply kv (failure (bytes "ERR SMEMBERS requires 1 argument"))

  unfoldable pub handle_sismember : KvStore F → List Str → Handled F
  handle_sismember kv (key ∷ member ∷ []) =
      with_route rt sv key kv (reply kv (integer (if sismember rt kv key member then 1 else 0)))
  handle_sismember kv _ = reply kv (failure (bytes "ERR SISMEMBER requires 2 arguments"))
