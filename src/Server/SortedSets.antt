-- ===== src/Server/SortedSets.antt =====
-- cmd/ember-server/commands_sortedsets.go.
use emberdb.Prelude.{
  ◌%◌, Option, none, some, List, [], ◌∷◌, Str, bytes, ◌==◌, if◌then◌else◌, length,
}
use emberdb.Prelude.Int.{ℤ}
use emberdb.Prelude.Decimal.{atoi}
use emberdb.Slot.{Runtime}
use emberdb.Store.{
  KvStore, Error, wrong_type, not_integer, incrby_not_integer, decrby_not_integer, zadd_odd,
  zadd_score,
}
use emberdb.SortedSets.{Added, added, rejected, zadd, zrange, zrem}
use emberdb.Server.{Reply, failure, integer, Handled, reply, list_reply, Server, with_route}

-- the texts of the errors
abbrev pub error_text : Error → Str
error_text wrong_type = bytes "WRONGTYPE Operation against a key holding the wrong kind of value"
error_text not_integer = bytes "ERR value is not an integer"
error_text incrby_not_integer = bytes "ERR INCRBY val is not an integer"
error_text decrby_not_integer = bytes "ERR DECRBY val is not an integer"
error_text zadd_odd = bytes "ERR ZADD requires an even number of arguments"
error_text zadd_score = bytes "ERR ZADD invalid score"

abbrev pub added_reply : Added → Reply
added_reply (added n) = integer n
added_reply (rejected e) = failure (error_text e)

module _ {F : Type 0} (rt : Runtime F) (sv : Server) where
  unfoldable pub handle_zadd : KvStore F → List Str → Handled F
  handle_zadd kv (key ∷ score ∷ member ∷ rest) =
      let r = zadd rt kv key (score ∷ member ∷ rest) in
      if length (key ∷ score ∷ member ∷ rest) % 2 == 0
      then reply kv (failure (bytes "ERR ZADD requires score/member pairs"))
      else with_route rt sv key kv (reply r.1 (added_reply r.0))
  handle_zadd kv _ = reply kv (failure (bytes "ERR ZADD requires score/member pairs"))

  unfoldable pub zrange_reply : KvStore F → Str → Option ℤ → Option ℤ → Handled F
  zrange_reply kv key none end = reply kv (failure (bytes "ERR ZRANGE invalid start index"))
  zrange_reply kv key (some start) none = reply kv (failure (bytes "ERR ZRANGE invalid stop index"))
  zrange_reply kv key (some start) (some end) = list_reply kv (zrange rt kv key start end)

  unfoldable pub handle_zrange : KvStore F → List Str → Handled F
  unfolding zrange_reply
  handle_zrange kv (key ∷ start ∷ end ∷ []) =
      with_route rt sv key kv (zrange_reply kv key (atoi start) (atoi end))
  handle_zrange kv _ = reply kv (failure (bytes "ERR ZRANGE requires 3 arguments"))

  unfoldable pub handle_zrem : KvStore F → List Str → Handled F
  handle_zrem kv (key ∷ member ∷ rest) =
      let r = zrem rt kv key (member ∷ rest) in with_route rt sv key kv (reply r.1 (integer r.0))
  handle_zrem kv _ = reply kv (failure (bytes "ERR ZREM requires at least 2 arguments"))
