-- ===== src/Server/Strings.antt =====
-- cmd/ember-server/commands_strings.go.
use emberdb.Prelude.{
  ℕ, ◌%◌, Bool, false, ◌&&◌, ◌||◌, not, Option, none, some, List, [], ◌∷◌, Str, bytes, str_eq, ◌==◌,
  if◌then◌else◌, length,
}
use emberdb.Slot.{Runtime, slot_for_key}
use emberdb.Store.{KvStore}
use emberdb.Strings.{Outcome, set, get, append, incr, incr_by, decr, decr_by, mset, mget}
use emberdb.Server.{
  Reply, ok, status, failure, bulk, Handled, reply, strings_array, Server, with_route,
}

-- the keys at the even positions and the values at the odd ones, of an even number of arguments
unfoldable pub split_keys : List Str → List Str
split_keys [] = []
split_keys (k ∷ []) = []
split_keys (k ∷ v ∷ args) = k ∷ split_keys args

unfoldable pub split_values : List Str → List Str
split_values [] = []
split_values (k ∷ []) = []
split_values (k ∷ v ∷ args) = v ∷ split_values args

module _ {F : Type 0} (rt : Runtime F) where
  -- some key hashes to another slot than `slot`
  unfoldable pub cross_slot : ℕ → List Str → Bool
  cross_slot slot [] = false
  cross_slot slot (k ∷ ks) = not (slot_for_key rt k == slot) || cross_slot slot ks

abbrev pub get_reply : Str → Reply
get_reply value = if str_eq value (bytes "(nil)") then status (bytes "No such key") else bulk value

module _ {F : Type 0} where
  -- the end of the four integer handlers: an error is written, and OK in any case
  abbrev pub integer_replies : Outcome (KvStore F) → Handled F
  integer_replies (none, kv) = some (ok ∷ [], kv)
  integer_replies (some e, kv) = some (failure (bytes "ERR value is not an integer") ∷ ok ∷ [], kv)

  abbrev pub mset_reply : Option (KvStore F) → Handled F
  mset_reply none = none
  mset_reply (some kv) = reply kv ok

  abbrev cross_slot_reply : KvStore F → Handled F
  cross_slot_reply kv =
      reply kv (failure (bytes "CROSSSLOT Keys in request don't hash to the same slot"))

module _ {F : Type 0} (rt : Runtime F) (sv : Server) where
  unfoldable pub handle_set : KvStore F → List Str → Handled F
  handle_set kv (key ∷ value ∷ []) = with_route rt sv key kv (reply (set rt kv key value) ok)
  handle_set kv _ = reply kv (failure (bytes "ERR Wrong number of arguments for 'SET' command"))

  unfoldable pub handle_get : KvStore F → List Str → Handled F
  handle_get kv (key ∷ []) = with_route rt sv key kv (reply kv (get_reply (get rt kv key)))
  handle_get kv _ = reply kv (failure (bytes "ERR Wrong number of arguments for 'GET' command"))

  -- the error of `Append` is ignored
  unfoldable pub handle_append : KvStore F → List Str → Handled F
  handle_append kv (key ∷ suffix ∷ []) =
      with_route rt sv key kv (reply (append rt kv key suffix).1 ok)
  handle_append kv _ =
      reply kv (failure (bytes "ERR Wrong number of arguments for 'APPEND' command"))

  unfoldable pub handle_incr : KvStore F → List Str → Handled F
  handle_incr kv (key ∷ []) = with_route rt sv key kv (integer_replies (incr rt kv key))
  handle_incr kv _ = reply kv (failure (bytes "ERR Wrong number of arguments for 'INCR' command"))

  unfoldable pub handle_incr_by : KvStore F → List Str → Handled F
  handle_incr_by kv (key ∷ increment ∷ []) =
      with_route rt sv key kv (integer_replies (incr_by rt kv key increment))
  handle_incr_by kv _ =
      reply kv (failure (bytes "ERR Wrong number of arguments for 'INCRBY' command"))

  unfoldable pub handle_decr : KvStore F → List Str → Handled F
  handle_decr kv (key ∷ []) = with_route rt sv key kv (integer_replies (decr rt kv key))
  handle_decr kv _ = reply kv (failure (bytes "ERR Wrong number of arguments for 'DECR' command"))

  unfoldable pub handle_decr_by : KvStore F → List Str → Handled F
  handle_decr_by kv (key ∷ decrement ∷ []) =
      with_route rt sv key kv (integer_replies (decr_by rt kv key decrement))
  handle_decr_by kv _ =
      reply kv (failure (bytes "ERR Wrong number of arguments for 'DECRBY' command"))

  unfoldable pub handle_mset : KvStore F → List Str → Handled F
  handle_mset kv (first ∷ value ∷ more) =
      let args = first ∷ value ∷ more in
      let done = mset_reply (mset rt kv (split_keys args) (split_values args)) in
      if not (length args % 2 == 0)
      then reply kv (failure (bytes "ERR Wrong number of arguments for 'MSET' command"))
      else if sv.cluster_enabled && cross_slot rt (slot_for_key rt first) (split_keys more)
      then cross_slot_reply kv
      else with_route rt sv first kv done
  handle_mset kv _ = reply kv (failure (bytes "ERR Wrong number of arguments for 'MSET' command"))

  unfoldable pub handle_mget : KvStore F → List Str → Handled F
  handle_mget kv [] = reply kv (failure (bytes "Wrong number of arguments for 'MGET' command"))
  handle_mget kv (first ∷ more) =
      if sv.cluster_enabled && cross_slot rt (slot_for_key rt first) more
      then cross_slot_reply kv
      else with_route rt sv first kv (reply kv (strings_array (mget rt kv (first ∷ more))))
