-- ===== src/Placement/Commands.antt =====
-- Where the keys lie after the handlers of cmd/ember-server.
use emberdb.Prelude.{
  ℕ, ◌%◌, Bool, true, false, ◌&&◌, Option, none, some, List, [], ◌∷◌, Str, bytes, str_eq, ◌==◌,
  if◌then◌else◌, if_both, length,
}
use emberdb.Prelude.Int.{ℤ}
use emberdb.Prelude.Decimal.{atoi}
use emberdb.Dict.{Dict}
use emberdb.Lists.{lrange}
use emberdb.SortedSets.{zrange}
use emberdb.Slot.{Runtime, slot_for_key}
use emberdb.Store.{KvStore}
use emberdb.Strings.{Outcome}
use emberdb.Server.{
  list_reply, Handled, Route, served, elsewhere, routed, Server, with_route, to_move_or_not_to_move,
}
use emberdb.Server.Strings.{
  integer_replies, handle_set, handle_get, handle_append, handle_incr, handle_incr_by, handle_decr,
  handle_decr_by, handle_mget, cross_slot,
}
use emberdb.Server.Lists.{handle_push, handle_pop, handle_lrange, handle_llen, lrange_reply}
use emberdb.Server.Hashes.{
  handle_hset, handle_hget, handle_hmset, handle_hmget, handle_hgetall, handle_hdel, hmset_reply,
}
use emberdb.Server.Sets.{handle_set_members, handle_smembers, handle_sismember}
use emberdb.Server.SortedSets.{handle_zadd, handle_zrange, handle_zrem, zrange_reply}
use emberdb.Placement.{IsPlaced}
use emberdb.Placement.Writes as Writes

module _ {F : Type 0} (rt : Runtime F) where
  -- The store that the handler leaves, unless it panics, has every key in its slot.
  abbrev pub Keeps : Handled F → Type 0
  Keeps none = Unit
  Keeps (some (rs, kv)) = IsPlaced rt kv

  integers : (o : Outcome (KvStore F)) → IsPlaced rt o.1 → Keeps (integer_replies o)
  integers (none, kv) p = p
  integers (some e, kv) p = p

module _ {F : Type 0} (rt : Runtime F) (sv : Server) (kv : KvStore F) (p : IsPlaced rt kv) where
  routed-Keeps :
      (enabled : Bool) (t : Route) (rest : Handled F)
      → Keeps rt rest
      → Keeps rt (if enabled then routed t kv rest else rest)
  routed-Keeps false t rest k = k
  routed-Keeps true served rest k = k
  routed-Keeps true (elsewhere r) rest k = p

  pub route :
      (key : Str) (rest : Handled F) → Keeps rt rest → Keeps rt (with_route rt sv key kv rest)
  unfolding with_route
  route key rest k = routed-Keeps sv.cluster_enabled (to_move_or_not_to_move rt sv key) rest k

  pub handle_set-Keeps : (args : List Str) → Keeps rt (handle_set rt sv kv args)
  unfolding handle_set
  handle_set-Keeps [] = p
  handle_set-Keeps (key ∷ []) = p
  handle_set-Keeps (key ∷ y ∷ []) = route key _ (Writes.set-IsPlaced rt kv p key y)
  handle_set-Keeps (key ∷ y ∷ z ∷ args) = p

  pub handle_get-Keeps : (args : List Str) → Keeps rt (handle_get rt sv kv args)
  unfolding handle_get
  handle_get-Keeps [] = p
  handle_get-Keeps (key ∷ []) = route key _ p
  handle_get-Keeps (key ∷ y ∷ args) = p

  pub handle_append-Keeps : (args : List Str) → Keeps rt (handle_append rt sv kv args)
  unfolding handle_append
  handle_append-Keeps [] = p
  handle_append-Keeps (key ∷ []) = p
  handle_append-Keeps (key ∷ y ∷ []) = route key _ (Writes.append-IsPlaced rt kv p key y)
  handle_append-Keeps (key ∷ y ∷ z ∷ args) = p

  pub handle_incr-Keeps : (args : List Str) → Keeps rt (handle_incr rt sv kv args)
  unfolding handle_incr
  handle_incr-Keeps [] = p
  handle_incr-Keeps (key ∷ []) = route key _ (integers rt _ (Writes.incr-IsPlaced rt kv p key))
  handle_incr-Keeps (key ∷ y ∷ args) = p

  pub handle_incr_by-Keeps : (args : List Str) → Keeps rt (handle_incr_by rt sv kv args)
  unfolding handle_incr_by
  handle_incr_by-Keeps [] = p
  handle_incr_by-Keeps (key ∷ []) = p
  handle_incr_by-Keeps (key ∷ y ∷ []) =
      route key _ (integers rt _ (Writes.incr_by-IsPlaced rt kv p key y))
  handle_incr_by-Keeps (key ∷ y ∷ z ∷ args) = p

  pub handle_decr-Keeps : (args : List Str) → Keeps rt (handle_decr rt sv kv args)
  unfolding handle_decr
  handle_decr-Keeps [] = p
  handle_decr-Keeps (key ∷ []) = route key _ (integers rt _ (Writes.decr-IsPlaced rt kv p key))
  handle_decr-Keeps (key ∷ y ∷ args) = p

  pub handle_decr_by-Keeps : (args : List Str) → Keeps rt (handle_decr_by rt sv kv args)
  unfolding handle_decr_by
  handle_decr_by-Keeps [] = p
  handle_decr_by-Keeps (key ∷ []) = p
  handle_decr_by-Keeps (key ∷ y ∷ []) =
      route key _ (integers rt _ (Writes.decr_by-IsPlaced rt kv p key y))
  handle_decr_by-Keeps (key ∷ y ∷ z ∷ args) = p

  pub handle_mget-Keeps : (args : List Str) → Keeps rt (handle_mget rt sv kv args)
  unfolding handle_mget
  handle_mget-Keeps [] = p
  handle_mget-Keeps (key ∷ more) =
      if_both (Keeps rt) (sv.cluster_enabled && cross_slot rt (slot_for_key rt key) more) _ _
        (λ _. p) (λ _. route key _ p)

  pub handle_push-Keeps : (cmd : Str) (args : List Str) → Keeps rt (handle_push rt sv cmd kv args)
  unfolding handle_push
  handle_push-Keeps cmd [] = p
  handle_push-Keeps cmd (key ∷ []) = p
  handle_push-Keeps cmd (key ∷ y ∷ args) = route key _ (
      if_both (λ (r : ℕ × KvStore F). IsPlaced rt r.1) (str_eq cmd (bytes "lpush")) _ _
        (λ _. Writes.lpush-IsPlaced rt kv p key (y ∷ args))
        (λ _. Writes.rpush-IsPlaced rt kv p key (y ∷ args)))

  pub handle_pop-Keeps : (cmd : Str) (args : List Str) → Keeps rt (handle_pop rt sv cmd kv args)
  unfolding handle_pop
  handle_pop-Keeps cmd [] = p
  handle_pop-Keeps cmd (key ∷ []) = route key _ (
      if_both (λ (r : Option Str × KvStore F). IsPlaced rt r.1) (str_eq cmd (bytes "lpop")) _ _
        (λ _. Writes.lpop-IsPlaced rt kv p key) (λ _. Writes.rpop-IsPlaced rt kv p key))
  handle_pop-Keeps cmd (key ∷ y ∷ args) = p

  list_reply-Keeps : (o : Option (List Str)) → Keeps rt (list_reply kv o)
  unfolding list_reply
  list_reply-Keeps none = tt
  list_reply-Keeps (some list) = p

  lrange_reply-Keeps : (key : Str) (o o' : Option ℤ) → Keeps rt (lrange_reply rt sv kv key o o')
  unfolding lrange_reply
  lrange_reply-Keeps key none o' = p
  lrange_reply-Keeps key (some start) none = p
  lrange_reply-Keeps key (some start) (some end) = list_reply-Keeps (lrange rt kv key start end)

  pub handle_lrange-Keeps : (args : List Str) → Keeps rt (handle_lrange rt sv kv args)
  unfolding handle_lrange
  handle_lrange-Keeps [] = p
  handle_lrange-Keeps (key ∷ []) = p
  handle_lrange-Keeps (key ∷ y ∷ []) = p
  handle_lrange-Keeps (key ∷ y ∷ z ∷ []) = route key _ (lrange_reply-Keeps key (atoi y) (atoi z))
  handle_lrange-Keeps (key ∷ y ∷ z ∷ w ∷ args) = p

  pub handle_llen-Keeps : (args : List Str) → Keeps rt (handle_llen rt sv kv args)
  unfolding handle_llen
  handle_llen-Keeps [] = p
  handle_llen-Keeps (key ∷ []) = route key _ p
  handle_llen-Keeps (key ∷ y ∷ args) = p

  pub handle_hset-Keeps : (args : List Str) → Keeps rt (handle_hset rt sv kv args)
  unfolding handle_hset
  handle_hset-Keeps [] = p
  handle_hset-Keeps (key ∷ []) = p
  handle_hset-Keeps (key ∷ y ∷ []) = p
  handle_hset-Keeps (key ∷ y ∷ z ∷ []) = route key _ (Writes.hset-IsPlaced rt kv p key y z)
  handle_hset-Keeps (key ∷ y ∷ z ∷ w ∷ args) = p

  pub handle_hget-Keeps : (args : List Str) → Keeps rt (handle_hget rt sv kv args)
  unfolding handle_hget
  handle_hget-Keeps [] = p
  handle_hget-Keeps (key ∷ []) = p
  handle_hget-Keeps (key ∷ y ∷ []) = route key _ p
  handle_hget-Keeps (key ∷ y ∷ z ∷ args) = p

  hmset_reply-Keeps : (key : Str) (o : Option (Dict Str)) → Keeps rt (hmset_reply rt kv key o)
  unfolding hmset_reply
  hmset_reply-Keeps key none = tt
  hmset_reply-Keeps key (some fields) = Writes.hmset-IsPlaced rt kv p key fields

  pub handle_hmset-Keeps : (args : List Str) → Keeps rt (handle_hmset rt sv kv args)
  unfolding handle_hmset
  handle_hmset-Keeps [] = p
  handle_hmset-Keeps (key ∷ []) = p
  handle_hmset-Keeps (key ∷ y ∷ []) = p
  handle_hmset-Keeps (key ∷ y ∷ z ∷ args) =
      if_both (Keeps rt) (length (key ∷ y ∷ z ∷ args) % 2 == 0) _ _ (λ _. p)
        (λ _. route key _ (hmset_reply-Keeps key _))

  pub handle_hmget-Keeps : (args : List Str) → Keeps rt (handle_hmget rt sv kv args)
  unfolding handle_hmget
  handle_hmget-Keeps [] = p
  handle_hmget-Keeps (key ∷ []) = p
  handle_hmget-Keeps (key ∷ y ∷ args) = route key _ p

  pub handle_hgetall-Keeps : (args : List Str) → Keeps rt (handle_hgetall rt sv kv args)
  unfolding handle_hgetall
  handle_hgetall-Keeps [] = p
  handle_hgetall-Keeps (key ∷ []) = route key _ p
  handle_hgetall-Keeps (key ∷ y ∷ args) = p

  pub handle_hdel-Keeps : (args : List Str) → Keeps rt (handle_hdel rt sv kv args)
  unfolding handle_hdel
  handle_hdel-Keeps [] = p
  handle_hdel-Keeps (key ∷ []) = p
  handle_hdel-Keeps (key ∷ y ∷ args) = route key _ (Writes.hdel-IsPlaced rt kv p key (y ∷ args))

  pub handle_set_members-Keeps :
      (cmd : Str) (args : List Str) → Keeps rt (handle_set_members rt sv cmd kv args)
  unfolding handle_set_members
  handle_set_members-Keeps cmd [] = p
  handle_set_members-Keeps cmd (key ∷ []) = p
  handle_set_members-Keeps cmd (key ∷ y ∷ args) = route key _ (
      if_both (λ (r : ℕ × KvStore F). IsPlaced rt r.1) (str_eq cmd (bytes "sadd")) _ _
        (λ _. Writes.sadd-IsPlaced rt kv p key (y ∷ args))
        (λ _. Writes.srem-IsPlaced rt kv p key (y ∷ args)))

  pub handle_smembers-Keeps : (args : List Str) → Keeps rt (handle_smembers rt sv kv args)
  unfolding handle_smembers
  handle_smembers-Keeps [] = p
  handle_smembers-Keeps (key ∷ []) = route key _ p
  handle_smembers-Keeps (key ∷ y ∷ args) = p

  pub handle_sismember-Keeps : (args : List Str) → Keeps rt (handle_sismember rt sv kv args)
  unfolding handle_sismember
  handle_sismember-Keeps [] = p
  handle_sismember-Keeps (key ∷ []) = p
  handle_sismember-Keeps (key ∷ y ∷ []) = route key _ p
  handle_sismember-Keeps (key ∷ y ∷ z ∷ args) = p

  pub handle_zadd-Keeps : (args : List Str) → Keeps rt (handle_zadd rt sv kv args)
  unfolding handle_zadd
  handle_zadd-Keeps [] = p
  handle_zadd-Keeps (key ∷ []) = p
  handle_zadd-Keeps (key ∷ y ∷ []) = p
  handle_zadd-Keeps (key ∷ y ∷ z ∷ args) =
      if_both (Keeps rt) (length (key ∷ y ∷ z ∷ args) % 2 == 0) _ _ (λ _. p)
        (λ _. route key _ (Writes.zadd-IsPlaced rt kv p key (y ∷ z ∷ args)))

  zrange_reply-Keeps : (key : Str) (o o' : Option ℤ) → Keeps rt (zrange_reply rt sv kv key o o')
  unfolding zrange_reply
  zrange_reply-Keeps key none o' = p
  zrange_reply-Keeps key (some start) none = p
  zrange_reply-Keeps key (some start) (some end) = list_reply-Keeps (zrange rt kv key start end)

  pub handle_zrange-Keeps : (args : List Str) → Keeps rt (handle_zrange rt sv kv args)
  unfolding handle_zrange
  handle_zrange-Keeps [] = p
  handle_zrange-Keeps (key ∷ []) = p
  handle_zrange-Keeps (key ∷ y ∷ []) = p
  handle_zrange-Keeps (key ∷ y ∷ z ∷ []) = route key _ (zrange_reply-Keeps key (atoi y) (atoi z))
  handle_zrange-Keeps (key ∷ y ∷ z ∷ w ∷ args) = p

  pub handle_zrem-Keeps : (args : List Str) → Keeps rt (handle_zrem rt sv kv args)
  unfolding handle_zrem
  handle_zrem-Keeps [] = p
  handle_zrem-Keeps (key ∷ []) = p
  handle_zrem-Keeps (key ∷ y ∷ args) = route key _ (Writes.zrem-IsPlaced rt kv p key (y ∷ args))
