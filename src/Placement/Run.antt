-- ===== src/Placement/Run.antt =====
-- Where the keys lie after a command of cmd/ember-server/main.go.
use emberdb.Prelude.{
  ℕ, ◌%◌, ◌≡◌, not, ◌&&◌, Option, none, some, List, [], ◌∷◌, arith, Str, bytes, ◌==◌, if_both,
  length, get_elem?,
}
use mathlib.Core.Path.{subst}
use emberdb.Slot.{Runtime, slot_for_key}
use emberdb.Store.{KvStore}
use emberdb.Strings.{set}
use emberdb.Strings.Batch.{set_all}
use emberdb.Keys.{delete}
use emberdb.Clusters.Rdb.{Restored, restored, refused, restore_data_from_binary_dump}
use emberdb.Server.{Reply, Server}
use emberdb.Server.Strings.{handle_mset, cross_slot, split_keys}
use emberdb.Server.Keys.{
  handle_ping, handle_echo, handle_flush_all, handle_get_keys_in_slot, handle_delete,
  handle_restore_asking,
}
use emberdb.Server.Keys.{ping_replies, deleted_one, delete_loop, restore_reply, restore_dump}
use emberdb.Server.Dispatch.{
  Command, flushall, ping, echo, lpush, rpush, lpop, rpop, lrange, llen, hset, hget, hmset, hmget,
  hgetall, hdel, sadd, srem, smembers, sismember, zadd, zrange, zrem, get, append, incr, incrby,
  decr, decrby, mset, mget, del, getkeysinslot, restore_asking, run,
}
use emberdb.Server.Dispatch as Dispatch
use emberdb.Server.Routing.Batch.{pairs_of, mset-pairs_of}
use emberdb.Placement.{IsPlaced, flush_all-IsPlaced, delete-IsPlaced}
use emberdb.Placement.Writes as Writes
use emberdb.Placement.Commands.{Keeps, route}
use emberdb.Placement.Commands as Commands

module _ {F : Type 0} (rt : Runtime F) where
  set_all-IsPlaced :
      (kv : KvStore F) (ps : List (Str × Str)) → IsPlaced rt kv → IsPlaced rt (set_all rt kv ps)
  unfolding set_all
  set_all-IsPlaced kv [] p = p
  set_all-IsPlaced kv ((k, v) ∷ ps) p =
      set_all-IsPlaced (set rt kv k v) ps (Writes.set-IsPlaced rt kv p k v)

  delete_loop-IsPlaced :
      (kv : KvStore F) (keys : List Str) → IsPlaced rt kv → IsPlaced rt (delete_loop rt kv keys).1
  unfolding delete_loop
  delete_loop-IsPlaced kv [] p = p
  delete_loop-IsPlaced kv (key ∷ keys) p =
      let q = delete_loop-IsPlaced (delete rt kv key).1 keys (delete-IsPlaced rt kv p key) in
      if_both (λ (r : List Reply × KvStore F). IsPlaced rt r.1) ((delete rt kv key).0 == 1) _ _
        (λ _. q) (λ _. q)

  deleted_one-Keeps : (r : ℕ × KvStore F) → IsPlaced rt r.1 → Keeps rt (deleted_one rt r)
  unfolding deleted_one
  deleted_one-Keeps (n, kv) p = if_both (Keeps rt) (n == 1) _ _ (λ _. p) (λ _. p)

  handle_delete-Keeps :
      (kv : KvStore F) (args : List Str) → IsPlaced rt kv → Keeps rt (handle_delete rt kv args)
  unfolding handle_delete
  handle_delete-Keeps kv [] p = delete_loop-IsPlaced kv [] p
  handle_delete-Keeps kv (key ∷ []) p =
      deleted_one-Keeps (delete rt kv key) (delete-IsPlaced rt kv p key)
  handle_delete-Keeps kv (key ∷ k ∷ keys) p = delete_loop-IsPlaced kv (key ∷ k ∷ keys) p

  restored-Keeps :
      (kv : KvStore F) (key : Str) (r : Restored)
      → IsPlaced rt kv
      → Keeps rt (restore_reply rt kv key r)
  unfolding restore_reply
  restored-Keeps kv key (refused e) p = p
  restored-Keeps kv key (restored value) p = Writes.set-IsPlaced rt kv p key value

  dump-Keeps :
      (kv : KvStore F) (key dump : Option Str)
      → IsPlaced rt kv
      → Keeps rt (restore_dump rt kv key dump)
  unfolding restore_dump
  dump-Keeps kv none dump p = tt
  dump-Keeps kv (some key) none p = tt
  dump-Keeps kv (some key) (some dump) p =
      restored-Keeps kv key (restore_data_from_binary_dump dump) p

  handle_restore_asking-Keeps :
      (kv : KvStore F) (args : List Str)
      → IsPlaced rt kv
      → Keeps rt (handle_restore_asking rt kv args)
  unfolding handle_restore_asking
  handle_restore_asking-Keeps kv args p =
      if_both (Keeps rt) (not (length args == 3)) _ _ (λ _. p)
        (λ _. dump-Keeps kv (get_elem? args 0) (get_elem? args 3) p)

module _ {F : Type 0} (rt : Runtime F) (sv : Server) (kv : KvStore F)
    (same : sv.cluster_enabled ≡ kv.cluster_enabled) (p : IsPlaced rt kv) where
  handle_mset-Keeps : (args : List Str) → Keeps rt (handle_mset rt sv kv args)
  unfolding handle_mset
  handle_mset-Keeps [] = p
  handle_mset-Keeps (key ∷ []) = p
  handle_mset-Keeps (key ∷ value ∷ more) =
      let test = sv.cluster_enabled && cross_slot rt (slot_for_key rt key) (split_keys more) in
      if_both (Keeps rt) (not (length (key ∷ value ∷ more) % 2 == 0)) _ _ (λ _. p)
        (λ _.
          if_both (Keeps rt) test _ _ (λ _. p)
            (λ e. route rt sv kv p key _ (
              rw (mset-pairs_of rt sv kv key value more (λ on. ground (arith, e, same, on)))
                (set_all-IsPlaced rt kv (pairs_of (key ∷ value ∷ more)) p))))

  ping_replies-Keeps : (me : Option ℕ) → Keeps rt (ping_replies kv sv.state me)
  unfolding ping_replies
  ping_replies-Keeps none = tt
  ping_replies-Keeps (some me) = p

  ping-Keeps : Keeps rt (handle_ping sv kv)
  unfolding handle_ping
  ping-Keeps =
      if_both (Keeps rt) sv.cluster_enabled _ _ (λ _. ping_replies-Keeps sv.state.self) (λ _. p)

  echo-Keeps : (args : List Str) → Keeps rt (handle_echo kv args)
  unfolding handle_echo
  echo-Keeps [] = p
  echo-Keeps (x ∷ []) = p
  echo-Keeps (x ∷ y ∷ args) = p

  slot-Keeps : (args : List Str) → Keeps rt (handle_get_keys_in_slot kv args)
  unfolding handle_get_keys_in_slot
  slot-Keeps [] = p
  slot-Keeps (x ∷ []) = p
  slot-Keeps (x ∷ y ∷ []) = p
  slot-Keeps (x ∷ y ∷ z ∷ args) = p

  run-Keeps : (c : Command) (args : List Str) → Keeps rt (run rt sv kv c args)
  unfolding run handle_flush_all
  run-Keeps flushall args = flush_all-IsPlaced rt kv p
  run-Keeps ping args = ping-Keeps
  run-Keeps echo args = echo-Keeps args
  run-Keeps mset args = handle_mset-Keeps args
  run-Keeps del args = handle_delete-Keeps rt kv args p
  run-Keeps getkeysinslot args = slot-Keeps args
  run-Keeps restore_asking args = handle_restore_asking-Keeps rt kv args p
  run-Keeps lpush args = Commands.handle_push-Keeps rt sv kv p (bytes "lpush") args
  run-Keeps rpush args = Commands.handle_push-Keeps rt sv kv p (bytes "rpush") args
  run-Keeps lpop args = Commands.handle_pop-Keeps rt sv kv p (bytes "lpop") args
  run-Keeps rpop args = Commands.handle_pop-Keeps rt sv kv p (bytes "rpop") args
  run-Keeps sadd args = Commands.handle_set_members-Keeps rt sv kv p (bytes "sadd") args
  run-Keeps srem args = Commands.handle_set_members-Keeps rt sv kv p (bytes "srem") args
  run-Keeps lrange args = Commands.handle_lrange-Keeps rt sv kv p args
  run-Keeps llen args = Commands.handle_llen-Keeps rt sv kv p args
  run-Keeps hset args = Commands.handle_hset-Keeps rt sv kv p args
  run-Keeps hget args = Commands.handle_hget-Keeps rt sv kv p args
  run-Keeps hmset args = Commands.handle_hmset-Keeps rt sv kv p args
  run-Keeps hmget args = Commands.handle_hmget-Keeps rt sv kv p args
  run-Keeps hgetall args = Commands.handle_hgetall-Keeps rt sv kv p args
  run-Keeps hdel args = Commands.handle_hdel-Keeps rt sv kv p args
  run-Keeps smembers args = Commands.handle_smembers-Keeps rt sv kv p args
  run-Keeps sismember args = Commands.handle_sismember-Keeps rt sv kv p args
  run-Keeps zadd args = Commands.handle_zadd-Keeps rt sv kv p args
  run-Keeps zrange args = Commands.handle_zrange-Keeps rt sv kv p args
  run-Keeps zrem args = Commands.handle_zrem-Keeps rt sv kv p args
  run-Keeps Dispatch.set args = Commands.handle_set-Keeps rt sv kv p args
  run-Keeps get args = Commands.handle_get-Keeps rt sv kv p args
  run-Keeps append args = Commands.handle_append-Keeps rt sv kv p args
  run-Keeps incr args = Commands.handle_incr-Keeps rt sv kv p args
  run-Keeps incrby args = Commands.handle_incr_by-Keeps rt sv kv p args
  run-Keeps decr args = Commands.handle_decr-Keeps rt sv kv p args
  run-Keeps decrby args = Commands.handle_decr_by-Keeps rt sv kv p args
  run-Keeps mget args = Commands.handle_mget-Keeps rt sv kv p args

-- In a store where every key of a shard hashes to the slot of the shard, every command of the switch
-- that is modelled, whatever its arguments, keeps it so, if the server and the store are in the same
-- mode and the command does not panic.
pub run-IsPlaced :
    {F : Type 0} (rt : Runtime F) (sv : Server) (kv kv' : KvStore F) (c : Command) (args : List Str)
    (rs : List Reply)
    → sv.cluster_enabled ≡ kv.cluster_enabled
    → IsPlaced rt kv
    → run rt sv kv c args ≡ some (rs, kv')
    → IsPlaced rt kv'
run-IsPlaced rt sv kv kv' c args rs same p e =
    subst (λ h. Keeps rt h) e (run-Keeps rt sv kv same p c args)
