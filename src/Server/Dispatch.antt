-- ===== src/Server/Dispatch.antt =====
-- The cases of the switch in `handleConnection` of cmd/ember-server/main.go that use the store
-- alone; Server.Connection has the others.
use emberdb.Prelude.{Option, none, some, List, [], ◌∷◌, Str, bytes, str_eq, if◌then◌else◌}
use emberdb.Slot.{Runtime}
use emberdb.Store.{KvStore}
use emberdb.Server.{Handled, Server}
use emberdb.Server.Strings.{
  handle_set, handle_get, handle_append, handle_incr, handle_incr_by, handle_decr, handle_decr_by,
  handle_mset, handle_mget,
}
use emberdb.Server.Lists.{handle_push, handle_pop, handle_lrange, handle_llen}
use emberdb.Server.Hashes.{
  handle_hset, handle_hget, handle_hmset, handle_hmget, handle_hgetall, handle_hdel,
}
use emberdb.Server.Sets.{handle_set_members, handle_smembers, handle_sismember}
use emberdb.Server.SortedSets.{handle_zadd, handle_zrange, handle_zrem}
use emberdb.Server.Keys.{
  handle_ping, handle_echo, handle_flush_all, handle_get_keys_in_slot, handle_delete,
  handle_restore_asking,
}

pub data Command : Type 0 where
  flushall ping echo lpush rpush lpop rpop lrange llen : Command
  hset hget hmset hmget hgetall hdel : Command
  sadd srem smembers sismember zadd zrange zrem : Command
  set get append incr incrby decr decrby mset mget : Command
  del getkeysinslot restore_asking : Command

-- the words of the switch
abbrev pub words : List (Str × Command)
words =
    (bytes "flushall", flushall)
    ∷ (bytes "ping", ping)
    ∷ (bytes "echo", echo)
    ∷ (bytes "lpush", lpush)
    ∷ (bytes "rpush", rpush)
    ∷ (bytes "lpop", lpop)
    ∷ (bytes "rpop", rpop)
    ∷ (bytes "lrange", lrange)
    ∷ (bytes "llen", llen)
    ∷ (bytes "hset", hset)
    ∷ (bytes "hget", hget)
    ∷ (bytes "hmset", hmset)
    ∷ (bytes "hmget", hmget)
    ∷ (bytes "hgetall", hgetall)
    ∷ (bytes "hdel", hdel)
    ∷ (bytes "sadd", sadd)
    ∷ (bytes "srem", srem)
    ∷ (bytes "smembers", smembers)
    ∷ (bytes "sismember", sismember)
    ∷ (bytes "zadd", zadd)
    ∷ (bytes "zrange", zrange)
    ∷ (bytes "zrem", zrem)
    ∷ (bytes "set", set)
    ∷ (bytes "get", get)
    ∷ (bytes "append", append)
    ∷ (bytes "incr", incr)
    ∷ (bytes "incrby", incrby)
    ∷ (bytes "decr", decr)
    ∷ (bytes "decrby", decrby)
    ∷ (bytes "mset", mset)
    ∷ (bytes "mget", mget)
    ∷ (bytes "del", del)
    ∷ (bytes "delete", del)
    ∷ (bytes "getkeysinslot", getkeysinslot)
    ∷ (bytes "restore-asking", restore_asking)
    ∷ []

unfoldable pub command_in : List (Str × Command) → Str → Option Command
command_in [] cmd = none
command_in ((w, c) ∷ ws) cmd = if str_eq w cmd then some c else command_in ws cmd

unfoldable pub command_of : Str → Option Command
unfolding command_in
command_of cmd = command_in words cmd

module _ {F : Type 0} (rt : Runtime F) (sv : Server) (kv : KvStore F) where
  unfoldable pub run : Command → List Str → Handled F
  run flushall args = handle_flush_all kv
  run ping args = handle_ping sv kv
  run echo args = handle_echo kv args
  run lpush args = handle_push rt sv (bytes "lpush") kv args
  run rpush args = handle_push rt sv (bytes "rpush") kv args
  run lpop args = handle_pop rt sv (bytes "lpop") kv args
  run rpop args = handle_pop rt sv (bytes "rpop") kv args
  run lrange args = handle_lrange rt sv kv args
  run llen args = handle_llen rt sv kv args
  run hset args = handle_hset rt sv kv args
  run hget args = handle_hget rt sv kv args
  run hmset args = handle_hmset rt sv kv args
  run hmget args = handle_hmget rt sv kv args
  run hgetall args = handle_hgetall rt sv kv args
  run hdel args = handle_hdel rt sv kv args
  run sadd args = handle_set_members rt sv (bytes "sadd") kv args
  run srem args = handle_set_members rt sv (bytes "srem") kv args
  run smembers args = handle_smembers rt sv kv args
  run sismember args = handle_sismember rt sv kv args
  run zadd args = handle_zadd rt sv kv args
  run zrange args = handle_zrange rt sv kv args
  run zrem args = handle_zrem rt sv kv args
  run set args = handle_set rt sv kv args
  run get args = handle_get rt sv kv args
  run append args = handle_append rt sv kv args
  run incr args = handle_incr rt sv kv args
  run incrby args = handle_incr_by rt sv kv args
  run decr args = handle_decr rt sv kv args
  run decrby args = handle_decr_by rt sv kv args
  run mset args = handle_mset rt sv kv args
  run mget args = handle_mget rt sv kv args
  run del args = handle_delete rt kv args
  run getkeysinslot args = handle_get_keys_in_slot kv args
  run restore_asking args = handle_restore_asking rt kv args
