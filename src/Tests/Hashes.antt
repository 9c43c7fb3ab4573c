-- ===== src/Tests/Hashes.antt =====
-- Hashes in both modes.
use emberdb.Prelude.{◌≡◌, refl, true, some, Str, bytes, str_eq, if◌then◌else◌, is_some, drop_str}
use emberdb.Dict
use emberdb.Dict.{Dict}
use emberdb.Slot.{slot_for_key, hash_part, index_byte}
use emberdb.Store.{KvStore, new_kv_store, set_slot, get_shard, find, put_value}
use emberdb.Store.Views.{hash_view}
use emberdb.Store.Cells.{Updates}
use emberdb.Store.Cells.Tables.{hash_cell}
use emberdb.Hashes.{hset, hmset, put_fields}
use emberdb.Hashes.Writes.{hmset_lem, hdel_lem, unless_empty}
use emberdb.Hashes.Writes as Writes
use emberdb.Tests.Fixture.{rolling, toy, key}

abbrev one : Dict Str
one = Dict.put Dict.empty (bytes "f") (bytes "1")

abbrev cluster : KvStore Prim.Native.Nat.ℕ
cluster = hset toy (new_kv_store true) key (bytes "f") (bytes "1")

cluster_view : hash_view toy cluster key ≡ some one
unfolding hash_view hset hmset put_fields new_kv_store Dict.get Dict.put Dict.keys Dict.len drop_str
    Dict.empty str_eq find put_value get_shard set_slot slot_for_key rolling hash_part index_byte
cluster_view = refl

hmset_lem_example :
    let new = put_fields (Writes.old_hash toy cluster key) one (Dict.keys one) in
    Updates
      (hash_cell toy)
      cluster
      (hmset toy cluster key one)
      key
      (if Writes.skips toy cluster key one then hash_view toy cluster key else some new)
    × ((f : Str)
        → Dict.get new f ≡ (
            if is_some (Dict.get one f)
            then Dict.get one f
            else Dict.get (Writes.old_hash toy cluster key) f))
hmset_lem_example = hmset_lem toy cluster key one
