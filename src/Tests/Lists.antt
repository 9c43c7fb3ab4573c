-- ===== src/Tests/Lists.antt =====
-- Lists in both modes.
use emberdb.Prelude.{
  ◌≡◌, refl, true, false, some, List, [], ◌∷◌, ◌++◌, Str, bytes, str_eq, or_zero, length,
}
use emberdb.Prelude.Int.{pos, negsuc, ◌+ℤ◌, ◌-ℤ◌}
use emberdb.Dict
use emberdb.Slot.{slot_for_key, hash_part, index_byte}
use emberdb.Store.{KvStore, new_kv_store, set_slot, get_shard, find, put_value}
use emberdb.Store.Views.{list_view}
use emberdb.Store.Cells.{Updates}
use emberdb.Store.Cells.Tables.{list_cell}
use emberdb.Lists.{lpush, rpush, lrange, position, range_bounds, clamp_range}
use emberdb.Lists.Pushes.{push_lem, push_reply, after_push, old_list}
use emberdb.Lists.Ranges.{at_positions, between, lrange-at_positions}
use emberdb.Tests.Fixture.{rolling, toy, key}

abbrev two : List Str
two = bytes "a" ∷ bytes "b" ∷ []

abbrev cluster : KvStore Prim.Native.Nat.ℕ
cluster = (rpush toy (new_kv_store true) key two).1

abbrev alone : KvStore Prim.Native.Nat.ℕ
alone = (rpush toy (new_kv_store false) key two).1

alone_view : list_view toy alone key ≡ some two
unfolding list_view rpush new_kv_store Dict.get Dict.put Dict.empty str_eq
alone_view = refl

cluster_view : list_view toy cluster key ≡ some two
unfolding list_view rpush new_kv_store Dict.get Dict.put Dict.empty str_eq find put_value get_shard
    set_slot slot_for_key rolling hash_part index_byte
cluster_view = refl

push_lem_example :
    ((lpush toy cluster key two).0 ≡ push_reply toy cluster key (length two))
    × Updates
        (list_cell toy)
        cluster
        (lpush toy cluster key two).1
        key
        (after_push toy cluster key two (two ++ old_list toy cluster key))
    × ((rpush toy cluster key two).0 ≡ push_reply toy cluster key (length two))
    × Updates
        (list_cell toy)
        cluster
        (rpush toy cluster key two).1
        key
        (after_push toy cluster key two (old_list toy cluster key ++ two))
push_lem_example = push_lem toy cluster key two

bounded : range_bounds 3 (negsuc 1) (pos 7) ≡ some (pos 1, pos 2)
unfolding range_bounds clamp_range ◌-ℤ◌ ◌+ℤ◌
bounded = refl

lrange-at_positions_example :
    let list = or_zero [] (list_view toy cluster key) in
    lrange toy cluster key (negsuc 0) (pos 5)
    ≡ some (
        at_positions
          (between (position (length list) (negsuc 0)) (position (length list) (pos 5)))
          0
          list)
lrange-at_positions_example = lrange-at_positions toy cluster key (negsuc 0) (pos 5)
