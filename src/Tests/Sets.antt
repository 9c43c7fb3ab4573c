-- ===== src/Tests/Sets.antt =====
-- Sets in both modes.
use emberdb.Prelude.{
  ◌+◌, ◌≡◌, refl, true, ◌||◌, some, [], ◌∷◌, Str, bytes, str_eq, if◌then◌else◌, is_some, contains,
}
use emberdb.Dict
use emberdb.Dict.{Dict}
use emberdb.Slot.{slot_for_key, hash_part, index_byte}
use emberdb.Store.{KvStore, new_kv_store, set_slot, get_shard, find, put_value}
use emberdb.Store.Views.{set_view}
use emberdb.Store.Cells.{Updates}
use emberdb.Store.Cells.Tables.{set_cell}
use emberdb.Sets.{Set, sadd, add_members}
use emberdb.Sets.Writes.{sadd_lem, old_set, skips}
use emberdb.Tests.Fixture.{rolling, toy, key}

abbrev one : Set
one = Dict.put Dict.empty (bytes "m") tt

abbrev cluster : KvStore Prim.Native.Nat.ℕ
cluster = (sadd toy (new_kv_store true) key (bytes "m" ∷ [])).1

cluster_view : set_view toy cluster key ≡ some one
unfolding set_view sadd add_members new_kv_store Dict.get Dict.put Dict.keys Dict.len Dict.empty
    str_eq find put_value get_shard set_slot slot_for_key rolling hash_part index_byte
cluster_view = refl

sadd_lem_example :
    let members = bytes "m" ∷ bytes "n" ∷ [] in
    let old = old_set toy cluster key in
    let r = add_members old members in
    ((sadd toy cluster key members).0 ≡ (if skips toy cluster key members then 0 else r.1))
    × Updates
        (set_cell toy)
        cluster
        (sadd toy cluster key members).1
        key
        (if skips toy cluster key members then set_view toy cluster key else some r.0)
    × (Dict.len r.0 ≡ Dict.len old + r.1)
    × ((j : Str) → is_some (Dict.get r.0 j) ≡ (contains members j || is_some (Dict.get old j)))
sadd_lem_example = sadd_lem toy cluster key (bytes "m" ∷ bytes "n" ∷ [])
