-- ===== src/Tests/Keys.antt =====
-- Commands on keys of any type.
use emberdb.Prelude.{
  ◌⊎◌, ◌≡◌, refl, true, false, Str, bytes, str_eq, if◌then◌else◌, is_some, All, NoDup, length, min,
}
use emberdb.Prelude.Int.{pos}
use emberdb.Dict
use emberdb.Slot.{slot_for_key}
use emberdb.Slot.Tag.{slot_for_key-lt}
use emberdb.Store.{KvStore, new_kv_store}
use emberdb.Store.Views.{Agrees}
use emberdb.Strings.{set}
use emberdb.Keys.{delete, get_keys_in_slot}
use emberdb.Keys.Deletes.{present, delete_lem}
use emberdb.Keys.SlotKeys.{get_keys_in_slot_lem}
use emberdb.Tests.Fixture.{toy, key}

abbrev cluster : KvStore Prim.Native.Nat.ℕ
cluster = set toy (new_kv_store true) key (bytes "v")

delete_lem_example :
    ((delete toy cluster key).0 ≡ (if present toy cluster key then 1 else 0))
    × (present toy (delete toy cluster key).1 key ≡ false)
    × ((j : Str) → (str_eq key j ≡ true) ⊎ Agrees toy (delete toy cluster key).1 cluster j)
delete_lem_example = delete_lem toy cluster key

get_keys_in_slot_lem_example :
    let slot = slot_for_key toy key in
    let keys = get_keys_in_slot cluster slot (pos 10) in
    NoDup keys
    × All (λ k. is_some (Dict.get (cluster.slots slot) k) ≡ true) keys
    × (length keys ≡ min 10 (Dict.len (cluster.slots slot)))
get_keys_in_slot_lem_example =
    get_keys_in_slot_lem cluster (slot_for_key toy key) (pos 10) (slot_for_key-lt toy key) refl
