-- ===== src/Keys.antt =====
-- `Delete`, `FlushAll` and `GetKeysInSlot` of utils/kvstore/kvstore.go.
pub mod Deletes
pub mod SlotKeys
use emberdb.Prelude.{
  ℕ, ◌≡◌, Bool, not, ◌&&◌, ◌||◌, List, [], ◌∷◌, ◌++◌, Str, ltb, ◌==◌, if◌then◌else◌, is_some,
  length,
}
use emberdb.Prelude.Int.{ℤ, pos, ltb_ℤ, pos_part}
use emberdb.Dict
use emberdb.Dict.{Dict}
use emberdb.Slot.{Runtime, slot_count}
use emberdb.Store.{KvStore, find, delete_value}

-- `for k := range s.m`, which stops when `count` keys are collected
collect : ℕ → List Str → List Str → List Str
collect count [] keys = keys
collect count (k ∷ ks) keys =
    let rest = collect count ks (keys ++ k ∷ []) in if length keys == count then keys else rest

module _ {F : Type 0} where
  -- the range stops at once on an empty map
  unfoldable pub get_keys_in_slot : KvStore F → ℕ → ℤ → List Str
  unfolding collect
  get_keys_in_slot kv slot count =
      if not (ltb slot slot_count) || not (ltb_ℤ (pos 0) count)
      then []
      else collect (pos_part count) (Dict.keys (kv.slots slot)) []

  unfoldable pub flush_all : KvStore F → KvStore F
  flush_all kv =
      if kv.cluster_enabled
      then record kv { slots = λ i. if ltb i slot_count then Dict.empty else kv.slots i }
      else record kv {
        strings = Dict.empty;
        lists = Dict.empty;
        hashes = Dict.empty;
        sets = Dict.empty;
        sorted_sets = Dict.empty;
        expirations = Dict.empty;
      }

  -- the key is in one of the five maps
  in_tables : KvStore F → Str → Bool
  in_tables kv key =
      is_some (Dict.get kv.strings key)
      || is_some (Dict.get kv.lists key)
      || is_some (Dict.get kv.hashes key)
      || is_some (Dict.get kv.sets key)
      || is_some (Dict.get kv.sorted_sets key)

module _ {F : Type 0} (rt : Runtime F) where
  unfoldable pub delete : KvStore F → Str → ℕ × KvStore F
  unfolding in_tables
  delete kv key =
      if kv.cluster_enabled
      then if is_some (find rt kv key) then (1, delete_value rt kv key) else (0, kv)
      else if not (in_tables kv key)
      then (0, kv)
      else (
        1,
        record kv {
          strings = Dict.remove kv.strings key;
          lists = Dict.remove kv.lists key;
          hashes = Dict.remove kv.hashes key;
          sets = Dict.remove kv.sets key;
          sorted_sets = Dict.remove kv.sorted_sets key;
        },
      )
