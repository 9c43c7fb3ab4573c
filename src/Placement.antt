-- ===== src/Placement.antt =====
-- Where the keys of a store lie: the shards of utils/kvstore/kvstore.go.
pub mod Writes
pub mod Commands
pub mod Run
use emberdb.Prelude.{
  ℕ, ◌≡◌, Bool, true, [], ◌∷◌, arith, Str, str_eq_iff, if◌then◌else◌, is_some, ◌==◌,
}
use emberdb.Dict
use emberdb.Dict.{Dict}
use emberdb.Slot.{Runtime, slot_for_key}
use emberdb.Store.{KvStore, Value, set_slot, get_shard, put_value, delete_value, new_kv_store}
use emberdb.Keys.{flush_all, delete}

module _ {F : Type 0} (rt : Runtime F) where
  -- A key that a shard holds is one that hashes to its slot.
  abbrev pub IsPlaced : KvStore F → Type 0
  IsPlaced kv = (i : ℕ) (k : Str) → is_some (Dict.get (kv.slots i) k) ≡ true → slot_for_key rt k ≡ i

  pub new_kv_store-IsPlaced : (enabled : Bool) → IsPlaced (new_kv_store enabled)
  unfolding new_kv_store
  new_kv_store-IsPlaced enabled i k h = absurd (ground (arith, Dict.get-empty {V = Value F} k))

  module _ (kv : KvStore F) (p : IsPlaced kv) where
    pub put_value-IsPlaced : (key : Str) (v : Value F) → IsPlaced (put_value rt kv key v)
    unfolding put_value set_slot get_shard
    put_value-IsPlaced key v i k h =
        ground
          (arith, p i k, str_eq_iff key k, Dict.get-put (kv.slots (slot_for_key rt key)) key k v)

    pub delete_value-IsPlaced : (key : Str) → IsPlaced (delete_value rt kv key)
    unfolding delete_value set_slot get_shard
    delete_value-IsPlaced key i k h =
        ground
          (arith, p i k, str_eq_iff key k, Dict.get-remove (kv.slots (slot_for_key rt key)) key k)

    pub flush_all-IsPlaced : IsPlaced (flush_all kv)
    unfolding flush_all
    flush_all-IsPlaced i k h = ground (arith, p i k, Dict.get-empty {V = Value F} k)

    pub delete-IsPlaced : (key : Str) → IsPlaced (delete rt kv key).1
    unfolding delete
    delete-IsPlaced key i k h = ground (arith, p i k, delete_value-IsPlaced key i k)
