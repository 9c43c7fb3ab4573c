-- ===== src/Keys/Deletes.antt =====
-- DEL and FLUSHALL against what a client reads.
-- Source: utils/kvstore/kvstore.go.
use emberdb.Prelude.{
  ◌⊎◌, unless_true, ◌≡◌, refl, Bool, true, false, ◌||◌, none, some, arith, Str, str_eq, str_eq_refl,
  List, if◌then◌else◌, is_some, Bool-cases, Option-cases, inl, inr, ◌∙◌,
}
use emberdb.Dict
use emberdb.Dict.{Dict}
use emberdb.Slot.{Runtime}
use emberdb.Slot.Tag.{slot_for_key-lt}
use emberdb.Store.{
  KvStore, DataType, Value, SortedSetMember, string_type, list_type, hash_type, set_type,
  sorted_set_type, find, get_shard, find-delete_value, enabled-delete_value,
}
use emberdb.Store.Views.{
  string_view, list_view, hash_view, set_view, zset_view, string_in, list_in, hash_in, set_in,
  zset_in, Agrees,
}
use emberdb.Keys.{in_tables, delete, flush_all}

module _ {F : Type 0} (rt : Runtime F) where
  -- The key holds a value of some type.
  abbrev pub present : KvStore F → Str → Bool
  present kv k =
      is_some (string_view rt kv k)
      || is_some (list_view rt kv k)
      || is_some (hash_view rt kv k)
      || is_some (set_view rt kv k)
      || is_some (zset_view rt kv k)

  -- every value is of one of the five types
  inside_one :
      (t : DataType) (v : Value F)
      → v.kind ≡ t
      → (is_some (string_in (some v))
          || is_some (list_in (some v))
          || is_some (hash_in (some v))
          || is_some (set_in (some v))
          || is_some (zset_in (some v)))
        ≡ true
  inside_one string_type v e = ground arith
  inside_one list_type v e = ground arith
  inside_one hash_type v e = ground arith
  inside_one set_type v e = ground arith
  inside_one sorted_set_type v e = ground arith

  present_found :
      (kv : KvStore F) (k : Str) (v : Value F)
      → kv.cluster_enabled ≡ true
      → find rt kv k ≡ some v
      → present kv k ≡ true
  unfolding string_view list_view hash_view set_view zset_view
  present_found kv k v on e = let one = inside_one v.kind v refl in ground arith

  present_missing :
      (kv : KvStore F) (k : Str)
      → kv.cluster_enabled ≡ true
      → find rt kv k ≡ none
      → present kv k ≡ false
  unfolding string_view list_view hash_view set_view zset_view
  present_missing kv k on e = ground arith

  present_on :
      (kv : KvStore F) (k : Str) → kv.cluster_enabled ≡ true → present kv k ≡ is_some (find rt kv k)
  present_on kv k on = elim (Option-cases (find rt kv k)) [
    | inl missing ↦ present_missing kv k on missing ∙ rw missing
    | inr (v, found) ↦ present_found kv k v on found ∙ rw found
  ]

  present_off :
      (kv : KvStore F) (k : Str) → kv.cluster_enabled ≡ false → present kv k ≡ in_tables kv k
  unfolding string_view list_view hash_view set_view zset_view in_tables
  present_off kv k off = ground arith

  delete_off :
      (kv : KvStore F) (k : Str)
      → kv.cluster_enabled ≡ false
      → in_tables (delete rt kv k).1 k ≡ false
  unfolding delete
  delete_off kv k off = ground (
    arith,
    str_eq_refl k,
    Dict.get-remove kv.strings k k,
    Dict.get-remove kv.lists k k,
    Dict.get-remove kv.hashes k k,
    Dict.get-remove kv.sets k k,
    Dict.get-remove kv.sorted_sets k k,
  )

  delete_on :
      (kv : KvStore F) (k : Str) → kv.cluster_enabled ≡ true → find rt (delete rt kv k).1 k ≡ none
  unfolding delete
  delete_on kv k on = ground (arith, str_eq_refl k, find-delete_value rt kv k k)

  pub enabled-delete :
      (kv : KvStore F) (k : Str) → (delete rt kv k).1.cluster_enabled ≡ kv.cluster_enabled
  unfolding delete
  enabled-delete kv k = ground (arith, enabled-delete_value rt kv k)

  delete-absent : (kv : KvStore F) (k : Str) → present (delete rt kv k).1 k ≡ false
  delete-absent kv k = elim (Bool-cases kv.cluster_enabled) [
    | inl on ↦ present_missing (delete rt kv k).1 k (enabled-delete kv k ∙ on) (delete_on kv k on)
    | inr off ↦ present_off (delete rt kv k).1 k (enabled-delete kv k ∙ off) ∙ delete_off kv k off
  ]

  delete-present : (kv : KvStore F) (k : Str) → (delete rt kv k).0 ≡ (if present kv k then 1 else 0)
  unfolding delete
  delete-present kv k = elim (Bool-cases kv.cluster_enabled) [
    | inl on ↦ rw (present_on kv k on) (ground arith)
    | inr off ↦ rw (present_off kv k off) (ground arith)
  ]

  delete-Agrees :
      (kv : KvStore F) (k j : Str) → str_eq k j ≡ false → Agrees rt (delete rt kv k).1 kv j
  unfolding delete string_view list_view hash_view set_view zset_view
  delete-Agrees kv k j ne =
      let e = find-delete_value rt kv k j in
      let m = enabled-delete_value rt kv k in
      record {
        strings = ground (arith, e, m, Dict.get-remove kv.strings k j);
        lists = ground (arith, e, m, Dict.get-remove kv.lists k j);
        hashes = ground (arith, e, m, Dict.get-remove kv.hashes k j);
        sets = ground (arith, e, m, Dict.get-remove kv.sets k j);
        zsets = ground (arith, e, m, Dict.get-remove kv.sorted_sets k j);
      }

  -- DEL replies 1 where the key holds a value of some type and 0 where it holds none. Afterwards the
  -- key holds no value of any type, and nothing that a client reads at another key has changed.
  pub delete_lem :
      (kv : KvStore F) (k : Str)
      → ((delete rt kv k).0 ≡ (if present kv k then 1 else 0))
        × (present (delete rt kv k).1 k ≡ false)
        × ((j : Str) → (str_eq k j ≡ true) ⊎ Agrees rt (delete rt kv k).1 kv j)
  delete_lem kv k = (
    delete-present kv k,
    delete-absent kv k,
    λ j. unless_true (str_eq k j) (delete-Agrees kv k j),
  )

  -- After FLUSHALL no key holds a value of any type.
  pub flush_all-absent : (kv : KvStore F) (k : Str) → present (flush_all kv) k ≡ false
  unfolding flush_all string_view list_view hash_view set_view zset_view find get_shard
  flush_all-absent kv k = ground (
    arith,
    slot_for_key-lt rt k,
    Dict.get-empty {V = Str} k,
    Dict.get-empty {V = List Str} k,
    Dict.get-empty {V = Dict Str} k,
    Dict.get-empty {V = Dict (Unit {0})} k,
    Dict.get-empty {V = List (SortedSetMember F)} k,
    Dict.get-empty {V = Value F} k,
  )
