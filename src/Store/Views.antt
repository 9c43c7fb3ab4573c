-- ===== src/Store/Views.antt =====
-- What a client can read of a key, in either mode: the value of each type that it holds.
-- Source: utils/kvstore/kvstore.go.
use emberdb.Prelude.{
  arith, ◌≡◌, str_eq, true, Bool, false, Option, none, some, Str, ◌==◌, if◌then◌else◌, List,
}
use emberdb.Dict
use emberdb.Dict.{Dict}
use emberdb.Slot.{Runtime}
use emberdb.Store.{
  DataType, tag_of, SortedSetMember, Value, KvStore, other_type, find, put_value, delete_value,
  find-put_value, find-delete_value, enabled-put_value, enabled-delete_value,
}

-- the part of a tagged value that its type selects
module _ {F : Type 0} where
  abbrev pub string_in : Option (Value F) → Option Str
  string_in none = none
  string_in (some v) = if tag_of v.kind == 0 then some v.str else none

  abbrev pub list_in : Option (Value F) → Option (List Str)
  list_in none = none
  list_in (some v) = if tag_of v.kind == 1 then some v.list else none

  abbrev pub hash_in : Option (Value F) → Option (Dict Str)
  hash_in none = none
  hash_in (some v) = if tag_of v.kind == 2 then some v.hash else none

  abbrev pub set_in : Option (Value F) → Option (Dict (Unit {0}))
  set_in none = none
  set_in (some v) = if tag_of v.kind == 3 then some v.set else none

  abbrev pub zset_in : Option (Value F) → Option (List (SortedSetMember F))
  zset_in none = none
  zset_in (some v) = if tag_of v.kind == 4 then some v.sorted_set else none

module _ {F : Type 0} (rt : Runtime F) where
  unfoldable pub string_view : KvStore F → Str → Option Str
  string_view kv k = if kv.cluster_enabled then string_in (find rt kv k) else Dict.get kv.strings k

  unfoldable pub list_view : KvStore F → Str → Option (List Str)
  list_view kv k = if kv.cluster_enabled then list_in (find rt kv k) else Dict.get kv.lists k

  unfoldable pub hash_view : KvStore F → Str → Option (Dict Str)
  hash_view kv k = if kv.cluster_enabled then hash_in (find rt kv k) else Dict.get kv.hashes k

  unfoldable pub set_view : KvStore F → Str → Option (Dict (Unit {0}))
  set_view kv k = if kv.cluster_enabled then set_in (find rt kv k) else Dict.get kv.sets k

  unfoldable pub zset_view : KvStore F → Str → Option (List (SortedSetMember F))
  zset_view kv k = if kv.cluster_enabled then zset_in (find rt kv k) else Dict.get kv.sorted_sets k

  -- In cluster mode the key holds a value of another type than `t`.
  unfoldable pub other_kind : DataType → KvStore F → Str → Bool
  other_kind t kv k = if kv.cluster_enabled then other_type t (find rt kv k) else false

-- A client reads the same at the key `j` in both stores, whatever type it asks for.
pub record Agrees {F : Type 0} (rt : Runtime F) (a b : KvStore F) (j : Str) : Type 0 where
  pub strings : string_view rt a j ≡ string_view rt b j
  pub lists : list_view rt a j ≡ list_view rt b j
  pub hashes : hash_view rt a j ≡ hash_view rt b j
  pub sets : set_view rt a j ≡ set_view rt b j
  pub zsets : zset_view rt a j ≡ zset_view rt b j

module _ {F : Type 0} (rt : Runtime F) where
  pub put_value-Agrees :
      (kv : KvStore F) (k j : Str) (v : Value F)
      → kv.cluster_enabled ≡ true
      → str_eq k j ≡ false
      → Agrees rt (put_value rt kv k v) kv j
  unfolding string_view list_view hash_view set_view zset_view
  put_value-Agrees kv k j v on ne =
      let e = find-put_value rt kv k j v in
      let m = enabled-put_value rt kv k v in
      record {
        strings = ground (arith, e, m);
        lists = ground (arith, e, m);
        hashes = ground (arith, e, m);
        sets = ground (arith, e, m);
        zsets = ground (arith, e, m);
      }

  pub delete_value-Agrees :
      (kv : KvStore F) (k j : Str)
      → kv.cluster_enabled ≡ true
      → str_eq k j ≡ false
      → Agrees rt (delete_value rt kv k) kv j
  unfolding string_view list_view hash_view set_view zset_view
  delete_value-Agrees kv k j on ne =
      let e = find-delete_value rt kv k j in
      let m = enabled-delete_value rt kv k in
      record {
        strings = ground (arith, e, m);
        lists = ground (arith, e, m);
        hashes = ground (arith, e, m);
        sets = ground (arith, e, m);
        zsets = ground (arith, e, m);
      }
