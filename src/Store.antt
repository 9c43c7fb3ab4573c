-- ===== src/Store.antt =====
-- utils/kvstore/kvstore.go and shard.go: the state of the store.
pub mod Views
pub mod Cells
use emberdb.Prelude.{
  ℕ, ◌≡◌, refl, Bool, false, ◌&&◌, not, Option, none, some, List, [], arith, Str, ◌==◌, str_eq,
  str_eq_iff, if◌then◌else◌,
}
use emberdb.Dict
use emberdb.Dict.{Dict}
use emberdb.Slot.{Runtime, slot_for_key}

pub data DataType : Type 0 where
  string_type list_type hash_type set_type sorted_set_type : DataType

-- the values that `iota` gives the constants
abbrev pub tag_of : DataType → ℕ
tag_of string_type = 0
tag_of list_type = 1
tag_of hash_type = 2
tag_of set_type = 3
tag_of sorted_set_type = 4

-- ErrWrongType and the errors that the operations make with `fmt.Errorf`
pub data Error : Type 0 where
  wrong_type not_integer incrby_not_integer decrby_not_integer zadd_odd zadd_score : Error

pub record SortedSetMember (F : Type 0) : Type 0 where
  pub member : Str
  pub score : F

pub record Value (F : Type 0) : Type 0 where
  pub kind : DataType
  pub str : Str
  pub list : List Str
  pub hash : Dict Str
  pub set : Dict (Unit {0})
  pub sorted_set : List (SortedSetMember F)

pub record KvStore (F : Type 0) : Type 0 where
  pub strings : Dict Str
  pub lists : Dict (List Str)
  pub hashes : Dict (Dict Str)
  pub sets : Dict (Dict (Unit {0}))
  pub sorted_sets : Dict (List (SortedSetMember F))
  pub expirations : Dict ℕ
  pub slots : ℕ → Dict (Value F)
  pub cluster_enabled : Bool

module _ {F : Type 0} where
  -- the zero `Value`, which a read of a missing key gives
  abbrev pub zero_value : Value F
  zero_value = record {
    kind = string_type;
    str = [];
    list = [];
    hash = Dict.empty;
    set = Dict.empty;
    sorted_set = [];
  }

  -- `ok && v.Type == t`
  abbrev pub has_type : DataType → Option (Value F) → Bool
  has_type t none = false
  has_type t (some v) = tag_of v.kind == tag_of t

  -- `ok && v.Type != t`
  abbrev pub other_type : DataType → Option (Value F) → Bool
  other_type t none = false
  other_type t (some v) = not (tag_of v.kind == tag_of t)

  unfoldable pub new_kv_store : Bool → KvStore F
  new_kv_store enabled = record {
    strings = Dict.empty;
    lists = Dict.empty;
    hashes = Dict.empty;
    sets = Dict.empty;
    sorted_sets = Dict.empty;
    expirations = Dict.empty;
    slots = λ _. Dict.empty;
    cluster_enabled = enabled;
  }

  -- `&kv.slots[i]` whose map becomes `m`
  unfoldable pub set_slot : KvStore F → ℕ → Dict (Value F) → KvStore F
  set_slot kv i m = record kv { slots = λ j. if i == j then m else kv.slots j }

module _ {F : Type 0} (rt : Runtime F) where
  -- `s := kv.getShard(key)`; `s.m`
  unfoldable pub get_shard : KvStore F → Str → Dict (Value F)
  get_shard kv key = kv.slots (slot_for_key rt key)

  -- `v, ok := s.m[key]` in the shard of the key
  unfoldable pub find : KvStore F → Str → Option (Value F)
  unfolding get_shard
  find kv key = Dict.get (get_shard kv key) key

  -- `s.ensure(); s.m[key] = v`
  unfoldable pub put_value : KvStore F → Str → Value F → KvStore F
  unfolding get_shard set_slot
  put_value kv key v = set_slot kv (slot_for_key rt key) (Dict.put (get_shard kv key) key v)

  -- `delete(s.m, key)`
  unfoldable pub delete_value : KvStore F → Str → KvStore F
  unfolding get_shard set_slot
  delete_value kv key = set_slot kv (slot_for_key rt key) (Dict.remove (get_shard kv key) key)

  pub enabled-put_value :
      (kv : KvStore F) (k : Str) (v : Value F)
      → (put_value kv k v).cluster_enabled ≡ kv.cluster_enabled
  unfolding put_value
  enabled-put_value kv k v = refl

  pub enabled-delete_value :
      (kv : KvStore F) (k : Str) → (delete_value kv k).cluster_enabled ≡ kv.cluster_enabled
  unfolding delete_value
  enabled-delete_value kv k = refl

  pub find-put_value :
      (kv : KvStore F) (k j : Str) (v : Value F)
      → find (put_value kv k v) j ≡ (if str_eq k j then some v else find kv j)
  unfolding find put_value
  find-put_value kv k j v =
      ground (arith, str_eq_iff k j, Dict.get-put (kv.slots (slot_for_key rt k)) k j v)

  pub find-delete_value :
      (kv : KvStore F) (k j : Str)
      → find (delete_value kv k) j ≡ (if str_eq k j then none else find kv j)
  unfolding find delete_value
  find-delete_value kv k j =
      ground (arith, str_eq_iff k j, Dict.get-remove (kv.slots (slot_for_key rt k)) k j)
