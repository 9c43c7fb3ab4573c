-- ===== src/Strings.antt =====
-- utils/kvstore/strings.go, and `applyDelta` of kvstore.go.
pub mod Reads
pub mod Integers
pub mod Batch
use emberdb.Prelude.{
  ℕ, ◌≡◌, Option, none, some, List, [], ◌∷◌, ◌++◌, Str, bytes, if◌then◌else◌, or_zero,
}
use emberdb.Prelude.Int.{ℤ, pos, negsuc, ◌+ℤ◌, ◌-ℤ◌, wrap64}
use emberdb.Prelude.Decimal.{atoi, itoa}
use emberdb.Dict
use emberdb.Dict.{Dict}
use emberdb.Slot.{Runtime, slot_for_key}
use emberdb.Store.{
  Value, KvStore, Error, wrong_type, not_integer, incrby_not_integer, decrby_not_integer,
  zero_value, string_type, has_type, other_type, set_slot, find, put_value,
}

-- the reply of GET for a missing key
abbrev pub nil : Str
nil = bytes "(nil)"

-- An operation that may return an error, beside the store that it leaves.
abbrev pub Outcome : Type 0 → Type 0
Outcome S = Option Error × S

module _ {F : Type 0} where
  -- `Value{Type: StringType, String: value}`
  abbrev pub string_value : Str → Value F
  string_value s = record zero_value { kind = string_type; str = s }

-- `(string, error)`; the integer is an int, of 64 bits
pub data Delta : Type 0 where
  next : Str → Delta
  failed : Error → Delta

unfoldable pub apply_delta : Option Str → ℤ → Delta
apply_delta none delta = next (itoa (wrap64 (pos 0 +ℤ delta)))
apply_delta (some current) delta = elim (atoi current) [
  | none ↦ failed not_integer
  | some n ↦ next (itoa (wrap64 (n +ℤ delta)))
]

-- `values[i]` beside `keys[i]`; an index out of range panics
pub pair_up : List Str → List Str → Option (List (Str × Str))
pair_up [] values = some []
pair_up (k ∷ keys) [] = none
pair_up (k ∷ keys) (v ∷ values) = elim (pair_up keys values) [
  | none ↦ none
  | some ps ↦ some ((k, v) ∷ ps)
]

unfoldable pub mset_strings : Dict Str → List (Str × Str) → Dict Str
mset_strings m [] = m
mset_strings m ((k, v) ∷ ps) = mset_strings (Dict.put m k v) ps

mget_strings : Dict Str → List Str → List Str
mget_strings m [] = []
mget_strings m (k ∷ keys) = or_zero nil (Dict.get m k) ∷ mget_strings m keys

module _ {F : Type 0} where
  -- the loops of `Mset`
  unfoldable pub mset_values : Dict (Value F) → List (Str × Str) → Dict (Value F)
  mset_values m [] = m
  mset_values m ((k, v) ∷ ps) = mset_values (Dict.put m k (string_value v)) ps

  abbrev string_of : Option (Value F) → Option Str
  string_of none = none
  string_of (some v) = some v.str

  abbrev string_or_nil : Option (Value F) → Str
  string_or_nil none = nil
  string_or_nil (some v) = if has_type string_type (some v) then v.str else nil

  -- the loop of `Mget` over one shard's map; `mget_strings` is its loop over the strings
  mget_values : Dict (Value F) → List Str → List Str
  mget_values m [] = []
  mget_values m (k ∷ keys) = string_or_nil (Dict.get m k) ∷ mget_values m keys

module _ {F : Type 0} (rt : Runtime F) where
  unfoldable pub set : KvStore F → Str → Str → KvStore F
  set kv key value =
      if kv.cluster_enabled
      then put_value rt kv key (string_value value)
      else record kv { strings = Dict.put kv.strings key value }

  mset_pairs : KvStore F → Str → List (Str × Str) → KvStore F
  mset_pairs kv first ps =
      let i = slot_for_key rt first in
      if kv.cluster_enabled
      then set_slot kv i (mset_values (kv.slots i) ps)
      else record kv { strings = mset_strings kv.strings ps }

  -- no value stands for the panic
  unfoldable pub mset : KvStore F → List Str → List Str → Option (KvStore F)
  unfolding mset_pairs
  mset kv [] values = some kv
  mset kv (k ∷ keys) values = elim (pair_up (k ∷ keys) values) [
    | none ↦ none
    | some ps ↦ some (mset_pairs kv k ps)
  ]

  unfoldable pub get : KvStore F → Str → Str
  get kv key =
      if kv.cluster_enabled
      then string_or_nil (find rt kv key)
      else or_zero nil (Dict.get kv.strings key)

  unfoldable pub mget : KvStore F → List Str → List Str
  unfolding mget_values mget_strings
  mget kv [] = []
  mget kv (k ∷ keys) =
      if kv.cluster_enabled
      then mget_values (kv.slots (slot_for_key rt k)) (k ∷ keys)
      else mget_strings kv.strings (k ∷ keys)

  unfoldable pub append : KvStore F → Str → Str → Outcome (KvStore F)
  append kv key suffix =
      let v = find rt kv key in
      let old = Dict.get kv.strings key in
      if kv.cluster_enabled
      then if other_type string_type v
        then (some wrong_type, kv)
        else (none, put_value rt kv key (string_value ((or_zero zero_value v).str ++ suffix)))
      else (none, record kv { strings = Dict.put kv.strings key (or_zero [] old ++ suffix) })

  store_value : KvStore F → Str → Delta → Outcome (KvStore F)
  store_value kv key (failed e) = (some e, kv)
  store_value kv key (next s) = (none, put_value rt kv key (string_value s))

  store_string : KvStore F → Str → Delta → Outcome (KvStore F)
  store_string kv key (failed e) = (some e, kv)
  store_string kv key (next s) = (none, record kv { strings = Dict.put kv.strings key s })

  unfoldable pub change_integer : KvStore F → Str → ℤ → Outcome (KvStore F)
  unfolding store_value store_string
  change_integer kv key delta =
      let v = find rt kv key in
      if kv.cluster_enabled
      then if other_type string_type v
        then (some wrong_type, kv)
        else store_value kv key (apply_delta (string_of v) delta)
      else store_string kv key (apply_delta (Dict.get kv.strings key) delta)

  unfoldable pub incr : KvStore F → Str → Outcome (KvStore F)
  incr kv key = change_integer kv key (pos 1)

  unfoldable pub decr : KvStore F → Str → Outcome (KvStore F)
  decr kv key = change_integer kv key (negsuc 0)

  unfoldable pub incr_by : KvStore F → Str → Str → Outcome (KvStore F)
  incr_by kv key increment = elim (atoi increment) [
    | none ↦ (some incrby_not_integer, kv)
    | some delta ↦ change_integer kv key delta
  ]

  unfoldable pub decr_by : KvStore F → Str → Str → Outcome (KvStore F)
  decr_by kv key decrement = elim (atoi decrement) [
    | none ↦ (some decrby_not_integer, kv)
    | some delta ↦ change_integer kv key (wrap64 (pos 0 -ℤ delta))
  ]
