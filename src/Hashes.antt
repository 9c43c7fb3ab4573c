-- ===== src/Hashes.antt =====
-- utils/kvstore/hashes.go. The hash that an operation changes through the map's reference is
-- written back.
pub mod Fields
pub mod Writes
pub mod Reads
use emberdb.Prelude.{
  ℕ, suc, ◌+◌, ◌≡◌, not, ◌||◌, Option, none, some, List, [], ◌∷◌, Str, ◌==◌, if◌then◌else◌, or_zero,
  map,
}
use emberdb.Prelude.Sort.{sort_strings}
use emberdb.Dict
use emberdb.Dict.{Dict}
use emberdb.Slot.{Runtime}
use emberdb.Store.{
  Value, KvStore, zero_value, hash_type, has_type, other_type, find, put_value, delete_value,
}

-- `for f, val := range fields { hash[f] = val }`, over the keys `fs` of `fields`
unfoldable pub put_fields : Dict Str → Dict Str → List Str → Dict Str
put_fields hash fields [] = hash
put_fields hash fields (f ∷ fs) =
    put_fields (Dict.put hash f (or_zero [] (Dict.get fields f))) fields fs

-- The loop of `removeFields`: the hash and the number of fields removed.
unfoldable pub remove_fields : Dict Str → List Str → Dict Str × ℕ
remove_fields hash [] = (hash, 0)
remove_fields hash (f ∷ fs) =
    let gone = remove_fields (Dict.remove hash f) fs in
    let kept = remove_fields hash fs in
    elim (Dict.get hash f) [ none ↦ kept | some v ↦ (gone.0, suc gone.1) ]

-- `result = append(result, field, hash[field])` for each field
field_values : Dict Str → List Str → List Str
field_values hash [] = []
field_values hash (f ∷ fs) = f ∷ or_zero [] (Dict.get hash f) ∷ field_values hash fs

module _ {F : Type 0} where
  -- `Value{Type: HashType, Hash: hash}`
  abbrev pub hash_value : Dict Str → Value F
  hash_value hash = record zero_value { kind = hash_type; hash = hash }

  -- `v.Hash` if the key holds a hash, and a nil map otherwise
  abbrev hash_or_nil : Option (Value F) → Dict Str
  hash_or_nil none = Dict.empty
  hash_or_nil (some v) = if has_type hash_type (some v) then v.hash else Dict.empty

module _ {F : Type 0} (rt : Runtime F) where
  unfoldable pub hmset : KvStore F → Str → Dict Str → KvStore F
  hmset kv key fields =
      let found = find rt kv key in
      let v = or_zero (hash_value Dict.empty) found in
      let hash = or_zero Dict.empty (Dict.get kv.hashes key) in
      let fs = Dict.keys fields in
      if Dict.len fields == 0
      then kv
      else if kv.cluster_enabled
      then if other_type hash_type found
        then kv
        else put_value rt kv key (record v { hash = put_fields v.hash fields fs })
      else record kv { hashes = Dict.put kv.hashes key (put_fields hash fields fs) }

  unfoldable pub hset : KvStore F → Str → Str → Str → KvStore F
  hset kv key field value = hmset kv key (Dict.put Dict.empty field value)

  hget_found : Option (Value F) → Str → Option Str
  hget_found none field = none
  hget_found (some v) field = if has_type hash_type (some v) then Dict.get v.hash field else none

  -- `(string, bool)`
  unfoldable pub hget : KvStore F → Str → Str → Option Str
  unfolding hget_found
  hget kv key field =
      if kv.cluster_enabled
      then hget_found (find rt kv key) field
      else Dict.get (or_zero Dict.empty (Dict.get kv.hashes key)) field

  stored_hash : KvStore F → Str → Dict Str
  stored_hash kv key =
      if kv.cluster_enabled
      then hash_or_nil (find rt kv key)
      else or_zero Dict.empty (Dict.get kv.hashes key)

  -- nil stands for a missing field
  unfoldable pub hmget : KvStore F → Str → List Str → List (Option Str)
  unfolding stored_hash
  hmget kv key fields = map (λ f. Dict.get (stored_hash kv key) f) fields

  unfoldable pub hgetall : KvStore F → Str → List Str
  unfolding stored_hash field_values
  hgetall kv key =
      let hash = stored_hash kv key in field_values hash (sort_strings (Dict.keys hash))

  hdel_value : KvStore F → Str → List Str → Option (Value F) → ℕ × KvStore F
  hdel_value kv key fields none = (0, kv)
  hdel_value kv key fields (some v) =
      let r = remove_fields v.hash fields in
      if not (has_type hash_type (some v))
      then (0, kv)
      else if Dict.len r.0 == 0
      then (r.1, delete_value rt kv key)
      else (r.1, put_value rt kv key (record v { hash = r.0 }))

  hdel_hash : KvStore F → Str → List Str → Option (Dict Str) → ℕ × KvStore F
  hdel_hash kv key fields none = ((remove_fields Dict.empty fields).1, kv)
  hdel_hash kv key fields (some hash) =
      let r = remove_fields hash fields in
      if Dict.len r.0 == 0
      then (r.1, record kv { hashes = Dict.remove kv.hashes key })
      else (r.1, record kv { hashes = Dict.put kv.hashes key r.0 })

  unfoldable pub hdel : KvStore F → Str → List Str → ℕ × KvStore F
  unfolding hdel_value hdel_hash
  hdel kv key fields =
      if kv.cluster_enabled
      then hdel_value kv key fields (find rt kv key)
      else hdel_hash kv key fields (Dict.get kv.hashes key)
