-- ===== src/Sets.antt =====
-- utils/kvstore/sets.go. The set that an operation changes through the map's reference is written
-- back.
pub mod Members
pub mod Writes
pub mod Reads
use emberdb.Prelude.{
  ℕ, suc, ◌≡◌, Bool, false, not, Option, none, some, List, [], ◌∷◌, Str, ◌==◌, if◌then◌else◌,
  or_zero, is_some, length,
}
use emberdb.Prelude.Sort.{sort_strings}
use emberdb.Dict
use emberdb.Dict.{Dict}
use emberdb.Slot.{Runtime}
use emberdb.Store.{
  Value, KvStore, zero_value, set_type, has_type, other_type, find, put_value, delete_value,
}

-- map[string]struct{}
abbrev pub Set : Type 0
Set = Dict (Unit {0})

-- The loop of `addMembers`: the set and the number of members added.
unfoldable pub add_members : Set → List Str → Set × ℕ
add_members set [] = (set, 0)
add_members set (m ∷ ms) =
    let more = add_members (Dict.put set m tt) ms in
    let same = add_members set ms in if is_some (Dict.get set m) then same else (more.0, suc more.1)

-- The loop of `removeMembers`: the set and the number of members removed.
unfoldable pub remove_members : Set → List Str → Set × ℕ
remove_members set [] = (set, 0)
remove_members set (m ∷ ms) =
    let less = remove_members (Dict.remove set m) ms in
    let same = remove_members set ms in
    if is_some (Dict.get set m) then (less.0, suc less.1) else same

module _ {F : Type 0} where
  -- `Value{Type: SetType, Set: set}`
  abbrev pub set_value : Set → Value F
  set_value s = record zero_value { kind = set_type; set = s }

  -- `v.Set` if the key holds a set, and a nil map otherwise
  abbrev set_or_nil : Option (Value F) → Set
  set_or_nil none = Dict.empty
  set_or_nil (some v) = if has_type set_type (some v) then v.set else Dict.empty

module _ {F : Type 0} (rt : Runtime F) where
  unfoldable pub sadd : KvStore F → Str → List Str → ℕ × KvStore F
  sadd kv key members =
      let found = find rt kv key in
      let v = or_zero (set_value Dict.empty) found in
      let added = add_members v.set members in
      let r = add_members (or_zero Dict.empty (Dict.get kv.sets key)) members in
      if kv.cluster_enabled
      then if other_type set_type found
        then (0, kv)
        else if length members == 0
        then (0, kv)
        else (added.1, put_value rt kv key (record v { set = added.0 }))
      else if length members == 0
      then (0, kv)
      else (r.1, record kv { sets = Dict.put kv.sets key r.0 })

  stored_set : KvStore F → Str → Set
  stored_set kv key =
      if kv.cluster_enabled
      then set_or_nil (find rt kv key)
      else or_zero Dict.empty (Dict.get kv.sets key)

  unfoldable pub smembers : KvStore F → Str → List Str
  unfolding stored_set
  smembers kv key = sort_strings (Dict.keys (stored_set kv key))

  member_of : Option (Value F) → Str → Bool
  member_of none member = false
  member_of (some v) member =
      if has_type set_type (some v) then is_some (Dict.get v.set member) else false

  unfoldable pub sismember : KvStore F → Str → Str → Bool
  unfolding member_of
  sismember kv key member =
      if kv.cluster_enabled
      then member_of (find rt kv key) member
      else is_some (Dict.get (or_zero Dict.empty (Dict.get kv.sets key)) member)

  srem_value : KvStore F → Str → List Str → Option (Value F) → ℕ × KvStore F
  srem_value kv key members none = (0, kv)
  srem_value kv key members (some v) =
      let r = remove_members v.set members in
      if not (has_type set_type (some v))
      then (0, kv)
      else if Dict.len r.0 == 0
      then (r.1, delete_value rt kv key)
      else (r.1, put_value rt kv key (record v { set = r.0 }))

  srem_set : KvStore F → Str → List Str → Option Set → ℕ × KvStore F
  srem_set kv key members none = ((remove_members Dict.empty members).1, kv)
  srem_set kv key members (some s) =
      let r = remove_members s members in
      if Dict.len r.0 == 0
      then (r.1, record kv { sets = Dict.remove kv.sets key })
      else (r.1, record kv { sets = Dict.put kv.sets key r.0 })

  unfoldable pub srem : KvStore F → Str → List Str → ℕ × KvStore F
  unfolding srem_value srem_set
  srem kv key members =
      if kv.cluster_enabled
      then srem_value kv key members (find rt kv key)
      else srem_set kv key members (Dict.get kv.sets key)
