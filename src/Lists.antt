-- ===== src/Lists.antt =====
-- utils/kvstore/lists.go. A slice is a list: no operation writes to an element of a slice that
-- another one still reads.
pub mod Pushes
pub mod Pops
pub mod Ranges
use emberdb.Prelude.{
  ℕ, ◌+◌, ◌-◌, ◌≡◌, not, ◌||◌, Option, none, some, List, [], ◌∷◌, ◌++◌, Str, ◌==◌, if◌then◌else◌,
  or_zero, length, take, drop, get_elem?,
}
use emberdb.Prelude.Int.{ℤ, pos, ◌+ℤ◌, ◌-ℤ◌, ltb_ℤ, pos_part}
use emberdb.Dict
use emberdb.Slot.{Runtime}
use emberdb.Store.{
  Value, KvStore, zero_value, list_type, has_type, other_type, find, put_value, delete_value,
}

unfoldable pub prepend : List Str → List Str → List Str
prepend list values = values ++ list

module _ {F : Type 0} where
  -- `Value{Type: ListType, List: list}`
  abbrev pub list_value : List Str → Value F
  list_value list = record zero_value { kind = list_type; list = list }

  -- `v.List` if the key holds a list, and no list otherwise
  abbrev list_or_none : Option (Value F) → List Str
  list_or_none none = []
  list_or_none (some v) = if has_type list_type (some v) then v.list else []

-- A negative index counts from the end: `if start < 0 { start += n }`.
abbrev pub position : ℕ → ℤ → ℤ
position n i = if ltb_ℤ i (pos 0) then i +ℤ pos n else i

-- The rest of `rangeBounds`, from `if start < 0 { start = 0 }` on.
unfoldable pub clamp_range : ℕ → ℤ → ℤ → Option (ℤ × ℤ)
clamp_range n start end =
    let s = if ltb_ℤ start (pos 0) then pos 0 else start in
    let e = if ltb_ℤ end (pos n) then end else pos n -ℤ pos 1 in
    if ltb_ℤ e s || not (ltb_ℤ s (pos n)) || ltb_ℤ e (pos 0) then none else some (s, e)

-- The first two results of `rangeBounds`, if its third is true.
unfoldable pub range_bounds : ℕ → ℤ → ℤ → Option (ℤ × ℤ)
range_bounds n start end = clamp_range n (position n start) (position n end)

-- `list[start : end+1]`; no value stands for bounds outside the list, which panic, or, up to the
-- capacity of the slice, would show elements that are none of the list.
unfoldable pub slice {ℓ} : {A : Type ℓ} → List A → ℤ × ℤ → Option (List A)
slice list (start, end) =
    if ltb_ℤ start (pos 0)
      || (ltb_ℤ (end +ℤ pos 1) start || ltb_ℤ (pos (length list)) (end +ℤ pos 1))
    then none
    else some (take (pos_part end + 1 - pos_part start) (drop (pos_part start) list))

range_of {ℓ} : {A : Type ℓ} → List A → Option (ℤ × ℤ) → Option (List A)
range_of list none = some []
range_of list (some bounds) = slice list bounds

-- The elements from `start` to `end`, as LRANGE and ZRANGE select them.
unfoldable pub select {ℓ} : {A : Type ℓ} → List A → ℤ → ℤ → Option (List A)
unfolding range_of
select list start end = range_of list (range_bounds (length list) start end)

module _ {F : Type 0} (rt : Runtime F) where
  unfoldable pub lpush : KvStore F → Str → List Str → ℕ × KvStore F
  lpush kv key values =
      let v = find rt kv key in
      let old = (or_zero zero_value v).list in
      let list = or_zero [] (Dict.get kv.lists key) in
      if kv.cluster_enabled
      then if other_type list_type v
        then (0, kv)
        else if length values == 0
        then (length old, kv)
        else (length old + length values, put_value rt kv key (list_value (prepend old values)))
      else if length values == 0
      then (length list, kv)
      else (
        length list + length values,
        record kv { lists = Dict.put kv.lists key (prepend list values) },
      )

  unfoldable pub rpush : KvStore F → Str → List Str → ℕ × KvStore F
  rpush kv key values =
      let v = find rt kv key in
      let old = (or_zero zero_value v).list in
      let list = or_zero [] (Dict.get kv.lists key) in
      if kv.cluster_enabled
      then if other_type list_type v
        then (0, kv)
        else if length values == 0
        then (length old, kv)
        else (length old + length values, put_value rt kv key (list_value (old ++ values)))
      else if length values == 0
      then (length list, kv)
      else (length (list ++ values), record kv { lists = Dict.put kv.lists key (list ++ values) })

  lpop_value : KvStore F → Str → Value F → List Str → Option Str × KvStore F
  lpop_value kv key v [] = (none, kv)
  lpop_value kv key v (x ∷ rest) =
      if length (x ∷ rest) == 1
      then (some x, delete_value rt kv key)
      else (some x, put_value rt kv key (record v { list = rest }))

  lpop_list : KvStore F → Str → List Str → Option Str × KvStore F
  lpop_list kv key [] = (none, kv)
  lpop_list kv key (x ∷ rest) =
      if length (x ∷ rest) == 1
      then (some x, record kv { lists = Dict.remove kv.lists key })
      else (some x, record kv { lists = Dict.put kv.lists key rest })

  lpop_found : KvStore F → Str → Option (Value F) → Option Str × KvStore F
  lpop_found kv key none = (none, kv)
  lpop_found kv key (some v) =
      if has_type list_type (some v) then lpop_value kv key v v.list else (none, kv)

  -- `(string, bool)`; no string where the second result is false
  unfoldable pub lpop : KvStore F → Str → Option Str × KvStore F
  unfolding lpop_value lpop_list lpop_found
  lpop kv key =
      if kv.cluster_enabled
      then lpop_found kv key (find rt kv key)
      else lpop_list kv key (or_zero [] (Dict.get kv.lists key))

  rpop_value : KvStore F → Str → Value F → Option Str × KvStore F
  rpop_value kv key v =
      let last = length v.list - 1 in
      if length v.list == 0
      then (none, kv)
      else if last == 0
      then (get_elem? v.list last, delete_value rt kv key)
      else (get_elem? v.list last, put_value rt kv key (record v { list = take last v.list }))

  rpop_list : KvStore F → Str → List Str → Option Str × KvStore F
  rpop_list kv key list =
      let last = length list - 1 in
      if length list == 0
      then (none, kv)
      else if last == 0
      then (get_elem? list last, record kv { lists = Dict.remove kv.lists key })
      else (get_elem? list last, record kv { lists = Dict.put kv.lists key (take last list) })

  rpop_found : KvStore F → Str → Option (Value F) → Option Str × KvStore F
  rpop_found kv key none = (none, kv)
  rpop_found kv key (some v) =
      if has_type list_type (some v) then rpop_value kv key v else (none, kv)

  unfoldable pub rpop : KvStore F → Str → Option Str × KvStore F
  unfolding rpop_value rpop_list rpop_found
  rpop kv key =
      if kv.cluster_enabled
      then rpop_found kv key (find rt kv key)
      else rpop_list kv key (or_zero [] (Dict.get kv.lists key))

  stored_list : KvStore F → Str → List Str
  stored_list kv key =
      if kv.cluster_enabled
      then list_or_none (find rt kv key)
      else or_zero [] (Dict.get kv.lists key)

  unfoldable pub lrange : KvStore F → Str → ℤ → ℤ → Option (List Str)
  unfolding stored_list
  lrange kv key start end = select (stored_list kv key) start end

  unfoldable pub llen : KvStore F → Str → ℕ
  unfolding stored_list
  llen kv key = length (stored_list kv key)
