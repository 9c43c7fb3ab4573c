-- ===== src/SortedSets.antt =====
-- utils/kvstore/sortedsets.go. Scores are float64 values of the type `F`, which come with parsing
-- and `<` in `Runtime`.
pub mod Adds
pub mod Scores
pub mod Commands
use emberdb.Prelude.{
  ℕ, suc, ◌+◌, ◌-◌, ◌%◌, ◌≡◌, Bool, true, false, not, Option, none, some, List, [], ◌∷◌, ◌++◌, Str,
  ◌==◌, if◌then◌else◌, or_zero, is_some, str_eq, length, map,
}
use emberdb.Prelude.Int.{ℤ}
use emberdb.Prelude.Sort.{sort_stable, keep}
use emberdb.Dict
use emberdb.Dict.{Dict}
use emberdb.Slot.{Runtime}
use emberdb.Store.{
  SortedSetMember, Value, KvStore, Error, wrong_type, zadd_odd, zadd_score, zero_value,
  sorted_set_type, has_type, other_type, find, put_value, delete_value,
}
use emberdb.Lists.{select}

-- `remove[member] = struct{}{}` for each member
unfoldable pub mark : List Str → Dict (Unit {0}) → Dict (Unit {0})
mark [] remove = remove
mark (m ∷ ms) remove = mark ms (Dict.put remove m tt)

module _ {F : Type 0} where
  -- some `next[j].Member == member`
  unfoldable pub has_member : Str → List (SortedSetMember F) → Bool
  has_member m [] = false
  has_member m (e ∷ es) = let rest = has_member m es in if str_eq e.member m then true else rest

  -- `next[j].Score = score` at the first such `j`
  unfoldable pub assign_score : Str → F → List (SortedSetMember F) → List (SortedSetMember F)
  assign_score m s [] = []
  assign_score m s (e ∷ es) =
      let rest = assign_score m s es in
      if str_eq e.member m then record e { score = s } ∷ es else e ∷ rest

  -- one round of the loop of `zadd`: the slice and the number of members added so far
  unfoldable pub zadd_one :
      SortedSetMember F → List (SortedSetMember F) × ℕ → List (SortedSetMember F) × ℕ
  zadd_one e (next, added) =
      if has_member e.member next
      then (assign_score e.member e.score next, added)
      else (next ++ e ∷ [], suc added)

  unfoldable pub zadd_loop :
      List (SortedSetMember F) → List (SortedSetMember F) × ℕ → List (SortedSetMember F) × ℕ
  zadd_loop [] state = state
  zadd_loop (e ∷ es) state = zadd_loop es (zadd_one e state)

  -- the members kept, and how many were removed
  unfoldable pub zrem_members : List (SortedSetMember F) → List Str → List (SortedSetMember F) × ℕ
  zrem_members current members =
      let remove = mark members Dict.empty in
      let kept = keep (λ e. not (is_some (Dict.get remove e.member))) current in
      (kept, length current - length kept)

  -- `Value{Type: SortedSetType, SortedSet: list}`
  abbrev pub zset_value : List (SortedSetMember F) → Value F
  zset_value list = record zero_value { kind = sorted_set_type; sorted_set = list }

  -- `v.SortedSet` if the key holds a sorted set, and none otherwise
  abbrev zset_or_none : Option (Value F) → List (SortedSetMember F)
  zset_or_none none = []
  zset_or_none (some v) = if has_type sorted_set_type (some v) then v.sorted_set else []

-- `(int, error)`
pub data Added : Type 0 where
  added : ℕ → Added
  rejected : Error → Added

-- the members and scores of a list of pairs, or the error
pub data Parsed (F : Type 0) : Type 0 where
  parsed : List (SortedSetMember F) → Parsed F
  bad : Error → Parsed F

module _ {F : Type 0} (rt : Runtime F) where
  abbrev pub less_score : SortedSetMember F → SortedSetMember F → Bool
  less_score a b = rt.less a.score b.score

  -- `zadd`: the members and scores are given as pairs
  unfoldable pub zadd_members :
      List (SortedSetMember F) → List (SortedSetMember F) → List (SortedSetMember F) × ℕ
  zadd_members current pairs =
      let r = zadd_loop pairs (current, 0) in (sort_stable less_score r.0, r.1)

  add_pair : Str → Option F → Parsed F → Parsed F
  add_pair m none rest = bad zadd_score
  add_pair m (some s) (bad e) = bad e
  add_pair m (some s) (parsed es) = parsed (record { member = m; score = s } ∷ es)

  -- the loop over `pairs`, whose number is even
  parse_scores : List Str → Parsed F
  parse_scores [] = parsed []
  parse_scores (s ∷ []) = parsed []
  parse_scores (s ∷ m ∷ rest) = add_pair m (rt.parse_float s) (parse_scores rest)

  unfoldable pub parse_pairs : List Str → Parsed F
  unfolding parse_scores add_pair
  parse_pairs pairs = if length pairs % 2 == 0 then parse_scores pairs else bad zadd_odd

  zadd_parsed : KvStore F → Str → Parsed F → Added × KvStore F
  zadd_parsed kv key (bad e) = (rejected e, kv)
  zadd_parsed kv key (parsed ps) =
      let v = find rt kv key in
      let r = zadd_members (or_zero zero_value v).sorted_set ps in
      let s = zadd_members (or_zero [] (Dict.get kv.sorted_sets key)) ps in
      if kv.cluster_enabled
      then if other_type sorted_set_type v
        then (rejected wrong_type, kv)
        else (added r.1, put_value rt kv key (zset_value r.0))
      else (added s.1, record kv { sorted_sets = Dict.put kv.sorted_sets key s.0 })

  unfoldable pub zadd : KvStore F → Str → List Str → Added × KvStore F
  unfolding zadd_parsed
  zadd kv key pairs = zadd_parsed kv key (parse_pairs pairs)

  stored_zset : KvStore F → Str → List (SortedSetMember F)
  stored_zset kv key =
      if kv.cluster_enabled
      then zset_or_none (find rt kv key)
      else or_zero [] (Dict.get kv.sorted_sets key)

  -- the members of the selected elements
  unfoldable pub members_of : Option (List (SortedSetMember F)) → Option (List Str)
  members_of none = none
  members_of (some elements) = some (map (λ e. e.member) elements)

  unfoldable pub zrange : KvStore F → Str → ℤ → ℤ → Option (List Str)
  unfolding stored_zset
  zrange kv key start end = members_of (select (stored_zset kv key) start end)

  zrem_value : KvStore F → Str → List Str → Option (Value F) → ℕ × KvStore F
  zrem_value kv key members none = (0, kv)
  zrem_value kv key members (some v) =
      let r = zrem_members v.sorted_set members in
      if not (has_type sorted_set_type (some v))
      then (0, kv)
      else if r.1 == 0
      then (r.1, kv)
      else if length r.0 == 0
      then (r.1, delete_value rt kv key)
      else (r.1, put_value rt kv key (zset_value r.0))

  zrem_zset : KvStore F → Str → List Str → List (SortedSetMember F) → ℕ × KvStore F
  zrem_zset kv key members current =
      let r = zrem_members current members in
      if r.1 == 0
      then (r.1, kv)
      else if length r.0 == 0
      then (r.1, record kv { sorted_sets = Dict.remove kv.sorted_sets key })
      else (r.1, record kv { sorted_sets = Dict.put kv.sorted_sets key r.0 })

  unfoldable pub zrem : KvStore F → Str → List Str → ℕ × KvStore F
  unfolding zrem_value zrem_zset
  zrem kv key members =
      if kv.cluster_enabled
      then zrem_value kv key members (find rt kv key)
      else zrem_zset kv key members (or_zero [] (Dict.get kv.sorted_sets key))
