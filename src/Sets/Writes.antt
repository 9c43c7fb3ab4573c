-- ===== src/Sets/Writes.antt =====
-- SADD and SREM against the set that a client reads.
-- Source: utils/kvstore/sets.go.
use emberdb.Prelude.{
  ◌+◌, ◌≡◌, refl, Bool, true, false, ◌||◌, Option, none, some, List, arith, Str, ◌==◌,
  if◌then◌else◌, or_zero, is_some, length, contains,
}
use emberdb.Dict
use emberdb.Slot.{Runtime}
use emberdb.Store.{Value, KvStore, set_type, find}
use emberdb.Store.Views.{set_view, set_in, other_kind}
use emberdb.Store.Cells.{Updates, write, erase, Updates-write, Updates-unless, Updates-emptied}
use emberdb.Store.Cells.Tables.{set_cell}
use emberdb.Sets.{Set, set_value, add_members, remove_members, sadd, srem}
use emberdb.Sets.Members.{
  has-add_members, len-add_members, has-remove_members, len-remove_members, no_members,
}

module _ {F : Type 0} (rt : Runtime F) (kv : KvStore F) (k : Str) where
  -- The set at the key, empty if there is none.
  abbrev pub old_set : Set
  old_set = or_zero Dict.empty (set_view rt kv k)

  -- SADD has no effect: the key holds another type, or no member is given.
  abbrev pub skips : List Str → Bool
  skips members = other_kind rt set_type kv k || length members == 0

  held : Value F
  held = or_zero (set_value Dict.empty) (find rt kv k)

  sadd-write :
      (members : List Str)
      → let r = add_members old_set members in
        sadd rt kv k members ≡ (
          if skips members then 0 else r.1,
          if skips members then kv else write (set_cell rt) kv k (record held { set = r.0 }) r.0,
        )
  unfolding sadd set_view other_kind write held
  sadd-write members = ground arith

  held_set :
      (members : List Str) (s : Set)
      → skips members ≡ false
      → kv.cluster_enabled ≡ true
      → set_in (some (record held { set = s })) ≡ some s
  unfolding held other_kind
  held_set members s go on = ground arith

  -- SADD leaves at its key a set that has the given members and the old ones, and replies with the
  -- number by which it has grown; where the key holds another type, or no member is given, it
  -- replies 0 and the set stays as it was. Nothing that a client reads at another key changes.
  pub sadd_lem :
      (members : List Str)
      → let r = add_members old_set members in
        ((sadd rt kv k members).0 ≡ (if skips members then 0 else r.1))
        × Updates
            (set_cell rt)
            kv
            (sadd rt kv k members).1
            k
            (if skips members then set_view rt kv k else some r.0)
        × (Dict.len r.0 ≡ Dict.len old_set + r.1)
        × ((j : Str)
            → is_some (Dict.get r.0 j) ≡ (contains members j || is_some (Dict.get old_set j)))
  sadd_lem members =
      let r = add_members old_set members in
      rw (sadd-write members) (
        refl,
        Updates-unless (set_cell rt) kv k (skips members) _ (some r.0) (λ go.
            Updates-write (set_cell rt) kv k (record held { set = r.0 }) r.0
              (held_set members r.0 go)),
        len-add_members old_set members,
        has-add_members old_set members,
      )

  -- An emptied set is removed from the store.
  abbrev pub unless_empty : Set → Option Set
  unless_empty s = if Dict.len s == 0 then none else some s

  srem-shape :
      (s : Set) (members : List Str)
      → set_view rt kv k ≡ some s
      → let r = remove_members s members in
        srem rt kv k members ≡ (
          r.1,
          if Dict.len r.0 == 0
              then erase (set_cell rt) kv k
              else write (set_cell rt) kv k (record held { set = r.0 }) r.0,
        )
  unfolding srem set_view held write erase
  srem-shape s members e = ground arith

  found_set :
      (s s' : Set)
      → set_view rt kv k ≡ some s
      → kv.cluster_enabled ≡ true
      → set_in (some (record held { set = s' })) ≡ some s'
  unfolding held set_view
  found_set s s' e on = ground arith

  -- SREM on a set removes the named members, replies with the number by which the set has shrunk,
  -- and leaves the others, or no set if none is left. Nothing that a client reads at another key
  -- changes.
  pub srem_lem :
      (s : Set) (members : List Str)
      → set_view rt kv k ≡ some s
      → let r = remove_members s members in
        ((srem rt kv k members).0 ≡ r.1)
        × Updates (set_cell rt) kv (srem rt kv k members).1 k (unless_empty r.0)
        × (Dict.len r.0 + r.1 ≡ Dict.len s)
        × ((j : Str)
            → is_some (Dict.get r.0 j)
              ≡ (if contains members j then false else is_some (Dict.get s j)))
  srem_lem s members e =
      let r = remove_members s members in
      rw (srem-shape s members e) (
        refl,
        Updates-emptied (set_cell rt) kv k (Dict.len r.0 == 0) (record held { set = r.0 }) r.0
            (found_set s r.0 e),
        len-remove_members s members,
        has-remove_members s members,
      )

  -- SREM where the key holds no set replies 0 and changes nothing.
  pub srem_absent : (members : List Str) → set_view rt kv k ≡ none → srem rt kv k members ≡ (0, kv)
  unfolding srem set_view
  srem_absent members e = ground (arith, no_members members)
