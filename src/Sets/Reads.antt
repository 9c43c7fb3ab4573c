-- ===== src/Sets/Reads.antt =====
-- SISMEMBER and SMEMBERS against one another.
-- Source: utils/kvstore/sets.go.
use emberdb.Prelude.{◌≡◌, sym, ◌∙◌, arith, Str, str_lt, or_zero, is_some, contains, NoDup}
use emberdb.Prelude.Sort.{
  IsSorted, sort_stable-IsSorted, str_lt-IsStrictWeak, sort_strings-NoDup, contains-sort_strings,
}
use emberdb.Dict
use emberdb.Slot.{Runtime}
use emberdb.Store.{KvStore}
use emberdb.Store.Views.{set_view}
use emberdb.Sets.{stored_set, smembers, sismember}

module _ {F : Type 0} (rt : Runtime F) (kv : KvStore F) (k : Str) where
  sismember-stored : (m : Str) → sismember rt kv k m ≡ is_some (Dict.get (stored_set rt kv k) m)
  unfolding sismember stored_set
  sismember-stored m = ground (arith, Dict.get-empty {V = Unit {0}} m)

  stored_set-view : stored_set rt kv k ≡ or_zero Dict.empty (set_view rt kv k)
  unfolding stored_set set_view
  stored_set-view = ground arith

  -- SISMEMBER tells whether the set that a client reads has the member.
  pub sismember-view :
      (m : Str) → sismember rt kv k m ≡ is_some (Dict.get (or_zero Dict.empty (set_view rt kv k)) m)
  sismember-view m = sismember-stored m ∙ rw stored_set-view

  -- SMEMBERS lists, in ascending order and each once, exactly the members that SISMEMBER confirms.
  pub smembers_lem :
      IsSorted str_lt (smembers rt kv k)
      × NoDup (smembers rt kv k)
      × ((m : Str) → contains (smembers rt kv k) m ≡ sismember rt kv k m)
  unfolding smembers
  smembers_lem =
      let keys = Dict.keys (stored_set rt kv k) in
      (
        sort_stable-IsSorted str_lt str_lt-IsStrictWeak keys,
        sort_strings-NoDup keys (Dict.keys-NoDup (stored_set rt kv k)),
        λ m.
            contains-sort_strings m keys
            ∙ Dict.contains-keys (stored_set rt kv k) m
            ∙ sym (sismember-stored m),
      )
