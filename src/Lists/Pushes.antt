-- ===== src/Lists/Pushes.antt =====
-- LPUSH and RPUSH against the list that a client reads.
-- Source: utils/kvstore/lists.go.
use emberdb.Prelude.{
  ℕ, ◌+◌, ◌≡◌, refl, Bool, ◌||◌, Option, some, List, [], ◌++◌, arith, Str, ◌==◌, if◌then◌else◌,
  or_zero, length, length-append,
}
use emberdb.Dict
use emberdb.Slot.{Runtime}
use emberdb.Store.{KvStore, list_type}
use emberdb.Store.Views.{list_view, other_kind}
use emberdb.Store.Cells.{Updates, write, Updates-write, Updates-unless}
use emberdb.Store.Cells.Tables.{list_cell}
use emberdb.Lists.{list_value, prepend, lpush, rpush}

module _ {F : Type 0} (rt : Runtime F) (kv : KvStore F) (k : Str) where
  -- The list at the key, empty if there is none.
  abbrev pub old_list : List Str
  old_list = or_zero [] (list_view rt kv k)

  written : List Str → KvStore F
  written l = write (list_cell rt) kv k (list_value l) l

  -- A push has no effect: the key holds another type, or there is nothing to push.
  abbrev pub skips : List Str → Bool
  skips values = other_kind rt list_type kv k || length values == 0

  -- The list at the key after a push that would make it `new`.
  abbrev pub after_push : List Str → List Str → Option (List Str)
  after_push values new = if skips values then list_view rt kv k else some new

  -- The number that a push of `n` values returns.
  abbrev pub push_reply : ℕ → ℕ
  push_reply n = if other_kind rt list_type kv k then 0 else length old_list + n

  lpush-written :
      (values : List Str)
      → lpush rt kv k values
        ≡ (push_reply (length values), if skips values then kv else written (values ++ old_list))
  unfolding lpush list_view other_kind written write prepend
  lpush-written values = ground arith

  rpush-written :
      (values : List Str)
      → rpush rt kv k values
        ≡ (push_reply (length values), if skips values then kv else written (old_list ++ values))
  unfolding rpush list_view other_kind written write
  rpush-written values = ground (arith, length-append (or_zero [] (Dict.get kv.lists k)) values)

  push-Updates :
      (values new : List Str)
      → Updates
          (list_cell rt)
          kv
          (if skips values then kv else written new)
          k
          (after_push values new)
  unfolding written
  push-Updates values new =
      Updates-unless (list_cell rt) kv k (skips values) _ (some new)
        (λ _. Updates-write (list_cell rt) kv k (list_value new) new (λ _. refl))

  -- LPUSH and RPUSH reply with the new length, or 0 where the key holds another type. LPUSH puts the
  -- values, in the order given, before the old list and RPUSH puts them behind it; where the key
  -- holds another type, or nothing is pushed, the list stays as it was. Nothing that a client reads
  -- at another key changes.
  pub push_lem :
      (values : List Str)
      → ((lpush rt kv k values).0 ≡ push_reply (length values))
        × Updates
            (list_cell rt)
            kv
            (lpush rt kv k values).1
            k
            (after_push values (values ++ old_list))
        × ((rpush rt kv k values).0 ≡ push_reply (length values))
        × Updates
            (list_cell rt)
            kv
            (rpush rt kv k values).1
            k
            (after_push values (old_list ++ values))
  push_lem values =
      rw (lpush-written values, rpush-written values)
        (
          refl,
          push-Updates values (values ++ old_list),
          refl,
          push-Updates values (old_list ++ values),
        )
