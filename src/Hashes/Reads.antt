-- ===== src/Hashes/Reads.antt =====
-- HGET, HMGET and HGETALL against the hash that a client reads.
-- Source: utils/kvstore/hashes.go.
use emberdb.Prelude.{
  ◌≡◌, refl, sym, ap, ◌∙◌, List, [], ◌∷◌, arith, Str, or_zero, is_some, map, contains, NoDup,
  str_lt,
}
use emberdb.Prelude.Sort.{
  sort_strings, IsSorted, sort_stable-IsSorted, str_lt-IsStrictWeak, sort_strings-NoDup,
  contains-sort_strings,
}
use mathlib.Core.Path.{fun_ext}
use emberdb.Dict
use emberdb.Dict.{Dict}
use emberdb.Slot.{Runtime}
use emberdb.Store.{KvStore}
use emberdb.Store.Views.{hash_view}
use emberdb.Hashes.{stored_hash, hget, hmget, hgetall, field_values}

module _ {F : Type 0} (rt : Runtime F) (kv : KvStore F) (k : Str) where
  -- The hash at the key, empty if there is none.
  abbrev pub old_hash : Dict Str
  old_hash = or_zero Dict.empty (hash_view rt kv k)

  stored_hash-view : stored_hash rt kv k ≡ old_hash
  unfolding stored_hash hash_view
  stored_hash-view = ground arith

  hget-stored : (f : Str) → hget rt kv k f ≡ Dict.get (stored_hash rt kv k) f
  unfolding hget stored_hash
  hget-stored f = ground (arith, Dict.get-empty {V = Str} f)

  -- HGET gives the field of the hash that a client reads.
  pub hget-view : (f : Str) → hget rt kv k f ≡ Dict.get old_hash f
  hget-view f = hget-stored f ∙ rw stored_hash-view

  -- HMGET gives what HGET gives at each field in turn.
  pub hmget-hget : (fields : List Str) → hmget rt kv k fields ≡ map (hget rt kv k) fields
  unfolding hmget
  hmget-hget fields = rw (fun_ext hget-stored)

  -- the fields, each with what HGET gives for it
  pub with_values : List Str → List Str
  with_values [] = []
  with_values (f ∷ fs) = f ∷ or_zero [] (hget rt kv k f) ∷ with_values fs

  field_values-with : (fs : List Str) → field_values (stored_hash rt kv k) fs ≡ with_values fs
  unfolding field_values with_values
  field_values-with [] = refl
  field_values-with (f ∷ fs) = rw (hget-stored f, field_values-with fs)

  -- HGETALL lists, in ascending order of the fields and each once, exactly the fields that HGET
  -- finds, every one followed by its value.
  pub hgetall_lem :
      (fs : List Str) × (hgetall rt kv k ≡ with_values fs)
      × IsSorted str_lt fs
      × NoDup fs
      × ((f : Str) → contains fs f ≡ is_some (hget rt kv k f))
  unfolding hgetall
  hgetall_lem =
      let hash = stored_hash rt kv k in
      (
        sort_strings (Dict.keys hash),
        field_values-with (sort_strings (Dict.keys hash)),
        sort_stable-IsSorted str_lt str_lt-IsStrictWeak (Dict.keys hash),
        sort_strings-NoDup (Dict.keys hash) (Dict.keys-NoDup hash),
        λ f.
            contains-sort_strings f (Dict.keys hash)
            ∙ Dict.contains-keys hash f
            ∙ ap is_some (sym (hget-stored f)),
      )
