-- ===== src/Hashes/Writes.antt =====
-- HSET, HMSET and HDEL against the hash that a client reads.
-- Source: utils/kvstore/hashes.go.
use emberdb.Prelude.{
  ◌≡◌, refl, Bool, true, false, ◌||◌, Option, none, some, List, [], ◌∷◌, arith, Str, ◌==◌,
  if◌then◌else◌, or_zero, ◌+◌, contains, is_some,
}
use emberdb.Dict
use emberdb.Dict.{Dict}
use emberdb.Slot.{Runtime}
use emberdb.Store.{Value, KvStore, hash_type, find}
use emberdb.Store.Views.{hash_view, hash_in, other_kind}
use emberdb.Store.Cells.{Updates, write, erase, Updates-write, Updates-unless, Updates-emptied}
use emberdb.Store.Cells.Tables.{hash_cell}
use emberdb.Hashes.{hash_value, put_fields, remove_fields, hmset, hdel}
use emberdb.Hashes.Fields.{get-put_fields, get-remove_fields, len-remove_fields}

no_fields : (fields : List Str) → (remove_fields Dict.empty fields).1 ≡ 0
unfolding remove_fields
no_fields [] = refl
no_fields (f ∷ fs) = ground (arith, Dict.get-empty {V = Str} f, no_fields fs)

module _ {F : Type 0} (rt : Runtime F) (kv : KvStore F) (k : Str) where
  -- The hash at the key, empty if there is none.
  abbrev pub old_hash : Dict Str
  old_hash = or_zero Dict.empty (hash_view rt kv k)

  -- HMSET has no effect: no field is given, or the key holds another type.
  abbrev pub skips : Dict Str → Bool
  skips fields = Dict.len fields == 0 || other_kind rt hash_type kv k

  held : Value F
  held = or_zero (hash_value Dict.empty) (find rt kv k)

  merged : Dict Str → Dict Str
  merged fields = put_fields old_hash fields (Dict.keys fields)

  hmset-write :
      (fields : Dict Str)
      → hmset rt kv k fields ≡ (
          if skips fields
          then kv
          else write (hash_cell rt) kv k (record held { hash = merged fields }) (merged fields))
  unfolding hmset hash_view other_kind write held merged
  hmset-write fields = ground arith

  held_hash :
      (fields h : Dict Str)
      → skips fields ≡ false
      → kv.cluster_enabled ≡ true
      → hash_in (some (record held { hash = h })) ≡ some h
  unfolding held other_kind
  held_hash fields h go on = ground arith

  -- HMSET leaves at its key a hash with the given value of every given field and the old value of
  -- the others, unless no field is given or the key holds another type, when the hash stays as it
  -- was. Nothing that a client reads at another key changes.
  pub hmset_lem :
      (fields : Dict Str)
      → let new = put_fields old_hash fields (Dict.keys fields) in
        Updates
          (hash_cell rt)
          kv
          (hmset rt kv k fields)
          k
          (if skips fields then hash_view rt kv k else some new)
        × ((f : Str)
            → Dict.get new f
              ≡ (if is_some (Dict.get fields f) then Dict.get fields f else Dict.get old_hash f))
  unfolding merged
  hmset_lem fields =
      let m = merged fields in
      (
        rw (hmset-write fields) (
            Updates-unless (hash_cell rt) kv k (skips fields) _ (some m) (λ go.
              Updates-write (hash_cell rt) kv k (record held { hash = m }) m
                (held_hash fields m go))),
        get-put_fields old_hash fields,
      )

  -- An emptied hash is removed from the store.
  abbrev pub unless_empty : Dict Str → Option (Dict Str)
  unless_empty h = if Dict.len h == 0 then none else some h

  hdel-shape :
      (h : Dict Str) (fields : List Str)
      → hash_view rt kv k ≡ some h
      → let r = remove_fields h fields in
        hdel rt kv k fields ≡ (
          r.1,
          if Dict.len r.0 == 0
              then erase (hash_cell rt) kv k
              else write (hash_cell rt) kv k (record held { hash = r.0 }) r.0,
        )
  unfolding hdel hash_view held write erase
  hdel-shape h fields e = ground arith

  found_hash :
      (h h' : Dict Str)
      → hash_view rt kv k ≡ some h
      → kv.cluster_enabled ≡ true
      → hash_in (some (record held { hash = h' })) ≡ some h'
  unfolding held hash_view
  found_hash h h' e on = ground arith

  -- HDEL on a hash removes the named fields that are there, replies with their number, and leaves
  -- the other fields, or no hash if none is left. Nothing that a client reads at another key
  -- changes.
  pub hdel_lem :
      (h : Dict Str) (fields : List Str)
      → hash_view rt kv k ≡ some h
      → let r = remove_fields h fields in
        ((hdel rt kv k fields).0 ≡ r.1)
        × Updates (hash_cell rt) kv (hdel rt kv k fields).1 k (unless_empty r.0)
        × (Dict.len r.0 + r.1 ≡ Dict.len h)
        × ((j : Str) → Dict.get r.0 j ≡ (if contains fields j then none else Dict.get h j))
  hdel_lem h fields e =
      let r = remove_fields h fields in
      rw (hdel-shape h fields e) (
        refl,
        Updates-emptied (hash_cell rt) kv k (Dict.len r.0 == 0) (record held { hash = r.0 }) r.0
            (found_hash h r.0 e),
        len-remove_fields h fields,
        get-remove_fields h fields,
      )

  -- HDEL where the key holds no hash replies 0 and changes nothing.
  pub hdel_absent : (fields : List Str) → hash_view rt kv k ≡ none → hdel rt kv k fields ≡ (0, kv)
  unfolding hdel hash_view
  hdel_absent fields e = ground (arith, no_fields fields)
