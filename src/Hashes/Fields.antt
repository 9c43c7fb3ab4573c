-- ===== src/Hashes/Fields.antt =====
-- The loops over fields, field by field.
-- Source: utils/kvstore/hashes.go.
use emberdb.Prelude.{
  ◌+◌, ◌≡◌, refl, none, some, List, [], ◌∷◌, arith, Str, str_eq_iff, if◌then◌else◌, or_zero,
  is_some, contains,
}
use emberdb.Dict
use emberdb.Dict.{Dict}
use emberdb.Hashes.{put_fields, remove_fields}

get-put_fields_over :
    (hash fields : Dict Str) (fs : List Str) (j : Str)
    → Dict.get (put_fields hash fields fs) j
      ≡ (if contains fs j then some (or_zero [] (Dict.get fields j)) else Dict.get hash j)
unfolding put_fields contains
get-put_fields_over hash fields [] j = refl
get-put_fields_over hash fields (f ∷ fs) j = ground (
  arith,
  get-put_fields_over (Dict.put hash f (or_zero [] (Dict.get fields f))) fields fs j,
  Dict.get-put hash f j (or_zero [] (Dict.get fields f)),
  str_eq_iff f j,
)

-- A hash after HMSET has the new value of every field that is set and the old one of the others.
pub get-put_fields :
    (hash fields : Dict Str) (j : Str)
    → Dict.get (put_fields hash fields (Dict.keys fields)) j
      ≡ (if is_some (Dict.get fields j) then Dict.get fields j else Dict.get hash j)
get-put_fields hash fields j =
    ground
      (arith, get-put_fields_over hash fields (Dict.keys fields) j, Dict.contains-keys fields j)

-- HDEL removes exactly the named fields.
pub get-remove_fields :
    (hash : Dict Str) (fs : List Str) (j : Str)
    → Dict.get (remove_fields hash fs).0 j ≡ (if contains fs j then none else Dict.get hash j)
unfolding remove_fields contains
get-remove_fields hash [] j = refl
get-remove_fields hash (f ∷ fs) j = ground (
  arith,
  get-remove_fields (Dict.remove hash f) fs j,
  get-remove_fields hash fs j,
  Dict.get-remove hash f j,
  str_eq_iff f j,
)

-- The number that HDEL replies is the number of fields that the hash has lost.
pub len-remove_fields :
    (hash : Dict Str) (fs : List Str)
    → Dict.len (remove_fields hash fs).0 + (remove_fields hash fs).1 ≡ Dict.len hash
unfolding remove_fields
len-remove_fields hash [] = omega arith
len-remove_fields hash (f ∷ fs) = ground (
  arith,
  len-remove_fields (Dict.remove hash f) fs,
  len-remove_fields hash fs,
  Dict.len-remove hash f,
)
