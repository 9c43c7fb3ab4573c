-- ===== src/Strings/Reads.antt =====
-- What SET, GET and APPEND do to what a client reads, in either mode.
-- Source: utils/kvstore/strings.go.
use emberdb.Prelude.{◌≡◌, refl, none, some, [], ◌++◌, arith, Str, if◌then◌else◌, or_zero, str_eq}
use emberdb.Dict
use emberdb.Slot.{Runtime}
use emberdb.Store.{KvStore, wrong_type, string_type, find-put_value, enabled-put_value}
use emberdb.Store.Views.{string_view, other_kind}
use emberdb.Store.Cells.{Updates, write, Updates-write}
use emberdb.Store.Cells.Tables.{string_cell}
use emberdb.Strings.{nil, string_value, set, get, append}

module _ {F : Type 0} (rt : Runtime F) where
  -- GET gives the string at the key, and `(nil)` where the key holds no string.
  pub get-view : (kv : KvStore F) (k : Str) → get rt kv k ≡ or_zero nil (string_view rt kv k)
  unfolding get string_view
  get-view kv k = ground arith

  pub view-set :
      (kv : KvStore F) (k v j : Str)
      → string_view rt (set rt kv k v) j ≡ (if str_eq k j then some v else string_view rt kv j)
  unfolding set string_view
  view-set kv k v j = ground (
    arith,
    enabled-put_value rt kv k (string_value v),
    find-put_value rt kv k j (string_value v),
    Dict.get-put kv.strings k j v,
  )

  -- After SET of one key, GET of any key gives the new value at that key and what it gave before
  -- at the others.
  pub get-set :
      (kv : KvStore F) (k v j : Str)
      → get rt (set rt kv k v) j ≡ (if str_eq k j then v else get rt kv j)
  get-set kv k v j = ground (arith, get-view kv j, get-view (set rt kv k v) j, view-set kv k v j)

  pub set-write :
      (kv : KvStore F) (k v : Str) → set rt kv k v ≡ write (string_cell rt) kv k (string_value v) v
  unfolding set write
  set-write kv k v = ground arith

  -- SET stores the string at its key; nothing that any command reads at another key changes.
  pub set-Updates :
      (kv : KvStore F) (k v : Str) → Updates (string_cell rt) kv (set rt kv k v) k (some v)
  set-Updates kv k v =
      rw (set-write kv k v) (Updates-write (string_cell rt) kv k (string_value v) v (λ _. refl))

  -- APPEND is SET of the old string, empty if there is none, with the suffix behind it; where the
  -- key holds another type it is an error, and the store is unchanged.
  pub append-eq-set :
      (kv : KvStore F) (k s : Str)
      → append rt kv k s ≡ (
          if other_kind rt string_type kv k
          then (some wrong_type, kv)
          else (none, set rt kv k (or_zero [] (string_view rt kv k) ++ s)))
  unfolding append other_kind set string_view
  append-eq-set kv k s = ground arith
