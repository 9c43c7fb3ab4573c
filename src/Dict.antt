-- ===== src/Dict.antt =====
-- Go's `map[string]V`. The representation is private: other modules have the laws. The order in
-- which `keys` lists the keys stands for the order in which `range` visits them.
mod Assoc
use Assoc.{
  lookup, without, key_list, lookup-without, contains-key_list, key_list-NoDup, key_list-put,
  key_list-without,
}
use emberdb.Prelude.{
  ℕ, suc, ◌+◌, ◌-◌, ◌≡◌, refl, ◌∙◌, Option, none, some, List, [], ◌∷◌, arith, false, Str, str_eq,
  is_some, if◌then◌else◌, contains, drop_str, NoDup, length, length-drop_str,
}

pub record Dict {ℓ} (V : Type ℓ) : Type ℓ where
  entries : Assoc.Assoc V

absent_in_nil : (xs : List Str) (k : Str) → length xs ≡ 0 → contains xs k ≡ false
unfolding contains
absent_in_nil [] k h = refl
absent_in_nil (x ∷ xs) k h = absurd (omega arith)

module _ {ℓ} {V : Type ℓ} where
  -- make(map[string]V), and a nil map, which reads like an empty one
  unfoldable pub empty : Dict V
  empty = record { entries = [] }

  -- v, ok := m[k]
  unfoldable pub get : Dict V → Str → Option V
  unfolding lookup
  get m k = lookup k m.entries

  -- delete(m, k)
  unfoldable pub remove : Dict V → Str → Dict V
  unfolding without
  remove m k = record { entries = without k m.entries }

  -- m[k] = v
  unfoldable pub put : Dict V → Str → V → Dict V
  unfolding without
  put m k v = record { entries = (k, v) ∷ without k m.entries }

  -- the keys that `range m` visits
  unfoldable pub keys : Dict V → List Str
  unfolding key_list
  keys m = key_list m.entries

  -- len(m)
  unfoldable pub len : Dict V → ℕ
  len m = length (keys m)

  pub get-empty : (k : Str) → get empty k ≡ none
  unfolding get empty
  get-empty k = refl

  pub get-remove :
      (m : Dict V) (k j : Str) → get (remove m k) j ≡ (if str_eq k j then none else get m j)
  unfolding get remove
  get-remove m k j = lookup-without k j m.entries

  pub get-put :
      (m : Dict V) (k j : Str) (v : V)
      → get (put m k v) j ≡ (if str_eq k j then some v else get m j)
  unfolding get put
  get-put m k j v = ground (arith, lookup-without k j m.entries)

  pub contains-keys : (m : Dict V) (k : Str) → contains (keys m) k ≡ is_some (get m k)
  unfolding get keys
  contains-keys m k = contains-key_list k m.entries

  pub keys-NoDup : (m : Dict V) → NoDup (keys m)
  unfolding keys
  keys-NoDup m = key_list-NoDup m.entries

  keys-remove : (m : Dict V) (k : Str) → keys (remove m k) ≡ drop_str k (keys m)
  unfolding keys remove
  keys-remove m k = key_list-without k m.entries

  pub len-remove :
      (m : Dict V) (k : Str) → len (remove m k) + (if is_some (get m k) then 1 else 0) ≡ len m
  unfolding len
  len-remove m k =
      rw (keys-remove m k, ← contains-keys m k) (length-drop_str k (keys m) (keys-NoDup m))

  pub keys-put : (m : Dict V) (k : Str) (v : V) → keys (put m k v) ≡ k ∷ drop_str k (keys m)
  unfolding keys put
  keys-put m k v = key_list-put k v m.entries

  pub len-put :
      (m : Dict V) (k : Str) (v : V)
      → len (put m k v) + (if is_some (get m k) then 1 else 0) ≡ suc (len m)
  unfolding len
  len-put m k v =
      rw (keys-put m k v, ← contains-keys m k)
        (omega (arith, length-drop_str k (keys m) (keys-NoDup m)))

  -- A map of no entries has no key.
  pub get-len_zero : (m : Dict V) (k : Str) → len m ≡ 0 → get m k ≡ none
  unfolding len keys
  get-len_zero m k h = ground (arith, absent_in_nil (keys m) k, contains-keys m k)

pub len-empty {ℓ} : (V : Type ℓ) → len (empty {V = V}) ≡ 0
unfolding len keys empty
len-empty V = refl

pub ruleset dict_laws = (get-empty, get-remove, get-put)
