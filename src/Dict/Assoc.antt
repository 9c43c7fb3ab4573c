-- ===== src/Dict/Assoc.antt =====
-- Association lists, the representation of a Go map.
use emberdb.Prelude.{
  ◌≡◌, refl, ◌∙◌, ap, Option, none, some, List, [], ◌∷◌, arith, Str, str_eq, str_eq_iff,
  str_eq_refl, is_some, if◌then◌else◌, contains, drop_str, NoDup, contains-drop_str, drop_str-NoDup,
}

abbrev pub Assoc {ℓ} : Type ℓ → Type ℓ
Assoc V = List (Str × V)

module _ {ℓ} {V : Type ℓ} where
  unfoldable pub lookup : Str → Assoc V → Option V
  lookup k [] = none
  lookup k ((j, v) ∷ l) = if str_eq j k then some v else lookup k l

  unfoldable pub without : Str → Assoc V → Assoc V
  without k [] = []
  without k ((j, v) ∷ l) = let rest = without k l in if str_eq j k then rest else (j, v) ∷ rest

  -- Each key once, in the order of the entries.
  unfoldable pub key_list : Assoc V → List Str
  key_list [] = []
  key_list ((j, v) ∷ l) = j ∷ drop_str j (key_list l)

  pub lookup-without :
      (k j : Str) (l : Assoc V) → lookup j (without k l) ≡ (if str_eq k j then none else lookup j l)
  unfolding lookup without
  lookup-without k j [] = ground arith
  lookup-without k j ((i, v) ∷ l) =
      ground (arith, lookup-without k j l, str_eq_iff i k, str_eq_iff i j, str_eq_iff k j)

  pub contains-key_list : (k : Str) (l : Assoc V) → contains (key_list l) k ≡ is_some (lookup k l)
  unfolding lookup key_list contains
  contains-key_list k [] = refl
  contains-key_list k ((j, v) ∷ l) =
      ground (arith, contains-key_list k l, contains-drop_str j k (key_list l))

  pub key_list-NoDup : (l : Assoc V) → NoDup (key_list l)
  unfolding key_list
  key_list-NoDup [] = tt
  key_list-NoDup ((j, v) ∷ l) = (
    contains-drop_str j j (key_list l) ∙ rw (str_eq_refl j),
    drop_str-NoDup j (key_list l) (key_list-NoDup l),
  )

drop_str_comm :
    (i j : Str) (xs : List Str) → drop_str i (drop_str j xs) ≡ drop_str j (drop_str i xs)
unfolding drop_str
drop_str_comm i j [] = refl
drop_str_comm i j (x ∷ xs) = ground (arith, drop_str_comm i j xs)

drop_str_twice : (i : Str) (xs : List Str) → drop_str i (drop_str i xs) ≡ drop_str i xs
unfolding drop_str
drop_str_twice i [] = refl
drop_str_twice i (x ∷ xs) = ground (arith, drop_str_twice i xs)

module _ {ℓ} {V : Type ℓ} where
  pub key_list-without : (k : Str) (l : Assoc V) → key_list (without k l) ≡ drop_str k (key_list l)
  unfolding key_list without drop_str
  key_list-without k [] = refl
  key_list-without k ((j, v) ∷ l) = ground (
    arith,
    key_list-without k l,
    str_eq_iff j k,
    drop_str_comm j k (key_list l),
    drop_str_twice k (key_list l),
  )

  pub key_list-put :
      (k : Str) (v : V) (l : Assoc V)
      → key_list ((k, v) ∷ without k l) ≡ k ∷ drop_str k (key_list l)
  unfolding key_list
  key_list-put k v l = rw (key_list-without k l) (ap (λ t. k ∷ t) (drop_str_twice k (key_list l)))
