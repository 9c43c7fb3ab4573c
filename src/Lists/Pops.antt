-- ===== src/Lists/Pops.antt =====
-- LPOP and RPOP against the list that a client reads.
-- Source: utils/kvstore/lists.go.
use emberdb.Prelude.{
  suc, ◌-◌, ◌≡◌, refl, ◌∙◌, true, Option, none, some, List, [], ◌∷◌, ◌++◌, arith, Str, ◌==◌,
  if◌then◌else◌, or_zero, length, length-append, take, get_elem?, take-length-append,
  get_elem?-length_append,
}
use emberdb.Slot.{Runtime}
use emberdb.Store.{Value, KvStore, zero_value, find}
use emberdb.Store.Views.{list_view, list_in}
use emberdb.Store.Cells.{Updates, write, erase, Updates-write, Updates-erase}
use emberdb.Store.Cells.Tables.{list_cell}
use emberdb.Lists.{lpop, rpop}

-- An emptied list is removed from the store.
abbrev pub unless_empty : List Str → Option (List Str)
unless_empty [] = none
unless_empty (x ∷ xs) = some (x ∷ xs)

module _ {F : Type 0} (rt : Runtime F) (kv : KvStore F) (k : Str) where
  -- the tagged value at the key
  held : Value F
  held = or_zero zero_value (find rt kv k)

  pub leave : List Str → KvStore F
  leave [] = erase (list_cell rt) kv k
  leave (x ∷ xs) = write (list_cell rt) kv k (record held { list = x ∷ xs }) (x ∷ xs)

  pub lpop-leave :
      (x : Str) (xs : List Str)
      → list_view rt kv k ≡ some (x ∷ xs)
      → lpop rt kv k ≡ (some x, leave xs)
  unfolding lpop list_view leave held write erase
  lpop-leave x [] h = ground arith
  lpop-leave x (y ∷ xs) h = ground arith

  -- Where the key holds no list, neither pop returns anything or changes the store.
  pub pop_absent :
      list_view rt kv k ≡ none → (lpop rt kv k ≡ (none, kv)) × (rpop rt kv k ≡ (none, kv))
  unfolding lpop rpop list_view
  pop_absent h = (ground arith, ground arith)

  held_list :
      (l xs : List Str)
      → list_view rt kv k ≡ some l
      → kv.cluster_enabled ≡ true
      → list_in (some (record held { list = xs })) ≡ some xs
  unfolding list_view held
  held_list l xs h on = ground arith

  leave-Updates :
      (l xs : List Str)
      → list_view rt kv k ≡ some l
      → Updates (list_cell rt) kv (leave xs) k (unless_empty xs)
  unfolding leave
  leave-Updates l [] h = Updates-erase (list_cell rt) kv k
  leave-Updates l (x ∷ xs) h =
      Updates-write (list_cell rt) kv k (record held { list = x ∷ xs }) (x ∷ xs)
        (λ on. held_list l (x ∷ xs) h on)

  -- LPOP on a nonempty list returns its first element and leaves the others; the last element takes
  -- the key with it.
  pub lpop_lem :
      (x : Str) (xs : List Str)
      → list_view rt kv k ≡ some (x ∷ xs)
      → ((lpop rt kv k).0 ≡ some x) × Updates (list_cell rt) kv (lpop rt kv k).1 k (unless_empty xs)
  lpop_lem x xs h = rw (lpop-leave x xs h) (refl, leave-Updates (x ∷ xs) xs h)

  rpop_shape : List Str → Option Str × KvStore F
  rpop_shape l =
      let last = length l - 1 in
      if length l == 0
      then (none, kv)
      else if last == 0
      then (get_elem? l last, erase (list_cell rt) kv k)
      else (
        get_elem? l last,
        write (list_cell rt) kv k (record held { list = take last l }) (take last l),
      )

  rpop-shape : (l : List Str) → list_view rt kv k ≡ some l → rpop rt kv k ≡ rpop_shape l
  unfolding rpop list_view rpop_shape held write erase
  rpop-shape l h = ground arith

  rpop_shape_snoc : (xs : List Str) (x : Str) → rpop_shape (xs ++ x ∷ []) ≡ (some x, leave xs)
  unfolding rpop_shape leave
  rpop_shape_snoc [] x = ground arith
  rpop_shape_snoc (y ∷ xs) x =
      let n = length-append xs (x ∷ []) in
      let e : length (y ∷ (xs ++ x ∷ [])) - 1 ≡ suc (length xs) = omega (arith, n) in
      rw (e, get_elem?-length_append (y ∷ xs) x [], take-length-append (y ∷ xs) (x ∷ []))
        (ground arith)

  pub rpop-leave :
      (xs : List Str) (x : Str)
      → list_view rt kv k ≡ some (xs ++ x ∷ [])
      → rpop rt kv k ≡ (some x, leave xs)
  rpop-leave xs x h = rpop-shape (xs ++ x ∷ []) h ∙ rpop_shape_snoc xs x

  -- RPOP on a nonempty list returns its last element and leaves the others; the last element takes
  -- the key with it.
  pub rpop_lem :
      (xs : List Str) (x : Str)
      → list_view rt kv k ≡ some (xs ++ x ∷ [])
      → ((rpop rt kv k).0 ≡ some x) × Updates (list_cell rt) kv (rpop rt kv k).1 k (unless_empty xs)
  rpop_lem xs x h = rw (rpop-leave xs x h) (refl, leave-Updates (xs ++ x ∷ []) xs h)
