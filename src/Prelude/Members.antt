-- ===== src/Prelude/Members.antt =====
-- Lists of strings as sets: membership, removal, and lists with no string twice.
use Prim.Native.Nat.{◌+◌}
use mathlib.Core.Path.{◌≡◌, refl}
use mathlib.Core.Bool.{Bool, false, ◌||◌}
use mathlib.Core.List.{List, [], ◌∷◌}
use native.Mathlib.Omega.{arith}
use emberdb.Prelude.Tests.{if◌then◌else◌}
use emberdb.Prelude.Lists.{length}
use emberdb.Prelude.Bytes.{Str, str_eq, str_eq_iff}

unfoldable pub contains : List Str → Str → Bool
contains [] k = false
contains (x ∷ xs) k = str_eq x k || contains xs k

-- All the elements but `k`, in order.
unfoldable pub drop_str : Str → List Str → List Str
drop_str k [] = []
drop_str k (x ∷ xs) = let rest = drop_str k xs in if str_eq x k then rest else x ∷ rest

abbrev pub NoDup : List Str → Type 0
NoDup [] = Unit
NoDup (x ∷ xs) = (contains xs x ≡ false) × NoDup xs

pub contains-drop_str :
    (k j : Str) (xs : List Str)
    → contains (drop_str k xs) j ≡ (if str_eq k j then false else contains xs j)
unfolding contains drop_str
contains-drop_str k j [] = ground arith
contains-drop_str k j (x ∷ xs) =
    ground (arith, contains-drop_str k j xs, str_eq_iff x k, str_eq_iff x j, str_eq_iff k j)

pub drop_str-NoDup : (k : Str) (xs : List Str) → NoDup xs → NoDup (drop_str k xs)
unfolding drop_str
drop_str-NoDup k [] h = tt
drop_str-NoDup k (x ∷ xs) h =
    ground (arith, drop_str-NoDup k xs h.1, contains-drop_str k x xs, str_eq_iff k x)

pub drop_str_absent : (k : Str) (xs : List Str) → contains xs k ≡ false → drop_str k xs ≡ xs
unfolding drop_str contains
drop_str_absent k [] h = refl
drop_str_absent k (x ∷ xs) h = ground (arith, drop_str_absent k xs)

pub length-drop_str :
    (k : Str) (xs : List Str)
    → NoDup xs
    → length (drop_str k xs) + (if contains xs k then 1 else 0) ≡ length xs
unfolding drop_str contains
length-drop_str k [] h = omega arith
length-drop_str k (x ∷ xs) h =
    ground (arith, length-drop_str k xs h.1, str_eq_iff x k, drop_str_absent k xs)
