-- ===== src/Sets/Members.antt =====
-- The loops over members: which members the set has afterwards, and how many it gained or lost.
-- Source: utils/kvstore/sets.go.
use emberdb.Prelude.{
  ◌+◌, ◌≡◌, refl, false, ◌||◌, List, [], ◌∷◌, arith, Str, str_eq_iff, if◌then◌else◌, is_some,
  contains,
}
use emberdb.Dict
use emberdb.Sets.{Set, add_members, remove_members}

pub has-add_members :
    (s : Set) (ms : List Str) (j : Str)
    → is_some (Dict.get (add_members s ms).0 j) ≡ (contains ms j || is_some (Dict.get s j))
unfolding add_members contains
has-add_members s [] j = refl
has-add_members s (m ∷ ms) j = ground (
  arith,
  has-add_members (Dict.put s m tt) ms j,
  has-add_members s ms j,
  Dict.get-put s m j tt,
  str_eq_iff m j,
)

pub len-add_members :
    (s : Set) (ms : List Str) → Dict.len (add_members s ms).0 ≡ Dict.len s + (add_members s ms).1
unfolding add_members
len-add_members s [] = omega arith
len-add_members s (m ∷ ms) =
    ground (arith, len-add_members (Dict.put s m tt) ms, len-add_members s ms, Dict.len-put s m tt)

pub has-remove_members :
    (s : Set) (ms : List Str) (j : Str)
    → is_some (Dict.get (remove_members s ms).0 j)
      ≡ (if contains ms j then false else is_some (Dict.get s j))
unfolding remove_members contains
has-remove_members s [] j = refl
has-remove_members s (m ∷ ms) j = ground (
  arith,
  has-remove_members (Dict.remove s m) ms j,
  has-remove_members s ms j,
  Dict.get-remove s m j,
  str_eq_iff m j,
)

pub len-remove_members :
    (s : Set) (ms : List Str)
    → Dict.len (remove_members s ms).0 + (remove_members s ms).1 ≡ Dict.len s
unfolding remove_members
len-remove_members s [] = omega arith
len-remove_members s (m ∷ ms) =
    ground
      (arith, len-remove_members (Dict.remove s m) ms, len-remove_members s ms, Dict.len-remove s m)

pub no_members : (ms : List Str) → (remove_members Dict.empty ms).1 ≡ 0
unfolding remove_members
no_members [] = refl
no_members (m ∷ ms) = ground (arith, Dict.get-empty {V = Unit {0}} m, no_members ms)
