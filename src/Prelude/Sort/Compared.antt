-- ===== src/Prelude/Sort/Compared.antt =====
-- A stable sort of elements that `less` compares, where it may not compare others.
use mathlib.Core.Path.{◌≡◌}
use mathlib.Core.Bool.{Bool, true, false}
use mathlib.Core.Logic.{inl, inr}
use mathlib.Core.List.{List, [], ◌∷◌}
use emberdb.Prelude.Lists.{All}
use emberdb.Prelude.Tests.{Bool-cases}
use emberdb.Prelude.Sort.{insert_sorted, sort_stable, IsSorted, All-insert_sorted, All-sort_stable}

-- On the elements that have `P`, `less` orders one way, and what does not precede is transitive.
pub record IsStrictWeakOn {A : Type 0} (P : A → Type 0) (less : A → A → Bool) : Type 0 where
  pub asymm : (a b : A) → P a → P b → less a b ≡ true → less b a ≡ false
  pub not_less_trans :
      (a b c : A) → P a → P b → P c → less b a ≡ false → less c b ≡ false → less c a ≡ false

module _ {A : Type 0} (P : A → Type 0) (less : A → A → Bool) (order : IsStrictWeakOn P less) where
  All-after :
      (x y : A) (ys : List A)
      → P x
      → P y
      → All P ys
      → less y x ≡ false
      → All (λ z. less z y ≡ false) ys
      → All (λ z. less z x ≡ false) ys
  All-after x y [] p q r e h = tt
  All-after x y (z ∷ ys) p q r e h =
      (order.not_less_trans x y z p q r.0 e h.0, All-after x y ys p q r.1 e h.1)

  insert_sorted-IsSorted :
      (x : A) (xs : List A)
      → P x
      → All P xs
      → IsSorted less xs
      → IsSorted less (insert_sorted less x xs)
  unfolding insert_sorted
  insert_sorted-IsSorted x [] p q h = (tt, tt)
  insert_sorted-IsSorted x (y ∷ ys) p q h = elim (Bool-cases (less y x)) [
    | inl after ↦ rw after (
      All-insert_sorted less (λ z. less z y ≡ false) x ys (order.asymm y x q.0 p after) h.0,
      insert_sorted-IsSorted x ys p q.1 h.1,
    )
    | inr before ↦ rw before ((before, All-after x y ys p q.0 q.1 before h.0), h)
  ]

  pub sort_stable-IsSorted_on : (xs : List A) → All P xs → IsSorted less (sort_stable less xs)
  unfolding sort_stable
  sort_stable-IsSorted_on [] q = tt
  sort_stable-IsSorted_on (x ∷ xs) q =
      insert_sorted-IsSorted x (sort_stable less xs) q.0 (All-sort_stable less P xs q.1)
        (sort_stable-IsSorted_on xs q.1)
