-- ===== src/Prelude/Sort/Permutes.antt =====
-- What Go documents of `sort.Slice`: an order of the same elements that is sorted, where equal ones
-- may come in any order.
use mathlib.Core.Path.{◌≡◌, refl, ◌∙◌, ap, subst}
use mathlib.Core.Bool.{Bool}
use mathlib.Core.Logic.{inl, inr}
use mathlib.Core.List.{List, [], ◌∷◌}
use mathlib.Core.List.{Permᴰ}
use mathlib.Core.List.Permᴰ
use emberdb.Prelude.Lists.{All, length}
use emberdb.Prelude.Tests.{Bool-cases}
use Prim.Native.Nat.{suc}
use emberdb.Prelude.Sort.{IsStrictWeak, IsSorted, sort_stable, sort_stable-IsSorted, insert_sorted}

pub record IsSort {A : Type 0} (sort : (A → A → Bool) → List A → List A) : Type 0 where
  pub permutes : (less : A → A → Bool) (xs : List A) → Permᴰ xs (sort less xs)
  pub sorts : (less : A → A → Bool) (xs : List A) → IsStrictWeak less → IsSorted less (sort less xs)

module _ {A : Type 0} where
  All-permuted : (P : A → Type 0) {xs ys : List A} → Permᴰ xs ys → All P xs → All P ys
  All-permuted P Permᴰ.nil h = tt
  All-permuted P (Permᴰ.cons e d) h = (subst P e h.0, All-permuted P d h.1)
  All-permuted P (Permᴰ.swap e e') h = (subst P e' h.1.0, (subst P e h.0, h.1.1))
  All-permuted P (Permᴰ.trans d d') h = All-permuted P d' (All-permuted P d h)

  length-permuted : {xs ys : List A} → Permᴰ xs ys → length ys ≡ length xs
  length-permuted Permᴰ.nil = refl
  length-permuted (Permᴰ.cons e d) = ap suc (length-permuted d)
  length-permuted (Permᴰ.swap e e') = refl
  length-permuted (Permᴰ.trans d d') = length-permuted d' ∙ length-permuted d

  module _ (sort : (A → A → Bool) → List A → List A) (right : IsSort sort)
      (less : A → A → Bool) where
    pub All-sort : (P : A → Type 0) (xs : List A) → All P xs → All P (sort less xs)
    All-sort P xs h = All-permuted P (right.permutes less xs) h

    pub length-sort : (xs : List A) → length (sort less xs) ≡ length xs
    length-sort xs = length-permuted (right.permutes less xs)

  insert_sorted-permutes :
      (less : A → A → Bool) (x : A) (xs : List A) → Permᴰ (x ∷ xs) (insert_sorted less x xs)
  unfolding insert_sorted
  insert_sorted-permutes less x [] = Permᴰ.refl (x ∷ [])
  insert_sorted-permutes less x (y ∷ ys) = elim (Bool-cases (less y x)) [
    | inl after ↦
        rw after
          (Permᴰ.trans (Permᴰ.swap refl refl) (Permᴰ.cons refl (insert_sorted-permutes less x ys)))
    | inr before ↦ rw before (Permᴰ.refl (x ∷ y ∷ ys))
  ]

  sort_stable-permutes : (less : A → A → Bool) (xs : List A) → Permᴰ xs (sort_stable less xs)
  unfolding sort_stable
  sort_stable-permutes less [] = Permᴰ.nil
  sort_stable-permutes less (x ∷ xs) =
      Permᴰ.trans (Permᴰ.cons refl (sort_stable-permutes less xs))
        (insert_sorted-permutes less x (sort_stable less xs))

-- A stable sort is one.
pub sort_stable-IsSort : {A : Type 0} → IsSort (sort_stable {A = A})
sort_stable-IsSort = record {
  permutes = sort_stable-permutes;
  sorts = λ less xs order. sort_stable-IsSorted less order xs;
}
