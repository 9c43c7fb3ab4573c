-- ===== src/Prelude/Sort.antt =====
-- Go's `sort.SliceStable` and `sort.Strings`, as a stable insertion sort by a Boolean order.
pub mod Permutes
pub mod Compared
use Prim.Native.Nat.{◌+◌}
use mathlib.Core.Path.{◌≡◌, refl, ◌∙◌}
use mathlib.Core.Bool.{Bool, true, false}
use mathlib.Core.List.{List, [], ◌∷◌, Perm}
use mathlib.Core.List.Perm
use mathlib.Core.Logic.{inl, inr}
use native.Mathlib.Omega.{arith}
use emberdb.Prelude.Tests.{if◌then◌else◌, Bool-cases}
use emberdb.Prelude.Lists.{All, length}
use emberdb.Prelude.Bytes.{Str, str_eq_iff, str_lt, str_lt_irrefl, str_lt_trans, str_lt_total}
use emberdb.Prelude.Members.{contains, NoDup}

-- What a sort asks of `less`: it orders one way, and what does not precede is transitive.
pub record IsStrictWeak {A : Type 0} (less : A → A → Bool) : Type 0 where
  pub asymm : (a b : A) → less a b ≡ true → less b a ≡ false
  pub not_less_trans : (a b c : A) → less b a ≡ false → less c b ≡ false → less c a ≡ false

-- the elements that pass a test, in order
unfoldable pub keep {ℓ} : {A : Type ℓ} → (A → Bool) → List A → List A
keep p [] = []
keep p (x ∷ xs) = let rest = keep p xs in if p x then x ∷ rest else rest

module _ {A : Type 0} (less : A → A → Bool) where
  unfoldable pub insert_sorted : A → List A → List A
  insert_sorted x [] = x ∷ []
  insert_sorted x (y ∷ ys) =
      let rest = insert_sorted x ys in if less y x then y ∷ rest else x ∷ y ∷ ys

  unfoldable pub sort_stable : List A → List A
  unfolding insert_sorted
  sort_stable [] = []
  sort_stable (x ∷ xs) = insert_sorted x (sort_stable xs)

  -- No element precedes one before it.
  abbrev pub IsSorted : List A → Type 0
  IsSorted [] = Unit
  IsSorted (x ∷ xs) = All (λ y. less y x ≡ false) xs × IsSorted xs

  insert_sorted-perm : (x : A) (xs : List A) → Perm (insert_sorted x xs) (x ∷ xs)
  unfolding insert_sorted
  insert_sorted-perm x [] = Perm.refl (x ∷ [])
  insert_sorted-perm x (y ∷ ys) = elim (Bool-cases (less y x)) [
    | inl after ↦ rw after (Perm.trans (Perm.cons y (insert_sorted-perm x ys)) (Perm.swap x y ys))
    | inr before ↦ rw before (Perm.refl (x ∷ y ∷ ys))
  ]

  -- A sort keeps the elements.
  pub sort_stable-perm : (xs : List A) → Perm (sort_stable xs) xs
  unfolding sort_stable
  sort_stable-perm [] = Perm.refl []
  sort_stable-perm (x ∷ xs) =
      Perm.trans (insert_sorted-perm x (sort_stable xs)) (Perm.cons x (sort_stable-perm xs))

  pub All-insert_sorted :
      (P : A → Type 0) (x : A) (xs : List A) → P x → All P xs → All P (insert_sorted x xs)
  unfolding insert_sorted
  All-insert_sorted P x [] p h = (p, tt)
  All-insert_sorted P x (y ∷ ys) p h = elim (Bool-cases (less y x)) [
    | inl after ↦ rw after (h.0, All-insert_sorted P x ys p h.1)
    | inr before ↦ rw before (p, h)
  ]

  pub All-sort_stable : (P : A → Type 0) (xs : List A) → All P xs → All P (sort_stable xs)
  unfolding sort_stable
  All-sort_stable P [] h = tt
  All-sort_stable P (x ∷ xs) h =
      All-insert_sorted P x (sort_stable xs) h.0 (All-sort_stable P xs h.1)

  length-insert_sorted : (x : A) (xs : List A) → length (insert_sorted x xs) ≡ length xs + 1
  unfolding insert_sorted
  length-insert_sorted x [] = omega arith
  length-insert_sorted x (y ∷ ys) = ground (arith, length-insert_sorted x ys)

  pub length-sort_stable : (xs : List A) → length (sort_stable xs) ≡ length xs
  unfolding sort_stable
  length-sort_stable [] = refl
  length-sort_stable (x ∷ xs) =
      omega (arith, length-insert_sorted x (sort_stable xs), length-sort_stable xs)

  module _ (order : IsStrictWeak less) where
    All-after :
        (x y : A) (ys : List A)
        → less y x ≡ false
        → All (λ z. less z y ≡ false) ys
        → All (λ z. less z x ≡ false) ys
    All-after x y [] e h = tt
    All-after x y (z ∷ ys) e h = (order.not_less_trans x y z e h.0, All-after x y ys e h.1)

    insert_sorted-IsSorted : (x : A) (xs : List A) → IsSorted xs → IsSorted (insert_sorted x xs)
    unfolding insert_sorted
    insert_sorted-IsSorted x [] h = (tt, tt)
    insert_sorted-IsSorted x (y ∷ ys) h = elim (Bool-cases (less y x)) [
      | inl after ↦ rw after (
        All-insert_sorted (λ z. less z y ≡ false) x ys (order.asymm y x after) h.0,
        insert_sorted-IsSorted x ys h.1,
      )
      | inr before ↦ rw before ((before, All-after x y ys before h.0), h)
    ]

    pub sort_stable-IsSorted : (xs : List A) → IsSorted (sort_stable xs)
    unfolding sort_stable
    sort_stable-IsSorted [] = tt
    sort_stable-IsSorted (x ∷ xs) =
        insert_sorted-IsSorted x (sort_stable xs) (sort_stable-IsSorted xs)

  keep-insert_sorted :
      (p : A → Bool) (x : A) (xs : List A)
      → ((a b : A) → p a ≡ true → p b ≡ true → less a b ≡ false)
      → keep p (insert_sorted x xs) ≡ keep p (x ∷ xs)
  unfolding insert_sorted keep
  keep-insert_sorted p x [] one = refl
  keep-insert_sorted p x (y ∷ ys) one = ground (arith, keep-insert_sorted p x ys one, one y x)

  -- Elements of which none precedes another keep their order.
  pub sort_stable-keep :
      (p : A → Bool) (xs : List A)
      → ((a b : A) → p a ≡ true → p b ≡ true → less a b ≡ false)
      → keep p (sort_stable xs) ≡ keep p xs
  unfolding sort_stable keep
  sort_stable-keep p [] one = refl
  sort_stable-keep p (x ∷ xs) one =
      keep-insert_sorted p x (sort_stable xs) one ∙ ground (arith, sort_stable-keep p xs one)

-- `sort.Strings`
abbrev pub sort_strings : List Str → List Str
sort_strings xs = sort_stable str_lt xs

pub str_lt-IsStrictWeak : IsStrictWeak str_lt
str_lt-IsStrictWeak = record {
  asymm = λ a b h. ground (arith, str_lt_trans a b a, str_lt_irrefl a);
  not_less_trans =
      λ a b c h k. ground (arith, str_lt_total c b k, str_lt_trans b c a, str_eq_iff c b);
}

contains-insert_sorted :
    (x k : Str) (xs : List Str) → contains (insert_sorted str_lt x xs) k ≡ contains (x ∷ xs) k
unfolding insert_sorted contains
contains-insert_sorted x k [] = refl
contains-insert_sorted x k (y ∷ ys) = ground (arith, contains-insert_sorted x k ys)

pub contains-sort_strings : (k : Str) (xs : List Str) → contains (sort_strings xs) k ≡ contains xs k
unfolding sort_stable contains
contains-sort_strings k [] = refl
contains-sort_strings k (x ∷ xs) =
    contains-insert_sorted x k (sort_stable str_lt xs) ∙ ground (arith, contains-sort_strings k xs)

insert_sorted-NoDup :
    (x : Str) (xs : List Str) → contains xs x ≡ false → NoDup xs → NoDup (insert_sorted str_lt x xs)
unfolding insert_sorted contains
insert_sorted-NoDup x [] e h = (refl, tt)
insert_sorted-NoDup x (y ∷ ys) e h =
    ground (
      arith,
      insert_sorted-NoDup x ys,
      contains-insert_sorted x y ys,
      str_eq_iff x y,
      str_eq_iff y x,
    )

pub sort_strings-NoDup : (xs : List Str) → NoDup xs → NoDup (sort_strings xs)
unfolding sort_stable
sort_strings-NoDup [] h = tt
sort_strings-NoDup (x ∷ xs) h =
    insert_sorted-NoDup x (sort_stable str_lt xs) (contains-sort_strings x xs ∙ h.0)
      (sort_strings-NoDup xs h.1)
