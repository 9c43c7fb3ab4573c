-- ===== src/Lists/Ranges.antt =====
-- LRANGE's index arithmetic against a reference definition by positions.
-- Source: utils/kvstore/lists.go.
use emberdb.Prelude.{
  ℕ, zero, suc, ◌+◌, ◌-◌, ◌≤◌, ◌<◌, ◌≡◌, refl, sym, ap, ◌∙◌, ◌||◌, Bool, false, not, ◌&&◌, Option,
  none, some, List, [], ◌∷◌, arith, Str, leb, if◌then◌else◌, or_zero, length, take, drop,
  Bool-cases, inl, inr,
}
use emberdb.Prelude.Int.{ℤ, pos, negsuc, ◌+ℤ◌, ◌-ℤ◌, ◌≤ℤ◌, ltb_ℤ}
use emberdb.Slot.{Runtime}
use emberdb.Store.{KvStore}
use emberdb.Store.Views.{list_view}
use emberdb.Lists.{
  position, clamp_range, range_bounds, slice, select, range_of, stored_list, lrange, llen,
}

-- A range within a list of `n` elements.
abbrev pub Within : ℕ → ℤ × ℤ → Type 0
Within n (a, b) = (pos 0 ≤ℤ a) × (a ≤ℤ b) × (b +ℤ pos 1 ≤ℤ pos n)

clamp_range-Within :
    (n : ℕ) (start end a b : ℤ) → clamp_range n start end ≡ some (a, b) → Within n (a, b)
unfolding clamp_range ◌+ℤ◌ ◌-ℤ◌
clamp_range-Within n (pos s) (pos e) a b h = ground arith
clamp_range-Within n (pos s) (negsuc e) a b h = ground arith
clamp_range-Within n (negsuc s) (pos e) a b h = ground arith
clamp_range-Within n (negsuc s) (negsuc e) a b h = ground arith

-- The range of a successful `rangeBounds` is nonempty and lies within the list, so slicing by it
-- does not panic.
pub range_bounds-Within :
    (n : ℕ) (start end a b : ℤ) → range_bounds n start end ≡ some (a, b) → Within n (a, b)
unfolding range_bounds
range_bounds-Within n start end a b h = clamp_range-Within n _ _ a b h

-- The position `i` lies from `start` to `end`.
abbrev pub between : ℤ → ℤ → ℕ → Bool
between start end i = not (ltb_ℤ (pos i) start) && not (ltb_ℤ end (pos i))

-- The range holds the positions below `n` that lie from `start` to `end`.
abbrev chosen : Option (ℤ × ℤ) → ℕ → Bool
chosen none i = false
chosen (some (a, b)) i = between a b i

clamp_range-chosen :
    (n : ℕ) (start end : ℤ) (i : ℕ)
    → i < n
    → chosen (clamp_range n start end) i ≡ between start end i
unfolding clamp_range ◌+ℤ◌ ◌-ℤ◌
clamp_range-chosen n (pos s) (pos e) i h = ground arith
clamp_range-chosen n (pos s) (negsuc e) i h = ground arith
clamp_range-chosen n (negsuc s) (pos e) i h = ground arith
clamp_range-chosen n (negsuc s) (negsuc e) i h = ground arith

module _ {ℓ} {A : Type ℓ} where
  -- The elements of a list, the first of which stands at `i`, whose positions pass the test.
  pub at_positions : (ℕ → Bool) → ℕ → List A → List A
  at_positions p i [] = []
  at_positions p i (x ∷ xs) = let rest = at_positions p (suc i) xs in if p i then x ∷ rest else rest

  at_positions_congr :
      (p q : ℕ → Bool) (i : ℕ) (xs : List A)
      → ((j : ℕ) → i ≤ j → j < i + length xs → p j ≡ q j)
      → at_positions p i xs ≡ at_positions q i xs
  unfolding at_positions
  at_positions_congr p q i [] h = refl
  at_positions_congr p q i (x ∷ xs) h =
      let e = h i (omega arith) (omega arith) in
      let r = at_positions_congr p q (suc i) xs (λ j a b. h j (omega arith) (omega arith)) in
      rw (e, r)

  at_positions_none : (i : ℕ) (xs : List A) → at_positions (λ _. false) i xs ≡ []
  unfolding at_positions
  at_positions_none i [] = refl
  at_positions_none i (x ∷ xs) = at_positions_none (suc i) xs

  take-nil : (n : ℕ) → take {A = A} n [] ≡ []
  take-nil zero = refl
  take-nil (suc n) = refl

  -- From position `a` on, everything up to position `b` is taken.
  at_positions_inside :
      (a b i : ℕ) (xs : List A)
      → a ≤ i
      → at_positions (λ j. leb a j && leb j b) i xs ≡ take (b + 1 - i) xs
  unfolding at_positions
  at_positions_inside a b i [] h = sym (take-nil (b + 1 - i))
  at_positions_inside a b i (x ∷ xs) h = elim (Bool-cases (leb i b)) [
    | inl low ↦
        let e : b + 1 - i ≡ suc (b + 1 - suc i) = ground arith in
        rw (e, at_positions_inside a b (suc i) xs (omega arith)) (ground arith)
    | inr high ↦
        let e : b + 1 - i ≡ 0 = ground arith in
        let e' : b + 1 - suc i ≡ 0 = ground arith in
        rw (e, at_positions_inside a b (suc i) xs (omega arith), e') (ground arith)
  ]

  -- The `d` elements before position `a` are dropped.
  at_positions_before :
      (d a b i : ℕ) (xs : List A)
      → a ≡ i + d
      → at_positions (λ j. leb a j && leb j b) i xs ≡ take (b + 1 - a) (drop d xs)
  unfolding at_positions
  at_positions_before zero a b i xs h =
      let e : a ≡ i = omega arith in rw e (at_positions_inside i b i xs (omega arith))
  at_positions_before (suc d) a b i [] h = sym (take-nil (b + 1 - a))
  at_positions_before (suc d) a b i (x ∷ xs) h =
      let early : leb a i ≡ false = ground arith in
      rw early (at_positions_before d a b (suc i) xs (omega arith))

  slice-at_positions :
      (xs : List A) (a b : ℤ)
      → Within (length xs) (a, b)
      → slice xs (a, b) ≡ some (at_positions (between a b) 0 xs)
  unfolding slice
  slice-at_positions xs (pos a) (pos b) w =
      let e =
        at_positions_congr (between (pos a) (pos b)) (λ j. leb a j && leb j b) 0 xs
          (λ j _ _. ground arith)
        ∙ at_positions_before a a b 0 xs (omega arith) in
      let inside : (ltb_ℤ (pos a) (pos 0)
            || (ltb_ℤ (pos b +ℤ pos 1) (pos a) || ltb_ℤ (pos (length xs)) (pos b +ℤ pos 1)))
          ≡ false =
        unfold ◌+ℤ◌ in ground arith in
      rw (inside, e) refl
  slice-at_positions xs (negsuc a) b w = absurd (omega arith)
  slice-at_positions xs (pos a) (negsuc b) w = absurd (omega arith)

  range_of-at_positions :
      (xs : List A) (r : Option (ℤ × ℤ))
      → ((a b : ℤ) → r ≡ some (a, b) → Within (length xs) (a, b))
      → range_of xs r ≡ some (at_positions (chosen r) 0 xs)
  unfolding range_of
  range_of-at_positions xs none w = ap some (sym (at_positions_none 0 xs))
  range_of-at_positions xs (some (a, b)) w = slice-at_positions xs a b (w a b refl)

  -- Selecting from `start` to `end` keeps, in order, the elements whose positions lie from the one
  -- index to the other, where a negative index counts from the end: out of range or in the wrong
  -- order the indices select fewer elements or none.
  pub select-at_positions :
      (xs : List A) (start end : ℤ)
      → select xs start end
        ≡ some (at_positions (between (position (length xs) start) (position (length xs) end)) 0 xs)
  unfolding select range_bounds
  select-at_positions xs start end =
      let n = length xs in
      range_of-at_positions xs (range_bounds n start end) (range_bounds-Within n start end)
      ∙ ap some (
          at_positions_congr (chosen (range_bounds n start end)) _ 0 xs
            (λ j _ h. clamp_range-chosen n (position n start) (position n end) j (omega arith)))

stored_list-view :
    {F : Type 0} (rt : Runtime F) (kv : KvStore F) (k : Str)
    → stored_list rt kv k ≡ or_zero [] (list_view rt kv k)
unfolding stored_list list_view
stored_list-view rt kv k = ground arith

module _ {F : Type 0} (rt : Runtime F) (kv : KvStore F) (k : Str) where
  -- LLEN is the length of the list that a client reads.
  pub llen-view : llen rt kv k ≡ length (or_zero [] (list_view rt kv k))
  unfolding llen
  llen-view = rw (stored_list-view rt kv k)

  -- LRANGE ends without a slice out of range, and gives the elements of the list that a client reads
  -- whose positions lie from `start` to `end`, a negative index counting from the end; no list counts
  -- as an empty one.
  pub lrange-at_positions :
      (start end : ℤ)
      → let list = or_zero [] (list_view rt kv k) in
        lrange rt kv k start end
        ≡ some (
            at_positions
              (between (position (length list) start) (position (length list) end))
              0
              list)
  unfolding lrange
  lrange-at_positions start end =
      rw (stored_list-view rt kv k) (select-at_positions (or_zero [] (list_view rt kv k)) start end)
