-- ===== src/SortedSets/Scores.antt =====
-- `zadd` against the scores of the members.
-- Source: utils/kvstore/sortedsets.go.
use emberdb.Prelude.{
  ℕ, suc, ◌+◌, ◌≡◌, refl, ap, ◌∙◌, Bool, false, ◌||◌, some, List, [], ◌∷◌, arith, Str, str_eq,
  str_eq_iff, if◌then◌else◌, Bool-cases, inl, inr, length, length-append, All, ◌++◌, if_both,
}
use emberdb.Prelude.Sort.{sort_stable, insert_sorted, IsSorted, All-sort_stable}
use emberdb.Prelude.Sort.Compared.{IsStrictWeakOn, sort_stable-IsSorted_on}
use emberdb.Slot.{Runtime}
use emberdb.Store.{SortedSetMember}
use emberdb.SortedSets.{assign_score, has_member, zadd_one, zadd_loop, zadd_members, less_score}
use emberdb.SortedSets.Adds.{
  score_of, Distinct, score_after, score_of-append, score_of-assign, append-Distinct,
  assign-Distinct, length-assign,
}

module _ {F : Type 0} where
  -- what a round, or the whole loop, has done to the slice `l` and the count `n`
  record Adds (l : List (SortedSetMember F)) (n : ℕ) (es : List (SortedSetMember F))
      (r : List (SortedSetMember F) × ℕ) : Type 0 where
    distinct : Distinct r.0
    scores : (m : Str) → score_of m r.0 ≡ score_after m es (score_of m l)
    counted : length r.0 + n ≡ length l + r.1

  one-Adds :
      (e : SortedSetMember F) (l : List (SortedSetMember F)) (n : ℕ)
      → Distinct l
      → Adds l n (e ∷ []) (zadd_one e (l, n))
  unfolding zadd_one score_after
  one-Adds e l n d = elim (Bool-cases (has_member e.member l)) [
    | inl there ↦ rw there (record {
      distinct = assign-Distinct e.member e.score l d;
      scores = λ m. score_of-assign m e.member e.score l there;
      counted = omega (arith, length-assign e.member e.score l);
    })
    | inr absent ↦ rw absent (record {
      distinct = append-Distinct l e absent d;
      scores = λ m. score_of-append m l e absent;
      counted = omega (arith, length-append l (e ∷ []));
    })
  ]

  loop-Adds :
      (es l : List (SortedSetMember F)) (n : ℕ) → Distinct l → Adds l n es (zadd_loop es (l, n))
  unfolding zadd_loop score_after
  loop-Adds [] l n d = record { distinct = d; scores = λ m. refl; counted = refl }
  loop-Adds (e ∷ es) l n d =
      let r = zadd_one e (l, n) in
      let one = one-Adds e l n d in
      let rest = loop-Adds es r.0 r.1 one.distinct in
      record {
        distinct = rest.distinct;
        scores = λ m. rest.scores m ∙ ap (score_after m es) (one.scores m);
        counted = omega (arith, rest.counted, one.counted);
      }

module _ {F : Type 0} (less : SortedSetMember F → SortedSetMember F → Bool) where
  has_member-insert :
      (m : Str) (e : SortedSetMember F) (l : List (SortedSetMember F))
      → has_member m (insert_sorted less e l) ≡ (str_eq e.member m || has_member m l)
  unfolding insert_sorted has_member
  has_member-insert m e [] = ground arith
  has_member-insert m e (x ∷ l) = ground (arith, has_member-insert m e l)

  score_of-insert :
      (m : Str) (e : SortedSetMember F) (l : List (SortedSetMember F))
      → has_member e.member l ≡ false
      → score_of m (insert_sorted less e l)
        ≡ (if str_eq e.member m then some e.score else score_of m l)
  unfolding insert_sorted has_member score_of
  score_of-insert m e [] h = refl
  score_of-insert m e (x ∷ l) h = ground (
    arith,
    score_of-insert m e l,
    str_eq_iff e.member m,
    str_eq_iff x.member m,
    str_eq_iff x.member e.member,
  )

  insert-Distinct :
      (e : SortedSetMember F) (l : List (SortedSetMember F))
      → has_member e.member l ≡ false
      → Distinct l
      → Distinct (insert_sorted less e l)
  unfolding insert_sorted has_member
  insert-Distinct e [] h d = (refl, tt)
  insert-Distinct e (x ∷ l) h d = ground (
    arith,
    insert-Distinct e l,
    has_member-insert x.member e l,
    str_eq_iff e.member x.member,
    str_eq_iff x.member e.member,
  )

  length-insert :
      (e : SortedSetMember F) (l : List (SortedSetMember F))
      → length (insert_sorted less e l) ≡ suc (length l)
  unfolding insert_sorted
  length-insert e [] = refl
  length-insert e (x ∷ l) = ground (arith, length-insert e l)

  has_member-sort :
      (m : Str) (l : List (SortedSetMember F)) → has_member m (sort_stable less l) ≡ has_member m l
  unfolding sort_stable has_member
  has_member-sort m [] = refl
  has_member-sort m (x ∷ l) =
      ground (arith, has_member-insert m x (sort_stable less l), has_member-sort m l)

  -- Sorting keeps the members distinct, their scores and their number.
  sort_keeps :
      (l : List (SortedSetMember F))
      → Distinct l
      → Distinct (sort_stable less l)
        × ((m : Str) → score_of m (sort_stable less l) ≡ score_of m l)
        × (length (sort_stable less l) ≡ length l)
  unfolding sort_stable score_of
  sort_keeps [] d = (tt, λ m. refl, refl)
  sort_keeps (x ∷ l) d =
      let (dl, scores, len) = sort_keeps l d.1 in
      let s = sort_stable less l in
      let new = has_member-sort x.member l ∙ d.0 in
      (
        insert-Distinct x s new dl,
        λ m. score_of-insert m x s new ∙ ground (arith, scores m),
        length-insert x s ∙ ap suc len,
      )

module _ {F : Type 0} (N : F → Type 0) where
  -- All the scores have `N`.
  abbrev pub AllScores : List (SortedSetMember F) → Type 0
  AllScores l = All (λ (e : SortedSetMember F). N e.score) l

  assign_score-AllScores :
      (m : Str) (s : F) (l : List (SortedSetMember F))
      → N s
      → AllScores l
      → AllScores (assign_score m s l)
  unfolding assign_score
  assign_score-AllScores m s [] p h = tt
  assign_score-AllScores m s (e ∷ l) p h =
      if_both AllScores (str_eq e.member m) _ _ (λ _. (p, h.1))
        (λ _. (h.0, assign_score-AllScores m s l p h.1))

  append-AllScores :
      (l : List (SortedSetMember F)) (e : SortedSetMember F)
      → AllScores l
      → N e.score
      → AllScores (l ++ e ∷ [])
  append-AllScores [] e h p = (p, tt)
  append-AllScores (x ∷ l) e h p = (h.0, append-AllScores l e h.1 p)

  loop-AllScores :
      (es : List (SortedSetMember F)) (state : List (SortedSetMember F) × ℕ)
      → AllScores es
      → AllScores state.0
      → AllScores (zadd_loop es state).0
  unfolding zadd_loop zadd_one
  loop-AllScores [] state h k = k
  loop-AllScores (e ∷ es) (l, n) h k = loop-AllScores es _ h.1 (
      if_both (λ (r : List (SortedSetMember F) × ℕ). AllScores r.0) (has_member e.member l) _ _
        (λ _. assign_score-AllScores e.member e.score l h.0 k) (λ _. append-AllScores l e k h.0))

-- `N` is what a score is that the order compares, as a float64 is but NaN.
module _ {F : Type 0} (rt : Runtime F) (N : F → Type 0)
    (order : IsStrictWeakOn (λ (e : SortedSetMember F). N e.score) (less_score rt)) where
  -- Adding pairs to a sorted set whose members are distinct gives one whose members are distinct,
  -- in ascending order of their scores, which all have `N`, if the scores of both had. Every member has the last score that the pairs give it, or
  -- else the old one; and the number of members grows by the number that is returned.
  pub zadd_members_lem :
      (current pairs : List (SortedSetMember F))
      → AllScores N current
      → AllScores N pairs
      → Distinct current
      → let r = zadd_members rt current pairs in
        Distinct r.0
        × IsSorted (less_score rt) r.0
        × AllScores N r.0
        × ((m : Str) → score_of m r.0 ≡ score_after m pairs (score_of m current))
        × (length r.0 ≡ length current + r.1)
  unfolding zadd_members
  zadd_members_lem current pairs old given d =
      let r = zadd_loop pairs (current, 0) in
      let a = loop-Adds pairs current 0 d in
      let compared : AllScores N r.0 = loop-AllScores N pairs (current, 0) given old in
      let (distinct, scores, len) = sort_keeps (less_score rt) r.0 a.distinct in
      (
        distinct,
        sort_stable-IsSorted_on _ (less_score rt) order r.0 compared,
        All-sort_stable (less_score rt) _ r.0 compared,
        λ m. scores m ∙ a.scores m,
        omega (arith, a.counted, len),
      )
