-- ===== src/SortedSets/Adds.antt =====
-- The loop of `zadd` and the sort behind it, member by member.
-- Source: utils/kvstore/sortedsets.go.
use emberdb.Prelude.{
  ◌≡◌, refl, true, false, ◌||◌, Option, none, some, List, [], ◌∷◌, ◌++◌, arith, Str, str_eq,
  str_eq_iff, if◌then◌else◌, is_some, length,
}
use emberdb.Store.{SortedSetMember}
use emberdb.SortedSets.{has_member, assign_score}

module _ {F : Type 0} where
  -- The score of a member, if the list has it.
  unfoldable pub score_of : Str → List (SortedSetMember F) → Option F
  score_of m [] = none
  score_of m (e ∷ es) = if str_eq e.member m then some e.score else score_of m es

  -- No member stands twice in the list.
  abbrev pub Distinct : List (SortedSetMember F) → Type 0
  Distinct [] = Unit
  Distinct (e ∷ es) = (has_member e.member es ≡ false) × Distinct es

  -- The score of `m` after the pairs are added where it was `old`: the last one given wins.
  unfoldable pub score_after : Str → List (SortedSetMember F) → Option F → Option F
  score_after m [] old = old
  score_after m (e ∷ es) old = score_after m es (if str_eq e.member m then some e.score else old)

  has_member-score_of :
      (m : Str) (l : List (SortedSetMember F)) → has_member m l ≡ is_some (score_of m l)
  unfolding has_member score_of
  has_member-score_of m [] = refl
  has_member-score_of m (e ∷ es) = ground (arith, has_member-score_of m es)

  pub score_of-append :
      (m : Str) (l : List (SortedSetMember F)) (e : SortedSetMember F)
      → has_member e.member l ≡ false
      → score_of m (l ++ e ∷ []) ≡ (if str_eq e.member m then some e.score else score_of m l)
  unfolding score_of has_member
  score_of-append m [] e h = refl
  score_of-append m (x ∷ l) e h = ground (
    arith,
    score_of-append m l e,
    str_eq_iff x.member m,
    str_eq_iff e.member m,
    str_eq_iff x.member e.member,
  )

  pub score_of-assign :
      (m n : Str) (s : F) (l : List (SortedSetMember F))
      → has_member n l ≡ true
      → score_of m (assign_score n s l) ≡ (if str_eq n m then some s else score_of m l)
  unfolding score_of has_member assign_score
  score_of-assign m n s [] h = cc
  score_of-assign m n s (x ∷ l) h =
      ground (
        arith,
        score_of-assign m n s l,
        str_eq_iff x.member m,
        str_eq_iff n m,
        str_eq_iff x.member n,
      )

  has_member-append :
      (m : Str) (l : List (SortedSetMember F)) (e : SortedSetMember F)
      → has_member m (l ++ e ∷ []) ≡ (has_member m l || str_eq e.member m)
  unfolding has_member
  has_member-append m [] e = ground arith
  has_member-append m (x ∷ l) e = ground (arith, has_member-append m l e)

  has_member-assign :
      (m n : Str) (s : F) (l : List (SortedSetMember F))
      → has_member m (assign_score n s l) ≡ has_member m l
  unfolding has_member assign_score
  has_member-assign m n s [] = refl
  has_member-assign m n s (x ∷ l) = ground (arith, has_member-assign m n s l)

  pub append-Distinct :
      (l : List (SortedSetMember F)) (e : SortedSetMember F)
      → has_member e.member l ≡ false
      → Distinct l
      → Distinct (l ++ e ∷ [])
  unfolding has_member
  append-Distinct [] e h d = (refl, tt)
  append-Distinct (x ∷ l) e h d = ground (
    arith,
    append-Distinct l e,
    has_member-append x.member l e,
    str_eq_iff x.member e.member,
    str_eq_iff e.member x.member,
  )

  pub assign-Distinct :
      (n : Str) (s : F) (l : List (SortedSetMember F)) → Distinct l → Distinct (assign_score n s l)
  unfolding assign_score
  assign-Distinct n s [] d = tt
  assign-Distinct n s (x ∷ l) d =
      ground (arith, assign-Distinct n s l, has_member-assign x.member n s l)

  pub length-assign :
      (n : Str) (s : F) (l : List (SortedSetMember F)) → length (assign_score n s l) ≡ length l
  unfolding assign_score
  length-assign n s [] = refl
  length-assign n s (x ∷ l) = ground (arith, length-assign n s l)
