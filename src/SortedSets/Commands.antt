-- ===== src/SortedSets/Commands.antt =====
-- ZADD, ZRANGE and ZREM against the sorted set that a client reads.
-- Source: utils/kvstore/sortedsets.go.
use emberdb.Prelude.{
  ℕ, ◌+◌, ◌≡◌, refl, ◌≤◌, Bool, true, false, not, none, some, List, [], ◌∷◌, arith, Str, str_eq_iff,
  ◌==◌, if◌then◌else◌, or_zero, is_some, length, map, contains,
}
use emberdb.Prelude.Int.{ℤ}
use emberdb.Prelude.Sort.{keep, IsSorted}
use emberdb.Prelude.Sort.Compared.{IsStrictWeakOn}
use emberdb.Dict
use emberdb.Dict.{Dict}
use emberdb.Slot.{Runtime}
use emberdb.Store.{SortedSetMember, KvStore, Error, sorted_set_type}
use emberdb.Store.Views.{zset_view, other_kind}
use emberdb.Store.Cells.{Updates, write, erase, Updates-write, Updates-unless, Updates-emptied}
use emberdb.Store.Cells.Tables.{zset_cell}
use emberdb.Lists.{position}
use emberdb.Lists.Ranges.{at_positions, between, select-at_positions}
use emberdb.SortedSets.{
  added, rejected, parsed, mark, zrem_members, zset_value, zadd_members, less_score, parse_pairs,
  zadd, stored_zset, zrange, members_of, zrem,
}
use emberdb.SortedSets.Adds.{score_of, score_after, Distinct}
use emberdb.SortedSets.Scores.{AllScores, zadd_members_lem}

get-mark :
    (ms : List Str) (d : Dict (Unit {0})) (j : Str)
    → is_some (Dict.get (mark ms d) j) ≡ (if contains ms j then true else is_some (Dict.get d j))
unfolding mark contains
get-mark [] d j = refl
get-mark (m ∷ ms) d j =
    ground (arith, get-mark ms (Dict.put d m tt) j, Dict.get-put d m j tt, str_eq_iff m j)

module _ {F : Type 0} where
  keep_congr :
      (p q : SortedSetMember F → Bool) (l : List (SortedSetMember F))
      → ((e : SortedSetMember F) → p e ≡ q e)
      → keep p l ≡ keep q l
  unfolding keep
  keep_congr p q [] h = refl
  keep_congr p q (x ∷ l) h = rw (h x, keep_congr p q l h)

  length-keep-le :
      (p : SortedSetMember F → Bool) (l : List (SortedSetMember F)) → length (keep p l) ≤ length l
  unfolding keep
  length-keep-le p [] = omega arith
  length-keep-le p (x ∷ l) = ground (arith, length-keep-le p l)

  -- The members that are not named are kept in order, and the count is the number of the others.
  zrem_members_lem :
      (l : List (SortedSetMember F)) (ms : List Str)
      → ((zrem_members l ms).0 ≡ keep (λ e. not (contains ms e.member)) l)
        × (length (zrem_members l ms).0 + (zrem_members l ms).1 ≡ length l)
  unfolding zrem_members
  zrem_members_lem l ms =
      let remove = mark ms Dict.empty in
      (
        keep_congr _ _ l (λ e.
            ground
              (arith, get-mark ms Dict.empty e.member, Dict.get-empty {V = Unit {0}} e.member)),
        omega (arith, length-keep-le (λ e. not (is_some (Dict.get remove e.member))) l),
      )

module _ {F : Type 0} (rt : Runtime F) (kv : KvStore F) (k : Str) where
  -- The sorted set at the key, empty if there is none.
  abbrev pub old_zset : List (SortedSetMember F)
  old_zset = or_zero [] (zset_view rt kv k)

  zadd-write :
      (pairs : List Str) (ps : List (SortedSetMember F))
      → parse_pairs rt pairs ≡ parsed ps
      → other_kind rt sorted_set_type kv k ≡ false
      → let r = zadd_members rt old_zset ps in
        zadd rt kv k pairs ≡ (added r.1, write (zset_cell rt) kv k (zset_value r.0) r.0)
  unfolding zadd zset_view other_kind write
  zadd-write pairs ps e mine = ground arith

  -- ZADD of well-formed pairs, where the key holds no other type, the members at the key are distinct,
  -- and `N` is what a score is that the order compares, as a float64 is but NaN, and what the scores
  -- at the key and in the pairs are. The sorted set at the key is then one of distinct members in
  -- ascending order of their scores, which all are `N`. Every member has the last score that the pairs
  -- give it, or else its old one, and the reply is the number of new members. Nothing that a client
  -- reads at another key changes.
  pub zadd_lem :
      (N : F → Type 0)
      → IsStrictWeakOn (λ (e : SortedSetMember F). N e.score) (less_score rt)
      → (pairs : List Str) (ps : List (SortedSetMember F)) → parse_pairs rt pairs ≡ parsed ps
      → other_kind rt sorted_set_type kv k ≡ false
      → AllScores N old_zset
      → AllScores N ps
      → Distinct old_zset
      → (next : List (SortedSetMember F)) × (n : ℕ) × ((zadd rt kv k pairs).0 ≡ added n)
        × Updates (zset_cell rt) kv (zadd rt kv k pairs).1 k (some next)
        × Distinct next
        × IsSorted (less_score rt) next
        × AllScores N next
        × ((m : Str) → score_of m next ≡ score_after m ps (score_of m old_zset))
        × (length next ≡ length old_zset + n)
  zadd_lem N order pairs ps e mine old given d =
      let r = zadd_members rt old_zset ps in
      let (distinct, sorted, compared, scores, counted) =
        zadd_members_lem rt N order old_zset ps old given d in
      rw (zadd-write pairs ps e mine) (
        r.0,
        r.1,
        refl,
        Updates-write (zset_cell rt) kv k (zset_value r.0) r.0 (λ _. refl),
        distinct,
        sorted,
        compared,
        scores,
        counted,
      )

  -- ZADD that returns an error, for an odd number of arguments, a score that does not parse or a key
  -- of another type, leaves the store unchanged.
  pub zadd_error :
      (pairs : List Str) (e : Error)
      → (zadd rt kv k pairs).0 ≡ rejected e
      → (zadd rt kv k pairs).1 ≡ kv
  unfolding zadd
  zadd_error pairs e h = ground arith

  stored_zset-view : stored_zset rt kv k ≡ old_zset
  unfolding stored_zset zset_view
  stored_zset-view = ground arith

  -- ZRANGE gives, in order, the members whose positions in the sorted set lie from `start` to `end`,
  -- a negative index counting from the end.
  pub zrange-at_positions :
      (start end : ℤ)
      → let n = length old_zset in
        zrange rt kv k start end
        ≡ some (
            map
              (λ e. e.member)
              (at_positions (between (position n start) (position n end)) 0 old_zset))
  unfolding zrange members_of
  zrange-at_positions start end = rw (stored_zset-view, select-at_positions old_zset start end) refl

  zrem-shape :
      (l : List (SortedSetMember F)) (ms : List Str)
      → zset_view rt kv k ≡ some l
      → let r = zrem_members l ms in
        zrem rt kv k ms ≡ (
          r.1,
          if r.1 == 0
              then kv
              else if length r.0 == 0
              then erase (zset_cell rt) kv k
              else write (zset_cell rt) kv k (zset_value r.0) r.0,
        )
  unfolding zrem zset_view write erase
  zrem-shape l ms e = ground arith

  -- ZREM keeps, in order, the members that are not named, and replies with the number of the others.
  -- A sorted set that is emptied is removed from the store, and one that loses nothing stays as it
  -- was. Nothing that a client reads at another key changes.
  pub zrem_lem :
      (l : List (SortedSetMember F)) (ms : List Str)
      → zset_view rt kv k ≡ some l
      → let kept = keep (λ e. not (contains ms e.member)) l in
        let n = (zrem rt kv k ms).0 in
        (length kept + n ≡ length l)
        × Updates
            (zset_cell rt)
            kv
            (zrem rt kv k ms).1
            k
            (if n == 0 then some l else if length kept == 0 then none else some kept)
  zrem_lem l ms e =
      let r = zrem_members l ms in
      let (kept, count) = zrem_members_lem l ms in
      rw (zrem-shape l ms e, ← kept)
        (
          count,
          rw (← e) (
              Updates-unless (zset_cell rt) kv k (r.1 == 0) _
                (if length r.0 == 0 then none else some r.0)
                (λ _.
                  Updates-emptied (zset_cell rt) kv k (length r.0 == 0) (zset_value r.0) r.0
                    (λ _. refl))),
        )

  -- ZREM where the key holds no sorted set replies 0 and changes nothing.
  pub zrem_absent : (ms : List Str) → zset_view rt kv k ≡ none → zrem rt kv k ms ≡ (0, kv)
  unfolding zrem zset_view zrem_members keep
  zrem_absent ms e = ground arith
