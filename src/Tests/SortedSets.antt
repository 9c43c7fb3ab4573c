-- ===== src/Tests/SortedSets.antt =====
-- Sorted sets in both modes.
use emberdb.Prelude.{
  ℕ, ◌+◌, arith, ◌<◌, ◌^◌, ◌≡◌, refl, true, false, some, List, [], ◌∷◌, Str, bytes, str_eq, length,
}
use emberdb.Prelude.Decimal.{digits_value}
use emberdb.Prelude.Sort.{IsSorted, sort_stable}
use emberdb.Dict
use emberdb.Slot.{slot_for_key, hash_part, index_byte}
use emberdb.Store.{
  SortedSetMember, zadd_odd, sorted_set_type, KvStore, new_kv_store, set_slot, get_shard, find,
  put_value,
}
use emberdb.Store.Views.{zset_view, other_kind}
use emberdb.Store.Cells.{Updates}
use emberdb.Store.Cells.Tables.{zset_cell}
use emberdb.SortedSets.{
  added, rejected, parsed, parse_pairs, zadd, zadd_members, zadd_loop, zadd_one, has_member,
  assign_score, less_score,
}
use emberdb.SortedSets.Adds.{score_of, score_after, Distinct}
use emberdb.Prelude.Sort.Compared.{IsStrictWeakOn}
use emberdb.SortedSets.Scores.{AllScores}
use emberdb.SortedSets.Commands.{old_zset, zadd_lem}
use emberdb.Tests.Fixture.{rolling, toy, toy_order, key}

abbrev pairs : List Str
pairs = bytes "7" ∷ bytes "m" ∷ bytes "3" ∷ bytes "n" ∷ []

abbrev m : SortedSetMember ℕ
m = record { member = bytes "m"; score = 7 }

abbrev n : SortedSetMember ℕ
n = record { member = bytes "n"; score = 3 }

abbrev cluster : KvStore ℕ
cluster = (zadd toy (new_kv_store true) key pairs).1

parsed_pairs : parse_pairs toy pairs ≡ parsed (m ∷ n ∷ [])
unfolding parse_pairs digits_value
parsed_pairs = refl

cluster_view : zset_view toy cluster key ≡ some (n ∷ m ∷ [])
unfolding zset_view zadd parse_pairs digits_value zadd_members zadd_loop zadd_one has_member
    assign_score sort_stable new_kv_store Dict.get Dict.put Dict.empty str_eq find put_value
    get_shard set_slot slot_for_key rolling hash_part index_byte
cluster_view = refl

cluster_kind : other_kind toy sorted_set_type cluster key ≡ false
unfolding other_kind zadd parse_pairs digits_value zadd_members zadd_loop zadd_one has_member
    assign_score sort_stable new_kv_store Dict.get Dict.put Dict.empty str_eq find put_value
    get_shard set_slot slot_for_key rolling hash_part index_byte
cluster_kind = refl

cluster-Distinct : Distinct (old_zset toy cluster key)
unfolding has_member str_eq
cluster-Distinct = rw cluster_view (refl, (refl, tt))

-- the integers that float64 has exactly
abbrev IsExact : ℕ → Type 0
IsExact s = s < 2 ^ 53

IsExact-order : IsStrictWeakOn (λ (e : SortedSetMember ℕ). IsExact e.score) (less_score toy)
IsExact-order = record {
  asymm = λ a b p q h. toy_order.asymm a b h;
  not_less_trans = λ a b c p q r h k. toy_order.not_less_trans a b c h k;
}

cluster-AllScores : AllScores IsExact (old_zset toy cluster key)
cluster-AllScores = rw cluster_view (omega arith, (omega arith, tt))

zadd_lem_example :
    (next : List (SortedSetMember ℕ)) × (count : ℕ) × ((zadd toy cluster key pairs).0 ≡ added count)
    × Updates (zset_cell toy) cluster (zadd toy cluster key pairs).1 key (some next)
    × Distinct next
    × IsSorted (less_score toy) next
    × AllScores IsExact next
    × ((j : Str)
        → score_of j next ≡ score_after j (m ∷ n ∷ []) (score_of j (old_zset toy cluster key)))
    × (length next ≡ length (old_zset toy cluster key) + count)
zadd_lem_example =
    zadd_lem toy cluster key IsExact IsExact-order pairs (m ∷ n ∷ []) parsed_pairs cluster_kind
      cluster-AllScores (omega arith, (omega arith, tt)) cluster-Distinct

odd_arguments : (zadd toy cluster key (key ∷ [])).0 ≡ rejected zadd_odd
unfolding zadd parse_pairs
odd_arguments = refl
