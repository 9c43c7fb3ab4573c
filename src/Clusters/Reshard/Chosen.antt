-- ===== src/Clusters/Reshard/Chosen.antt =====
-- utils/clusters/cluster.go: which slots a node gives away.
use emberdb.Prelude.{
  ℕ, zero, suc, ◌+◌, ◌-◌, ◌*◌, ◌/◌, ◌%◌, ◌<◌, ◌≤◌, ◌≡◌, refl, sym, ◌∙◌, inl, inr, true, List, [],
  ◌∷◌, arith, leb, min, take, length, length-take, map, All, if◌then◌else◌, Bool-cases, if_both,
}
use emberdb.Prelude.Words.{test_bit, ones_count}
use emberdb.Slot.{slot_count}
use emberdb.Clusters.Node.{ClusterNode, Bitmap, slot_words, has_slot, count_words, count_slots}
use emberdb.Clusters.Node.Bitmap.{Counted}
use emberdb.Clusters.Reshard.{ReshardItem, reshard_loop, compute_reshard_table}

-- The slots of a bitmap among `left` slots from `slot` on, in ascending order.
unfoldable pub owned_from : Bitmap → ℕ → ℕ → List ℕ
owned_from owned zero slot = []
owned_from owned (suc left) slot =
    let rest = owned_from owned left (slot + 1) in if has_slot owned slot then slot ∷ rest else rest

abbrev pub slots_of : List ReshardItem → List ℕ
slots_of items = map (λ (i : ReshardItem). i.slot) items

take-nil : (n : ℕ) → take {A = ℕ} n [] ≡ []
take-nil zero = refl
take-nil (suc n) = refl

reshard_loop-take :
    (source : ClusterNode) (owned : Bitmap) (n count left slot : ℕ)
    → slots_of (reshard_loop source owned n count left slot)
      ≡ take (n - count) (owned_from owned left slot)
unfolding reshard_loop owned_from
reshard_loop-take source owned n count zero slot = sym (take-nil (n - count))
reshard_loop-take source owned n count (suc left) slot = elim (Bool-cases (has_slot owned slot)) [
  | inr lacks ↦ ground (arith, lacks, reshard_loop-take source owned n count left (slot + 1))
  | inl has ↦ elim (Bool-cases (leb n count)) [
    | inl full ↦
        let none_left : n - count ≡ 0 = ground arith in ground (arith, has, full, none_left)
    | inr room ↦
        let more : n - count ≡ suc (n - (count + 1)) = ground arith in
        ground
          (arith, has, room, more, reshard_loop-take source owned n (count + 1) left (slot + 1))
  ]
]

-- the sum of the bits of a word
bits_of : ℕ → ℕ → ℕ → ℕ
bits_of w zero b = 0
bits_of w (suc n) b = (if test_bit w b then 1 else 0) + bits_of w n (b + 1)

bits_of-half : (w n b : ℕ) → bits_of w n (suc b) ≡ bits_of (w / 2) n b
unfolding bits_of test_bit
bits_of-half w zero b = refl
bits_of-half w (suc n) b = ground (arith, bits_of-half w n (b + 1))

ones_count-bits_of : (n w : ℕ) → ones_count n w ≡ bits_of w n 0
unfolding ones_count bits_of test_bit
ones_count-bits_of zero w = refl
ones_count-bits_of (suc n) w = ground (arith, ones_count-bits_of n (w / 2), bits_of-half w n 0)

module _ (owned : Bitmap) where
  -- the slots of one word
  length-owned_from_word :
      (k n b : ℕ) → b + n ≤ 64 → length (owned_from owned n (k * 64 + b)) ≡ bits_of (owned k) n b
  unfolding owned_from bits_of has_slot
  length-owned_from_word k zero b h = refl
  length-owned_from_word k (suc n) b h =
      let word : (k * 64 + b) / 64 ≡ k = omega arith in
      let bit : (k * 64 + b) % 64 ≡ b = omega arith in
      let after : k * 64 + b + 1 ≡ k * 64 + (b + 1) = omega arith in
      let rest = length-owned_from_word k n (b + 1) (omega arith) in
      rw (word, bit, after) (ground (arith, rest))

  length-owned_from_split :
      (a b slot : ℕ)
      → length (owned_from owned (a + b) slot)
        ≡ length (owned_from owned a slot) + length (owned_from owned b (slot + a))
  unfolding owned_from
  length-owned_from_split zero b slot =
      let e : slot + 0 ≡ slot = omega arith in
      let z : 0 + b ≡ b = omega arith in rw (e, z) (omega arith)
  length-owned_from_split (suc a) b slot =
      let e : slot + suc a ≡ slot + 1 + a = omega arith in
      let more : suc a + b ≡ suc (a + b) = omega arith in
      rw (e, more) (ground (arith, length-owned_from_split a b (slot + 1)))

  -- A bitmap has as many slots as bits.
  length-owned_from : (n : ℕ) → length (owned_from owned (n * 64) 0) ≡ count_words n owned
  unfolding count_words
  length-owned_from zero = unfold owned_from in refl
  length-owned_from (suc n) =
      let e : suc n * 64 ≡ n * 64 + 64 = omega arith in
      let z : n * 64 + 0 ≡ n * 64 = omega arith in
      let first : 0 + n * 64 ≡ n * 64 = omega arith in
      let split = rw first at (length-owned_from_split (n * 64) 64 0) in
      let word = rw z at (length-owned_from_word n 64 0 (omega arith)) in
      rw e (omega (arith, split, length-owned_from n, word, ones_count-bits_of 64 (owned n)))

-- The slots ascend from `low` on.
abbrev pub Ascends : ℕ → List ℕ → Type 0
Ascends low [] = Unit
Ascends low (t ∷ ts) = (low ≤ t) × Ascends (t + 1) ts

Ascends-low : (low low' : ℕ) (ts : List ℕ) → low ≤ low' → Ascends low' ts → Ascends low ts
Ascends-low low low' [] h a = tt
Ascends-low low low' (t ∷ ts) h (a, b) = (omega arith, b)

abbrev pub IsOwned : Bitmap → ℕ → Type 0
IsOwned owned t = (has_slot owned t ≡ true) × (t < slot_count)

owned_from-Ascends :
    (owned : Bitmap) (left slot : ℕ)
    → left + slot ≤ slot_count
    → Ascends slot (owned_from owned left slot) × All (IsOwned owned) (owned_from owned left slot)
unfolding owned_from
owned_from-Ascends owned zero slot h = (tt, tt)
owned_from-Ascends owned (suc left) slot h =
    let (rest, all) = owned_from-Ascends owned left (slot + 1) (omega arith) in
    if_both (λ ts. Ascends slot ts × All (IsOwned owned) ts) (has_slot owned slot) _ _
      (λ has. ((omega arith, rest), ((has, omega arith), all)))
      (λ _. (Ascends-low slot (slot + 1) _ (omega arith) rest, all))

take-Ascends :
    (P : ℕ → Type 0) (n low : ℕ) (ts : List ℕ)
    → Ascends low ts
    → All P ts
    → Ascends low (take n ts) × All P (take n ts)
take-Ascends P zero low ts a h = (tt, tt)
take-Ascends P (suc n) low [] a h = (tt, tt)
take-Ascends P (suc n) low (t ∷ ts) (a, b) (p, h) =
    let (c, d) = take-Ascends P n (t + 1) ts b h in ((a, c), (p, d))

-- The reshard table of `n` slots of a node lists the first `n` of its slots: they ascend, the node has
-- each of them, and there are `n`, or all that it has if these are fewer, provided that its number of
-- slots is right.
pub compute_reshard_table_lem :
    (n : ℕ) (source : ClusterNode)
    → Counted source
    → let slots = slots_of (compute_reshard_table n source) in
      (slots ≡ take n (owned_from source.owned_slots slot_count 0))
      × Ascends 0 slots
      × All (IsOwned source.owned_slots) slots
      × (length slots ≡ min n source.num_slots)
unfolding compute_reshard_table count_slots
compute_reshard_table_lem n source c =
    let owned = source.owned_slots in
    let all = owned_from owned slot_count 0 in
    let table = reshard_loop-take source owned n 0 slot_count 0 in
    let (up, has) = owned_from-Ascends owned slot_count 0 (omega arith) in
    let (up', has') = take-Ascends (IsOwned owned) n 0 all up has in
    let total : length all ≡ source.num_slots = length-owned_from owned slot_words ∙ sym c in
    let same : n - 0 ≡ n = omega arith in
    rw (table, same) (refl, up', has', omega (arith, length-take n all, total))
