-- ===== src/Clusters/Node/Bitmap.antt =====
-- A node's bitmap as a set of slots, and the number of slots it keeps beside it.
-- Source: utils/clusters/node.go.
use emberdb.Prelude.{
  ℕ, zero, suc, ◌+◌, ◌/◌, ◌%◌, ◌<◌, ◌≡◌, refl, true, false, some, arith, ltb, ◌==◌, if◌then◌else◌,
}
use emberdb.Prelude.Words.{
  test_bit-set_bit, test_bit-clear_bit, ones_count-set_bit, ones_count-clear_bit,
}
use emberdb.Slot.{slot_count}
use emberdb.Clusters.Node.{
  Bitmap, ClusterNode, slot_words, count_words, count_slots, has_slot, with_slot, without_slot,
  add_slot, remove_slot, transfer_slot, set_owned_slots,
}

pub has_slot-with_slot :
    (slots : Bitmap) (s t : ℕ)
    → has_slot (with_slot slots s) t ≡ (if s == t then true else has_slot slots t)
unfolding has_slot with_slot
has_slot-with_slot slots s t = ground (arith, test_bit-set_bit (slots (t / 64)) (s % 64) (t % 64))

pub has_slot-without_slot :
    (slots : Bitmap) (s t : ℕ)
    → has_slot (without_slot slots s) t ≡ (if s == t then false else has_slot slots t)
unfolding has_slot without_slot
has_slot-without_slot slots s t =
    ground (arith, test_bit-clear_bit (slots (t / 64)) (s % 64) (t % 64))

-- 1 for a slot that is owned and lies in the first `n` words, else 0
abbrev owned_below : ℕ → Bitmap → ℕ → ℕ
owned_below n slots s = if ltb (s / 64) n then (if has_slot slots s then 1 else 0) else 0

count_words-with :
    (n : ℕ) (slots : Bitmap) (s : ℕ)
    → count_words n (with_slot slots s) + owned_below n slots s
      ≡ count_words n slots + (if ltb (s / 64) n then 1 else 0)
unfolding count_words with_slot has_slot
count_words-with zero slots s = ground arith
count_words-with (suc n) slots s =
    ground (arith, count_words-with n slots s, ones_count-set_bit 64 (slots n) (s % 64))

count_words-without :
    (n : ℕ) (slots : Bitmap) (s : ℕ)
    → count_words n (without_slot slots s) + owned_below n slots s ≡ count_words n slots
unfolding count_words without_slot has_slot
count_words-without zero slots s = ground arith
count_words-without (suc n) slots s =
    ground (arith, count_words-without n slots s, ones_count-clear_bit 64 (slots n) (s % 64))

-- The number that a node keeps is the number of the slots in its bitmap.
abbrev pub Counted : ClusterNode → Type 0
Counted n = n.num_slots ≡ count_slots n.owned_slots

-- AddSlot of a valid slot succeeds. The node then owns that slot and those it owned before, and its
-- number of slots has grown by one if the slot is new, provided that the number was right before; it
-- is right afterwards.
pub add_slot_lem :
    (n : ClusterNode) (s : ℕ)
    → s < slot_count
    → Counted n
    → (n' : ClusterNode) × (add_slot n s ≡ some n')
      × Counted n'
      × ((t : ℕ) → has_slot n'.owned_slots t ≡ (if s == t then true else has_slot n.owned_slots t))
      × (n'.num_slots + (if has_slot n.owned_slots s then 1 else 0) ≡ n.num_slots + 1)
unfolding add_slot set_owned_slots count_slots
add_slot_lem n s h c = (
  set_owned_slots n (with_slot n.owned_slots s),
  ground arith,
  refl,
  λ t. has_slot-with_slot n.owned_slots s t,
  ground (arith, count_words-with slot_words n.owned_slots s),
)

-- RemoveSlot of a valid slot succeeds. The node then owns the slots it owned before without that
-- one, and its number of slots has shrunk by one if it owned it.
pub remove_slot_lem :
    (n : ClusterNode) (s : ℕ)
    → s < slot_count
    → Counted n
    → (n' : ClusterNode) × (remove_slot n s ≡ some n')
      × Counted n'
      × ((t : ℕ) → has_slot n'.owned_slots t ≡ (if s == t then false else has_slot n.owned_slots t))
      × (n'.num_slots + (if has_slot n.owned_slots s then 1 else 0) ≡ n.num_slots)
unfolding remove_slot set_owned_slots count_slots
remove_slot_lem n s h c = (
  set_owned_slots n (without_slot n.owned_slots s),
  ground arith,
  refl,
  λ t. has_slot-without_slot n.owned_slots s t,
  ground (arith, count_words-without slot_words n.owned_slots s),
)

-- TransferSlot of a valid slot that the giving node owns and the taking node does not own succeeds.
-- Afterwards the taking node owns it and the giving node does not, no other slot changes hands, and
-- the two nodes together own as many slots as before.
pub transfer_slot_lem :
    (from n : ClusterNode) (s : ℕ)
    → s < slot_count
    → Counted from
    → Counted n
    → has_slot from.owned_slots s ≡ true
    → has_slot n.owned_slots s ≡ false
    → (from' : ClusterNode) × (n' : ClusterNode) × (transfer_slot from n s ≡ some (from', n'))
      × ((t : ℕ)
          → has_slot from'.owned_slots t ≡ (if s == t then false else has_slot from.owned_slots t))
      × ((t : ℕ) → has_slot n'.owned_slots t ≡ (if s == t then true else has_slot n.owned_slots t))
      × (from'.num_slots + n'.num_slots ≡ from.num_slots + n.num_slots)
unfolding transfer_slot set_owned_slots count_slots
transfer_slot_lem from n s h c c' given taken = (
  set_owned_slots from (without_slot from.owned_slots s),
  set_owned_slots n (with_slot n.owned_slots s),
  ground arith,
  λ t. has_slot-without_slot from.owned_slots s t,
  λ t. has_slot-with_slot n.owned_slots s t,
  ground (
    arith,
    count_words-without slot_words from.owned_slots s,
    count_words-with slot_words n.owned_slots s,
  ),
)
