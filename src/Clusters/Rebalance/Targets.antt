-- ===== src/Clusters/Rebalance/Targets.antt =====
-- utils/clusters/cluster.go: the numbers of slots that a rebalance aims at.
use emberdb.Prelude.{ℕ, zero, suc, ◌+◌, ◌*◌, ◌/◌, ◌%◌, ◌<◌, ◌≤◌, ◌≡◌, arith, min, ◌^◌}
use emberdb.Prelude.Int.{ℤ, pos, negsuc, pos_part, neg_part, ◌-ℤ◌, wrap32}
use native.Mathlib.Nat.{div-add-mod, mod-lt, suc-mul}
use emberdb.Slot.{slot_count}
use emberdb.Clusters.Rebalance.{target, balance_of}

-- the targets of the first `k` of `n` nodes
abbrev pub sum_targets : ℕ → ℕ → ℕ
sum_targets n zero = 0
sum_targets n (suc k) = sum_targets n k + target n k

sum_targets_lem : (n k : ℕ) → sum_targets n k ≡ k * (slot_count / n) + min k (slot_count % n)
unfolding target
sum_targets_lem n zero = omega arith
sum_targets_lem n (suc k) = ground (arith, sum_targets_lem n k)

-- The targets of the nodes add up to all slots, and no two of them differ by more than one.
pub targets_lem :
    (n : ℕ) → 0 < n → (sum_targets n n ≡ slot_count) × ((i j : ℕ) → target n i ≤ target n j + 1)
unfolding target
targets_lem n h = (
  omega (arith, sum_targets_lem n n, div-add-mod slot_count n, mod-lt slot_count h),
  λ i j. ground arith,
)

wrap32_fits : (z : ℤ) → pos_part z < 2 ^ 31 → neg_part z ≤ 2 ^ 31 → wrap32 z ≡ z
unfolding wrap32
wrap32_fits (pos n) h k = ground arith
wrap32_fits (negsuc n) h k = ground arith

-- The balance of a node is the difference between what it owns and its target.
pub balance_of-sub :
    (n aim : ℕ) → n ≤ slot_count → aim ≤ slot_count → balance_of n aim ≡ pos n -ℤ pos aim
unfolding balance_of
balance_of-sub n aim h k =
    let high : pos_part (pos n -ℤ pos aim) < 2 ^ 31 = unfold ◌-ℤ◌ in ground arith in
    let low : neg_part (pos n -ℤ pos aim) ≤ 2 ^ 31 = unfold ◌-ℤ◌ in ground arith in
    rw
      (
        wrap32_fits (pos n) (omega arith) (omega arith),
        wrap32_fits (pos aim) (omega arith) (omega arith),
      )
      (wrap32_fits (pos n -ℤ pos aim) high low)

-- A node has a surplus of no more than it owns.
pub balance_of-le :
    (n aim : ℕ) → n ≤ slot_count → aim ≤ slot_count → pos_part (balance_of n aim) ≤ n
balance_of-le n aim h k = rw (balance_of-sub n aim h k) (unfold ◌-ℤ◌ in ground arith)

pub target-le : (n i : ℕ) → 0 < n → target n i ≤ slot_count
unfolding target
target-le zero i h = absurd (omega arith)
target-le (suc m) i h =
    let base = slot_count / suc m in ground (arith, div-add-mod slot_count (suc m), suc-mul m base)
