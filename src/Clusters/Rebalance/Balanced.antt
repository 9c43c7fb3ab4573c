-- ===== src/Clusters/Rebalance/Balanced.antt =====
-- utils/clusters/cluster.go: the nodes of a rebalance, sorted by their balances.
use emberdb.Prelude.{
  ℕ, zero, suc, ◌+◌, ◌<◌, ◌≤◌, ◌≡◌, refl, ap, ◌∙◌, Bool, false, some, List, [], ◌∷◌, ◌++◌, arith,
  ltb, if◌then◌else◌, length, get_elem?, take, All,
}
use emberdb.Prelude.Sort.{IsStrictWeak, IsSorted}
use emberdb.Prelude.Sort.Permutes.{IsSort, All-sort, length-sort}
use emberdb.Prelude.Int.{pos_part}
use emberdb.Slot.{slot_count}
use emberdb.Clusters.Node.{ClusterNode, set_balance}
use emberdb.Clusters.Node.Bitmap.{Counted}
use emberdb.Clusters.Rebalance.{target, set_balances, less_balance, less_name, by_balance}
use mathlib.Core.Path.{subst}
use emberdb.Clusters.Rebalance.Targets.{balance_of-le, target-le}

-- The number of the nodes with a surplus.
abbrev pub has_surplus : ClusterNode → Bool
has_surplus n = ltb 0 (pos_part n.balance)

abbrev pub surplus_count : List ClusterNode → ℕ
surplus_count [] = 0
surplus_count (n ∷ ns) = (if has_surplus n then 1 else 0) + surplus_count ns

-- The number of slots is right, and the surplus is no more than that.
abbrev pub IsBalanced : ClusterNode → Type 0
IsBalanced n = Counted n × (pos_part n.balance ≤ n.num_slots)

pub All-append {ℓ κ} :
    {A : Type ℓ} (P : A → Type κ) (xs ys : List A) → All P xs → All P ys → All P (xs ++ ys)
All-append P [] ys h k = k
All-append P (x ∷ xs) ys h k = (h.0, All-append P xs ys h.1 k)

pub All-get_elem? :
    (P : ClusterNode → Type 0) (xs : List ClusterNode) (i : ℕ) (a : ClusterNode)
    → All P xs
    → get_elem? xs i ≡ some a
    → P a
All-get_elem? P [] i a h e = cc
All-get_elem? P (x ∷ xs) zero a h e = let same : x ≡ a = ground arith in subst P same h.0
All-get_elem? P (x ∷ xs) (suc i) a h e = All-get_elem? P xs i a h.1 e

pub surplus_count-take :
    (xs : List ClusterNode) (j : ℕ) (a : ClusterNode)
    → get_elem? xs j ≡ some a
    → surplus_count (take (suc j) xs) ≡ surplus_count (take j xs) + (if has_surplus a then 1 else 0)
surplus_count-take [] j a e = cc
surplus_count-take (x ∷ xs) zero a e = ground arith
surplus_count-take (x ∷ xs) (suc j) a e = ground (arith, surplus_count-take xs j a e)

-- In a sorted list no node has a smaller balance than one before it.
pub sorted_pair :
    (xs : List ClusterNode) (i j : ℕ) (a b : ClusterNode)
    → IsSorted less_balance xs
    → i < j
    → get_elem? xs i ≡ some a
    → get_elem? xs j ≡ some b
    → less_balance b a ≡ false
sorted_pair [] i j a b h lt e f = cc
sorted_pair (x ∷ xs) i zero a b h lt e f = absurd (omega arith)
sorted_pair (x ∷ xs) zero (suc j) a b h lt e f =
    let same : x ≡ a = ground arith in
    All-get_elem? (λ y. less_balance y a ≡ false) xs j b
      (subst (λ z. All (λ y. less_balance y z ≡ false) xs) same h.0) f
sorted_pair (x ∷ xs) (suc i) (suc j) a b h lt e f = sorted_pair xs i j a b h.1 (omega arith) e f

pub less_balance-IsStrictWeak : IsStrictWeak less_balance
less_balance-IsStrictWeak = record {
  asymm = λ a b h. ground arith;
  not_less_trans = λ a b c h k. ground arith;
}

pub set_balances-IsBalanced :
    (n i : ℕ) (nodes : List ClusterNode)
    → 0 < n
    → All (λ node. Counted node × (node.num_slots ≤ slot_count)) nodes
    → All IsBalanced (set_balances n i nodes)
unfolding set_balances set_balance
set_balances-IsBalanced n i [] h ok = tt
set_balances-IsBalanced n i (node ∷ nodes) h ok = (
  (ok.0.0, balance_of-le node.num_slots (target n i) ok.0.1 (target-le n i h)),
  set_balances-IsBalanced n (i + 1) nodes h ok.1,
)

length-set_balances :
    (n i : ℕ) (nodes : List ClusterNode) → length (set_balances n i nodes) ≡ length nodes
unfolding set_balances
length-set_balances n i [] = refl
length-set_balances n i (node ∷ nodes) = ap suc (length-set_balances n (i + 1) nodes)

pub take-length {ℓ} : {A : Type ℓ} (xs : List A) → take (length xs) xs ≡ xs
take-length [] = refl
take-length (x ∷ xs) = ap (λ t. x ∷ t) (take-length xs)

module _ (sort : (ClusterNode → ClusterNode → Bool) → List ClusterNode → List ClusterNode)
    (right : IsSort sort) where
  pub length-by_balance : (nodes : List ClusterNode) → length (by_balance sort nodes) ≡ length nodes
  unfolding by_balance
  length-by_balance nodes =
      let named = sort less_name nodes in
      length-sort sort right less_balance (set_balances (length nodes) 0 named)
      ∙ length-set_balances (length nodes) 0 named
      ∙ length-sort sort right less_name nodes

  pub by_balance-IsSorted :
      (nodes : List ClusterNode) → IsSorted less_balance (by_balance sort nodes)
  unfolding by_balance
  by_balance-IsSorted nodes = right.sorts less_balance _ less_balance-IsStrictWeak

  pub by_balance-IsBalanced :
      (nodes : List ClusterNode)
      → 0 < length nodes
      → All (λ node. Counted node × (node.num_slots ≤ slot_count)) nodes
      → All IsBalanced (by_balance sort nodes)
  unfolding by_balance
  by_balance-IsBalanced nodes some_node fair = All-sort sort right less_balance IsBalanced _ (
      set_balances-IsBalanced (length nodes) 0 _ some_node
        (All-sort sort right less_name _ nodes fair))
