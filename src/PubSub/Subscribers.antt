-- ===== src/PubSub/Subscribers.antt =====
-- The lists of subscribers.
-- Source: utils/pubsub/pubsub.go.
use emberdb.Prelude.{ℕ, ◌≡◌, refl, false, ◌||◌, List, [], ◌∷◌, ◌++◌, arith, ◌==◌, if◌then◌else◌}
use emberdb.PubSub.{has, drop_first}

-- no subscriber stands twice in the list
abbrev pub Distinct : List ℕ → Type 0
Distinct [] = Unit
Distinct (i ∷ is) = (has i is ≡ false) × Distinct is

pub has-append : (i j : ℕ) (is : List ℕ) → has i (is ++ j ∷ []) ≡ (has i is || (j == i))
unfolding has
has-append i j [] = ground arith
has-append i j (k ∷ is) = ground (arith, has-append i j is)

pub append-Distinct :
    (j : ℕ) (is : List ℕ) → has j is ≡ false → Distinct is → Distinct (is ++ j ∷ [])
unfolding has
append-Distinct j [] h d = (refl, tt)
append-Distinct j (k ∷ is) h d = ground (arith, append-Distinct j is, has-append k j is)

pub has-drop_first :
    (i j : ℕ) (is : List ℕ)
    → Distinct is
    → has j (drop_first i is) ≡ (if i == j then false else has j is)
unfolding has drop_first
has-drop_first i j [] d = ground arith
has-drop_first i j (k ∷ is) d = ground (arith, has-drop_first i j is)

pub drop_first-Distinct : (i : ℕ) (is : List ℕ) → Distinct is → Distinct (drop_first i is)
unfolding drop_first
drop_first-Distinct i [] d = tt
drop_first-Distinct i (k ∷ is) d = ground (arith, drop_first-Distinct i is, has-drop_first i k is)

pub drop_first_absent : (i : ℕ) (is : List ℕ) → has i is ≡ false → drop_first i is ≡ is
unfolding drop_first has
drop_first_absent i [] h = refl
drop_first_absent i (j ∷ is) h = ground (arith, drop_first_absent i is)
