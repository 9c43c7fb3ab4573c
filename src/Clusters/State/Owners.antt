-- ===== src/Clusters/State/Owners.antt =====
-- The owner of a slot.
-- Source: utils/clusters/state.go.
use emberdb.Prelude.{
  ℕ, ◌≡◌, ap, sym, ◌∙◌, ◌⊎◌, inl, inr, true, false, none, some, List, [], ◌∷◌, arith, Str,
  str_eq_iff, contains, Option-cases, Bool-cases,
}
use emberdb.Dict
use emberdb.Clusters.State.{ClusterState, owns, first_owner, get_slot_owner, get_node}

-- A node that the state knows: the node itself, or one that has a name in the map.
abbrev pub Known : ClusterState → ℕ → Type 0
Known s node = (s.self ≡ some node) ⊎ ((name : Str) × (get_node s name ≡ some node))

first_owner-owns :
    (s : ClusterState) (slot : ℕ) (names : List Str) (node : ℕ)
    → first_owner s slot names ≡ some node
    → (owns s slot node ≡ true) × ((name : Str) × (get_node s name ≡ some node))
unfolding first_owner get_node
first_owner-owns s slot [] node h = cc
first_owner-owns s slot (name ∷ names) node h =
    let rest = first_owner-owns s slot names node in
    elim (Option-cases (Dict.get s.nodes name)) [
      | inl missing ↦ rest (ground arith)
      | inr (other, found) ↦ elim (Bool-cases (owns s slot other)) [
        | inl mine ↦
            let same : other ≡ node = ground arith in
            (ap (owns s slot) (sym same) ∙ mine, (name, found ∙ ap some same))
        | inr not_mine ↦ rest (ground arith)
      ]
    ]

first_owner-none :
    (s : ClusterState) (slot : ℕ) (names : List Str) (name : Str) (node : ℕ)
    → first_owner s slot names ≡ none
    → contains names name ≡ true
    → Dict.get s.nodes name ≡ some node
    → owns s slot node ≡ false
unfolding first_owner contains
first_owner-none s slot [] name node h c e = cc
first_owner-none s slot (x ∷ names) name node h c e =
    ground (arith, first_owner-none s slot names name node, str_eq_iff x name)

-- The order in which a call visits the map has each of its names.
abbrev pub Lists : ClusterState → List Str → Type 0
Lists s order = (name : Str) (p : ℕ) → get_node s name ≡ some p → contains order name ≡ true

-- The owner that GetSlotOwner finds, in whatever order it visits the map, is a known node that has the
-- slot in its bitmap.
pub get_slot_owner-some :
    (s : ClusterState) (order : List Str) (slot node : ℕ)
    → get_slot_owner s order slot ≡ some node
    → (owns s slot node ≡ true) × Known s node
unfolding get_slot_owner
get_slot_owner-some s order slot node h =
    let others : first_owner s slot order ≡ some node → (owns s slot node ≡ true) × Known s node =
      λ e. let (mine, named) = first_owner-owns s slot order node e in (mine, inr named) in
    elim (Option-cases s.self) [
      | inl nobody ↦ others (ground arith)
      | inr (me, e) ↦ elim (Bool-cases (owns s slot me)) [
        | inl mine ↦
            let same : me ≡ node = ground arith in
            (ap (owns s slot) (sym same) ∙ mine, inl (e ∙ ap some same))
        | inr not_mine ↦ others (ground arith)
      ]
    ]

-- Where GetSlotOwner finds no owner, no known node has the slot in its bitmap.
pub get_slot_owner-none :
    (s : ClusterState) (order : List Str) (slot node : ℕ)
    → Lists s order
    → get_slot_owner s order slot ≡ none
    → Known s node
    → owns s slot node ≡ false
unfolding get_slot_owner get_node
get_slot_owner-none s order slot node all h (inl me) = ground arith
get_slot_owner-none s order slot node all h (inr (name, e)) =
    first_owner-none s slot order name node (ground arith) (all name node e) e

-- A slot in the bitmap of the node itself has that node for its owner, whatever the others claim.
pub get_slot_owner-self :
    (s : ClusterState) (order : List Str) (slot node : ℕ)
    → s.self ≡ some node
    → owns s slot node ≡ true
    → get_slot_owner s order slot ≡ some node
unfolding get_slot_owner
get_slot_owner-self s order slot node me mine = ground arith

-- No two known nodes have the slot in their bitmaps.
abbrev pub IsSingle : ClusterState → ℕ → Type 0
IsSingle s slot =
    (p q : ℕ) → owns s slot p ≡ true → Known s p → owns s slot q ≡ true → Known s q → p ≡ q

-- Where no two known nodes have the slot in their bitmaps, GetSlotOwner finds the same owner, or none,
-- in whatever orders two calls visit the map.
pub get_slot_owner-order :
    (s : ClusterState) (a b : List Str) (slot : ℕ)
    → IsSingle s slot
    → Lists s a
    → Lists s b
    → get_slot_owner s a slot ≡ get_slot_owner s b slot
get_slot_owner-order s a b slot single all_a all_b = elim (Option-cases (get_slot_owner s a slot)) [
  | inl e ↦ elim (Option-cases (get_slot_owner s b slot)) [
    | inl f ↦ e ∙ sym f
    | inr (q, f) ↦
        let (mine, known) = get_slot_owner-some s b slot q f in
        let no = get_slot_owner-none s a slot q all_a e known in absurd (cc (mine, no))
  ]
  | inr (p, e) ↦
      let (mine, known) = get_slot_owner-some s a slot p e in
      elim (Option-cases (get_slot_owner s b slot)) [
        | inl f ↦ let no = get_slot_owner-none s b slot p all_b f known in absurd (cc (mine, no))
        | inr (q, f) ↦
            let (mine', known') = get_slot_owner-some s b slot q f in
            e ∙ ap some (single p q mine known mine' known') ∙ sym f
      ]
]
