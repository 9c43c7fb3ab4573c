-- ===== src/Clusters/Gossip/Owners.antt =====
-- utils/clusters/gossip.go: gossip moves no slot.
use emberdb.Prelude.{
  ℕ, ◌<◌, ◌≡◌, zero, suc, ◌%◌, refl, ap, sym, ◌∙◌, inl, Option, Bool-cases, inr, false, some, none,
  List, [], ◌∷◌, arith, Str, str_eq, str_eq_iff, Option-cases, if◌then◌else◌,
}
use emberdb.Prelude.Words.{test_bit}
use emberdb.Dict
use emberdb.Clusters.Node.{has_slot, update_gossip, new_node}
use emberdb.Clusters.State.{
  ClusterState, get_node, set_node, with_node, owns, first_owner, get_slot_owner,
}
use emberdb.Clusters.Message.{Gossip, ClusterMsg}
use emberdb.Clusters.Gossip.{
  Cluster, refresh, learn, take_entry, process_entry, process_entries, cluster_process_gossip,
}
use emberdb.Clusters.Gossip.Named.{IsNamed, process_entry-Takes}

-- the node that the name stands for, if it has the slot
abbrev claimant : ClusterState → ℕ → Str → Option ℕ
claimant s slot name = elim (Dict.get s.nodes name) [
  | none ↦ none
  | some p ↦ if owns s slot p then some p else none
]

or_else : Option ℕ → Option ℕ → Option ℕ
or_else none other = other
or_else (some p) other = some p

first_owner-claimant :
    (s : ClusterState) (slot : ℕ) (name : Str) (names : List Str)
    → first_owner s slot (name ∷ names) ≡ or_else (claimant s slot name) (first_owner s slot names)
unfolding first_owner or_else
first_owner-claimant s slot name names = ground arith

-- Where each name has the same claimant in two states, so has the slot in any order of names.
first_owner-same :
    (s s' : ClusterState) (slot : ℕ) (names : List Str)
    → ((name : Str) → claimant s' slot name ≡ claimant s slot name)
    → first_owner s' slot names ≡ first_owner s slot names
first_owner-same s s' slot [] same = unfold first_owner in refl
first_owner-same s s' slot (x ∷ names) same =
    first_owner-claimant s' slot x names
    ∙ rw (same x, first_owner-same s s' slot names same) (sym (first_owner-claimant s slot x names))

get_slot_owner-same :
    (s s' : ClusterState) (order : List Str) (slot : ℕ)
    → s'.self ≡ s.self
    → ((me : ℕ) → s.self ≡ some me → owns s' slot me ≡ owns s slot me)
    → first_owner s' slot order ≡ first_owner s slot order
    → get_slot_owner s' order slot ≡ get_slot_owner s order slot
unfolding get_slot_owner
get_slot_owner-same s s' order slot self owned first = elim (Option-cases s.self) [
  | inl nobody ↦ ground (arith, self, first, nobody)
  | inr (me, e) ↦ ground (arith, self, first, e, owned me e)
]

pub test_bit-zero : (b : ℕ) → test_bit 0 b ≡ false
unfolding test_bit
test_bit-zero zero = refl
test_bit-zero (suc b) = test_bit-zero b

module _ (uuids : ℕ → Str) (c : Cluster) (g : Gossip) (h : IsNamed c) (order : List Str)
    (slot : ℕ) where
  owns-learn : (p : ℕ) → p < c.next → owns (learn uuids c g).state slot p ≡ owns c.state slot p
  unfolding learn owns set_node with_node refresh update_gossip
  owns-learn p k = ground arith

  owns-learn_next : owns (learn uuids c g).state slot c.next ≡ false
  unfolding learn owns set_node with_node refresh update_gossip new_node has_slot
  owns-learn_next = ground (arith, test_bit-zero (slot % 64))

  nodes-learn : (learn uuids c g).state.nodes ≡ Dict.put c.state.nodes g.node_name c.next
  unfolding learn set_node with_node refresh update_gossip
  nodes-learn = ground arith

  self-learn : (learn uuids c g).state.self ≡ c.state.self
  unfolding learn set_node with_node
  self-learn = refl

  get-learn :
      (name : Str)
      → Dict.get (learn uuids c g).state.nodes name
        ≡ (if str_eq g.node_name name then some c.next else Dict.get c.state.nodes name)
  get-learn name = rw nodes-learn (Dict.get-put c.state.nodes g.node_name name c.next)

  claimant-learn :
      get_node c.state g.node_name ≡ none
      → (name : Str) → claimant (learn uuids c g).state slot name ≡ claimant c.state slot name
  unfolding get_node
  claimant-learn missing name = elim (Bool-cases (str_eq g.node_name name)) [
    | inl here ↦
        let same : g.node_name ≡ name = grind (arith, str_eq_iff g.node_name name) in
        let before : Dict.get c.state.nodes name ≡ none =
          ap (Dict.get c.state.nodes) (sym same) ∙ missing in
        ground (arith, get-learn name, here, before, owns-learn_next)
    | inr other ↦ elim (Option-cases (Dict.get c.state.nodes name)) [
      | inl e ↦ ground (arith, get-learn name, other, e)
      | inr (p, e) ↦ ground (arith, get-learn name, other, e, owns-learn p (h.named name p e).1)
    ]
  ]

  learn-Same :
      get_node c.state g.node_name ≡ none
      → get_slot_owner (learn uuids c g).state order slot ≡ get_slot_owner c.state order slot
  learn-Same missing =
      get_slot_owner-same c.state (learn uuids c g).state order slot self-learn
        (λ me e. owns-learn me (h.self_used me e))
        (first_owner-same c.state (learn uuids c g).state slot order (claimant-learn missing))

  owns-refresh :
      (p q : ℕ)
      → owns (with_node c.state p (refresh (c.state.heap p) g)) slot q ≡ owns c.state slot q
  unfolding owns with_node refresh update_gossip
  owns-refresh p q = ground arith

  refresh-Same :
      (p : ℕ)
      → get_slot_owner (with_node c.state p (refresh (c.state.heap p) g)) order slot
        ≡ get_slot_owner c.state order slot
  unfolding with_node
  refresh-Same p =
      let s' = with_node c.state p (refresh (c.state.heap p) g) in
      get_slot_owner-same c.state s' order slot refl (λ me e. owns-refresh p me)
        (first_owner-same c.state s' slot order λ name.
          elim (Option-cases (Dict.get c.state.nodes name)) [
            | inl e ↦ ground (arith, e)
            | inr (q, e) ↦ ground (arith, e, owns-refresh p q)
          ])

  process_entry-Same :
      (self : ℕ)
      → get_slot_owner (process_entry uuids self c g).state order slot
        ≡ get_slot_owner c.state order slot
  unfolding process_entry take_entry
  process_entry-Same self = elim (Option-cases (get_node c.state g.node_name)) [
    | inl missing ↦ ground (arith, missing, learn-Same missing)
    | inr (p, e) ↦ ground (arith, e, refresh-Same p)
  ]

process_entries-Same :
    (uuids : ℕ → Str) (self : ℕ) (gs : List Gossip) (c : Cluster) (order : List Str) (slot : ℕ)
    → IsNamed c
    → c.state.self ≡ some self
    → get_slot_owner (process_entries uuids self c gs).state order slot
      ≡ get_slot_owner c.state order slot
unfolding process_entries
process_entries-Same uuids self [] c order slot h me = refl
process_entries-Same uuids self (g ∷ gs) c order slot h me =
    let next = process_entry-Takes uuids c g h self me in
    process_entries-Same uuids self gs (process_entry uuids self c g) order slot next.0.is_named
      (next.0.same_self ∙ me)
    ∙ process_entry-Same uuids c g h order slot self

-- In a state whose nodes lie in the map under their own names, clusterProcessGossip changes the owner
-- of no slot, whatever entries the message has and in whatever order both lookups visit the nodes.
pub cluster_process_gossip-owners :
    (uuids : ℕ → Str) (c c' : Cluster) (msg : ClusterMsg) (self : ℕ) (order : List Str) (slot : ℕ)
    → IsNamed c
    → c.state.self ≡ some self
    → cluster_process_gossip uuids c msg ≡ some c'
    → get_slot_owner c'.state order slot ≡ get_slot_owner c.state order slot
unfolding cluster_process_gossip
cluster_process_gossip-owners uuids c c' msg self order slot h me e =
    let done = rw me at e in
    ground (arith, done, process_entries-Same uuids self msg.gossip c order slot h me)
