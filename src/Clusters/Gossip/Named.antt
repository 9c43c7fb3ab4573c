-- ===== src/Clusters/Gossip/Named.antt =====
-- utils/clusters/gossip.go: a node lies in the map under its own name.
use emberdb.Prelude.{
  ℕ, ◌<◌, ◌≤◌, ◌≡◌, refl, ap, ◌∙◌, inl, inr, true, some, arith, Str, str_eq, str_eq_iff,
  str_eq_refl, Option-cases, is_some, none, ◌≢◌, if_both,
}
use emberdb.Dict
use emberdb.Clusters.Node.{update_gossip}
use emberdb.Clusters.State.{get_node, set_node, with_node}
use emberdb.Clusters.Message.{Gossip}
use emberdb.Clusters.Gossip.{Cluster, refresh, learn, take_entry, process_entry}

-- Every node of the map has its key for a name, and its pointer, like that of this node, is in use.
pub record IsNamed (c : Cluster) : Type 0 where
  pub named :
      (name : Str) (p : ℕ)
      → get_node c.state name ≡ some p
      → ((c.state.heap p).name ≡ name) × (p < c.next)
  pub self_used : (p : ℕ) → c.state.self ≡ some p → p < c.next

-- What taking entries in keeps: this node and its record, the pointer of every known name, and the
-- bitmap of every node.
pub record Extends (self : ℕ) (c c' : Cluster) : Type 0 where
  pub is_named : IsNamed c'
  pub same_self : c'.state.self ≡ c.state.self
  pub same_node : c'.state.heap self ≡ c.state.heap self
  pub kept : (name : Str) (p : ℕ) → get_node c.state name ≡ some p → get_node c'.state name ≡ some p
  pub known :
      (name : Str)
      → is_some (get_node c.state name) ≡ true
      → is_some (get_node c'.state name) ≡ true
  pub grown : c.next ≤ c'.next
  pub owned : (p : ℕ) → p < c.next → (c'.state.heap p).owned_slots ≡ (c.state.heap p).owned_slots

pub Extends-refl : (self : ℕ) (c : Cluster) → IsNamed c → Extends self c c
Extends-refl self c h = record {
  is_named = h;
  same_self = refl;
  same_node = refl;
  kept = λ name p e. e;
  known = λ name e. e;
  grown = omega arith;
  owned = λ p e. refl;
}

pub Extends-trans :
    (self : ℕ) (a b c : Cluster) → Extends self a b → Extends self b c → Extends self a c
Extends-trans self a b c h k = record {
  is_named = k.is_named;
  same_self = k.same_self ∙ h.same_self;
  same_node = k.same_node ∙ h.same_node;
  kept = λ name p e. k.kept name p (h.kept name p e);
  known = λ name e. k.known name (h.known name e);
  grown = omega (arith, h.grown, k.grown);
  owned = λ p e. k.owned p (omega (arith, h.grown)) ∙ h.owned p e;
}

module _ (uuids : ℕ → Str) (c : Cluster) (g : Gossip) (h : IsNamed c) where
  learn-IsNamed : IsNamed (learn uuids c g)
  unfolding learn set_node get_node with_node refresh update_gossip
  learn-IsNamed = record {
    named = λ name p e.
        grind (arith, h.named name p, Dict.get-put c.state.nodes, str_eq_iff g.node_name name);
    self_used = λ p e. omega (arith, h.self_used p e);
  }

  module _ (self : ℕ) (me : c.state.self ≡ some self) where
    learn-Extends : get_node c.state g.node_name ≡ none → Extends self c (learn uuids c g)
    unfolding learn set_node get_node with_node refresh update_gossip
    learn-Extends missing = record {
      is_named = learn-IsNamed;
      same_self = refl;
      same_node = ground (arith, h.self_used self me);
      kept = λ name p e. grind (arith, Dict.get-put c.state.nodes, str_eq_iff g.node_name name);
      known = λ name e. grind (arith, Dict.get-put c.state.nodes);
      grown = omega arith;
      owned = λ p e. ground arith;
    }

    refresh-Extends :
        (p : ℕ)
        → get_node c.state g.node_name ≡ some p
        → g.node_name ≢ (c.state.heap self).name
        → Extends self c (record c { state = with_node c.state p (refresh (c.state.heap p) g) })
    unfolding get_node with_node refresh update_gossip
    refresh-Extends p e other = record {
      is_named = record {
        named = λ name q f. grind (arith, h.named name q f, h.named g.node_name p e);
        self_used = h.self_used;
      };
      same_self = refl;
      same_node = grind (arith, h.named g.node_name p e);
      kept = λ name q f. f;
      known = λ name f. f;
      grown = omega arith;
      owned = λ q f. ground arith;
    }

    learn-known : is_some (get_node (learn uuids c g).state g.node_name) ≡ true
    unfolding learn set_node get_node with_node refresh update_gossip
    learn-known = grind (arith, Dict.get-put c.state.nodes, str_eq_refl g.node_name)

    abbrev Takes : Cluster → Type 0
    Takes c' =
        Extends self c c'
        × (g.node_name ≢ (c.state.heap self).name → is_some (get_node c'.state g.node_name) ≡ true)

    -- An entry keeps what it does not name, and its name is known afterwards.
    pub process_entry-Takes : Takes (process_entry uuids self c g)
    unfolding process_entry take_entry
    process_entry-Takes =
        if_both Takes (str_eq g.node_name (c.state.heap self).name) c (take_entry uuids c g)
          (λ same. (Extends-refl self c h, λ other. absurd (other ((str_eq_iff _ _).0 same))))
          λ different.
            let other : g.node_name ≢ (c.state.heap self).name =
              λ same. ground (arith, (str_eq_iff g.node_name (c.state.heap self).name).1 same) in
            elim (Option-cases (get_node c.state g.node_name)) [
              | inl missing ↦ rw (missing, take_entry) (learn-Extends missing, λ _. learn-known)
              | inr (p, e) ↦
                  let r = refresh-Extends p e other in
                  rw (e, take_entry) (r, λ _. r.known g.node_name (ap is_some e))
            ]
