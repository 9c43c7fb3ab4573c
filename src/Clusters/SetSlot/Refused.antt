-- ===== src/Clusters/SetSlot/Refused.antt =====
-- utils/clusters/cluster.go: SETSLOT that is refused.
use emberdb.Prelude.{
  ℕ, ◌/◌, ◌≡◌, ◌<◌, refl, true, inl, inr, not, Option, none, some, List, [], ◌∷◌, Str, bytes,
  str_eq, if_both, ltb, arith, Option-cases,
}
use emberdb.Slot.{slot_count}
use emberdb.Clusters.Node.{ClusterNode, slot_words, add_slot, remove_slot}
use emberdb.Clusters.State.{
  ClusterState, get_node, set_slot_stable, importing_slots_from, migrating_slots_to,
}
use emberdb.Clusters.SetSlot.{
  SetSlot, SetSlotError, to_lower, ParsedSlot, parsed, unparsed, parse_slot, set_stable,
  change_slot, change_parsed, cluster_set_slot, own_slot, assign_slot,
}
use emberdb.Clusters.SetSlot.Assigned.{parse_slot-parsed}

-- It ends, and an error comes with the state as it was.
abbrev pub Settles : ClusterState → SetSlot → Type 0
Settles s o =
    (r : Option SetSlotError × ClusterState) × (o ≡ some r)
    × ((e : SetSlotError) → r.0 ≡ some e → r.1 ≡ s)

refuses : (s : ClusterState) (e : SetSlotError) → Settles s (some (some e, s))
refuses s e = (_, refl, λ e' h. refl)

succeeds : (s s' : ClusterState) → Settles s (some (none, s'))
succeeds s s' = (_, refl, λ e h. cc)

set_stable-Settles : (s : ClusterState) (o : ParsedSlot) → Settles s (set_stable s o)
unfolding set_stable
set_stable-Settles s (unparsed e) = refuses s e
set_stable-Settles s (parsed slot) = succeeds s (set_slot_stable s slot)

-- No write to the bitmap of this node is out of range.
own_slot-some :
    (s : ClusterState) (slot node me : ℕ)
    → slot < slot_count
    → (n : ClusterNode) × (own_slot s slot node me ≡ some n)
unfolding own_slot add_slot remove_slot
own_slot-some s slot node me h =
    let inside : ltb (slot / 64) slot_words ≡ true = ground arith in
    elim (Option-cases (own_slot s slot node me)) [
      | inl panics ↦ absurd (ground (arith, inside))
      | inr done ↦ done
    ]

assign_slot-some :
    (s : ClusterState) (slot node me : ℕ)
    → slot < slot_count
    → s.self ≡ some me
    → (s' : ClusterState) × (assign_slot s slot node ≡ some s')
unfolding assign_slot
assign_slot-some s slot node me h self =
    let (n, e) = own_slot-some s slot node me h in
    elim (Option-cases (assign_slot s slot node)) [
      | inl panics ↦ absurd (ground (arith, self, e))
      | inr done ↦ done
    ]

module _ (s : ClusterState) (me : ℕ) (self : s.self ≡ some me) where
  change_slot-Settles :
      (slot : ℕ) (word : Str) (node : Option ℕ) (id : Str)
      → slot < slot_count
      → Settles s (change_slot s slot word node id)
  unfolding change_slot
  change_slot-Settles slot word none id h = refuses s _
  change_slot-Settles slot word (some p) id h =
      let (s', e) = assign_slot-some s slot p me h self in
      if_both (Settles s) (str_eq word (bytes "importing")) _ _
        (λ _. succeeds s (importing_slots_from s slot p))
        λ _.
          if_both (Settles s) (str_eq word (bytes "migrating")) _ _
            (λ _. succeeds s (migrating_slots_to s slot p))
            λ _.
              if_both (Settles s) (str_eq word (bytes "node")) _ _ (λ _. rw e (succeeds s s'))
                (λ _. refuses s _)

  change_parsed-Settles :
      (word id : Str) (o : ParsedSlot)
      → ((slot : ℕ) → o ≡ parsed slot → slot < slot_count)
      → Settles s (change_parsed s word id o)
  unfolding change_parsed
  change_parsed-Settles word id (unparsed e) h = refuses s e
  change_parsed-Settles word id (parsed slot) h =
      change_slot-Settles slot (to_lower word) (get_node s id) id (h slot refl)

  -- ClusterSetSlot ends on any arguments, if this node is known, and where it returns an error it has
  -- changed nothing.
  pub cluster_set_slot-Settles : (args : List Str) → Settles s (cluster_set_slot s args)
  unfolding cluster_set_slot
  cluster_set_slot-Settles [] = refuses s _
  cluster_set_slot-Settles (a ∷ []) = refuses s _
  cluster_set_slot-Settles (a ∷ b ∷ []) =
      if_both (Settles s) (not (str_eq (to_lower b) (bytes "stable"))) _ _ (λ _. refuses s _)
        (λ _. set_stable-Settles s (parse_slot a))
  cluster_set_slot-Settles (a ∷ b ∷ id ∷ []) =
      change_parsed-Settles b id (parse_slot a) (parse_slot-parsed a)
  cluster_set_slot-Settles (a ∷ b ∷ id ∷ x ∷ args) = refuses s _
