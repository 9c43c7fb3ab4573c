-- ===== src/Clusters/SetSlot/Assigned.antt =====
-- utils/clusters/cluster.go: SETSLOT <slot> NODE <id>.
use emberdb.Prelude.{
  ℕ, ◌<◌, ◌≡◌, ◌≢◌, refl, inl, inr, Option, none, some, [], ◌∷◌, arith, Str, bytes, str_eq, ◌==◌,
  if◌then◌else◌, Bool-cases,
}
use emberdb.Slot.{slot_count}
use emberdb.Clusters.Node.{ClusterNode, has_slot}
use emberdb.Clusters.Node.Bitmap.{Counted, add_slot_lem, remove_slot_lem}
use emberdb.Clusters.State.{ClusterState, get_node, with_node, set_slot_stable}
use emberdb.Clusters.SetSlot.{
  to_lower, parsed, parse_slot, own_slot, assign_slot, change_slot, change_parsed, cluster_set_slot,
  in_range,
}

pub parse_slot-parsed : (s : Str) (slot : ℕ) → parse_slot s ≡ parsed slot → slot < slot_count
unfolding parse_slot in_range
parse_slot-parsed s slot h = ground arith

-- The bitmap of this node has the slot afterwards if the new owner has its name, and else not.
own_slot_lem :
    (s : ClusterState) (slot node me : ℕ)
    → slot < slot_count
    → Counted (s.heap me)
    → (n : ClusterNode) × (own_slot s slot node me ≡ some n)
      × Counted n
      × ((t : ℕ)
          → has_slot n.owned_slots t ≡ (
              if slot == t
              then str_eq (s.heap node).name (s.heap me).name
              else has_slot (s.heap me).owned_slots t))
unfolding own_slot
own_slot_lem s slot node me h c =
    let self = s.heap me in
    elim (Bool-cases (str_eq (s.heap node).name self.name)) [
      | inl mine ↦
          let (n, e, c', owned, _) = add_slot_lem self slot h c in
          (n, ground (arith, mine, e), c', λ t. ground (arith, mine, owned t))
      | inr other ↦ elim (Bool-cases (has_slot self.owned_slots slot)) [
        | inl had ↦
            let (n, e, c', owned, _) = remove_slot_lem self slot h c in
            (n, ground (arith, other, had, e), c', λ t. ground (arith, other, owned t))
        | inr lacked ↦ (self, ground (arith, other, lacked), c, λ t. ground (arith, other, lacked))
      ]
    ]

-- What the state says once the slot has the node `p` for its owner.
pub record IsAssigned (s : ClusterState) (slot p me : ℕ) (s' : ClusterState) : Type 0 where
  pub table : (t : ℕ) → s'.slots t ≡ (if slot == t then some p else s.slots t)
  pub bitmap :
      (t : ℕ)
      → has_slot (s'.heap me).owned_slots t ≡ (
          if slot == t
          then str_eq (s.heap p).name (s.heap me).name
          else has_slot (s.heap me).owned_slots t)
  pub counted : Counted (s'.heap me)
  pub other_nodes : (i : ℕ) → i ≢ me → s'.heap i ≡ s.heap i
  pub importing : (t : ℕ) → s'.importing t ≡ (if slot == t then none else s.importing t)
  pub migrating : (t : ℕ) → s'.migrating t ≡ (if slot == t then none else s.migrating t)
  pub names : (s'.nodes ≡ s.nodes) × (s'.self ≡ s.self)

pub assign_slot-IsAssigned :
    (s : ClusterState) (slot p me : ℕ)
    → slot < slot_count
    → Counted (s.heap me)
    → s.self ≡ some me
    → (s' : ClusterState) × (assign_slot s slot p ≡ some s') × IsAssigned s slot p me s'
unfolding assign_slot set_slot_stable with_node
assign_slot-IsAssigned s slot p me h c self =
    let (n, e, c', owned) = own_slot_lem s slot p me h c in
    let table : ℕ → Option ℕ = λ i. if slot == i then some p else s.slots i in
    (
      set_slot_stable (with_node (record s { slots = table }) me n) slot,
      ground (arith, self, e),
      record {
        table = λ t. refl;
        bitmap = λ t. ground (arith, owned t);
        counted = ground arith;
        other_nodes = λ i other. ground arith;
        importing = λ t. refl;
        migrating = λ t. refl;
        names = (refl, refl);
      },
    )

-- SETSLOT with a slot number below 16384, the word NODE in any case and the name of a known node
-- succeeds. The slot then has that node in the routing table, it is neither importing nor migrating,
-- and the bitmap of this node has it if the name is its own, and else not. Every other slot, every
-- other node and the map of the nodes are as before, and the number of slots is right if it was.
pub set_slot_node_lem :
    (s : ClusterState) (arg word id : Str) (slot p me : ℕ)
    → parse_slot arg ≡ parsed slot
    → to_lower word ≡ bytes "node"
    → get_node s id ≡ some p
    → s.self ≡ some me
    → Counted (s.heap me)
    → (s' : ClusterState) × (cluster_set_slot s (arg ∷ word ∷ id ∷ []) ≡ some (none, s'))
      × IsAssigned s slot p me s'
unfolding cluster_set_slot change_parsed change_slot str_eq
set_slot_node_lem s arg word id slot p me number node known self c =
    let (s', e, done) =
      assign_slot-IsAssigned s slot p me (parse_slot-parsed arg slot number) c self in
    (s', rw (number, node, known, e) refl, done)
