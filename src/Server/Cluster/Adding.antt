-- ===== src/Server/Cluster/Adding.antt =====
-- cmd/ember-server/commands_cluster.go: CLUSTER ADDSLOTSRANGE.
use emberdb.Prelude.{
  ℕ, zero, suc, ◌+◌, ◌-◌, ◌<◌, ◌≤◌, ◌≡◌, ◌≢◌, refl, true, ◌&&◌, Option, some, [], ◌∷◌, arith, ltb,
  leb, if◌then◌else◌, Str, Bool,
}
use emberdb.Prelude.Int.{pos}
use emberdb.Prelude.Decimal.{atoi}
use emberdb.Slot.{slot_count}
use emberdb.Clusters.Node.{Bitmap, has_slot, with_slot, add_slots, add_slot_range, set_owned_slots}
use emberdb.Clusters.Node.Bitmap.{Counted, has_slot-with_slot}
use emberdb.Clusters.State.{ClusterState, with_node}
use emberdb.Server.{ok}
use emberdb.Server.Cluster.{add_range, checked_range, handle_add_slots_range}

-- The loop of AddSlotRange sets the bits of its slots.
add_slots_lem :
    (count slot : ℕ) (slots : Bitmap)
    → slot + count ≤ slot_count
    → (slots' : Bitmap) × (add_slots count slot slots ≡ some slots')
      × ((t : ℕ)
          → has_slot slots' t
            ≡ (if leb slot t && ltb t (slot + count) then true else has_slot slots t))
unfolding add_slots
add_slots_lem zero slot slots h = (slots, refl, λ t. ground arith)
add_slots_lem (suc count) slot slots h =
    let (slots', e, owned) = add_slots_lem count (slot + 1) (with_slot slots slot) (omega arith) in
    (slots', ground (arith, e), λ t. ground (arith, owned t, has_slot-with_slot slots slot t))

abbrev within : ℕ → ℕ → ℕ → Bool
within start end t = leb start t && leb t end

-- The node `me` has the slots from `start` to `end`, in the table and in its bitmap, beside what it had.
pub record IsAdded (s : ClusterState) (start end me : ℕ) (s' : ClusterState) : Type 0 where
  pub table : (t : ℕ) → s'.slots t ≡ (if within start end t then some me else s.slots t)
  pub bitmap :
      (t : ℕ)
      → has_slot (s'.heap me).owned_slots t
        ≡ (if within start end t then true else has_slot (s.heap me).owned_slots t)
  pub counted : Counted (s'.heap me)
  pub other_nodes : (i : ℕ) → i ≢ me → s'.heap i ≡ s.heap i

add_range-IsAdded :
    (s : ClusterState) (start end me : ℕ)
    → s.self ≡ some me
    → start ≤ end
    → end < slot_count
    → (s' : ClusterState) × (add_range s start end ≡ some (ok ∷ [], s')) × IsAdded s start end me s'
unfolding add_range add_slot_range set_owned_slots with_node
add_range-IsAdded s start end me self low high =
    let n = s.heap me in
    let (slots, e, owned) = add_slots_lem (end + 1 - start) start n.owned_slots (omega arith) in
    let table : ℕ → Option ℕ = λ i. if within start end i then some me else s.slots i in
    (
      with_node (record s { slots = table }) me (set_owned_slots n slots),
      ground (arith, self, e),
      record {
        table = λ t. refl;
        bitmap = λ t. ground (arith, owned t);
        counted = ground arith;
        other_nodes = λ i other. ground arith;
      },
    )

-- CLUSTER ADDSLOTSRANGE with two numbers, the first not above the second and both below 16384, replies
-- OK. This node then has these slots in the routing table and in its bitmap, beside those it had, with
-- the right number of slots, and no other entry of the table and no other node changes.
pub handle_add_slots_range_lem :
    (s : ClusterState) (word a b : Str) (start end me : ℕ)
    → atoi a ≡ some (pos start)
    → atoi b ≡ some (pos end)
    → start ≤ end
    → end < slot_count
    → s.self ≡ some me
    → (s' : ClusterState) × (handle_add_slots_range s (word ∷ a ∷ b ∷ []) ≡ some (ok ∷ [], s'))
      × IsAdded s start end me s'
unfolding handle_add_slots_range checked_range
handle_add_slots_range_lem s word a b start end me first last low high self =
    let (s', e, added) = add_range-IsAdded s start end me self low high in
    (s', ground (arith, first, last, e), added)
