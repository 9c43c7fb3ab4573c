-- ===== src/Clusters/SetSlot.antt =====
-- utils/clusters/cluster.go: SETSLOT, which marks a slot that moves and names its new owner.
pub mod Assigned
pub mod Refused
use emberdb.Prelude.{
  ℕ, ◌≡◌, Option, none, some, List, [], ◌∷◌, Str, bytes, lower_byte, str_eq, ltb, ◌==◌, not,
  if◌then◌else◌, map,
}
use emberdb.Prelude.Reader.{◌>>=◌}
use emberdb.Prelude.Int.{ℤ, pos, negsuc}
use emberdb.Prelude.Decimal.{atoi}
use emberdb.Clusters.Node.{ClusterNode, has_slot, add_slot, remove_slot}
use emberdb.Clusters.State.{
  ClusterState, get_node, with_node, set_slot_stable, importing_slots_from, migrating_slots_to,
}

-- the errors of `ClusterSetSlot`
pub data SetSlotError : Type 0 where
  invalid_arguments invalid_slot invalid_range : SetSlotError
  unknown_node unsupported_state : Str → SetSlotError

-- The error, if any, and the state afterwards; no value stands for a panic.
abbrev pub SetSlot : Type 0
SetSlot = Option (Option SetSlotError × ClusterState)

-- `strings.ToLower` on ASCII letters; on other ones, which the model keeps, it follows Unicode
abbrev pub to_lower : Str → Str
to_lower s = map lower_byte s

-- the slot of an argument, or the error
pub data ParsedSlot : Type 0 where
  parsed : ℕ → ParsedSlot
  unparsed : SetSlotError → ParsedSlot

in_range : Option ℤ → ParsedSlot
in_range none = unparsed invalid_slot
in_range (some (negsuc n)) = unparsed invalid_range
in_range (some (pos n)) = if ltb 16383 n then unparsed invalid_range else parsed n

unfoldable pub parse_slot : Str → ParsedSlot
unfolding in_range
parse_slot s = in_range (atoi s)

unfoldable pub set_stable : ClusterState → ParsedSlot → SetSlot
set_stable s (unparsed e) = some (some e, s)
set_stable s (parsed slot) = some (none, set_slot_stable s slot)

-- The bitmap of this node, `me`, once `node` has the slot.
unfoldable pub own_slot : ClusterState → ℕ → ℕ → ℕ → Option ClusterNode
own_slot s slot node me =
    let self = s.heap me in
    if str_eq (s.heap node).name self.name
    then add_slot self slot
    else if has_slot self.owned_slots slot
    then remove_slot self slot
    else some self

-- the state "node": the routing table, the bitmap of this node, and the end of the migration
unfoldable pub assign_slot : ClusterState → ℕ → ℕ → Option ClusterState
assign_slot s slot node = do
  me ← s.self
  self ← own_slot s slot node me
  some (
      set_slot_stable
        (with_node (record s { slots = λ i. if slot == i then some node else s.slots i }) me self)
        slot)

unfoldable pub change_slot : ClusterState → ℕ → Str → Option ℕ → Str → SetSlot
change_slot s slot word none id = some (some (unknown_node id), s)
change_slot s slot word (some node) id =
    if str_eq word (bytes "importing")
    then some (none, importing_slots_from s slot node)
    else if str_eq word (bytes "migrating")
    then some (none, migrating_slots_to s slot node)
    else if str_eq word (bytes "node")
    then (do s' ← assign_slot s slot node; some (none, s'))
    else some (some (unsupported_state word), s)

unfoldable pub change_parsed : ClusterState → Str → Str → ParsedSlot → SetSlot
change_parsed s word id (unparsed e) = some (some e, s)
change_parsed s word id (parsed slot) = change_slot s slot (to_lower word) (get_node s id) id

unfoldable pub cluster_set_slot : ClusterState → List Str → SetSlot
cluster_set_slot s (slot ∷ word ∷ []) =
    if not (str_eq (to_lower word) (bytes "stable"))
    then some (some invalid_arguments, s)
    else set_stable s (parse_slot slot)
cluster_set_slot s (slot ∷ word ∷ id ∷ []) = change_parsed s word id (parse_slot slot)
cluster_set_slot s _ = some (some invalid_arguments, s)
