-- ===== src/Clusters/Node.antt =====
-- utils/clusters/node.go: a node and its bitmap of slots, and `countSlots` of cluster.go.
pub mod Bitmap
use emberdb.Prelude.{
  ℕ, zero, suc, ◌+◌, ◌-◌, ◌/◌, ◌%◌, ◌<◌, ◌≡◌, Bool, Option, none, some, Str, bytes, ◌++◌, ltb, ◌==◌,
  if◌then◌else◌,
}
use emberdb.Prelude.Int.{ℤ, pos, ◌+ℤ◌, wrap32}
use emberdb.Prelude.Words.{test_bit, set_bit, clear_bit, ones_count}

-- SLOT_WORDS
abbrev pub slot_words : ℕ
slot_words = 256

-- [SLOT_WORDS]uint64: the word at each index below 256
abbrev pub Bitmap : Type 0
Bitmap = ℕ → ℕ

-- The links to the node and the lock are not part of it; a time is a Unix time, 0 for the zero one.
pub record ClusterNode : Type 0 where
  pub name : Str
  pub host : Str
  pub client_port : ℕ
  pub cluster_bus_port : ℕ
  pub owned_slots : Bitmap
  pub num_slots : ℕ
  pub flags : ℕ
  pub tcp_host : Str
  pub tcp_port : ℕ
  pub pong_received : ℕ
  pub ping_sent : ℕ
  pub balance : ℤ

-- CLUSTER_BUS_PORT_INCR
abbrev pub bus_port_incr : ℕ
bus_port_incr = 10000

-- `uuid` stands for what `uuid.NewString` draws.
unfoldable pub new_node : Str → ℕ → Str → ℕ → Bool → ClusterNode
new_node uuid port host flags temp = record {
  name = if temp then bytes "temp_" ++ uuid else uuid;
  host = host;
  client_port = port;
  cluster_bus_port = port + bus_port_incr;
  owned_slots = λ _. 0;
  num_slots = 0;
  flags = flags;
  tcp_host = host;
  tcp_port = port;
  pong_received = 0;
  ping_sent = 0;
  balance = pos 0;
}

-- the bits of the first `n` words
unfoldable pub count_words : ℕ → Bitmap → ℕ
count_words zero slots = 0
count_words (suc n) slots = count_words n slots + ones_count 64 (slots n)

unfoldable pub count_slots : Bitmap → ℕ
count_slots slots = count_words slot_words slots

-- `slots[slot/64]&(1<<(slot%64)) != 0`
unfoldable pub has_slot : Bitmap → ℕ → Bool
has_slot slots slot = test_bit (slots (slot / 64)) (slot % 64)

-- `slots[slot/64] |= 1 << (slot%64)`
unfoldable pub with_slot : Bitmap → ℕ → Bitmap
with_slot slots slot i = if i == slot / 64 then set_bit (slots i) (slot % 64) else slots i

-- `slots[slot/64] &^= 1 << (slot%64)`
unfoldable pub without_slot : Bitmap → ℕ → Bitmap
without_slot slots slot i = if i == slot / 64 then clear_bit (slots i) (slot % 64) else slots i

unfoldable pub set_owned_slots : ClusterNode → Bitmap → ClusterNode
set_owned_slots n slots = record n { owned_slots = slots; num_slots = count_slots slots }

-- A slot from 16384 on is out of range, and panics: no value.
unfoldable pub add_slot : ClusterNode → ℕ → Option ClusterNode
unfolding set_owned_slots
add_slot n slot =
    if ltb (slot / 64) slot_words
    then some (set_owned_slots n (with_slot n.owned_slots slot))
    else none

-- The loop of `AddSlotRange`, of `count` rounds from `slot` on.
unfoldable pub add_slots : ℕ → ℕ → Bitmap → Option Bitmap
add_slots zero slot slots = some slots
add_slots (suc count) slot slots =
    let rest = add_slots count (slot + 1) (with_slot slots slot) in
    if ltb (slot / 64) slot_words then rest else none

unfoldable pub add_slot_range : ClusterNode → ℕ → ℕ → Option ClusterNode
unfolding set_owned_slots
add_slot_range n start end = elim (add_slots (end + 1 - start) start n.owned_slots) [
  | none ↦ none
  | some slots ↦ some (set_owned_slots n slots)
]

unfoldable pub remove_slot : ClusterNode → ℕ → Option ClusterNode
unfolding set_owned_slots
remove_slot n slot =
    if ltb (slot / 64) slot_words
    then some (set_owned_slots n (without_slot n.owned_slots slot))
    else none

-- `n.TransferSlot(from, slot)`: the nodes `from` and `n` afterwards, which are not the same one.
unfoldable pub transfer_slot : ClusterNode → ClusterNode → ℕ → Option (ClusterNode × ClusterNode)
unfolding set_owned_slots
transfer_slot from n slot =
    if ltb (slot / 64) slot_words
    then some (
      set_owned_slots from (without_slot from.owned_slots slot),
      set_owned_slots n (with_slot n.owned_slots slot),
    )
    else none

-- `balance += delta` on an int32
unfoldable pub adjust_balance : ClusterNode → ℤ → ClusterNode
adjust_balance n delta = record n { balance = wrap32 (n.balance +ℤ delta) }

unfoldable pub set_balance : ClusterNode → ℤ → ClusterNode
set_balance n balance = record n { balance = balance }

unfoldable pub set_ping_sent : ClusterNode → ℕ → ClusterNode
set_ping_sent n t = record n { ping_sent = t }

unfoldable pub mark_pong_received : ClusterNode → ℕ → ClusterNode
mark_pong_received n t = record n { pong_received = t; ping_sent = 0 }

unfoldable pub update_gossip : ClusterNode → Str → ℕ → ℕ → ℕ → ClusterNode
update_gossip n name client_port cluster_bus_port flags = record n {
  name = name;
  client_port = client_port;
  tcp_port = client_port;
  cluster_bus_port = cluster_bus_port;
  flags = flags;
}

unfoldable pub update_message : ClusterNode → Str → ℕ → ℕ → ℕ → Bitmap → ClusterNode
unfolding update_gossip set_owned_slots
update_message n name client_port cluster_bus_port flags slots =
    set_owned_slots (update_gossip n name client_port cluster_bus_port flags) slots
