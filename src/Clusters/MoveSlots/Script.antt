-- ===== src/Clusters/MoveSlots/Script.antt =====
-- utils/clusters/cluster.go: the commands that a move of slots is made of, with their answers.
use emberdb.Prelude.{
  ℕ, ◌+◌, true, ◌||◌, ◌≡◌, refl, ◌∙◌, sym, some, List, [], ◌∷◌, ◌++◌, Str, bytes, str_eq,
  if◌then◌else◌, map,
}
use mathlib.Core.List.{append_assoc, append-nil}
use emberdb.Clusters.Node.{ClusterNode}
use emberdb.Clusters.Network.{
  Address, Event, dial, write, Answer, text, array, Net, address, setslot, keys_request,
  migrate_request,
}

-- A connection that succeeds, or a command with its answer.
pub data Turn : Type 0 where
  dials : Address → Turn
  writes : Address → List Str → Answer → Turn

abbrev pub event_of : Turn → Event
event_of (dials to) = dial to
event_of (writes to args r) = write to args

-- The network does its part of the turn after the events of `log`.
abbrev pub Does : Net → List Event → Turn → Type 0
Does net log (dials to) = net.reaches log (dial to) ≡ true
Does net log (writes to args r) = net.answer log (write to args) ≡ r

abbrev pub Follows : Net → List Event → List Turn → Type 0
Follows net log [] = Unit
Follows net log (t ∷ ts) = Does net log t × Follows net (log ++ (event_of t ∷ [])) ts

abbrev pub play : List Event → List Turn → List Event
play log [] = log
play log (t ∷ ts) = play (log ++ (event_of t ∷ [])) ts

pub play-append :
    (log : List Event) (ts us : List Turn) → play log (ts ++ us) ≡ play (play log ts) us
play-append log [] us = refl
play-append log (t ∷ ts) us = play-append (log ++ (event_of t ∷ [])) ts us

pub play-map : (log : List Event) (ts : List Turn) → play log ts ≡ log ++ map event_of ts
play-map log [] = sym (append-nil log)
play-map log (t ∷ ts) =
    play-map (log ++ (event_of t ∷ [])) ts ∙ append_assoc log (event_of t ∷ []) (map event_of ts)

pub Follows-append :
    (net : Net) (log : List Event) (ts us : List Turn)
    → Follows net log (ts ++ us)
    → Follows net log ts × Follows net (play log ts) us
Follows-append net log [] us h = (tt, h)
Follows-append net log (t ∷ ts) us h =
    let r = Follows-append net (log ++ (event_of t ∷ [])) ts us h.1 in ((h.0, r.0), r.1)

abbrev pub ok : Answer
ok = text (bytes "OK")

abbrev pub batch_script : ClusterNode → ClusterNode → ℕ → List Str → List Turn
batch_script src dst slot keys =
    writes (address src) (keys_request slot) (array (map some keys))
    ∷ writes (address src) (migrate_request dst keys) ok
    ∷ writes (address src) (bytes "DELETE" ∷ keys) ok
    ∷ []

-- The batches of a slot, and the empty one that ends them.
abbrev pub batches_script : ClusterNode → ClusterNode → ℕ → List (List Str) → List Turn
batches_script src dst slot [] = writes (address src) (keys_request slot) (array []) ∷ []
batches_script src dst slot (keys ∷ batches) =
    batch_script src dst slot keys ++ batches_script src dst slot batches

abbrev pub tell_script : ClusterNode → ClusterNode → ℕ → List (Str × ClusterNode) → List Turn
tell_script src dst slot [] = []
tell_script src dst slot ((name, n) ∷ rest) =
    let turns = tell_script src dst slot rest in
    if str_eq n.name dst.name || str_eq n.name src.name
    then turns
    else dials (address n) ∷ writes (address n) (setslot slot (bytes "NODE") dst.name) ok ∷ turns

abbrev pub assign_script : ClusterNode → ClusterNode → ℕ → List (Str × ClusterNode) → List Turn
assign_script src dst slot nodes =
    writes (address dst) (setslot slot (bytes "NODE") dst.name) ok
    ∷ writes (address src) (setslot slot (bytes "NODE") dst.name) ok
    ∷ tell_script src dst slot nodes

abbrev pub mark_script : ClusterNode → ClusterNode → ℕ → List Turn
mark_script src dst slot =
    writes (address dst) (setslot slot (bytes "IMPORTING") src.name) ok
    ∷ writes (address src) (setslot slot (bytes "MIGRATING") dst.name) ok
    ∷ []

abbrev pub slot_script :
    ClusterNode → ClusterNode → List (Str × ClusterNode) → (ℕ → List (List Str)) → ℕ → List Turn
slot_script src dst nodes batches slot =
    mark_script src dst slot
    ++ (batches_script src dst slot (batches slot) ++ assign_script src dst slot nodes)

abbrev pub slots_script :
    ClusterNode
    → ClusterNode
    → (ℕ → List (Str × ClusterNode))
    → (ℕ → List (List Str))
    → ℕ
    → List ℕ
    → List Turn
slots_script src dst visits batches k [] = []
slots_script src dst visits batches k (slot ∷ slots) =
    slot_script src dst (visits k) batches slot ++ slots_script src dst visits batches (k + 1) slots

-- The whole move: the two connections, and then each slot, the other nodes of the `k`-th told in the
-- order of `visits k`.
abbrev pub move_script :
    ClusterNode
    → ClusterNode
    → (ℕ → List (Str × ClusterNode))
    → (ℕ → List (List Str))
    → List ℕ
    → List Turn
move_script src dst visits batches slots =
    dials (address dst) ∷ dials (address src) ∷ slots_script src dst visits batches 0 slots
