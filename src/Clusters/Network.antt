-- ===== src/Clusters/Network.antt =====
-- utils/clusters/cluster.go: what `clusterMoveSlots` sends to other servers, and what comes back;
-- ExpectStringResponse of utils/response.go.
use emberdb.Prelude.{ℕ, Bool, Option, none, some, List, [], ◌∷◌, Str, bytes, str_eq, if◌then◌else◌}
use emberdb.Prelude.Int.{pos}
use emberdb.Prelude.Decimal.{itoa}
use emberdb.Clusters.Node.{ClusterNode}

-- the host and the port of a connection
abbrev pub Address : Type 0
Address = Str × ℕ

-- What goes out to the network, in order.
pub data Event : Type 0 where
  dial : Address → Event
  write : Address → List Str → Event

-- What comes back: nothing, for a command that could not be written or a reply that could not be
-- read; a string; an array, with no value for an element that is not a string; or any other reply.
pub data Answer : Type 0 where
  unwritten unread : Answer
  text : Str → Answer
  array : List (Option Str) → Answer
  unexpected : Answer

-- The other servers, by the events before and the one that they answer.
pub record Net : Type 0 where
  pub reaches : List Event → Event → Bool
  pub answer : List Event → Event → Answer

-- the commands whose answer has to be OK
pub data Step : Type 0 where
  importing migrating migrate delete node_target node_source : Step
  node_other : Str → Step

pub data MoveError : Type 0 where
  unselected : ℕ → ℕ → MoveError
  no_source_host no_target_host nil_entry : Str → MoveError
  no_host unconnected_node : Str → ℕ → MoveError
  unconnected : Str → Address → MoveError
  unsent : Step → ℕ → MoveError
  not_ok : Step → ℕ → MoveError
  no_keys_sent no_keys_read not_array not_string : ℕ → MoveError

-- `(int, error)`
pub data MoveResult : Type 0 where
  result : ℕ → MoveResult
  error : MoveError → MoveResult

-- The events so far, and the error where there is one.
pub data Outcome : Type 0 where
  onward : List Event → Outcome
  stopped : List Event → MoveError → Outcome

abbrev pub address : ClusterNode → Address
address n = (n.host, n.client_port)

-- `strconv.FormatUint(slot, 10)`
abbrev pub number : ℕ → Str
number n = itoa (pos n)

abbrev pub setslot : ℕ → Str → Str → List Str
setslot slot word name = bytes "SETSLOT" ∷ number slot ∷ word ∷ name ∷ []

-- CLUSTER_SETSLOT_BATCH_SIZE is 10.
abbrev pub keys_request : ℕ → List Str
keys_request slot = bytes "GETKEYSINSLOT" ∷ number slot ∷ number 10 ∷ []

-- MIGRATE_TIMEOUT is 5000.
abbrev pub migrate_request : ClusterNode → List Str → List Str
migrate_request dst keys =
    bytes "MIGRATE"
    ∷ dst.host
    ∷ number dst.client_port
    ∷ []
    ∷ number 0
    ∷ number 5000
    ∷ bytes "KEYS"
    ∷ keys

-- The keys of a reply to GETKEYSINSLOT, or the error.
pub data Keys : Type 0 where
  keyed : List Str → Keys
  unkeyed : MoveError → Keys

with_key : Str → Keys → Keys
with_key key (keyed keys) = keyed (key ∷ keys)
with_key key (unkeyed e) = unkeyed e

unfoldable pub keys_in : ℕ → List (Option Str) → Keys
unfolding with_key
keys_in slot [] = keyed []
keys_in slot (none ∷ raws) = unkeyed (not_string slot)
keys_in slot (some key ∷ raws) = with_key key (keys_in slot raws)

unfoldable pub keys_of : ℕ → Answer → Keys
keys_of slot unwritten = unkeyed (no_keys_sent slot)
keys_of slot unread = unkeyed (no_keys_read slot)
keys_of slot (array raws) = keys_in slot raws
keys_of slot (text s) = unkeyed (not_array slot)
keys_of slot unexpected = unkeyed (not_array slot)

-- `utils.ExpectStringResponse(reader, "OK")`
unfoldable pub expect_ok : Step → ℕ → List Event → Answer → Outcome
expect_ok step slot log unwritten = stopped log (unsent step slot)
expect_ok step slot log (text s) =
    if str_eq s (bytes "OK") then onward log else stopped log (not_ok step slot)
expect_ok step slot log unread = stopped log (not_ok step slot)
expect_ok step slot log (array raws) = stopped log (not_ok step slot)
expect_ok step slot log unexpected = stopped log (not_ok step slot)
