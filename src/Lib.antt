-- ===== src/Lib.antt =====
-- EmberDB: an in-memory database server with a cluster mode: its key-value store, the commands on
-- it, the routing of keys between nodes, the dumps that move a key, and the cluster bus, on which
-- the nodes tell each other what they own, with the operations that move slots between nodes.
--
-- In standalone mode the store keeps one map for each type of value; in cluster mode it keeps
-- 16384 shards, each a map from keys to tagged values, and a key lies in the shard of its hash
-- slot. Every operation is modelled in both modes, and the theorems are about what a client can
-- read, which Store.Views defines: the value of each of the five types at a key.
--
--   Prelude         what the components share: byte strings, lists, Boolean tests, 64-bit
--                   integers, strconv.Atoi and Itoa, sort.Strings and sort.SliceStable,
--                   what sort.Slice promises, and encoding/binary's big-endian integers
--   Dict            Go maps with string keys; their representation is private
--   Slot            utils/kvstore/kvstore.go: SlotForKey
--   Store           utils/kvstore/kvstore.go and shard.go: the data types, NewKVStore, the shard
--                   of a key and access to it
--   Strings         utils/kvstore/strings.go, and applyDelta of kvstore.go
--   Lists           utils/kvstore/lists.go
--   Hashes          utils/kvstore/hashes.go
--   Sets            utils/kvstore/sets.go
--   SortedSets      utils/kvstore/sortedsets.go
--   Keys            utils/kvstore/kvstore.go: Delete, FlushAll, GetKeysInSlot
--   Clusters.Rdb    utils/clusters/rdb.go: EncodeBinaryDump, RestoreDataFromBinaryDump
--   Clusters.Node   utils/clusters/node.go: NewNode, the bitmap of slots and updates of a node;
--                   countSlots of cluster.go
--   Clusters.State  utils/clusters/state.go: the nodes that a node knows, GetSlotOwner
--   Clusters.Message  utils/clusters/message.go: the messages of the bus, encoded and decoded
--   Clusters.Gossip   utils/clusters/gossip.go: clusterSetGossipEntry, clusterProcessGossip
--   Clusters.Bus      utils/clusters/gossip.go and cluster.go: clusterProcessMsg, clusterSendPing,
--                     ClusterStartHandshake
--   Clusters.Reading  utils/clusters/link.go: clusterReadLoop over the bytes of a connection
--   Clusters.Cron     utils/clusters/cluster.go: ClusterCron
--   Clusters.SetSlot  utils/clusters/cluster.go: ClusterSetSlot
--   Clusters.Reshard  utils/clusters/cluster.go: clusterComputeReshardTable
--   Clusters.Rebalance  utils/clusters/cluster.go: ClusterRebalanceNodes
--   Clusters.Network    what is sent to other servers, and their answers; ExpectStringResponse of
--                       utils/response.go
--   Clusters.MoveSlots  utils/clusters/cluster.go: clusterMoveSlots
--   Server          cmd/ember-server/commands_cluster.go: toMoveorNotToMove, and the replies
--   Server.*        cmd/ember-server/commands.go and commands_*.go: the handlers, one file each
--   Server.Dispatch cmd/ember-server/main.go: the switch of handleConnection, for the store
--   Server.Routing  what the commands reply, and where they are carried out
--   Server.Connection     cmd/ember-server/main.go: handleConnection, for any number of connections
--   Server.Subscriptions  cmd/ember-server/commands_pubsub.go, and the end of a connection
--   Placement       where the keys of the store lie, over all commands
--   PubSub          utils/pubsub/pubsub.go, over a heap of Go channels
--   Tests           concrete stores
--
-- A Go method on *KVStore is a function from the store to its result and the next store. The
-- source's names are kept in lower case with underscores: LPush is `lpush`, GetKeysInSlot is
-- `get_keys_in_slot`. Each method holds the lock of its shard, or of the store, from its first
-- access to its last, so that it is one step of the model; a concurrent run is a sequence of such
-- steps. FlushAll is the exception in cluster mode, where it locks one shard after the other.
--
-- A handler takes the store and the arguments to the list of the replies it writes and the next
-- store, or to none where it panics. It routes its key by `to_move_or_not_to_move` in cluster mode.
-- Cluster nodes are shared by pointers; they lie on a heap, and a pointer is an index into it.
--
-- Bytes and indices are native natural numbers, and a string is the list of its bytes. An `int` is
-- an integer; sums wrap around at 64 bits. `itoa` prints digits on fuel 20, enough for every
-- 64-bit integer. A nil map reads like an empty one, which makes `ensure` the identity on what the
-- model keeps; a write to a nil map, which would panic, occurs nowhere, since each write follows
-- `ensure`, `make` or a successful lookup. A slice is a list: no operation writes to an element
-- that another slice still shows. `list[start:end+1]` and
-- `args[i+1]` out of range have no value, like every other panic.
--
-- Go chooses the order in which `range` visits a map anew each time. Where the outcome depends on it,
-- the order is an argument: of GetSlotOwner the names in order, of a command that calls it the orders
-- of its successive calls, as the field `visits` of `Server`, and of clusterMoveSlots the entries in
-- the order of each slot. Elsewhere it is the order of `Dict.keys`; the results of HGETALL and
-- SMEMBERS are sorted and do not depend on it. sort.Slice, which is not stable, is a parameter that
-- permutes and sorts.
--
-- The checksum CRC16, the parsing of scores and their order are the fields of the parameter
-- `Runtime`, since the first is a third-party function and the scores are floating-point numbers.
--
-- The bus hands messages from node to node: clusterReadLoop cuts the bytes of a connection into
-- frames and decodes each (Message), clusterProcessMsg stores the sender and takes in the gossip
-- (Gossip), and a PING is answered with a PONG (Bus). A link has all the
-- buffers ever put into its channel; a full channel, which makes the sender wait, only delays a step.
-- The UUIDs of new nodes, the random draws and the times are functions of a count, over all of which
-- the theorems range. The reading loop has fuel, one round more than there are bytes, which is enough
-- since each round takes eight at least; so has the rebalance, one round for each node, since its two
-- indices meet in the middle. The batches of a moved slot end where the source has no key left, so
-- that their fuel is a hypothesis: more than the batches that the source tells of.
--
-- Other servers are parameters: an arbitrary function of the events so far gives each answer to a
-- command that clusterMoveSlots sends, and MIGRATE has the outcome of RESTORE-ASKING for a parameter.
-- ClusterRebalanceNodes takes the outcome of each move as a function of the move, CLUSTER MEET that of
-- its handshake as a function of the state, and CLUSTER NODES json.Marshal.
--
-- Not modelled: letters other than ASCII ones in the words of SETSLOT, which strings.ToLower may make
-- ASCII; the counter CommandsProcessed and the expiration times, which no operation of the
-- store reads; locks; the links that a node's record holds; the text of the errors of strconv.Atoi
-- in replies; ClusterMeet, writeClusterCommand, the write loop of a link and the goroutines, which
-- are network calls; the RESP protocol (utils/go-resp, a copy of another library); the command line
-- client, the benchmarks and the launcher.

mod Prelude
pub mod Dict
pub mod Slot
pub mod Store
pub mod Strings
pub mod Lists
pub mod Hashes
pub mod Sets
pub mod SortedSets
pub mod Keys
pub mod Placement
pub mod Clusters
pub mod Server
pub mod PubSub
mod Tests
