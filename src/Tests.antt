-- ===== src/Tests.antt =====
-- The theorems at concrete inputs, and runs of the operations.
pub mod Fixture
mod Slots
mod Nodes
pub mod Messages
pub mod Clusters
pub mod Operations
mod Moves
mod Connections
mod Server
mod PubSub
mod Strings
mod Lists
mod Hashes
mod Sets
mod SortedSets
mod Keys
mod Dumps
