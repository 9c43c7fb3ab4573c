-- ===== src/Clusters.antt =====
-- utils/clusters: the parts of the cluster layer that are modelled.
pub mod Rdb
pub mod Node
pub mod State
pub mod Message
pub mod Gossip
pub mod Bus
pub mod Reading
pub mod SetSlot
pub mod Reshard
pub mod Network
pub mod MoveSlots
pub mod Rebalance
pub mod Cron
