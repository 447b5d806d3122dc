-- ===== src/Tests.antt =====
-- The theorems at concrete inputs: their hypotheses can hold.
pub mod Samples
pub mod Placements
pub mod Osds
pub mod Agents
pub mod Clusters
pub mod Copies
pub mod Nodes
pub mod Pools
pub mod Runs
pub mod Served
pub mod Settles
pub mod Synced
pub mod Overtaken
