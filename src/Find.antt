-- ===== src/Find.antt =====
-- portalnet/src/find: the iterative queries of the overlay network and the pool that drives them.
pub mod KeySpace
pub mod Query
pub mod ClosestPeers
pub mod FindNodes
pub mod FindContent
pub mod QueryPool
pub mod QueryInfo
