-- ===== src/Storage.antt =====
-- The repositories.
pub mod Results
pub mod GroupTypes
pub mod UserTypes
pub mod FriendTypes
pub mod Repos
pub mod SqlConnectionPool
pub mod PreparedStatementCache
pub mod MemoryGroupRepo
