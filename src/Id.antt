-- ===== src/Id.antt =====
-- The identifiers.
pub mod SnowflakeIdGenerator
