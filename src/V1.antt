-- ===== src/V1.antt =====
-- Version 1 (v1/pkg).
pub mod ChannelPool
pub mod Channels
pub mod Frame
pub mod Startup
pub mod Taking
pub mod Rotation
pub mod ConnectionPool
pub mod Limits
