-- ===== src/User.antt =====
-- The user context, src/modules/user.
pub mod Model
pub mod Ports
pub mod Commands
pub mod Queries
pub mod Blocks
