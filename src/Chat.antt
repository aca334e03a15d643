-- ===== src/Chat.antt =====
-- The chat context, src/modules/chat.
pub mod Message
pub mod Conversation
pub mod Ports
pub mod InMemory
pub mod Commands
pub mod Postgres
pub mod Rooms
pub mod Reads
pub mod Gateway
