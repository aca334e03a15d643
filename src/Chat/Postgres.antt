-- ===== src/Chat/Postgres.antt =====
-- The database of the chat context, src/modules/chat/infrastructure/database/postgres.
pub mod Entities
pub mod Database
pub mod Behaviour
pub mod Repository
pub mod EachMember
pub mod SaveMessage
pub mod Kept
pub mod Laws
pub mod LastMessage
pub mod Deletion
pub mod NewMessage
pub mod Rows
pub mod MessageRows
pub mod InMemory
pub mod Newest
pub mod Latest
pub mod Updates
pub mod ByClient
pub mod InMemoryLaws
pub mod Sample
mod Tests
