-- ===== src/Chat/Conversation.antt =====
-- src/modules/chat/domain/models/conversation.model.ts and conversation-member.model.ts.
--
-- The conventions are those of `Chat.Message`. The text of an error that names a user stands without
-- the user's identifier. The setters that only a mapper calls (`load…`) are record updates.
mod Members
mod Reading
mod Tests
pub use Members.*
pub use Reading.*
mod Defs
unfoldable pub use Defs.*
