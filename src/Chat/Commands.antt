-- ===== src/Chat/Commands.antt =====
-- The command handlers of src/modules/chat/application/commands, over the ports of `Chat.Ports`.
-- A handler is its `execute`; what it logs is left out.
pub mod EditMessage
pub mod DeleteMessage
pub mod MarkAsRead
pub mod CreateDirect
pub mod CreateMessage
mod Tests
