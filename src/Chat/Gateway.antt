-- ===== src/Chat/Gateway.antt =====
-- src/modules/chat/presentation/ws/chat-ws.gateway.ts: what the socket's messages do, over the
-- command handlers; and the handlers of events/handlers for created messages and for blocks. A
-- handler of the gateway returns its response with what it has broadcast, which it does last.
pub mod Preview
pub mod Conversations
pub mod Messages
pub mod Arrival
pub mod MessageList
pub mod ConversationList
pub mod Listing
pub mod OwnName
pub mod Opening
pub mod Undone
pub mod Sending
pub mod Access
pub mod Changing
pub mod Hearing
mod OpeningTests
mod ListTests
mod Tests
