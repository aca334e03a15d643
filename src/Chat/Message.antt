-- ===== src/Chat/Message.antt =====
-- src/modules/chat/domain/models/message.entity.ts with the events of domain/events and the enums
-- of domain/enums.
--
-- A method returns the entity as it leaves it and the events that it gives to `apply`; one that
-- throws returns the exception, and the entity is as it was. Each `new Date()` and `uuidv7()` is an
-- argument. Identifiers are uuids, read as numbers and only compared; so one that is given is never
-- the empty string. Times are in milliseconds.
mod Edit
mod Deletion
mod Creation
mod Lifecycle
mod Tests
pub use Edit.*
pub use Deletion.*
pub use Creation.*
pub use Lifecycle.*
mod Defs
unfoldable pub use Defs.*
