-- ===== src/Lib.antt =====
-- The domain and application core of a NestJS chat server: three bounded contexts (src/modules/chat,
-- user and auth), each with aggregates, command handlers on a CQRS bus, and ports to its database
-- and to the other contexts. Paths are from the repository's root.
--
-- How a handler is read. An `async execute` is a function of a world, which holds what the ports
-- keep and the events that were published, in order; `await` is sequencing, an exception is a value,
-- and `commit()` publishes what the aggregate gave to `apply`. Clocks and uuids are arguments, named
-- where they are drawn. Identifiers are numbers, texts are lists of UTF-16 code units. Handlers are
-- run one at a time: races between two requests are in the ports' answers alone.
--
-- The parts and their files.
--   Base, Base/Tests, Base/Lists, Base/Strings: Boolean tests, array and string methods.
--   Exceptions, Exceptions/Status: src/common/exceptions, the exceptions of the three contexts, and
--     what the two global filters (src/common/websocket/filters, src/common/http/filters) answer.
--   Action, Action/Inversion: the world, the actions and their case splits. Action/Store: the same
--     for what a port keeps alone, in which repositories are written.
--   Pagination, Pagination/Bounds: src/common/pagination.
--   Chat/Message/Defs: message.entity.ts, one function per method, with the events that it applies
--     (its field `text` is `content` here, since `text` is the constructor for MessageType.TEXT).
--     Chat/Message/{Creation, Edit, Deletion} are its laws, Lifecycle is every sequence of changes.
--   Chat/Conversation/Defs: conversation.model.ts and conversation-member.model.ts; Members and
--     Reading are its laws.
--   Chat/Ports: src/modules/chat/application/ports, and the laws that handlers rely on.
--   Chat/Commands: the six handlers of src/modules/chat/application/commands.
--   Chat/Postgres: the repository of src/modules/chat/infrastructure/database/postgres. Entities are
--     the rows and their maps, Database is what is asked of TypeORM with a view of the tables,
--     Behaviour its laws, Repository the eight operations. EachMember, SaveMessage, Kept and Laws
--     lead to the port's laws, LastMessage, NewMessage and Deletion to the members' last message,
--     Rows and MessageRows to what is found; InMemory is a database in lists that keeps the laws
--     (Newest, Latest, Updates, ByClient, InMemoryLaws), on which Sample has rows.
--   Chat/Rooms: the socket handlers of edited and deleted messages, with `serverBroadcast`, and
--     the events of presentation/ws/events.
--   Chat/Reads: a page of messages and one conversation of conversation-postgres-read.repository.ts.
--   Chat/Gateway: chat-ws.gateway.ts. Conversations and Messages are its handlers, Arrival the
--     socket handlers of created messages and of blocks, MessageList and ConversationList its two
--     lists; Opening, Undone, Sending, Changing, Access, Hearing, Listing and OwnName are about them.
--   Chat/InMemory: a repository in two lists, for the tests.
--   User/Model, User/Ports, User/Commands, User/Queries: user.model.ts, the handlers of
--     src/modules/user/application, and the chat context's adapter to them.
--   User/Blocks: `block`, `unblock` and `getBlockStatus` of user-postgres.repository.ts.
--   Auth/Token, Auth/Ports: refresh-token.entity.ts, token.service.ts and the ports.
--   Auth/RefreshTokens, Auth/Logout, Auth/Signin, Auth/Signup: the handlers of
--     src/modules/auth/application/commands and the saga that answers a failed sign-up.
--   Auth/Repository: auth-postgres.repository.ts, over a table.
--   Guard: base-ws-auth.guard.ts and base-http-auth.guard.ts of src/common.
--   Auth/InMemory: a table of tokens in a list, for the tests.
--
-- How they interact. A handler takes its ports as records of operations; a law that it needs of
-- them is a field of a record of laws. Auth/Repository and Chat/Postgres implement their ports over
-- tables; the gateway runs the command handlers and answers with what it broadcasts;
-- User/Blocks puts its three operations into the port of the user commands; User/Queries
-- gives the port by which the chat handlers ask whether users exist and block each other.
--
-- Bounds and fuel. The one loop without a bound of its own, the search for a free name in
-- create-user.handler.ts, runs on fuel: one round for each draw up to the first free name is enough.
-- Numbers are identifiers and times, which are compared, and one time in seconds is multiplied by
-- 1000: none is near the bounds of a JavaScript number. A page is one of NaN, the infinities and
-- fractions, where the code computes with what a client sends.
--
-- Not modelled. TypeORM, PostgreSQL, bcrypt, @nestjs/jwt and validator are parameters, with the
-- documented behaviour that the code relies on as named laws. The gateway's connections, and the
-- list of conversations of the read repository, are not modelled; controllers, the checks of DTOs,
-- wiring, migrations and logging only forward or do I/O.
pub mod Base
pub mod Exceptions
pub mod Action
pub mod Pagination
pub mod Chat
pub mod User
pub mod Auth
pub mod Guard
