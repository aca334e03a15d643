-- ===== src/Chat/Reads.antt =====
-- conversation-postgres-read.repository.ts: `getUserConversationMessageList` and
-- `getUserConversationById`. What they ask of TypeORM is a parameter.
pub mod Masking
mod Tests
use nestjs_chat.Base.{
  ℕ, Bool, true, false, ◌||◌, Option, none, some, List, [], ◌∷◌, Text, if◌then◌else◌, includes,
  is_some, map, change,
}
use nestjs_chat.Action.{Result, Read, ok, err}
use nestjs_chat.Pagination.{PaginationOptions, PaginatedResult, create_result}
use nestjs_chat.Chat.Message.{MessageType}
use nestjs_chat.Chat.Ports.{
  QuotedMessageReadDto, MessageReadDto, ConversationReadDto, ConversationMemberReadDto,
}
use nestjs_chat.Chat.Postgres.Entities.{Message, Conversation, ConversationMember, DeletedMessage}

-- a message with its sender, and the one that it replies to with its own
pub record MessageRow : Type 0 where
  pub message : Message
  pub sender : Option ConversationMember
  pub reply_to_message : Option (Message × Option ConversationMember)

-- a member with the message that the member has last seen
pub record MemberRow : Type 0 where
  pub member : ConversationMember
  pub last_seen_message : Option Message

pub record ReadDatabase (T : Type 0) : Type 0 where
  -- the messages of the conversation that are not hidden from the user, latest first, cut to the
  -- page; and how many there are
  pub find_messages :
      (conversation_id user_id : ℕ) → PaginationOptions → Read T (List MessageRow × ℕ)
  -- of these messages, those hidden from the user
  pub find_deleted : (user_id : ℕ) → List ℕ → Read T (List DeletedMessage)
  pub find_conversation :
      (conversation_id user_id : ℕ) → Read T (Option (Conversation × List MemberRow))

-- `m.sender ? m.sender.user_id : m.sender_id`
abbrev pub sender_of : Option ConversationMember → ℕ → ℕ
sender_of none i = i
sender_of (some m) i = m.user_id

abbrev pub reply_ids : List MessageRow → List ℕ
reply_ids [] = []
reply_ids (row ∷ rows) =
    let rest = reply_ids rows in
    elim row.message.reply_to_message_id [ none ↦ rest | some i ↦ i ∷ rest ]

abbrev pub message_ids : List DeletedMessage → List ℕ
message_ids [] = []
message_ids (d ∷ ds) = d.message_id ∷ message_ids ds

-- `replyTo`; `now` is the time of reading
abbrev pub reply_dto : ℕ → List ℕ → Message × Option ConversationMember → QuotedMessageReadDto
reply_dto now hidden (rm, sender) = record {
  id = rm.id;
  content = if is_some rm.deleted_at || includes rm.id hidden then none else some rm.content;
  type = rm.type;
  sender_id = sender_of sender rm.sender_id;
  created_at = rm.created_at;
  deleted_at =
      if is_some rm.deleted_at
      then rm.deleted_at
      else if includes rm.id hidden
      then some now
      else none;
}

abbrev pub message_dto : ℕ → List ℕ → MessageRow → MessageReadDto
message_dto now hidden row = record {
  id = row.message.id;
  content = if is_some row.message.deleted_at then [] else row.message.content;
  type = row.message.type;
  sender_id = sender_of row.sender row.message.sender_id;
  created_at = row.message.created_at;
  edited_at = row.message.edited_at;
  deleted_at = row.message.deleted_at;
  reply_to_message_id = row.message.reply_to_message_id;
  reply_to = change (reply_dto now hidden) row.reply_to_message;
  client_message_id = row.message.client_message_id;
}

abbrev pub member_dto : MemberRow → ConversationMemberReadDto
member_dto row = record {
  id = row.member.id;
  user_id = row.member.user_id;
  last_seen_message_id = row.member.last_seen_message_id;
  last_seen_message = change (λ (m : Message). m.created_at) row.last_seen_message;
  last_message_id = row.member.last_message_id;
}

abbrev pub conversation_dto : Conversation × List MemberRow → ConversationReadDto
conversation_dto (c, members) = record {
  id = c.id;
  type = c.type;
  identifier = c.identifier;
  title = c.title;
  picture = c.picture;
  created_at = c.created_at;
  updated_at = c.updated_at;
  members = map member_dto members;
  last_message = none;
  not_seen_count = 0;
}

module _ {T : Type 0} (db : ReadDatabase T) where
  -- `deletedReplySet`
  abbrev pub hidden_replies : (user_id : ℕ) → List ℕ → Read T (List ℕ)
  hidden_replies user_id [] t = ok []
  hidden_replies user_id (i ∷ ids) t = elim (db.find_deleted user_id (i ∷ ids) t) [
    | err e ↦ err e
    | ok ds ↦ ok (message_ids ds)
  ]

  unfoldable pub get_user_conversation_message_list :
      (now conversation_id user_id : ℕ)
      → PaginationOptions
      → Read T (PaginatedResult MessageReadDto)
  unfolding create_result
  get_user_conversation_message_list now conversation_id user_id pagination t =
      elim (db.find_messages conversation_id user_id pagination t) [
        | err e ↦ err e
        | ok (rows, count) ↦ elim (hidden_replies user_id (reply_ids rows) t) [
          | err e ↦ err e
          | ok hidden ↦ ok (create_result (map (message_dto now hidden) rows) count pagination)
        ]
      ]

  unfoldable pub get_user_conversation_by_id :
      (conversation_id user_id : ℕ) → Read T (Option ConversationReadDto)
  get_user_conversation_by_id conversation_id user_id t =
      elim (db.find_conversation conversation_id user_id t) [
        | err e ↦ err e
        | ok res ↦ ok (change conversation_dto res)
      ]
