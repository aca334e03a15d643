-- ===== src/Chat/Gateway/MessageList.antt =====
-- `getConversationMessageList` of the gateway.
use nestjs_chat.Base.{
  ℕ, Bool, false, not, ◌==◌, leb, Option, none, some, List, [], ◌∷◌, ◌++◌, Text, if◌then◌else◌,
  find, keep, includes, is_some, map, change, unique,
}
use nestjs_chat.Action.{Action, ◌>>=◌, read, pure}
use nestjs_chat.Pagination.{Real, Whole, parse}
use nestjs_chat.Chat.Message.{ChatEvent}
use nestjs_chat.Chat.Conversation.{is_direct}
use nestjs_chat.Chat.Ports.{
  ChatUser, MessageReadDto, QuotedMessageReadDto, ConversationReadDto, ConversationMemberReadDto,
  ConversationReadRepositoryPort, ConversationListsPort, UserListsPort,
}
use nestjs_chat.Chat.Rooms.{ReplyTo}
use nestjs_chat.Chat.Gateway.Preview.{is_dto_of, is_dto_of_other, get_user_conversation}
use nestjs_chat.Chat.Gateway.Messages.{user_ids_of}

pub record GetConversationMessageListRequest : Type 0 where
  pub conversation_id : ℕ
  pub page : Option Real
  pub page_size : Option Real

-- a user is shown by the identifier and the first name
pub record UserConversationMessageItem : Type 0 where
  pub id : ℕ
  pub content : Option Text
  pub created_at : ℕ
  pub edited_at : Option ℕ
  pub deleted_at : Option ℕ
  pub seen : Bool
  pub user : Option (ℕ × Option Text)
  pub reply_to_message_id : Option ℕ
  pub reply_to : Option (ReplyTo (ℕ × Option Text))
  pub client_message_id : Option Text

pub record UserConversationMessageMember : Type 0 where
  pub id : ℕ
  pub avatar : Option Text
  pub username : Text
  pub name : Option Text
  pub is_blocked : Bool

-- `username` is a user's, or the conversation's identifier
pub record GetConversationMessageListResponse : Type 0 where
  pub id : ℕ
  pub name : Option Text
  pub avatar : Option Text
  pub username : Option Text
  pub identifier : Option ℕ
  pub members : List UserConversationMessageMember
  pub total : ℕ
  pub page : Whole
  pub page_size : ℕ
  pub list : List UserConversationMessageItem

-- `new Map(users.map((u) => [u.id, u])).get(i)`: the last user of an identifier
abbrev pub user_by_id : ℕ → List ChatUser → Option ChatUser
user_by_id i [] = none
user_by_id i (u ∷ users) = elim (user_by_id i users) [
  | some later ↦ some later
  | none ↦ if u.id == i then some u else none
]

abbrev pub senders_of : List MessageReadDto → List ℕ
senders_of [] = []
senders_of (m ∷ ms) = m.sender_id ∷ senders_of ms

abbrev pub quoted_senders_of : List MessageReadDto → List ℕ
quoted_senders_of [] = []
quoted_senders_of (m ∷ ms) =
    let rest = quoted_senders_of ms in elim m.reply_to [ none ↦ rest | some q ↦ q.sender_id ∷ rest ]

abbrev pub last_seen_at : Option ConversationMemberReadDto → Option ℕ
last_seen_at none = none
last_seen_at (some m) = m.last_seen_message

-- `!!seenAt && createdAt <= seenAt`
abbrev pub is_seen : Option ℕ → (created_at : ℕ) → Bool
is_seen none created_at = false
is_seen (some at) created_at = leb created_at at

abbrev pub first_named : ChatUser → ℕ × Option Text
first_named u = (u.id, u.first_name)

abbrev pub quoted_view : List ChatUser → QuotedMessageReadDto → ReplyTo (ℕ × Option Text)
quoted_view users q = record {
  id = q.id;
  content = q.content;
  created_at = q.created_at;
  sender_id = q.sender_id;
  user = change first_named (user_by_id q.sender_id users);
}

-- when the reader of a message has seen its conversation last: the other one for the user's own
abbrev pub seen_at : ConversationReadDto → (auth_user_id sender_id : ℕ) → Option ℕ
seen_at conversation auth_user_id sender_id =
    if sender_id == auth_user_id
    then if is_direct conversation.type
      then last_seen_at (find (is_dto_of_other auth_user_id) conversation.members)
      else none
    else last_seen_at (find (is_dto_of auth_user_id) conversation.members)

abbrev pub message_item :
    ConversationReadDto
    → (auth_user_id : ℕ) → List ChatUser
    → MessageReadDto
    → UserConversationMessageItem
message_item conversation auth_user_id users item = record {
  id = item.id;
  content = if is_some item.deleted_at then none else some item.content;
  created_at = item.created_at;
  edited_at = item.edited_at;
  deleted_at = item.deleted_at;
  seen = is_seen (seen_at conversation auth_user_id item.sender_id) item.created_at;
  user = change first_named (user_by_id item.sender_id users);
  reply_to_message_id = item.reply_to_message_id;
  reply_to = change (quoted_view users) item.reply_to;
  client_message_id = item.client_message_id;
}

abbrev pub member_item : List ℕ → ChatUser → UserConversationMessageMember
member_item blocked u = record {
  id = u.id;
  avatar = u.avatar;
  username = u.username;
  name = u.first_name;
  is_blocked = includes u.id blocked;
}

abbrev pub is_other_user : ℕ → ChatUser → Bool
is_other_user i u = not (u.id == i)

abbrev pub ids_of : List ChatUser → List ℕ
ids_of [] = []
ids_of (u ∷ users) = u.id ∷ ids_of users

abbrev pub involved : List MessageReadDto → ConversationReadDto → List ℕ
involved messages conversation =
    unique []
      (senders_of messages ++ user_ids_of conversation.members ++ quoted_senders_of messages)

-- `isDirect ? of(otherUser) : of(conversation)`
abbrev pub other_user : ConversationReadDto → (auth_user_id : ℕ) → List ChatUser → Option ChatUser
other_user conversation auth_user_id users =
    elim (find (is_dto_of_other auth_user_id) conversation.members) [
      | none ↦ none
      | some m ↦ user_by_id m.user_id users
    ]

module _ {S : Type 0} (reads : ConversationReadRepositoryPort S) (lists : ConversationListsPort S)
    (users : UserListsPort S) where
  unfoldable pub ws_message_list :
      GetConversationMessageListRequest
      → (auth_user_id : ℕ) → Action S ChatEvent GetConversationMessageListResponse
  unfolding get_user_conversation parse
  ws_message_list request auth_user_id = do
    conversation ← read (get_user_conversation reads request.conversation_id auth_user_id)
    messages ← read (
        lists.get_user_conversation_message_list request.conversation_id auth_user_id
          (parse request.page request.page_size))
    found ← read (users.get_users_by_ids (involved messages.items conversation))
    blocked ← read (users.get_blocked_users_ids auth_user_id (ids_of found))
    let other = other_user conversation auth_user_id found
    let direct = is_direct conversation.type
    pure (record {
      id = conversation.id;
      name =
          if direct then elim other [ none ↦ none | some u ↦ u.first_name ] else conversation.title;
      avatar =
          if direct then elim other [ none ↦ none | some u ↦ u.avatar ] else conversation.picture;
      username = if direct then change (λ (u : ChatUser). u.username) other else none;
      identifier = if direct then none else conversation.identifier;
      members = map (member_item blocked) (keep (is_other_user auth_user_id) found);
      total = messages.meta.total;
      page = messages.meta.page;
      page_size = messages.meta.page_size;
      list = map (message_item conversation auth_user_id found) messages.items;
    })
