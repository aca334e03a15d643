-- ===== src/Chat/Gateway/ConversationList.antt =====
-- `getUserConversationList` of the gateway.
use nestjs_chat.Base.{
  ℕ, Bool, true, false, not, ◌&&◌, ◌==◌, Option, none, some, List, [], ◌∷◌, ◌++◌, Text, is_blank,
  if◌then◌else◌, find, keep, map, change, unique,
}
use nestjs_chat.Action.{Action, ◌>>=◌, read, pure}
use nestjs_chat.Pagination.{Real, PaginatedResult, parse, create_result}
use nestjs_chat.Chat.Message.{ChatEvent}
use nestjs_chat.Chat.Conversation.{is_direct}
use nestjs_chat.Chat.Ports.{
  ChatUser, MessageReadDto, ConversationReadDto, ConversationListsPort, UserListsPort,
}
use nestjs_chat.Chat.Gateway.Preview.{full_name, is_dto_of, is_dto_of_other}
use nestjs_chat.Chat.Gateway.Messages.{user_ids_of}
use nestjs_chat.Chat.Gateway.MessageList.{user_by_id, last_seen_at, is_seen}

pub record GetUserConversationListRequest : Type 0 where
  pub target_user_id : Option ℕ
  pub filter : Text
  pub page : Option Real
  pub page_size : Option Real

-- a user is shown by the identifier, the username and the name
pub record UserConversationListItemMessage : Type 0 where
  pub id : ℕ
  pub content : Text
  pub created_at : ℕ
  pub seen : Bool
  pub user : Option (ℕ × Text × Text)

-- `identifier` is the conversation's, or a username
pub data Identifier : Type 0 where
  of_conversation : Option ℕ → Identifier
  of_user : Text → Identifier

pub record UserConversationListItem : Type 0 where
  pub id : ℕ
  pub title : Option Text
  pub picture : Option Text
  pub identifier : Identifier
  pub last_message : Option UserConversationListItemMessage
  pub not_seen_count : ℕ

abbrev pub last_senders : List ConversationReadDto → List ℕ
last_senders [] = []
last_senders (c ∷ cs) =
    let rest = last_senders cs in elim c.last_message [ none ↦ rest | some m ↦ m.sender_id ∷ rest ]

abbrev pub all_members : List ConversationReadDto → List ℕ
all_members [] = []
all_members (c ∷ cs) = user_ids_of c.members ++ all_members cs

abbrev pub triple : ChatUser → ℕ × Text × Text
triple u = (u.id, u.username, full_name u)

abbrev pub last_message_item :
    ConversationReadDto
    → (auth_user_id : ℕ) → List ChatUser
    → MessageReadDto
    → UserConversationListItemMessage
last_message_item item auth_user_id users m = record {
  id = m.id;
  content = m.content;
  created_at = m.created_at;
  seen =
      if m.sender_id == auth_user_id
      then is_direct item.type
        && is_seen (last_seen_at (find (is_dto_of_other auth_user_id) item.members)) m.created_at
      else is_seen (last_seen_at (find (is_dto_of auth_user_id) item.members)) m.created_at;
  user = change triple (user_by_id m.sender_id users);
}

-- the other user of a direct conversation, if known
abbrev pub partner : ConversationReadDto → (auth_user_id : ℕ) → List ChatUser → Option ChatUser
partner item auth_user_id users =
    if is_direct item.type
    then elim (find (is_dto_of_other auth_user_id) item.members) [
      | none ↦ none
      | some m ↦ user_by_id m.user_id users
    ]
    else none

abbrev pub conversation_item :
    (auth_user_id : ℕ) → List ChatUser → ConversationReadDto → UserConversationListItem
conversation_item auth_user_id users item =
    let other = partner item auth_user_id users in
    record {
      id = item.id;
      title = elim other [ none ↦ item.title | some u ↦ some (full_name u) ];
      picture = elim other [ none ↦ item.picture | some u ↦ u.avatar ];
      identifier = elim other [
        | none ↦ of_conversation item.identifier
        | some u ↦ of_user u.username
      ];
      last_message = change (last_message_item item auth_user_id users) item.last_message;
      not_seen_count = item.not_seen_count;
    }

abbrev pub is_other_id : ℕ → ℕ → Bool
is_other_id auth_user_id i = not (i == auth_user_id)

-- `if (data.targetUserId) filteredUserIds.push(data.targetUserId)`
abbrev pub with_target : Option ℕ → List ℕ → List ℕ
with_target none ids = ids
with_target (some i) ids = ids ++ i ∷ []

abbrev pub is_none : List ℕ → Bool
is_none [] = true
is_none (i ∷ ids) = false

module _ {S : Type 0} (lists : ConversationListsPort S) (users : UserListsPort S) where
  -- `if (data.filter) …`
  abbrev pub filtered_users : Text → Action S ChatEvent (List ℕ)
  filtered_users [] = pure []
  filtered_users (a ∷ filter) = read (users.get_user_ids_by_name_or_username (a ∷ filter))

  abbrev pub users_of : List ℕ → Action S ChatEvent (List ChatUser)
  users_of [] = pure []
  users_of (i ∷ ids) = read (users.get_users_by_ids (i ∷ ids))

  abbrev pub listed :
      (auth_user_id : ℕ)
      → PaginatedResult ConversationReadDto
      → Action S ChatEvent (PaginatedResult UserConversationListItem)
  listed auth_user_id conversations = do
    found ←
        users_of (unique [] (all_members conversations.items ++ last_senders conversations.items))
    pure (record {
      items = map (conversation_item auth_user_id found) conversations.items;
      meta = conversations.meta;
    })

  unfoldable pub ws_conversation_list :
      GetUserConversationListRequest
      → (auth_user_id : ℕ) → Action S ChatEvent (PaginatedResult UserConversationListItem)
  unfolding parse create_result
  ws_conversation_list request auth_user_id = do
    found ← filtered_users request.filter
    let filtered = with_target request.target_user_id found
    let pagination = parse request.page request.page_size
    if not (is_blank request.filter) && is_none filtered
        then pure (create_result [] 0 pagination)
        else do
          conversations ← read (
              lists.get_user_conversation_list auth_user_id (record {
                pagination = pagination;
                filter_user_ids = keep (is_other_id auth_user_id) filtered;
              }))
          elim conversations.items [
            | [] ↦ pure (record { items = []; meta = conversations.meta })
            | c ∷ cs ↦ listed auth_user_id conversations
          ]
