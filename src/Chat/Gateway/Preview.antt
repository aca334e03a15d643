-- ===== src/Chat/Gateway/Preview.antt =====
-- What is shown of users and of the message that another one replies to.
use nestjs_chat.Base.{
  ℕ, Bool, true, false, ◌==◌, Option, none, some, List, [], ◌∷◌, ◌++◌, Text, if◌then◌else◌, is_some,
  get_or, change,
}
use nestjs_chat.Action.{Read, ok, err}
use nestjs_chat.Exceptions.{domain, conversation_not_found}
use nestjs_chat.Chat.Message.{MessageEntity}
use nestjs_chat.Chat.Ports.{
  ChatUser, UserIntegrationPort, ConversationReadDto, ConversationMemberReadDto,
  ConversationReadRepositoryPort,
}
use nestjs_chat.Chat.Rooms.{ReplyTo, WsEvent, Emission}

-- `${name}`, where a missing name is printed as null
abbrev pub printed : Option Text → Text
printed none = 110 ∷ 117 ∷ 108 ∷ 108 ∷ []
printed (some name) = name

-- `${user.firstName} ${user.lastName}`
abbrev pub full_name : ChatUser → Text
full_name u = printed u.first_name ++ 32 ∷ printed u.last_name

-- `replyTo`: `show` is what is shown of the user
abbrev pub reply_view :
    {U : Type 0}
    → (ChatUser → U)
    → MessageEntity
    → (parent_user_id : Option ℕ) → Option ChatUser
    → ReplyTo U
reply_view show parent parent_user_id user = record {
  id = parent.id;
  content = if is_some parent.deleted_at then none else some parent.content;
  created_at = parent.created_at;
  sender_id = get_or parent_user_id parent.sender_id;
  user = change show user;
}

-- `parentUser`
abbrev pub parent_user :
    {S : Type 0}
    → UserIntegrationPort S
    → (current target : ChatUser) → Option ℕ
    → Read S (Option ChatUser)
parent_user users current target none s = ok none
parent_user users current target (some i) s =
    if i == current.id
    then ok (some current)
    else if i == target.id
    then ok (some target)
    else elim (users.get_user_by_id i s) [ ok u ↦ ok (some u) | err e ↦ err e ]

-- `client.broadcast.to(rooms).emit(…)`: as the server's, but for the client's own socket
abbrev pub broadcast : List ℕ → WsEvent → List Emission
broadcast [] event = []
broadcast (room ∷ rooms) event = record { rooms = room ∷ rooms; event = event } ∷ []

-- `members.find((m) => m.userId !== userId)` and `members.some((m) => m.userId === userId)`
abbrev pub is_dto_of : ℕ → ConversationMemberReadDto → Bool
is_dto_of user_id m = m.user_id == user_id

abbrev pub is_dto_of_other : ℕ → ConversationMemberReadDto → Bool
is_dto_of_other user_id m = if m.user_id == user_id then false else true

-- get-user-conversation.handler.ts
unfoldable pub get_user_conversation :
    {S : Type 0}
    → ConversationReadRepositoryPort S
    → (conversation_id user_id : ℕ) → Read S ConversationReadDto
get_user_conversation reads conversation_id user_id s =
    elim (reads.get_user_conversation_by_id conversation_id user_id s) [
      | err e ↦ err e
      | ok found ↦ elim found [
        | none ↦ err (domain (conversation_not_found none))
        | some conversation ↦ ok conversation
      ]
    ]
