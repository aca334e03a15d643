-- ===== src/Chat/Message/Defs.antt =====
-- The definitions of message.entity.ts.
use nestjs_chat.Base.{
  ℕ, Bool, true, Option, none, some, List, [], ◌∷◌, ◌++◌, not, ◌==◌, ltb, if◌then◌else◌, length,
  includes, Text, text_eq, trim, is_blank, is_some, is_id,
}
use nestjs_chat.Exceptions.{domain, message_not_found, not_message_owner, chat_domain_error}
use nestjs_chat.Action.{Result, ok, err}

pub data MessageType : Type 0 where
  text : MessageType

abbrev pub is_text : MessageType → Bool
is_text text = true

pub data MessageDeleteScope : Type 0 where
  me everyone : MessageDeleteScope

pub record MessageEntity : Type 0 where
  pub id : ℕ
  pub created_at : ℕ
  pub updated_at : ℕ
  pub content : Text
  pub type : MessageType
  pub sender_id : ℕ
  pub conversation_id : ℕ
  pub deleted_for_user_ids : List ℕ
  pub deleted_at : Option ℕ
  pub edited_at : Option ℕ
  pub reply_to_message_id : Option ℕ
  pub client_message_id : Option Text

pub record MessageCreatedDomainEvent : Type 0 where
  pub message_id : ℕ
  pub conversation_id : ℕ
  pub sender_id : ℕ
  pub content : Text
  pub deleted_for_user_ids : List ℕ
  pub created_at : ℕ
  pub reply_to_message_id : Option ℕ
  pub client_message_id : Option Text

pub record MessageEditedDomainEvent : Type 0 where
  pub message_id : ℕ
  pub conversation_id : ℕ
  pub sender_id : ℕ
  pub content : Text
  pub deleted_for_user_ids : List ℕ
  pub edited_at : ℕ

pub record MessageDeletedDomainEvent : Type 0 where
  pub message_id : ℕ
  pub conversation_id : ℕ
  pub scope : MessageDeleteScope
  pub actor_user_id : ℕ
  pub deleted_for_user_ids : List ℕ
  pub deleted_at : Option ℕ

pub data ChatEvent : Type 0 where
  message_created : MessageCreatedDomainEvent → ChatEvent
  message_edited : MessageEditedDomainEvent → ChatEvent
  message_deleted : MessageDeletedDomainEvent → ChatEvent

-- The check of `clientMessageId` in `create`.
unfoldable pub validate_client_message_id : Option Text → Result (Option Text)
validate_client_message_id none = ok none
validate_client_message_id (some s) =
    if is_blank (trim s)
    then err (domain (chat_domain_error "clientMessageId cannot be empty"))
    else if ltb 255 (length (trim s))
    then err (domain (chat_domain_error "clientMessageId cannot exceed 255 characters"))
    else ok (some (trim s))

-- `create` after the checks: `new MessageEntity(…)` and the event.
abbrev pub created :
    (id now : ℕ)
    → Text
    → MessageType
    → (sender_id conversation_id : ℕ) → List ℕ
    → Option ℕ
    → Option Text
    → MessageEntity × List ChatEvent
created id now content type sender_id conversation_id hidden reply client = (
  record {
    id = id;
    created_at = now;
    updated_at = now;
    content = content;
    type = type;
    sender_id = sender_id;
    conversation_id = conversation_id;
    deleted_for_user_ids = hidden;
    deleted_at = none;
    edited_at = none;
    reply_to_message_id = reply;
    client_message_id = client;
  },
  message_created (record {
    message_id = id;
    conversation_id = conversation_id;
    sender_id = sender_id;
    content = content;
    deleted_for_user_ids = hidden;
    created_at = now;
    reply_to_message_id = reply;
    client_message_id = client;
  })
      ∷ [],
)

-- `MessageEntity.create`; `id` is the `uuidv7()` and `now` the `new Date()`.
unfoldable pub create :
    (id now : ℕ)
    → Text
    → MessageType
    → (sender_id conversation_id : ℕ) → List ℕ
    → Option ℕ
    → Option Text
    → Result (MessageEntity × List ChatEvent)
unfolding validate_client_message_id
create id now content type sender_id conversation_id hidden reply client =
    if is_id reply id
    then err (domain (chat_domain_error "A message cannot reply to itself"))
    else elim (validate_client_message_id client) [
      | ok validated ↦
          ok (created id now content type sender_id conversation_id hidden reply validated)
      | err e ↦ err e
    ]

-- the end of `edit`, where the text differs
abbrev pub edited : ℕ → Text → MessageEntity → MessageEntity × List ChatEvent
edited now new_text m = (
  record m { content = new_text; edited_at = some now; updated_at = now },
  message_edited (record {
    message_id = m.id;
    conversation_id = m.conversation_id;
    sender_id = m.sender_id;
    content = new_text;
    deleted_for_user_ids = m.deleted_for_user_ids;
    edited_at = now;
  })
      ∷ [],
)

unfoldable pub edit : ℕ → Text → ℕ → MessageEntity → Result (MessageEntity × List ChatEvent)
edit now new_text editor m =
    if is_some m.deleted_at
    then err (domain (message_not_found (some "Cannot edit a deleted message")))
    else if not (editor == m.sender_id)
    then err (domain (not_message_owner none))
    else if not (is_text m.type)
    then err (domain (chat_domain_error "Only text messages can be edited"))
    else if is_blank (if is_blank new_text then [] else trim new_text)
    then err (domain (chat_domain_error "Message text cannot be empty"))
    else if text_eq m.content new_text
    then ok (m, [])
    else ok (edited now new_text m)

unfoldable pub delete_for_user : ℕ → ℕ → MessageEntity → MessageEntity × List ChatEvent
delete_for_user now user_id m =
    if includes user_id m.deleted_for_user_ids
    then (m, [])
    else let hidden = m.deleted_for_user_ids ++ user_id ∷ [] in
      (
        record m { deleted_for_user_ids = hidden; updated_at = now },
        message_deleted (record {
          message_id = m.id;
          conversation_id = m.conversation_id;
          scope = me;
          actor_user_id = user_id;
          deleted_for_user_ids = hidden;
          deleted_at = m.deleted_at;
        })
            ∷ [],
      )

unfoldable pub delete_for_everyone :
    ℕ → (requester actor : ℕ) → MessageEntity → Result (MessageEntity × List ChatEvent)
delete_for_everyone now requester actor m =
    if not (requester == m.sender_id)
    then err (domain (not_message_owner none))
    else if is_some m.deleted_at
    then ok (m, [])
    else ok (
      record m { deleted_at = some now; updated_at = now },
      message_deleted (record {
        message_id = m.id;
        conversation_id = m.conversation_id;
        scope = everyone;
        actor_user_id = actor;
        deleted_for_user_ids = m.deleted_for_user_ids;
        deleted_at = some now;
      })
          ∷ [],
    )

unfoldable pub load_deleted_for_user_id : ℕ → MessageEntity → MessageEntity
load_deleted_for_user_id user_id m =
    if includes user_id m.deleted_for_user_ids
    then m
    else record m { deleted_for_user_ids = m.deleted_for_user_ids ++ user_id ∷ [] }
