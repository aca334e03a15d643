-- ===== src/Chat/Message/Creation.antt =====
-- What `create` accepts.
use nestjs_chat.Base.{
  ℕ, ◌≡◌, ◌≢◌, ◌↔◌, ◌≤◌, Option, none, some, List, [], ◌∷◌, arith, Text, trim, length,
}
use nestjs_chat.Action.{ok}
use nestjs_chat.Chat.Message.Defs.{
  MessageType, MessageEntity, ChatEvent, message_created, create, validate_client_message_id,
}

-- A client's identifier that may be stored: not blank and of 255 code units at most, once trimmed.
abbrev pub IsStorable : Option Text → Type 0
IsStorable none = Unit
IsStorable (some s) = (trim s ≢ []) × (length (trim s) ≤ 255)

abbrev pub trimmed : Option Text → Option Text
trimmed none = none
trimmed (some s) = some (trim s)

validate_client_message_id-ok_iff :
    (client : Option Text) (c : Option Text)
    → (validate_client_message_id client ≡ ok c) ↔ (IsStorable client × (c ≡ trimmed client))
unfolding validate_client_message_id
validate_client_message_id-ok_iff none c = ground arith
validate_client_message_id-ok_iff (some s) c = ground arith

-- the event that tells of a message what it holds
abbrev pub announcement : MessageEntity → ChatEvent
announcement m = message_created (record {
  message_id = m.id;
  conversation_id = m.conversation_id;
  sender_id = m.sender_id;
  content = m.content;
  deleted_for_user_ids = m.deleted_for_user_ids;
  created_at = m.created_at;
  reply_to_message_id = m.reply_to_message_id;
  client_message_id = m.client_message_id;
})

-- `create` succeeds exactly if the message does not reply to itself and the client's identifier may
-- be stored. The message then has the data given, both times are now, it is neither edited nor
-- deleted, it is hidden from the listed users, and its client's identifier is trimmed. It is announced
-- by one event, of that message's identifier, conversation, sender, text, hidden users, time, reply
-- and client's identifier.
pub create-ok_iff :
    (id now : ℕ) (content : Text) (type : MessageType) (sender_id conversation_id : ℕ)
    (hidden : List ℕ) (reply : Option ℕ) (client : Option Text) (r : MessageEntity × List ChatEvent)
    → (create id now content type sender_id conversation_id hidden reply client ≡ ok r) ↔ (
        (reply ≢ some id)
        × IsStorable client
        × (r.0 ≡ record {
          id = id;
          created_at = now;
          updated_at = now;
          content = content;
          type = type;
          sender_id = sender_id;
          conversation_id = conversation_id;
          deleted_for_user_ids = hidden;
          deleted_at = none;
          edited_at = none;
          reply_to_message_id = reply;
          client_message_id = trimmed client;
        })
        × (r.1 ≡ announcement r.0 ∷ []))
unfolding create
create-ok_iff id now content type sender_id conversation_id hidden none none r = ground arith
create-ok_iff id now content type sender_id conversation_id hidden none (some s) r = ground arith
create-ok_iff id now content type sender_id conversation_id hidden (some j) none r = ground arith
create-ok_iff id now content type sender_id conversation_id hidden (some j) (some s) r =
    ground arith
