-- ===== src/Chat/Message/Tests.antt =====
-- Runs of the message entity: "hi" of the member 11.
use nestjs_chat.Base.{ℕ, ◌≡◌, ◌≢◌, ◌↔◌, refl, none, some, Option, List, [], ◌∷◌, trim}
use nestjs_chat.Action.{ok}
use nestjs_chat.Chat.Message.Defs.{
  MessageEntity, ChatEvent, text, everyone, message_deleted, create, created, delete_for_user,
  delete_for_everyone,
}
use nestjs_chat.Chat.Message.Creation.{IsStorable, announcement, create-ok_iff}
use nestjs_chat.Chat.Message.Lifecycle.{Keeps, Reach, here, next, hides, removes, Reach-Keeps}

abbrev hi : MessageEntity
hi = record {
  id = 7;
  created_at = 2;
  updated_at = 2;
  content = 104 ∷ 105 ∷ [];
  type = text;
  sender_id = 11;
  conversation_id = 5;
  deleted_for_user_ids = [];
  deleted_at = none;
  edited_at = none;
  reply_to_message_id = none;
  client_message_id = none;
}

abbrev hidden_hi : MessageEntity
hidden_hi = record hi { deleted_for_user_ids = 2 ∷ []; updated_at = 3 }

abbrev deleted_hi : MessageEntity
deleted_hi = record hidden_hi { deleted_at = some 4; updated_at = 4 }

hidden_and_deleted : Reach hi deleted_hi
unfolding delete_for_user delete_for_everyone
hidden_and_deleted = next {n = hidden_hi} (next here (hides 3 2 refl)) (
    removes 4 11 1
      (message_deleted (record {
        message_id = 7;
        conversation_id = 5;
        scope = everyone;
        actor_user_id = 1;
        deleted_for_user_ids = 2 ∷ [];
        deleted_at = some 4;
      })
        ∷ [])
      refl)

Reach-Keeps_example : Keeps hi deleted_hi
Reach-Keeps_example = Reach-Keeps hidden_and_deleted

abbrev replied : Option ℕ
replied = some 7

abbrev id_drawn : Option ℕ
id_drawn = some 8

abbrev reply_made : MessageEntity × List ChatEvent
reply_made = created 8 9 (104 ∷ []) text 11 5 [] replied (some (99 ∷ []))

create-ok_iff_example :
    (create 8 9 (104 ∷ []) text 11 5 [] replied (some (99 ∷ [])) ≡ ok reply_made) ↔ (
      (replied ≢ id_drawn)
      × IsStorable (some (99 ∷ []))
      × (reply_made.0 ≡ reply_made.0)
      × (reply_made.1 ≡ announcement reply_made.0 ∷ []))
unfolding trim
create-ok_iff_example =
    create-ok_iff 8 9 (104 ∷ []) text 11 5 [] replied (some (99 ∷ [])) reply_made
