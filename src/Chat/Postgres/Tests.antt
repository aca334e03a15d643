-- ===== src/Chat/Postgres/Tests.antt =====
-- The repository on the rows of Sample.
use nestjs_chat.Base.{ℕ, ◌≡◌, refl, false, Option, none, some, [], ◌∷◌, includes, ◌==◌}
use nestjs_chat.Action.{Result, ok}
use nestjs_chat.Chat.Message.{MessageEntity}
use nestjs_chat.Chat.InMemory.{hi}
use nestjs_chat.Chat.Ports.{LoadedMessage, ConversationRepositoryLaws}
use nestjs_chat.Chat.Postgres.Entities.{Message, message_entity}
use nestjs_chat.Chat.Postgres.InMemory.{Rows, tables, in_lists}
use nestjs_chat.Chat.Postgres.InMemoryLaws.{in_lists_laws, in_lists-IsAvailable}
use nestjs_chat.Chat.Postgres.Repository.{
  postgres, save_message, save_message_deletion, get_message_by_id, update_message, load_message,
  reloaded, load_all,
}
use nestjs_chat.Chat.Postgres.Laws.{postgres_conversation_laws}
use nestjs_chat.Chat.Postgres.LastMessage.{HasLatest}
use nestjs_chat.Chat.Postgres.Deletion.{save_message_deletion-HasLatest}
use nestjs_chat.Chat.Postgres.NewMessage.{save_message-HasLatest}
use nestjs_chat.Chat.Postgres.MessageRows.{get_message_by_id-save_message, update_message_lem}
use nestjs_chat.Chat.Postgres.Sample.{
  rows, answer, hi_deleted, rows-HasLatest, answer-IsNew, hi-IsStored,
}

-- the last messages of the two users
abbrev last_of : ℕ → Rows → Option ℕ
last_of u t = elim ((tables t).member_at 5 u) [ none ↦ none | some m ↦ m.last_message_id ]

-- the answer is hidden from user 1
answered :
    (last_of 1 (save_message in_lists answer rows).1 ≡ some 7)
    × (last_of 2 (save_message in_lists answer rows).1 ≡ some 8)
unfolding save_message
answered = (refl, refl)

-- nothing is left to see
emptied :
    (last_of 1 (save_message_deletion in_lists hi_deleted rows).1 ≡ none)
    × (last_of 2 (save_message_deletion in_lists hi_deleted rows).1 ≡ none)
unfolding save_message_deletion
emptied = (refl, refl)

postgres_conversation_laws_example : ConversationRepositoryLaws (postgres in_lists)
postgres_conversation_laws_example = postgres_conversation_laws in_lists_laws in_lists-IsAvailable

save_message-HasLatest_example : HasLatest (tables (save_message in_lists answer rows).1)
unfolding in_lists_laws
save_message-HasLatest_example =
    save_message-HasLatest in_lists_laws answer rows rows-HasLatest answer-IsNew

save_message_deletion-HasLatest_example :
    HasLatest (tables (save_message_deletion in_lists hi_deleted rows).1)
unfolding in_lists_laws
save_message_deletion-HasLatest_example =
    save_message_deletion-HasLatest in_lists_laws hi_deleted rows rows-HasLatest hi-IsStored

-- a message of user 2 without an identifier of the client's
abbrev unnamed : MessageEntity
unnamed = record answer { client_message_id = none }

abbrev unnamed_after : Rows
unfolding save_message
unnamed_after = (save_message in_lists unnamed rows).1

abbrev found_message : Result (Option LoadedMessage) → MessageEntity
found_message (ok (some l)) = l.message
found_message _ = hi

get_message_by_id-save_message_example :
    (found_message (get_message_by_id in_lists 8 unnamed_after)
      ≡ record unnamed { updated_at = 3; deleted_for_user_ids = 1 ∷ [] })
    × ((u : ℕ)
        → includes u
            (found_message (get_message_by_id in_lists 8 unnamed_after)).deleted_for_user_ids
          ≡ includes u (1 ∷ []))
unfolding in_lists_laws save_message get_message_by_id load_message load_all
get_message_by_id-save_message_example =
    get_message_by_id-save_message in_lists_laws unnamed rows refl refl (λ u. refl) refl refl

abbrev hi_edited : MessageEntity
hi_edited = record hi { content = 121 ∷ 111 ∷ []; edited_at = some 5; updated_at = 5 }

-- the edit of the first message
abbrev edited_after : Rows
unfolding update_message
edited_after = (update_message in_lists hi_edited rows).1

update_message_lem_example :
    (row : Message) × ((tables rows).message_at 7 ≡ some row)
    × (hi_edited ≡ record (message_entity row) {
      content = 121 ∷ 111 ∷ [];
      edited_at = some 5;
      updated_at = 5;
      deleted_for_user_ids = [];
    })
    × ((u : ℕ) → includes u [] ≡ (tables rows).hidden u 7)
    × ((i : ℕ) → (i == 7) ≡ false → (tables edited_after).message_at i ≡ (tables rows).message_at i)
unfolding in_lists_laws update_message get_message_by_id load_message load_all reloaded
update_message_lem_example = update_message_lem in_lists_laws hi_edited rows refl
