-- ===== src/Chat/Postgres/Laws.antt =====
-- The port's laws for the repository, from the database's.
use nestjs_chat.Base.{
  ℕ, ◌≡◌, refl, ap, true, Option, none, some, List, [], ◌∷◌, arith, inl, inr, Text, text_eq_refl,
  text_eq→eq, Option-cases,
}
use nestjs_chat.Action.{ok}
use nestjs_chat.Action.Inversion.{run_cases, found_cases}
use nestjs_chat.Chat.Message.{MessageEntity, load_deleted_for_user_id}
use nestjs_chat.Chat.Ports.{LoadedMessage, ConversationRepositoryLaws}
use nestjs_chat.Chat.Postgres.Entities.{Message, message_entity, message_to_domain}
use nestjs_chat.Chat.Postgres.Database.{
  ChatDatabase, hidden_from, Tables, put_message, is_client, message_in,
}
use nestjs_chat.Chat.Postgres.Behaviour.{ChatDatabaseLaws, IsAvailable}
use nestjs_chat.Chat.Postgres.Repository.{
  load_all, deleted_rows, load_into, load_message, save_message_run, save_message_failed,
  save_message, get_message_by_client_message_id, postgres,
}
use nestjs_chat.Chat.Postgres.SaveMessage.{IsRun, save_message_run_sound, hide_all_framed}
use nestjs_chat.Chat.Postgres.Kept.{members_after}

pub load_all_lem :
    (us : List ℕ) (m : MessageEntity)
    → load_all us m ≡ record m { deleted_for_user_ids = (load_all us m).deleted_for_user_ids }
unfolding load_all load_deleted_for_user_id
load_all_lem [] m = refl
load_all_lem (u ∷ us) m = ground (arith, load_all_lem us (load_deleted_for_user_id u m))

pub message_in_is_stored :
    (v : Tables) (i : ℕ) (n : Message) (reply : Option Message)
    → message_in v i ≡ some (n, reply)
    → v.message_at i ≡ some n
message_in_is_stored v i n reply h = elim (Option-cases (v.message_at i)) [
  | inl missing ↦ absurd (ground arith)
  | inr (m, stored) ↦ ground arith
]

is_client_is_given :
    (client : Text) (name : Option Text) → is_client client name ≡ true → name ≡ some client
is_client_is_given client none h = absurd (ground arith)
is_client_is_given client (some name) h = ap some (text_eq→eq name client h)

module _ {T : Type 0} {db : ChatDatabase T} (laws : ChatDatabaseLaws db) (up : IsAvailable db) where
  -- A message found under its identifier, once loaded.
  loaded :
      (row : Message) (reply : Option Message) (t : T)
      → (l : LoadedMessage) × (load_message db (some (row, reply)) t ≡ ok (some l))
        × (l.message.id ≡ row.id)
        × (l.message.content ≡ row.content)
  unfolding load_message
  loaded row reply t =
      let (ds, answer) = up.answers_deleted row.id t in
      (
        load_into (hidden_from ds) (message_to_domain (row, reply)),
        ground arith,
        ground (arith, load_all_lem (hidden_from ds) (message_entity row)),
        ground (arith, load_all_lem (hidden_from ds) (message_entity row)),
      )

  found_in_run :
      (m : MessageEntity) (row : Message) (client : Text) (t t' : T)
      → m.client_message_id ≡ some client
      → IsRun laws m row t t'
      → (l : LoadedMessage) × (get_message_by_client_message_id db m.conversation_id m.sender_id
            client t'
          ≡ ok (some l))
        × (l.message.id ≡ m.id)
        × (l.message.content ≡ m.content)
  unfolding get_message_by_client_message_id
  found_in_run m row client t t' named r =
      let framed =
        hide_all_framed (deleted_rows m.id m.deleted_for_user_ids)
          (put_message r.kept (laws.view t)) in
      let (o, answer) = up.answers_client m.conversation_id m.sender_id client t' in
      elim (Option-cases o) [
        | inl missing ↦
            let sent =
              laws.client_missing m.conversation_id m.sender_id client t' m.id r.kept
                (ground (arith, answer, missing))
                (ground (arith, r.stored, framed, r.kept_eq, r.row_eq)) in
            absurd (ground (arith, sent, text_eq_refl client, r.kept_eq, r.row_eq))
        | inr ((n, reply), found) ↦
            let (stored, sent) =
              laws.client_found m.conversation_id m.sender_id client t' n reply
                (ground (arith, answer, found)) in
            let same : n.id ≡ m.id =
              r.unique client n.id n named (message_in_is_stored (laws.view t') n.id n reply stored)
                (ground (arith, sent)) (ground (arith, sent))
                (is_client_is_given client n.client_message_id (ground (arith, sent))) in
            let content : n.content ≡ m.content = ground (
              arith,
              message_in_is_stored (laws.view t') n.id n reply stored,
              r.stored,
              framed,
              r.kept_eq,
              r.row_eq,
              same,
            ) in
            let (l, load, same_id, same_content) = loaded n reply t' in
            (l, ground (arith, answer, load), ground arith, ground arith)
      ]

  found_after :
      (m : MessageEntity) (client : Text) (t : T) (l : LoadedMessage) (t' : T)
      → m.client_message_id ≡ some client
      → save_message db m t ≡ (ok l, t')
      → (l' : LoadedMessage) × (get_message_by_client_message_id db m.conversation_id m.sender_id
            client t'
          ≡ ok (some l'))
        × (l'.message.id ≡ l.message.id)
        × (l'.message.content ≡ l.message.content)
  unfolding save_message save_message_failed
  found_after m client t l t' named h =
      elim (run_cases (db.transaction (save_message_run db m) t)) [
        | inr (e, s, failed) ↦
            elim (found_cases
              (get_message_by_client_message_id db m.conversation_id m.sender_id client s)) [
                | inl (existing, found) ↦ (l, (ground arith), refl, refl)
                | inr missing ↦ absurd (ground arith)
              ]
        | inl (row, s, committed) ↦
            let run = save_message_run_sound laws m row t s (laws.committed _ row t s committed) in
            let (l', found, same_id, same_content) = found_in_run m row client t s named run in
            let whole = load_all_lem m.deleted_for_user_ids (message_entity row) in
            (l', (ground arith), (ground arith), (ground arith))
      ]

  -- Over a database that keeps TypeORM's documented behaviour, and whose reads answer, the repository
  -- keeps the laws that the handlers rely on: what `saveMessage` returns, also after an error of the
  -- unique index, is found again under the client's identifier with the same identifier and text, and
  -- saving a message removes no conversation and no member.
  pub postgres_conversation_laws : ConversationRepositoryLaws (postgres db)
  postgres_conversation_laws = record {
    found_after_save = found_after;
    members_after_save = members_after laws up;
  }
