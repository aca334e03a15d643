-- ===== src/Chat/Postgres/MessageRows.antt =====
-- What is found of a message that was saved or edited.
use nestjs_chat.Base.{
  ℕ, ◌≡◌, refl, false, ◌||◌, includes-append, ◌==◌, none, some, List, [], ◌∷◌, arith, inl, inr,
  includes, Option-cases,
}
use nestjs_chat.Action.{ok}
use nestjs_chat.Action.Inversion.{run_cases, Result-cases, found_cases}
use nestjs_chat.Chat.Message.{MessageEntity, load_deleted_for_user_id}
use nestjs_chat.Chat.Ports.{LoadedMessage}
use nestjs_chat.Chat.Postgres.Entities.{Message, message_entity}
use nestjs_chat.Chat.Postgres.Database.{ChatDatabase, hidden_from, put_message}
use nestjs_chat.Chat.Postgres.Behaviour.{ChatDatabaseLaws}
use nestjs_chat.Chat.Postgres.Repository.{
  load_all, update_message, reloaded, get_message_by_id, load_message, save_message,
  save_message_run, save_message_failed, deleted_rows,
}
use nestjs_chat.Chat.Postgres.SaveMessage.{save_message_run_sound, hide_all_framed, hidden-hide_all}
use nestjs_chat.Chat.Postgres.Laws.{load_all_lem, message_in_is_stored}

includes-load_all :
    (u : ℕ) (us : List ℕ) (m : MessageEntity)
    → includes u (load_all us m).deleted_for_user_ids
      ≡ (includes u us || includes u m.deleted_for_user_ids)
unfolding load_all load_deleted_for_user_id
includes-load_all u [] m = refl
includes-load_all u (w ∷ us) m = ground (
  arith,
  includes-load_all u us (load_deleted_for_user_id w m),
  includes-append u m.deleted_for_user_ids (w ∷ []),
)

module _ {T : Type 0} {db : ChatDatabase T} (laws : ChatDatabaseLaws db) where
  -- what `getMessageById` finds is the row, with the users that it is hidden from
  pub get_message_by_id_lem :
      (i : ℕ) (t : T) (l : LoadedMessage)
      → get_message_by_id db i t ≡ ok (some l)
      → (row : Message) × ((laws.view t).message_at i ≡ some row)
        × (l.message
            ≡ record (message_entity row) { deleted_for_user_ids = l.message.deleted_for_user_ids })
        × ((u : ℕ) → includes u l.message.deleted_for_user_ids ≡ (laws.view t).hidden u i)
  unfolding get_message_by_id load_message
  get_message_by_id_lem i t l h = elim (found_cases (db.find_message i t)) [
    | inr missing ↦ absurd (ground arith)
    | inl ((row, reply), found) ↦
        let stored = laws.message_found i t (some (row, reply)) found in
        let at : (laws.view t).message_at i ≡ some row =
          message_in_is_stored (laws.view t) i row reply (ground arith) in
        let key = laws.message_key i t row at in
        elim (Result-cases (db.find_deleted row.id t)) [
          | inr failed ↦ absurd (ground arith)
          | inl (ds, answer) ↦
              let whole = load_all_lem (hidden_from ds) (message_entity row) in
              (
                row,
                at,
                ground arith,
                λ u. ground (
                  arith,
                  includes-load_all u (hidden_from ds) (message_entity row),
                  laws.deleted_found row.id u t ds answer,
                  key,
                ),
              )
        ]
  ]

  -- A message that has no identifier of the client's, has no row and is hidden from nobody before, and
  -- that `saveMessage` has saved, is found by `getMessageById` as it was given, but for the time of
  -- the update: every other field is the same, and it is hidden from the same users.
  pub get_message_by_id-save_message :
      (m : MessageEntity) (t : T) {l l' : LoadedMessage} {t' : T}
      → m.client_message_id ≡ none
      → (laws.view t).message_at m.id ≡ none
      → ((u : ℕ) → (laws.view t).hidden u m.id ≡ false)
      → save_message db m t ≡ (ok l, t')
      → get_message_by_id db m.id t' ≡ ok (some l')
      → (l'.message ≡ record m {
        updated_at = l'.message.updated_at;
        deleted_for_user_ids = l'.message.deleted_for_user_ids;
      })
        × ((u : ℕ) → includes u l'.message.deleted_for_user_ids ≡ includes u m.deleted_for_user_ids)
  unfolding save_message save_message_failed
  get_message_by_id-save_message m t {l} {l'} {t'} unnamed fresh unhidden h found =
      elim (run_cases (db.transaction (save_message_run db m) t)) [
        | inr (e, s, failed) ↦ absurd (ground arith)
        | inl (row, s, committed) ↦
            let r = save_message_run_sound laws m row t s (laws.committed _ row t s committed) in
            let (row', stored, whole, hidden) = get_message_by_id_lem m.id t' l' found in
            let hides =
              hide_all_framed (deleted_rows m.id m.deleted_for_user_ids)
                (put_message r.kept (laws.view t)) in
            let same : row' ≡ row = ground (arith, r.stored, r.row_eq, r.kept_new fresh, hides) in
            (
              ground (arith, r.row_eq),
              λ u. ground (
                arith,
                hidden u,
                r.stored,
                unhidden u,
                hidden-hide_all m.id m.deleted_for_user_ids (put_message r.kept (laws.view t)) u
                    m.id,
              ),
            )
      ]

  -- `updateMessage` that returns a message returns the row with the text and the times given, and no
  -- other row of a message has changed.
  pub update_message_lem :
      (entity : MessageEntity) (t : T) {l : LoadedMessage} {t' : T}
      → update_message db entity t ≡ (ok (some l), t')
      → (row : Message) × ((laws.view t).message_at entity.id ≡ some row)
        × (l.message ≡ record (message_entity row) {
          content = entity.content;
          edited_at = entity.edited_at;
          updated_at = entity.updated_at;
          deleted_for_user_ids = l.message.deleted_for_user_ids;
        })
        × ((u : ℕ) → includes u l.message.deleted_for_user_ids ≡ (laws.view t).hidden u entity.id)
        × ((i : ℕ)
            → (i == entity.id) ≡ false
            → (laws.view t').message_at i ≡ (laws.view t).message_at i)
  unfolding update_message reloaded
  update_message_lem entity t {l} {t'} h =
      elim (run_cases
        (db.update_text entity.id entity.content entity.edited_at entity.updated_at t)) [
          | inr failed ↦ absurd (ground arith)
          | inl (done_, s, ran) ↦
              let view =
                laws.text_updated entity.id entity.content entity.edited_at entity.updated_at t s
                  ran in
              elim (found_cases (get_message_by_id db entity.id s)) [
                | inr missing ↦ absurd (ground arith)
                | inl (l', found) ↦
                    let (row', stored, whole, hidden) =
                      get_message_by_id_lem entity.id s l' found in
                    elim (Option-cases ((laws.view t).message_at entity.id)) [
                      | inl missing ↦ absurd (ground (arith, view))
                      | inr (row, was) ↦ (
                        row,
                        was,
                        ground (arith, view),
                        λ u. ground (arith, hidden u, view),
                        λ i other. ground (arith, view),
                      )
                    ]
              ]
        ]
