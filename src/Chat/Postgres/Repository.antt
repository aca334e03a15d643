-- ===== src/Chat/Postgres/Repository.antt =====
-- conversation-postgres.repository.ts, over the database of Database.
use nestjs_chat.Base.{
  ℕ, Bool, false, not, ◌==◌, Option, none, some, List, [], ◌∷◌, Text, is_blank, includes,
  if◌then◌else◌, map, change, ◌&&◌,
}
use nestjs_chat.Exceptions.{Exception, database}
use nestjs_chat.Action.{Read, Write, ok, err}
use nestjs_chat.Action.Store.{done, ask, ◌>>=◌, ◌>>◌}
use nestjs_chat.Chat.Message.{MessageEntity, load_deleted_for_user_id}
use nestjs_chat.Chat.Conversation.{ConversationEntity}
use nestjs_chat.Chat.Ports.{LoadedMessage, ConversationRepositoryPort}
use nestjs_chat.Chat.Postgres.Entities.{
  Message, ConversationMember, DeletedMessage, message_from_domain, message_to_domain,
  member_from_domain, conversation_from_domain, conversation_to_domain,
}
use nestjs_chat.Chat.Postgres.Database.{ChatDatabase, hidden_from}
use nestjs_chat.Chat.Postgres.Behaviour.{id_of}

-- `deletedMessages.forEach((dm) => entity.loadDeletedForUserId(dm.user_id))`
unfoldable pub load_all : List ℕ → MessageEntity → MessageEntity
unfolding load_deleted_for_user_id
load_all [] m = m
load_all (u ∷ us) m = load_all us (load_deleted_for_user_id u m)

abbrev pub load_into : List ℕ → LoadedMessage → LoadedMessage
load_into us l = record l { message = load_all us l.message }

abbrev pub deleted_row : (message_id user_id : ℕ) → DeletedMessage
deleted_row message_id user_id = record { user_id = user_id; message_id = message_id }

abbrev pub deleted_rows : (message_id : ℕ) → List ℕ → List DeletedMessage
deleted_rows i [] = []
deleted_rows i (u ∷ us) = deleted_row i u ∷ deleted_rows i us

-- what `saveMessage` makes of a member of the conversation
abbrev pub with_new_message :
    (hidden : List ℕ) (sender_id message_id : ℕ) → ConversationMember → ConversationMember
with_new_message hidden sender_id message_id cm = record cm {
  last_message_id = if includes cm.user_id hidden then cm.last_message_id else some message_id;
  last_seen_message_id = if cm.id == sender_id then some message_id else cm.last_seen_message_id;
}

-- an error of the driver with this code, in whichever of the three ways it is told
abbrev pub is_unique_violation : Exception → Bool
is_unique_violation (database code) = code == 23505
is_unique_violation _ = false

-- a step for each item of an array, in its order: `save` of an array, and a `for` loop
module _ {T A B : Type 0} (step : A → Write T B) where
  unfoldable pub for_each : List A → Write T (Unit {0})
  for_each [] = done tt
  for_each (x ∷ xs) = do step x; for_each xs

module _ {T : Type 0} (db : ChatDatabase T) where
  unfoldable pub get_conversation_by_id : ℕ → Read T (Option ConversationEntity)
  get_conversation_by_id id t = elim (db.find_conversation id t) [
    | err e ↦ err e
    | ok found ↦ elim found [ none ↦ ok none | some row ↦ ok (some (conversation_to_domain row)) ]
  ]

  -- members and messages are written by `save` of an array each; `toDomain` of no row is null
  unfoldable pub save_conversation : ConversationEntity → Write T (Option ConversationEntity)
  unfolding for_each
  save_conversation entity = do
    res ← db.transaction do
      saved ← db.save_conversation (conversation_from_domain entity)
      for_each db.save_member (map member_from_domain entity.members)
      for_each db.save_message (map message_from_domain entity.messages)
      ask (db.find_conversation saved.id)
    done (change conversation_to_domain res)

  -- a message that was found, with the users it is hidden from
  unfoldable pub load_message : Option (Message × Option Message) → Read T (Option LoadedMessage)
  unfolding load_all
  load_message none t = ok none
  load_message (some found) t = elim (db.find_deleted found.0.id t) [
    | err e ↦ err e
    | ok ds ↦ ok (some (load_into (hidden_from ds) (message_to_domain found)))
  ]

  unfoldable pub get_message_by_client_message_id :
      (conversation_id sender_id : ℕ) → Text → Read T (Option LoadedMessage)
  unfolding load_message
  get_message_by_client_message_id conversation_id sender_id client t =
      elim (db.find_message_by_client conversation_id sender_id client t) [
        | err e ↦ err e
        | ok found ↦ load_message found t
      ]

  unfoldable pub get_message_by_id : ℕ → Read T (Option LoadedMessage)
  unfolding load_message
  get_message_by_id id t = elim (db.find_message id t) [
    | err e ↦ err e
    | ok found ↦ load_message found t
  ]

  -- the transaction of `saveMessage`
  unfoldable pub save_message_run : MessageEntity → Write T Message
  unfolding for_each
  save_message_run entity = do
    message ← db.save_message (message_from_domain entity)
    for_each db.save_deleted (deleted_rows message.id entity.deleted_for_user_ids)
    members ← ask (db.find_members message.conversation_id)
    for_each db.save_member
        (map (with_new_message entity.deleted_for_user_ids entity.sender_id message.id) members)
    done message

  -- the `catch`
  unfoldable pub save_message_failed : MessageEntity → Exception → Write T LoadedMessage
  unfolding get_message_by_client_message_id
  save_message_failed entity error t = elim entity.client_message_id [
    | none ↦ (err error, t)
    | some client ↦
        if not (is_blank client) && is_unique_violation error
        then elim (get_message_by_client_message_id entity.conversation_id entity.sender_id client
            t) [
              | err e ↦ (err e, t)
              | ok existing ↦ elim existing [ none ↦ (err error, t) | some l ↦ (ok l, t) ]
            ]
        else (err error, t)
  ]

  unfoldable pub save_message : MessageEntity → Write T LoadedMessage
  unfolding save_message_run save_message_failed load_all
  save_message entity t =
      let (res, t') = db.transaction (save_message_run entity) t in
      elim res [
        | err error ↦ save_message_failed entity error t'
        | ok row ↦ (ok (load_into entity.deleted_for_user_ids (message_to_domain (row, none))), t')
      ]

  -- `return updated!`: a null is returned as it is
  unfoldable pub reloaded : ℕ → Write T (Option LoadedMessage)
  unfolding get_message_by_id
  reloaded id = ask (get_message_by_id id)

  unfoldable pub update_message : MessageEntity → Write T (Option LoadedMessage)
  unfolding reloaded
  update_message entity = do
    db.update_text entity.id entity.content entity.edited_at entity.updated_at
    reloaded entity.id

  -- step 3 of `saveMessageDeletion`, for one member
  abbrev pub recompute : (conversation_id : ℕ) → ConversationMember → Write T ConversationMember
  recompute conversation_id cm = do
    latest ← ask (db.find_latest conversation_id cm.user_id)
    db.save_member (record cm { last_message_id = id_of latest })

  -- step 1
  abbrev pub insert_hidden : (message_id : ℕ) → List ℕ → Write T (Unit {0})
  insert_hidden message_id [] = done tt
  insert_hidden message_id (u ∷ us) = db.insert_deleted (deleted_rows message_id (u ∷ us))

  -- the transaction of `saveMessageDeletion`
  unfoldable pub save_message_deletion_run : MessageEntity → Write T (Unit {0})
  unfolding for_each
  save_message_deletion_run entity = do
    insert_hidden entity.id entity.deleted_for_user_ids
    db.update_deleted_at entity.id entity.deleted_at entity.updated_at
    members ← ask (db.find_members_by_last entity.conversation_id entity.id)
    for_each (recompute entity.conversation_id) members

  unfoldable pub save_message_deletion : MessageEntity → Write T (Option LoadedMessage)
  unfolding save_message_deletion_run reloaded
  save_message_deletion entity = do
    db.transaction (save_message_deletion_run entity)
    reloaded entity.id

  unfoldable pub delete_conversation : ℕ → Write T Bool
  delete_conversation id =
      db.transaction do
        db.soft_delete_members id
        affected ← db.soft_delete_conversation id
        done (affected == 1)

  abbrev pub postgres : ConversationRepositoryPort T
  postgres = record {
    get_conversation_by_id = get_conversation_by_id;
    save_conversation = save_conversation;
    get_message_by_id = get_message_by_id;
    get_message_by_client_message_id = get_message_by_client_message_id;
    save_message = save_message;
    update_message = update_message;
    save_message_deletion = save_message_deletion;
    delete_conversation = delete_conversation;
  }
