-- ===== src/Chat/Commands/EditMessage.antt =====
-- edit-message.handler.ts
use nestjs_chat.Base.{
  ℕ, ◌≡◌, not, ◌==◌, none, some, List, ◌++◌, arith, find, Text, Option-cases, inl, inr,
}
use nestjs_chat.Exceptions.{
  Exception, domain, plain, conversation_not_found, message_not_found, not_message_owner,
}
use nestjs_chat.Action.{
  World, Action, ok, err, ◌>>=◌, ◌>>◌, read, write, require, lift, throw_if, commit, IsAtomic,
  IsAnswered,
}
use nestjs_chat.Action.Inversion.{Result-cases, found_cases}
use nestjs_chat.Chat.Message.{MessageEntity, ChatEvent, edit, IsEditable, edit-ok_iff}
use nestjs_chat.Chat.Conversation.{ConversationEntity, ConversationMemberEntity, is_user}
use nestjs_chat.Chat.Ports.{LoadedMessage, ConversationRepositoryPort}

pub record EditMessageCommand : Type 0 where
  pub message_id : ℕ
  pub conversation_id : ℕ
  pub user_id : ℕ
  pub content : Text

module _ {S : Type 0} (repo : ConversationRepositoryPort S) where
  unfoldable pub edit_message : (now : ℕ) → EditMessageCommand → Action S ChatEvent LoadedMessage
  edit_message now cmd = do
    found ← read (repo.get_conversation_by_id cmd.conversation_id)
    conversation ← require found (domain (conversation_not_found none))
    member ←
        require (find (is_user cmd.user_id) conversation.members)
          (domain (not_message_owner (some "User is not a member of the conversation")))
    loaded ← read (repo.get_message_by_id cmd.message_id)
    entity ← require loaded (domain (message_not_found none))
    throw_if (not (entity.message.conversation_id == cmd.conversation_id))
        (domain (message_not_found none))
    outcome ← lift (edit now cmd.content member.id entity.message)
    updated ← write (repo.update_message outcome.0)
    commit outcome.1
    require updated (plain "Cannot read properties of null (reading 'id')")

  -- What has happened when `edit_message` returns.
  pub record IsEditedBy (now : ℕ) (cmd : EditMessageCommand) (w : World S ChatEvent)
      (updated : LoadedMessage) (w' : World S ChatEvent) : Type 0 where
    pub conversation : ConversationEntity
    pub member : ConversationMemberEntity
    pub entity : LoadedMessage
    pub message : MessageEntity
    pub events : List ChatEvent
    pub known : repo.get_conversation_by_id cmd.conversation_id w.store ≡ ok (some conversation)
    pub joined : find (is_user cmd.user_id) conversation.members ≡ some member
    pub loaded : repo.get_message_by_id cmd.message_id w.store ≡ ok (some entity)
    pub within : entity.message.conversation_id ≡ cmd.conversation_id
    pub editable : IsEditable cmd.content member.id entity.message
    pub edits : edit now cmd.content member.id entity.message ≡ ok (message, events)
    pub saved : repo.update_message message w.store ≡ (ok (some updated), w'.store)
    pub announced : w'.published ≡ w.published ++ events

  edit_message-IsEditedBy :
      (now : ℕ) (cmd : EditMessageCommand) (w : World S ChatEvent) {updated : LoadedMessage}
      {w' : World S ChatEvent} (c : ConversationEntity) (m : ConversationMemberEntity)
      (l : LoadedMessage) (r : MessageEntity × List ChatEvent)
      → repo.get_conversation_by_id cmd.conversation_id w.store ≡ ok (some c)
      → find (is_user cmd.user_id) c.members ≡ some m
      → repo.get_message_by_id cmd.message_id w.store ≡ ok (some l)
      → edit now cmd.content m.id l.message ≡ ok r
      → edit_message now cmd w ≡ (ok updated, w')
      → IsEditedBy now cmd w updated w'
  unfolding edit_message
  edit_message-IsEditedBy now cmd w c m l r known joined loaded edits h = record {
    conversation = c;
    member = m;
    entity = l;
    message = r.0;
    events = r.1;
    known = known;
    joined = joined;
    loaded = loaded;
    within = ground arith;
    editable = (edit-ok_iff now cmd.content m.id l.message).0 (r, edits);
    edits = edits;
    saved = ground arith;
    announced = ground arith;
  }

  -- When `edit_message` returns, the user is a member of the conversation that is found, to which the
  -- message belongs, and sent the message, which is not deleted, and the new text is not blank. What
  -- the repository was given is the message as `edit` makes it, its answer is returned, and exactly
  -- the events of that edit are published.
  pub edit_message_sound :
      (now : ℕ) (cmd : EditMessageCommand) (w : World S ChatEvent) {updated : LoadedMessage}
      {w' : World S ChatEvent}
      → edit_message now cmd w ≡ (ok updated, w')
      → IsEditedBy now cmd w updated w'
  unfolding edit_message
  edit_message_sound now cmd w h =
      elim (found_cases (repo.get_conversation_by_id cmd.conversation_id w.store)) [
        | inr unknown ↦ absurd (ground arith)
        | inl (c, known) ↦ elim (Option-cases (find (is_user cmd.user_id) c.members)) [
          | inl foreign ↦ absurd (ground arith)
          | inr (m, joined) ↦ elim (found_cases (repo.get_message_by_id cmd.message_id w.store)) [
            | inr missing ↦ absurd (ground arith)
            | inl (l, loaded) ↦ elim (Result-cases (edit now cmd.content m.id l.message)) [
              | inr refused ↦ absurd (ground arith)
              | inl (r, edits) ↦
                  edit_message-IsEditedBy now cmd w c m l r known joined loaded edits h
            ]
          ]
        ]
      ]

  -- When an update that fails stores nothing and the updated message is found again, an edit that throws leaves the world as it was: nothing is
  -- stored and nothing is published.
  pub edit_message-err :
      (now : ℕ) (cmd : EditMessageCommand) (w : World S ChatEvent) {e : Exception}
      → IsAtomic repo.update_message
      → IsAnswered repo.update_message
      → (edit_message now cmd w).0 ≡ err e
      → (edit_message now cmd w).1 ≡ w
  unfolding edit_message
  edit_message-err now cmd w {e} atomic answered h = grind (arith, atomic, answered)
