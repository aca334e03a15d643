-- ===== src/Chat/Commands/DeleteMessage.antt =====
-- delete-message.handler.ts
use nestjs_chat.Base.{
  ℕ, ◌≡◌, refl, not, ◌==◌, none, some, List, ◌++◌, arith, find, ◌⊎◌, Option-cases, inl, inr,
}
use nestjs_chat.Exceptions.{
  Exception, domain, plain, conversation_not_found, message_not_found, not_message_owner,
}
use nestjs_chat.Action.{
  World, Action, Result, ok, err, ◌>>=◌, ◌>>◌, read, write, require, lift, throw_if, commit,
  IsAtomic, IsAnswered,
}
use nestjs_chat.Action.Inversion.{Result-cases, found_cases}
use nestjs_chat.Chat.Message.{
  MessageEntity, ChatEvent, MessageDeleteScope, me, everyone, delete_for_user, delete_for_everyone,
}
use nestjs_chat.Chat.Conversation.{ConversationEntity, ConversationMemberEntity, is_user}
use nestjs_chat.Chat.Ports.{LoadedMessage, ConversationRepositoryPort}

pub record DeleteMessageCommand : Type 0 where
  pub message_id : ℕ
  pub conversation_id : ℕ
  pub user_id : ℕ
  pub scope : MessageDeleteScope

-- `if (scope === MessageDeleteScope.ME) … else …`
unfoldable pub remove :
    MessageDeleteScope
    → (now member_id user_id : ℕ) → MessageEntity
    → Result (MessageEntity × List ChatEvent)
remove me now member_id user_id m = ok (delete_for_user now user_id m)
remove everyone now member_id user_id m = delete_for_everyone now member_id user_id m

module _ {S : Type 0} (repo : ConversationRepositoryPort S) where
  unfoldable pub delete_message : ℕ → DeleteMessageCommand → Action S ChatEvent LoadedMessage
  delete_message now cmd = do
    found ← read (repo.get_conversation_by_id cmd.conversation_id)
    conversation ← require found (domain (conversation_not_found none))
    member ←
        require (find (is_user cmd.user_id) conversation.members)
          (domain (not_message_owner (some "User is not a member of the conversation")))
    loaded ← read (repo.get_message_by_id cmd.message_id)
    entity ← require loaded (domain (message_not_found none))
    throw_if (not (entity.message.conversation_id == cmd.conversation_id))
        (domain (message_not_found none))
    outcome ← lift (remove cmd.scope now member.id cmd.user_id entity.message)
    updated ← write (repo.save_message_deletion outcome.0)
    commit outcome.1
    require updated (plain "Cannot read properties of null (reading 'id')")

  -- What has happened when `delete_message` returns.
  pub record IsDeletedBy (now : ℕ) (cmd : DeleteMessageCommand) (w : World S ChatEvent)
      (updated : LoadedMessage) (w' : World S ChatEvent) : Type 0 where
    pub conversation : ConversationEntity
    pub member : ConversationMemberEntity
    pub entity : LoadedMessage
    pub message : MessageEntity
    pub events : List ChatEvent
    pub known : repo.get_conversation_by_id cmd.conversation_id w.store ≡ ok (some conversation)
    pub joined : find (is_user cmd.user_id) conversation.members ≡ some member
    pub loaded : repo.get_message_by_id cmd.message_id w.store ≡ ok (some entity)
    pub within : entity.message.conversation_id ≡ cmd.conversation_id
    pub allowed :
        ((cmd.scope ≡ everyone) × (member.id ≡ entity.message.sender_id))
        ⊎ ((cmd.scope ≡ me) × ((message, events) ≡ delete_for_user now cmd.user_id entity.message))
    pub removes : remove cmd.scope now member.id cmd.user_id entity.message ≡ ok (message, events)
    pub saved : repo.save_message_deletion message w.store ≡ (ok (some updated), w'.store)
    pub announced : w'.published ≡ w.published ++ events

  remove_owned :
      (scope : MessageDeleteScope) (now i u : ℕ) (m : MessageEntity)
      {r : MessageEntity × List ChatEvent}
      → remove scope now i u m ≡ ok r
      → ((scope ≡ everyone) × (i ≡ m.sender_id)) ⊎ ((scope ≡ me) × (r ≡ delete_for_user now u m))
  unfolding remove delete_for_everyone
  remove_owned me now i u m e = inr (refl, ground arith)
  remove_owned everyone now i u m e = inl (refl, ground arith)

  delete_message-IsDeletedBy :
      (now : ℕ) (cmd : DeleteMessageCommand) (w : World S ChatEvent) {updated : LoadedMessage}
      {w' : World S ChatEvent} (c : ConversationEntity) (m : ConversationMemberEntity)
      (l : LoadedMessage) (r : MessageEntity × List ChatEvent)
      → repo.get_conversation_by_id cmd.conversation_id w.store ≡ ok (some c)
      → find (is_user cmd.user_id) c.members ≡ some m
      → repo.get_message_by_id cmd.message_id w.store ≡ ok (some l)
      → remove cmd.scope now m.id cmd.user_id l.message ≡ ok r
      → delete_message now cmd w ≡ (ok updated, w')
      → IsDeletedBy now cmd w updated w'
  unfolding delete_message
  delete_message-IsDeletedBy now cmd w c m l r known joined loaded removes h = record {
    conversation = c;
    member = m;
    entity = l;
    message = r.0;
    events = r.1;
    known = known;
    joined = joined;
    loaded = loaded;
    within = ground arith;
    allowed = remove_owned cmd.scope now m.id cmd.user_id l.message removes;
    removes = removes;
    saved = ground arith;
    announced = ground arith;
  }

  -- When `delete_message` returns, the user is a member of the conversation that is found, to which
  -- the message belongs. Either the deletion was for everyone and that member sent the message, or it
  -- was for oneself and the message is made by `delete_for_user`. What the repository was given is the
  -- message so made, its answer is returned, and exactly the events of that deletion are published.
  pub delete_message_sound :
      (now : ℕ) (cmd : DeleteMessageCommand) (w : World S ChatEvent) {updated : LoadedMessage}
      {w' : World S ChatEvent}
      → delete_message now cmd w ≡ (ok updated, w')
      → IsDeletedBy now cmd w updated w'
  unfolding delete_message
  delete_message_sound now cmd w h =
      elim (found_cases (repo.get_conversation_by_id cmd.conversation_id w.store)) [
        | inr unknown ↦ absurd (ground arith)
        | inl (c, known) ↦ elim (Option-cases (find (is_user cmd.user_id) c.members)) [
          | inl foreign ↦ absurd (ground arith)
          | inr (m, joined) ↦ elim (found_cases (repo.get_message_by_id cmd.message_id w.store)) [
            | inr missing ↦ absurd (ground arith)
            | inl (l, loaded) ↦
                elim (Result-cases (remove cmd.scope now m.id cmd.user_id l.message)) [
                  | inr refused ↦ absurd (ground arith)
                  | inl (r, removes) ↦
                      delete_message-IsDeletedBy now cmd w c m l r known joined loaded removes h
                ]
          ]
        ]
      ]

  -- When a save that fails stores nothing and the saved message is found again, a deletion that throws leaves the world as it was: nothing is
  -- stored and nothing is published.
  pub delete_message-err :
      (now : ℕ) (cmd : DeleteMessageCommand) (w : World S ChatEvent) {e : Exception}
      → IsAtomic repo.save_message_deletion
      → IsAnswered repo.save_message_deletion
      → (delete_message now cmd w).0 ≡ err e
      → (delete_message now cmd w).1 ≡ w
  unfolding delete_message
  delete_message-err now cmd w {e} atomic answered h = grind (arith, atomic, answered)
