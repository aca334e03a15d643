-- ===== src/Chat/Commands/MarkAsRead.antt =====
-- mark-conversation-as-read.handler.ts and delete-conversation.handler.ts
use mathlib.Core.List.{append-nil}
use nestjs_chat.Base.{ℕ, ◌≡◌, Bool, Option, none, some, [], arith, if◌then◌else◌, ◌==◌, inl, inr}
use nestjs_chat.Exceptions.{Exception, domain, conversation_not_found}
use nestjs_chat.Action.{
  World, Action, ok, err, ◌>>=◌, read, write, require, lift, pure, commit, IsAtomic,
}
use nestjs_chat.Action.Inversion.{Result-cases, found_cases}
use nestjs_chat.Chat.Message.{ChatEvent}
use nestjs_chat.Chat.Conversation.{ConversationEntity, mark_as_read, last_seen_in, mark_as_read_lem}
use nestjs_chat.Chat.Ports.{ConversationRepositoryPort}

pub record MarkConversationAsReadCommand : Type 0 where
  pub conversation_id : ℕ
  pub user_id : ℕ
  pub message_id : ℕ

module _ {S : Type 0} (repo : ConversationRepositoryPort S) where
  -- A conversation applies no events, so the `commit()` at the end publishes none.
  unfoldable pub mark_conversation_as_read :
      ℕ → MarkConversationAsReadCommand → Action S ChatEvent (Unit {0})
  mark_conversation_as_read now cmd = do
    found ← read (repo.get_conversation_by_id cmd.conversation_id)
    conversation ← require found (domain (conversation_not_found none))
    marked ← lift (mark_as_read now cmd.user_id cmd.message_id conversation)
    saved ← write (repo.save_conversation marked)
    commit []

  unfoldable pub delete_conversation : (conversation_id : ℕ) → Action S ChatEvent Bool
  delete_conversation conversation_id = do
    is_deleted ← write (repo.delete_conversation conversation_id)
    pure is_deleted

  -- What has happened when `mark_conversation_as_read` returns.
  pub record IsMarkedBy (now : ℕ) (cmd : MarkConversationAsReadCommand) (w w' : World S ChatEvent)
      : Type 0 where
    pub conversation : ConversationEntity
    pub marked : ConversationEntity
    pub stored : Option ConversationEntity
    pub known : repo.get_conversation_by_id cmd.conversation_id w.store ≡ ok (some conversation)
    pub marks : mark_as_read now cmd.user_id cmd.message_id conversation ≡ ok marked
    pub seen :
        (v : ℕ)
        → last_seen_in v marked.members ≡ (
            if cmd.user_id == v
            then some (some cmd.message_id)
            else last_seen_in v conversation.members)
    pub saved : repo.save_conversation marked w.store ≡ (ok stored, w'.store)
    pub silent : w'.published ≡ w.published

  mark_conversation_as_read-IsMarkedBy :
      (now : ℕ) (cmd : MarkConversationAsReadCommand) (w : World S ChatEvent)
      {w' : World S ChatEvent} (c d : ConversationEntity) (x : Option ConversationEntity)
      → repo.get_conversation_by_id cmd.conversation_id w.store ≡ ok (some c)
      → mark_as_read now cmd.user_id cmd.message_id c ≡ ok d
      → (repo.save_conversation d w.store).0 ≡ ok x
      → mark_conversation_as_read now cmd w ≡ (ok tt, w')
      → IsMarkedBy now cmd w w'
  unfolding mark_conversation_as_read
  mark_conversation_as_read-IsMarkedBy now cmd w c d x known marks e h = record {
    conversation = c;
    marked = d;
    stored = x;
    known = known;
    marks = marks;
    seen = (mark_as_read_lem now cmd.user_id cmd.message_id c marks).0;
    saved = ground arith;
    silent = ground (arith, append-nil w.published);
  }

  -- When `mark_conversation_as_read` returns, the conversation was found and `mark_as_read` accepted
  -- the user. What the repository was given is the conversation in which that user has seen the
  -- message last and every other user what they had seen; nothing is published.
  pub mark_conversation_as_read_sound :
      (now : ℕ) (cmd : MarkConversationAsReadCommand) (w : World S ChatEvent)
      {w' : World S ChatEvent}
      → mark_conversation_as_read now cmd w ≡ (ok tt, w')
      → IsMarkedBy now cmd w w'
  unfolding mark_conversation_as_read
  mark_conversation_as_read_sound now cmd w h =
      elim (found_cases (repo.get_conversation_by_id cmd.conversation_id w.store)) [
        | inr unknown ↦ absurd (ground arith)
        | inl (c, known) ↦ elim (Result-cases (mark_as_read now cmd.user_id cmd.message_id c)) [
          | inr refused ↦ absurd (ground arith)
          | inl (d, marks) ↦ elim (Result-cases (repo.save_conversation d w.store).0) [
            | inr failed ↦ absurd (ground arith)
            | inl (x, e) ↦ mark_conversation_as_read-IsMarkedBy now cmd w c d x known marks e h
          ]
        ]
      ]

  -- When a save that fails stores nothing, a receipt that throws leaves the world as it was: nothing is
  -- stored and nothing is published.
  pub mark_conversation_as_read-err :
      (now : ℕ) (cmd : MarkConversationAsReadCommand) (w : World S ChatEvent) {e : Exception}
      → IsAtomic repo.save_conversation
      → (mark_conversation_as_read now cmd w).0 ≡ err e
      → (mark_conversation_as_read now cmd w).1 ≡ w
  unfolding mark_conversation_as_read
  mark_conversation_as_read-err now cmd w {e} atomic h = grind (arith, atomic)
