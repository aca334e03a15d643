-- ===== src/Chat/Commands/CreateDirect.antt =====
-- create-direct-conversation.handler.ts
use mathlib.Core.List.{append-nil}
use nestjs_chat.Base.{
  ℕ, ◌≡◌, Bool, true, false, not, none, some, [], arith, if◌then◌else◌, ◌∷◌, ◌==◌,
}
use nestjs_chat.Exceptions.{
  Exception, domain, plain, target_user_not_found, blocked_user, conversation_already_exists,
}
use nestjs_chat.Action.{
  World, Action, ok, err, ◌>>=◌, ◌>>◌, read, write, lift, pure, throw_if, commit, require, IsAtomic,
  IsAnswered,
}
use nestjs_chat.Chat.Message.{ChatEvent}
use nestjs_chat.Chat.Conversation.{
  direct, ConversationEntity, Stamp, create_direct, create_direct_lem, direct_of, user_ids, IsValid,
}
use nestjs_chat.Chat.Ports.{
  ConversationRepositoryPort, ConversationReadRepositoryPort, UserIntegrationPort,
}

pub record CreateDirectConversationCommand : Type 0 where
  pub user_id : ℕ
  pub target_user_id : ℕ

-- What the uuids and the clock give during one `createDirect`.
pub record Readings : Type 0 where
  pub conversation : Stamp
  pub first : Stamp
  pub second : Stamp
  pub identifier : ℕ
  pub joined : ℕ
  pub joined' : ℕ

abbrev pub conversation_of : Readings → CreateDirectConversationCommand → ConversationEntity
conversation_of r cmd =
    direct_of r.conversation r.first r.second r.identifier r.joined r.joined' cmd.user_id
      cmd.target_user_id

module _ {S : Type 0} (command_repo : ConversationRepositoryPort S)
    (query_repo : ConversationReadRepositoryPort S) (users : UserIntegrationPort S) where
  unfoldable pub create_direct_conversation :
      Readings → CreateDirectConversationCommand → Action S ChatEvent ConversationEntity
  create_direct_conversation r cmd = do
    user_exists ← read (users.does_user_exist cmd.target_user_id)
    throw_if (not user_exists) (domain (target_user_not_found none))
    is_blocked ← read (users.has_block_relation cmd.user_id cmd.target_user_id)
    throw_if is_blocked (domain (blocked_user none))
    conversation_exists ← read (query_repo.conversation_exists cmd.user_id cmd.target_user_id)
    throw_if conversation_exists (domain (conversation_already_exists none))
    conversation ← lift (
        create_direct r.conversation r.first r.second r.identifier r.joined r.joined' cmd.user_id
          cmd.target_user_id)
    saved ← write (command_repo.save_conversation conversation)
    root ← require saved (plain "Cannot set properties of null (setting 'publish')")
    commit []
    pure root

  -- What has happened when `create_direct_conversation` returns.
  pub record IsOpenedBy (r : Readings) (cmd : CreateDirectConversationCommand)
      (w : World S ChatEvent) (saved : ConversationEntity) (w' : World S ChatEvent) : Type 0 where
    pub conversation : ConversationEntity
    pub target : users.does_user_exist cmd.target_user_id w.store ≡ ok true
    pub unblocked : users.has_block_relation cmd.user_id cmd.target_user_id w.store ≡ ok false
    pub unique : query_repo.conversation_exists cmd.user_id cmd.target_user_id w.store ≡ ok false
    pub members : user_ids conversation.members ≡ (
        if cmd.user_id == cmd.target_user_id
        then cmd.user_id ∷ []
        else cmd.user_id ∷ cmd.target_user_id ∷ [])
    pub valid : IsValid conversation
    pub stored : command_repo.save_conversation conversation w.store ≡ (ok (some saved), w'.store)
    pub silent : w'.published ≡ w.published

  -- A conversation is opened only with a user who exists, between users of whom neither blocks the
  -- other, who have none yet. What is stored is a valid conversation of the two.
  pub create_direct_conversation_sound :
      (r : Readings) (cmd : CreateDirectConversationCommand) (w : World S ChatEvent)
      {saved : ConversationEntity} {w' : World S ChatEvent}
      → create_direct_conversation r cmd w ≡ (ok saved, w')
      → IsOpenedBy r cmd w saved w'
  unfolding create_direct_conversation
  create_direct_conversation_sound r cmd w h =
      let (c, made, same, kind, members, valid) =
        create_direct_lem r.conversation r.first r.second r.identifier r.joined r.joined'
          cmd.user_id cmd.target_user_id in
      record {
        conversation = c;
        target = ground arith;
        unblocked = ground arith;
        unique = ground arith;
        members = members;
        valid = valid;
        stored = ground (arith, made);
        silent = ground (arith, append-nil w.published);
      }

  -- Which refusal it is: a missing user comes first, then a block, then a conversation that exists;
  -- each leaves the world as it was. Without any of them the call stores a valid direct conversation of
  -- the two, returns what storing it returns, fails if that fails or gives null, and changes nothing
  -- else.
  pub create_direct_conversation_outcome :
      (r : Readings) (cmd : CreateDirectConversationCommand) (w : World S ChatEvent)
      (exists blocked open_already : Bool)
      → users.does_user_exist cmd.target_user_id w.store ≡ ok exists
      → users.has_block_relation cmd.user_id cmd.target_user_id w.store ≡ ok blocked
      → query_repo.conversation_exists cmd.user_id cmd.target_user_id w.store ≡ ok open_already
      → (c : ConversationEntity) × (c.type ≡ direct)
        × (user_ids c.members ≡ (
            if cmd.user_id == cmd.target_user_id
            then cmd.user_id ∷ []
            else cmd.user_id ∷ cmd.target_user_id ∷ []))
        × IsValid c
        × (create_direct_conversation r cmd w ≡ (
            if not exists
            then (err (domain (target_user_not_found none)), w)
            else if blocked
            then (err (domain (blocked_user none)), w)
            else if open_already
            then (err (domain (conversation_already_exists none)), w)
            else let (saved, s) = command_repo.save_conversation c w.store in
              (
                elim saved [
                  | err e ↦ err e
                  | ok none ↦ err (plain "Cannot set properties of null (setting 'publish')")
                  | ok (some root) ↦ ok root
                ],
                record w { store = s },
              )))
  unfolding create_direct_conversation
  create_direct_conversation_outcome r cmd w exists blocked open_already p q s =
      let (c, made, same, kind, members, valid) =
        create_direct_lem r.conversation r.first r.second r.identifier r.joined r.joined'
          cmd.user_id cmd.target_user_id in
      (c, kind, members, valid, ground (arith, made, append-nil w.published))

  -- When a save that fails stores nothing and what is saved is found again, a call that throws leaves the world as it was: nothing is
  -- stored and nothing is published.
  pub create_direct_conversation-err :
      (r : Readings) (cmd : CreateDirectConversationCommand) (w : World S ChatEvent) {e : Exception}
      → IsAtomic command_repo.save_conversation
      → IsAnswered command_repo.save_conversation
      → (create_direct_conversation r cmd w).0 ≡ err e
      → (create_direct_conversation r cmd w).1 ≡ w
  unfolding create_direct_conversation
  create_direct_conversation-err r cmd w {e} atomic answered h = grind (arith, atomic, answered)
