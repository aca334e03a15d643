-- ===== src/Chat/Commands/CreateMessage/Idempotent.antt =====
-- Sending again under the same identifier of the client's.
use nestjs_chat.Base.{
  ℕ, ◌≡◌, ◌≢◌, refl, Option, none, some, [], arith, find, inl, inr, Text, text_eq_refl, trim,
}
use nestjs_chat.Action.{World, ok}
use nestjs_chat.Chat.Message.{ChatEvent}
use nestjs_chat.Chat.Conversation.{ConversationEntity, ConversationMemberEntity, is_user}
use nestjs_chat.Chat.Ports.{LoadedMessage, ConversationRepositoryPort, ConversationRepositoryLaws}
use nestjs_chat.Chat.Commands.CreateMessage.{
  CreateMessageCommand, load_reply_to_message, idempotent_hit, create_message,
}
use nestjs_chat.Chat.Commands.CreateMessage.Sound.{IsSent, create_message_sound}

message-load_reply_to_message :
    (reply : Option LoadedMessage) (saved : LoadedMessage)
    → (load_reply_to_message reply saved).message ≡ saved.message
message-load_reply_to_message none saved = refl
message-load_reply_to_message (some r) saved = refl

module _ {S : Type 0} (repo : ConversationRepositoryPort S) where
  -- Where the client's identifier is known for the member, with the same text, that message is
  -- returned.
  create_message_hit :
      (id now : ℕ) (cmd : CreateMessageCommand) (w : World S ChatEvent) (c : ConversationEntity)
      (m : ConversationMemberEntity) (client : Text) (l : LoadedMessage)
      → repo.get_conversation_by_id cmd.conversation_id w.store ≡ ok (some c)
      → find (is_user cmd.sender_id) c.members ≡ some m
      → cmd.client_message_id ≡ some client
      → client ≢ []
      → repo.get_message_by_client_message_id cmd.conversation_id m.id (trim client) w.store
        ≡ ok (some l)
      → l.message.content ≡ cmd.content
      → create_message repo id now cmd w ≡ (ok l, w)
  unfolding create_message idempotent_hit
  create_message_hit id now cmd w c m client l known joined named filled found same =
      ground (arith, text_eq_refl cmd.content)

  -- A message that was sent is found again by the same command.
  IsSent-again :
      (id now id' now' : ℕ) (cmd : CreateMessageCommand) (w : World S ChatEvent) {l : LoadedMessage}
      {w' : World S ChatEvent} (c : ConversationEntity) (m : ConversationMemberEntity)
      (client : Text)
      → ConversationRepositoryLaws repo
      → repo.get_conversation_by_id cmd.conversation_id w.store ≡ ok (some c)
      → find (is_user cmd.sender_id) c.members ≡ some m
      → cmd.client_message_id ≡ some client
      → client ≢ []
      → l.message.content ≡ cmd.content
      → IsSent repo id now cmd w m l w'
      → (l' : LoadedMessage) × (create_message repo id' now' cmd w' ≡ (ok l', w'))
        × (l'.message.id ≡ l.message.id)
  IsSent-again id now id' now' cmd w {l} {w'} c m client laws known joined named filled same sent =
      let (c', m', known', joined', same_id) =
        laws.members_after_save sent.message w.store sent.saved w'.store cmd.conversation_id
          cmd.sender_id c m sent.stored known joined in
      let within : sent.message.conversation_id ≡ cmd.conversation_id = ground arith in
      let sender : sent.message.sender_id ≡ m.id = ground arith in
      let stored_name : sent.message.client_message_id ≡ some (trim client) = ground arith in
      let (f, found, f_id, f_content) =
        laws.found_after_save sent.message (trim client) w.store sent.saved w'.store stored_name
          sent.stored in
      let kept = message-load_reply_to_message sent.reply sent.saved in
      (
        f,
        create_message_hit id' now' cmd w' c' m' client f known' joined' named filled (cc)
            (ground (arith, kept)),
        ground (arith, kept),
      )

  -- On a repository that keeps the port's laws, sending a command again, after it has returned a
  -- message with the command's text, returns a message with the same identifier and changes and
  -- publishes nothing, whatever uuid and time the second call draws. The command has an identifier of
  -- the client's that is not empty.
  pub create_message_again :
      (id now id' now' : ℕ) (cmd : CreateMessageCommand) (w : World S ChatEvent) {l : LoadedMessage}
      {w' : World S ChatEvent} (client : Text)
      → ConversationRepositoryLaws repo
      → cmd.client_message_id ≡ some client
      → client ≢ []
      → create_message repo id now cmd w ≡ (ok l, w')
      → l.message.content ≡ cmd.content
      → (l' : LoadedMessage) × (create_message repo id' now' cmd w' ≡ (ok l', w'))
        × (l'.message.id ≡ l.message.id)
  create_message_again id now id' now' cmd w {l} {w'} client laws named filled h same =
      let s = create_message_sound repo id now cmd w h in
      elim s.outcome [
        | inl hit ↦ (
          l,
          create_message_hit id' now' cmd w' s.conversation s.member client l (ground arith)
              s.joined named filled (ground arith) same,
          refl,
        )
        | inr sent ↦
            IsSent-again id now id' now' cmd w s.conversation s.member client laws s.known s.joined
              named filled same sent
      ]
