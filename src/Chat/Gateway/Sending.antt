-- ===== src/Chat/Gateway/Sending.antt =====
-- What `createMessage` of the gateway lets through.
use nestjs_chat.Base.{
  ℕ, ◌≡◌, refl, false, [], ◌∷◌, if◌then◌else◌, Option, none, some, arith, inl, inr, find,
  Option-cases, Bool-cases,
}
use nestjs_chat.Action.{World, ok}
use nestjs_chat.Action.Inversion.{run_cases, Result-cases, found_cases}
use nestjs_chat.Chat.Message.{text, MessageEntity, ChatEvent}
use nestjs_chat.Chat.Ports.{
  ChatUser, BlockStatus, LoadedMessage, ConversationReadDto, ConversationMemberReadDto,
  ConversationRepositoryPort, ConversationReadRepositoryPort, UserIntegrationPort,
}
use nestjs_chat.Chat.Commands.CreateMessage.{CreateMessageCommand, create_message}
use nestjs_chat.Chat.Gateway.Preview.{is_dto_of_other, get_user_conversation, parent_user}
use nestjs_chat.Chat.Gateway.Messages.{
  CreateMessageRequest, CreatedMessage, message_command, parent_of, parent_user_id, reply_preview,
  ws_create_message,
}

module _ {S : Type 0} (repo : ConversationRepositoryPort S)
    (reads : ConversationReadRepositoryPort S) (users : UserIntegrationPort S) where
  -- What has happened when `ws_create_message` returns.
  pub record IsSentBy (id now : ℕ) (request : CreateMessageRequest) (auth_user_id : ℕ)
      (w : World S ChatEvent) (response : CreatedMessage) (w' : World S ChatEvent) : Type 0 where
    pub conversation : ConversationReadDto
    pub target_member : ConversationMemberReadDto
    pub target : ChatUser
    pub status : BlockStatus
    pub l : LoadedMessage
    pub known :
        reads.get_user_conversation_by_id request.conversation_id auth_user_id w.store
        ≡ ok (some conversation)
    pub other : find (is_dto_of_other auth_user_id) conversation.members ≡ some target_member
    pub target_read : users.get_user_by_id target_member.user_id w.store ≡ ok target
    pub status_read : users.get_block_status auth_user_id target_member.user_id w.store ≡ ok status
    pub unblocked : status.is_blocker ≡ false
    pub command : CreateMessageCommand
    pub as_requested :
        (command.content ≡ request.content)
        × (command.reply_to_message_id ≡ request.reply_to_message_id)
        × (command.client_message_id ≡ request.client_message_id)
        × (command.type ≡ text)
    pub by_user : command.sender_id ≡ auth_user_id
    pub there : command.conversation_id ≡ conversation.id
    pub hidden : command.deleted_for_user_ids ≡ (if status.is_blocked then target.id ∷ [] else [])
    pub sent : create_message repo id now command w ≡ (ok l, w')
    pub answers :
        (response.id ≡ l.message.id)
        × (response.content ≡ l.message.content)
        × (response.created_at ≡ l.message.created_at)

  reply_preview-state :
      (c : ConversationReadDto) (current target : ChatUser) (parent : Option MessageEntity)
      (w : World S ChatEvent)
      → (reply_preview repo reads users c current target parent w).1 ≡ w
  reply_preview-state c current target none w = refl
  reply_preview-state c current target (some parent) w =
      elim (Result-cases
        (parent_user users current target (parent_user_id parent c.members) w.store)) [
          | inl (user, answer) ↦ ground arith
          | inr (e, answer) ↦ ground arith
        ]

  -- A message that the gateway has answered for was sent by one command for creating it: in the user's
  -- name, in the conversation that was found for the user, with the text, the message replied to and
  -- the client's identifier that were requested. The user does not block the other member, and the
  -- command hides the message from that one exactly if that one blocks the user. The answer has the
  -- identifier, text and time of the message that the command returned, and what the command did is
  -- all that has happened.
  pub ws_create_message_sound :
      (id now : ℕ) (request : CreateMessageRequest) (auth_user_id : ℕ) (w : World S ChatEvent)
      {response : CreatedMessage} {w' : World S ChatEvent}
      → ws_create_message repo reads users id now request auth_user_id w ≡ (ok response, w')
      → IsSentBy id now request auth_user_id w response w'
  unfolding ws_create_message get_user_conversation
  ws_create_message_sound id now request auth_user_id w {response} {w'} h =
      elim (found_cases
        (reads.get_user_conversation_by_id request.conversation_id auth_user_id w.store)) [
          | inr missing ↦ absurd (ground arith)
          | inl (c, known) ↦ elim (Option-cases (find (is_dto_of_other auth_user_id) c.members)) [
            | inl alone ↦ absurd (ground arith)
            | inr (m, other) ↦ elim (Result-cases (users.get_user_by_id auth_user_id w.store)) [
              | inr failed ↦ absurd (ground arith)
              | inl (current, current_read) ↦
                  elim (Result-cases (users.get_user_by_id m.user_id w.store)) [
                    | inr failed ↦ absurd (ground arith)
                    | inl (target, target_read) ↦
                        elim (Result-cases
                          (users.get_block_status auth_user_id m.user_id w.store)) [
                            | inr failed ↦ absurd (ground arith)
                            | inl (status, status_read) ↦ elim (Bool-cases status.is_blocker) [
                              | inl blocker ↦ absurd (ground arith)
                              | inr unblocked ↦
                                  elim (run_cases (
                                    create_message repo id now
                                      (message_command request auth_user_id c.id target.id status)
                                      w)) [
                                        | inr failed ↦ absurd (ground arith)
                                        | inl (l, w1, sent) ↦
                                            elim (run_cases (
                                              reply_preview repo reads users c current target
                                                (parent_of l) w1)) [
                                                  | inr failed ↦ absurd (ground arith)
                                                  | inl (reply, w2, shown) ↦
                                                      let same : w2 ≡ w1 = ground (
                                                        arith,
                                                        reply_preview-state c current target
                                                            (parent_of l) w1,
                                                      ) in
                                                      record {
                                                        conversation = c;
                                                        target_member = m;
                                                        target = target;
                                                        status = status;
                                                        l = l;
                                                        known = known;
                                                        other = other;
                                                        target_read = target_read;
                                                        status_read = status_read;
                                                        unblocked = unblocked;
                                                        command =
                                                            message_command request auth_user_id
                                                            c.id target.id status;
                                                        as_requested = (refl, refl, refl, refl);
                                                        by_user = refl;
                                                        there = refl;
                                                        hidden = refl;
                                                        sent = ground arith;
                                                        answers = (
                                                          ground arith,
                                                          ground arith,
                                                          ground arith,
                                                        );
                                                      }
                                                ]
                                      ]
                            ]
                          ]
                  ]
            ]
          ]
        ]
