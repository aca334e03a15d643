-- ===== src/Chat/Gateway/Opening.antt =====
-- What `createDirectConversation` of the gateway leaves behind.
use nestjs_chat.Base.{ℕ, ◌≡◌, subst, false, none, List, [], arith, Bool-cases, inl, inr}
use nestjs_chat.Action.{World, ok}
use nestjs_chat.Action.Inversion.{run_cases, Result-cases}
use nestjs_chat.Chat.Message.{ChatEvent, text}
use nestjs_chat.Chat.Conversation.{ConversationEntity}
use nestjs_chat.Chat.Ports.{
  ChatUser, BlockStatus, LoadedMessage, ConversationRepositoryPort, ConversationReadRepositoryPort,
  UserIntegrationPort, UserIntegrationLaws,
}
use nestjs_chat.Chat.Commands.CreateDirect.{
  Readings, create_direct_conversation, create_direct_conversation_sound,
}
use nestjs_chat.Chat.Commands.CreateMessage.{CreateMessageCommand, create_message}
use nestjs_chat.Chat.Commands.MarkAsRead.{delete_conversation}
use nestjs_chat.Chat.Rooms.{Emission}
use nestjs_chat.Chat.Gateway.Conversations.{
  CreateConversationRequest, CreatedConversation, first_message, open_conversation,
  ws_create_direct_conversation,
}

-- the command for a first message that is hidden from nobody
abbrev pub shown_message :
    CreateConversationRequest → (sender_id conversation_id : ℕ) → CreateMessageCommand
shown_message request sender_id conversation_id = record {
  content = request.content;
  type = text;
  sender_id = sender_id;
  conversation_id = conversation_id;
  deleted_for_user_ids = [];
  reply_to_message_id = none;
  client_message_id = none;
}

-- The users and the blocks that the handler reads.
pub record IsAsked {S : Type 0} (users : UserIntegrationPort S) (auth_user_id target_id : ℕ) (s : S)
    : Type 0 where
  pub current : ChatUser
  pub target : ChatUser
  pub status : BlockStatus
  pub current_read : users.get_user_by_id auth_user_id s ≡ ok current
  pub target_read : users.get_user_by_id target_id s ≡ ok target
  pub status_read : users.get_block_status auth_user_id target.id s ≡ ok status
  pub unblocked : status.is_blocker ≡ false

module _ {S : Type 0} (repo : ConversationRepositoryPort S)
    (reads : ConversationReadRepositoryPort S) (users : UserIntegrationPort S) where
  open_conversation_ok :
      (r : Readings) (id now : ℕ) (request : CreateConversationRequest) (current target : ChatUser)
      (status : BlockStatus) (w w' : World S ChatEvent) (conversation : ConversationEntity)
      (l : LoadedMessage)
      → open_conversation repo reads users r id now request current target status w
        ≡ (ok (conversation, l), w')
      → (w1 : World S ChatEvent) × (create_direct_conversation repo reads users r
            (record { user_id = current.id; target_user_id = request.target_user_id })
            w
          ≡ (ok conversation, w1))
        × (create_message repo id now
              (first_message request current target status conversation.id)
              w1
            ≡ (ok l, w'))
  unfolding open_conversation delete_conversation
  open_conversation_ok r id now request current target status w w' conversation l h =
      elim (run_cases (
        create_direct_conversation repo reads users r
          (record { user_id = current.id; target_user_id = request.target_user_id }) w)) [
            | inr failed ↦ absurd (ground arith)
            | inl (c, w1, opened) ↦
                elim (run_cases (
                  create_message repo id now (first_message request current target status c.id)
                    w1)) [
                      | inr (e, w2, failed) ↦
                          elim (run_cases (repo.delete_conversation c.id w2.store)) [
                            | inl (b, s, gone) ↦ absurd (ground arith)
                            | inr (e', s, stuck) ↦ absurd (ground arith)
                          ]
                      | inl (l', w2, sent) ↦
                          let same : c ≡ conversation = ground arith in
                          (w1, ground arith, ground arith)
                    ]
          ]

  asked :
      (r : Readings) (id now : ℕ) (request : CreateConversationRequest) (auth_user_id : ℕ)
      (w : World S ChatEvent) (response : CreatedConversation × List Emission)
      (w' : World S ChatEvent)
      → ws_create_direct_conversation repo reads users r id now request auth_user_id w
        ≡ (ok response, w')
      → (a : IsAsked users auth_user_id request.target_user_id w.store)
        × (conversation : ConversationEntity) × (l : LoadedMessage) × (open_conversation repo reads
              users r id now request a.current a.target a.status w
            ≡ (ok (conversation, l), w'))
  unfolding ws_create_direct_conversation
  asked r id now request auth_user_id w response w' h =
      elim (Result-cases (users.get_user_by_id auth_user_id w.store)) [
        | inr failed ↦ absurd (ground arith)
        | inl (current, current_read) ↦
            elim (Result-cases (users.get_user_by_id request.target_user_id w.store)) [
              | inr failed ↦ absurd (ground arith)
              | inl (target, target_read) ↦
                  elim (Result-cases (users.get_block_status auth_user_id target.id w.store)) [
                    | inr failed ↦ absurd (ground arith)
                    | inl (status, status_read) ↦ elim (Bool-cases status.is_blocker) [
                      | inl blocker ↦ absurd (ground arith)
                      | inr unblocked ↦
                          elim (run_cases (
                            open_conversation repo reads users r id now request current target
                              status w)) [
                                | inr failed ↦ absurd (ground arith)
                                | inl ((c, l), w1, opened) ↦ (
                                  record {
                                    current = current;
                                    target = target;
                                    status = status;
                                    current_read = current_read;
                                    target_read = target_read;
                                    status_read = status_read;
                                    unblocked = unblocked;
                                  },
                                  c,
                                  l,
                                  ground arith,
                                )
                              ]
                    ]
                  ]
            ]
      ]

  -- What has happened when `createDirectConversation` returns.
  pub record IsOpened (r : Readings) (id now : ℕ) (request : CreateConversationRequest)
      (auth_user_id : ℕ) (w w' : World S ChatEvent) : Type 0 where
    pub status : BlockStatus
    pub status_read : users.get_block_status auth_user_id request.target_user_id w.store ≡ ok status
    pub unblocked : status.is_blocker ≡ false
    pub visible : status.is_blocked ≡ false
    pub conversation : ConversationEntity
    pub l : LoadedMessage
    pub w1 : World S ChatEvent
    pub opened :
        create_direct_conversation repo reads users r
          (record { user_id = auth_user_id; target_user_id = request.target_user_id })
          w
        ≡ (ok conversation, w1)
    pub sent :
        create_message repo id now (shown_message request auth_user_id conversation.id) w1
        ≡ (ok l, w')

  -- When `createDirectConversation` returns, neither user blocks the other, the conversation of the
  -- two was opened, and its first message was sent hidden from nobody: the list of users that the
  -- handler would hide it from is empty. The users are given under the identifiers asked for, and the
  -- two ways to ask for a block agree.
  pub ws_create_direct_conversation-visible :
      (r : Readings) (id now : ℕ) (request : CreateConversationRequest) (auth_user_id : ℕ)
      (w : World S ChatEvent) {response : CreatedConversation × List Emission}
      {w' : World S ChatEvent}
      → UserIntegrationLaws users
      → ws_create_direct_conversation repo reads users r id now request auth_user_id w
        ≡ (ok response, w')
      → IsOpened r id now request auth_user_id w w'
  ws_create_direct_conversation-visible r id now request auth_user_id w {response} {w'} laws h =
      let (a, conversation, l, ran) = asked r id now request auth_user_id w response w' h in
      let (w1, opened, sent) =
        open_conversation_ok r id now request a.current a.target a.status w w' conversation l ran in
      let own = laws.found_id auth_user_id w.store a.current a.current_read in
      let other = laws.found_id request.target_user_id w.store a.target a.target_read in
      let related = laws.relation auth_user_id a.target.id w.store a.status a.status_read in
      let sound =
        create_direct_conversation_sound repo reads users r
          (record { user_id = a.current.id; target_user_id = request.target_user_id }) w opened in
      let visible : a.status.is_blocked ≡ false = ground (arith, sound.unblocked, related) in
      let same_command : first_message request a.current a.target a.status conversation.id
          ≡ shown_message request auth_user_id conversation.id =
        ground arith in
      record {
        status = a.status;
        status_read = ground (arith, a.status_read);
        unblocked = a.unblocked;
        visible = visible;
        conversation = conversation;
        l = l;
        w1 = w1;
        opened =
            subst
              (λ i.
                create_direct_conversation repo reads users r
                  (record { user_id = i; target_user_id = request.target_user_id }) w
                ≡ (ok conversation, w1))
              own opened;
        sent = subst (λ cmd. create_message repo id now cmd w1 ≡ (ok l, w')) same_command sent;
      }
