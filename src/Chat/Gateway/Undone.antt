-- ===== src/Chat/Gateway/Undone.antt =====
-- What `createDirectConversation` of the gateway leaves behind when its message fails.
use nestjs_chat.Base.{ℕ, ◌≡◌, ◌≢◌, subst, Bool, some, arith}
use nestjs_chat.Exceptions.{Exception}
use nestjs_chat.Action.{World, ok, err}
use nestjs_chat.Chat.Message.{ChatEvent}
use nestjs_chat.Chat.Conversation.{ConversationEntity}
use nestjs_chat.Chat.Ports.{
  ChatUser, BlockStatus, ConversationRepositoryPort, ConversationReadRepositoryPort,
  UserIntegrationPort,
}
use nestjs_chat.Chat.Commands.CreateDirect.{Readings, create_direct_conversation}
use nestjs_chat.Chat.Commands.CreateMessage.{create_message}
use nestjs_chat.Chat.Commands.MarkAsRead.{delete_conversation}
use nestjs_chat.Chat.Postgres.Database.{ChatDatabase}
use nestjs_chat.Chat.Postgres.Behaviour.{ChatDatabaseLaws}
use nestjs_chat.Chat.Postgres.Repository.{postgres, get_conversation_by_id}
use nestjs_chat.Chat.Postgres.Rows.{get_conversation_by_id-delete_conversation}
use nestjs_chat.Chat.Gateway.Conversations.{
  CreateConversationRequest, first_message, open_conversation, ws_create_direct_conversation,
}
use nestjs_chat.Chat.Gateway.Opening.{IsAsked}

module _ {S : Type 0} (repo : ConversationRepositoryPort S)
    (reads : ConversationReadRepositoryPort S) (users : UserIntegrationPort S) where
  open_conversation-undone :
      (r : Readings) (id now : ℕ) (request : CreateConversationRequest) (current target : ChatUser)
      (status : BlockStatus) (w w1 w2 : World S ChatEvent) (conversation : ConversationEntity)
      (e : Exception) (b : Bool) (s : S)
      → create_direct_conversation repo reads users r
          (record { user_id = current.id; target_user_id = request.target_user_id })
          w
        ≡ (ok conversation, w1)
      → create_message repo id now (first_message request current target status conversation.id) w1
        ≡ (err e, w2)
      → repo.delete_conversation conversation.id w2.store ≡ (ok b, s)
      → open_conversation repo reads users r id now request current target status w
        ≡ (err e, record w2 { store = s })
  unfolding open_conversation delete_conversation
  open_conversation-undone r id now request current target status w w1 w2 conversation e b s opened
        failed gone =
      ground arith

  ws_create_direct_conversation-err :
      (r : Readings) (id now : ℕ) (request : CreateConversationRequest) (auth_user_id : ℕ)
      (w w' : World S ChatEvent) (e : Exception)
      (a : IsAsked users auth_user_id request.target_user_id w.store)
      → open_conversation repo reads users r id now request a.current a.target a.status w
        ≡ (err e, w')
      → ws_create_direct_conversation repo reads users r id now request auth_user_id w ≡ (err e, w')
  unfolding ws_create_direct_conversation
  ws_create_direct_conversation-err r id now request auth_user_id w w' e a ran =
      ground (arith, a.current_read, a.target_read, a.status_read, a.unblocked)

module _ {T : Type 0} {db : ChatDatabase T} (laws : ChatDatabaseLaws db)
    (reads : ConversationReadRepositoryPort T) (users : UserIntegrationPort T) where
  -- When the conversation was opened in the database and its first message fails, the handler throws
  -- the failure of the message, and the conversation is not found from then on. The deletion that
  -- follows the failure succeeds.
  pub ws_create_direct_conversation-undone :
      (r : Readings) (id now : ℕ) (request : CreateConversationRequest) (auth_user_id : ℕ)
      (w w1 w2 : World T ChatEvent) (conversation : ConversationEntity) (e : Exception) {b : Bool}
      {s : T} (a : IsAsked users auth_user_id request.target_user_id w.store)
      → create_direct_conversation
          (postgres db)
          reads
          users
          r
          (record { user_id = a.current.id; target_user_id = request.target_user_id })
          w
        ≡ (ok conversation, w1)
      → create_message
          (postgres db)
          id
          now
          (first_message request a.current a.target a.status conversation.id)
          w1
        ≡ (err e, w2)
      → (postgres db).delete_conversation conversation.id w2.store ≡ (ok b, s)
      → ((ws_create_direct_conversation (postgres db) reads users r id now request auth_user_id w).0
          ≡ err e)
        × ((c : ConversationEntity)
            → get_conversation_by_id db conversation.id
                (ws_create_direct_conversation
                  (postgres db)
                  reads
                  users
                  r
                  id
                  now
                  request
                  auth_user_id
                  w).1.store
              ≢ ok (some c))
  ws_create_direct_conversation-undone r id now request auth_user_id w w1 w2 conversation e {b} {s}
        a opened failed gone =
      let whole =
        ws_create_direct_conversation-err (postgres db) reads users r id now request auth_user_id w
          (record w2 { store = s }) e a
          (open_conversation-undone (postgres db) reads users r id now request a.current a.target
            a.status w w1 w2 conversation e b s opened failed gone) in
      let same : s
          ≡ (ws_create_direct_conversation (postgres db) reads users r id now request auth_user_id
              w).1.store =
        ground (arith, whole) in
      (
        ground (arith, whole),
        λ c.
            subst (λ t. get_conversation_by_id db conversation.id t ≢ ok (some c)) same
              (get_conversation_by_id-delete_conversation laws conversation.id w2.store c gone),
      )
