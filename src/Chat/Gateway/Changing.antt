-- ===== src/Chat/Gateway/Changing.antt =====
-- Who edits and deletes by the gateway, and what it answers.
use nestjs_chat.Base.{ℕ, ◌≡◌, subst, true, some, arith, inl, inr, any, get_or, Bool-cases}
use nestjs_chat.Action.{World, ok}
use nestjs_chat.Action.Inversion.{run_cases, found_cases}
use nestjs_chat.Chat.Message.{ChatEvent}
use nestjs_chat.Chat.Ports.{
  LoadedMessage, ConversationReadDto, ConversationRepositoryPort, ConversationReadRepositoryPort,
  UserIntegrationPort,
}
use nestjs_chat.Chat.Commands.EditMessage.{
  EditMessageCommand, edit_message, IsEditedBy, edit_message_sound,
}
use nestjs_chat.Chat.Commands.DeleteMessage.{
  DeleteMessageCommand, delete_message, IsDeletedBy, delete_message_sound,
}
use nestjs_chat.Chat.Gateway.Preview.{is_dto_of, get_user_conversation}
use nestjs_chat.Chat.Gateway.Messages.{
  EditMessageRequest, EditMessageResponse, DeleteMessageRequest, DeleteMessageResponse,
  own_conversation, ws_edit_message, ws_delete_message,
}

module _ {S : Type 0} (repo : ConversationRepositoryPort S)
    (reads : ConversationReadRepositoryPort S) (users : UserIntegrationPort S) where
  -- The conversation is found for the user, who is one of its members.
  abbrev pub IsOwn : (conversation_id auth_user_id : ℕ) → S → Type 0
  IsOwn conversation_id auth_user_id s =
      (c : ConversationReadDto) × (reads.get_user_conversation_by_id conversation_id auth_user_id s
        ≡ ok (some c))
      × (any (is_dto_of auth_user_id) c.members ≡ true)

  -- An edit that the gateway has answered for was made by the command for editing, in the name of the
  -- user, who is a member of the conversation that was found for them: that conversation, message and
  -- text are the ones requested. The answer has the identifier and text of the message that the command
  -- returned, with its time of edit, or of update if there is none, and what the command did is all
  -- that has happened.
  pub ws_edit_message_sound :
      (now : ℕ) (request : EditMessageRequest) (auth_user_id : ℕ) (w : World S ChatEvent)
      {response : EditMessageResponse} {w' : World S ChatEvent}
      → ws_edit_message repo reads users now request auth_user_id w ≡ (ok response, w')
      → IsOwn request.conversation_id auth_user_id w.store
        × (l : LoadedMessage) × IsEditedBy repo now
            (record {
              message_id = request.message_id;
              conversation_id = request.conversation_id;
              user_id = auth_user_id;
              content = request.content;
            })
            w
            l
            w'
        × (response.id ≡ l.message.id)
        × (response.content ≡ l.message.content)
        × (response.edited_at ≡ get_or l.message.edited_at l.message.updated_at)
  unfolding ws_edit_message own_conversation get_user_conversation
  ws_edit_message_sound now request auth_user_id w {response} {w'} h =
      elim (found_cases
        (reads.get_user_conversation_by_id request.conversation_id auth_user_id w.store)) [
          | inr missing ↦ absurd (ground arith)
          | inl (c, known) ↦ elim (Bool-cases (any (is_dto_of auth_user_id) c.members)) [
            | inr foreign ↦ absurd (ground arith)
            | inl own ↦
                let command : EditMessageCommand = record {
                  message_id = request.message_id;
                  conversation_id = request.conversation_id;
                  user_id = auth_user_id;
                  content = request.content;
                } in
                elim (run_cases (edit_message repo now command w)) [
                  | inr failed ↦ absurd (ground arith)
                  | inl (l, w1, ran) ↦
                      let same : w1 ≡ w' = ground arith in
                      (
                        (c, known, own),
                        l,
                        subst (λ v. IsEditedBy repo now command w l v) same
                            (edit_message_sound repo now command w ran),
                        ground arith,
                        ground arith,
                        ground arith,
                      )
                ]
          ]
        ]

  -- A deletion that the gateway has answered for was made by the command for deleting, in the name of
  -- the user, who is a member of the conversation that was found for them, with the message and the
  -- scope that were requested. What the command did is all that has happened.
  pub ws_delete_message_sound :
      (now : ℕ) (request : DeleteMessageRequest) (auth_user_id : ℕ) (w : World S ChatEvent)
      {response : DeleteMessageResponse} {w' : World S ChatEvent}
      → ws_delete_message repo reads users now request auth_user_id w ≡ (ok response, w')
      → IsOwn request.conversation_id auth_user_id w.store
        × (l : LoadedMessage) × IsDeletedBy repo now
            (record {
              message_id = request.message_id;
              conversation_id = request.conversation_id;
              user_id = auth_user_id;
              scope = request.scope;
            })
            w
            l
            w'
        × (response.id ≡ l.message.id)
        × (response.conversation_id ≡ request.conversation_id)
        × (response.scope ≡ request.scope)
  unfolding ws_delete_message own_conversation get_user_conversation
  ws_delete_message_sound now request auth_user_id w {response} {w'} h =
      elim (found_cases
        (reads.get_user_conversation_by_id request.conversation_id auth_user_id w.store)) [
          | inr missing ↦ absurd (ground arith)
          | inl (c, known) ↦ elim (Bool-cases (any (is_dto_of auth_user_id) c.members)) [
            | inr foreign ↦ absurd (ground arith)
            | inl own ↦
                let command : DeleteMessageCommand = record {
                  message_id = request.message_id;
                  conversation_id = request.conversation_id;
                  user_id = auth_user_id;
                  scope = request.scope;
                } in
                elim (run_cases (delete_message repo now command w)) [
                  | inr failed ↦ absurd (ground arith)
                  | inl (l, w1, ran) ↦
                      let same : w1 ≡ w' = ground arith in
                      (
                        (c, known, own),
                        l,
                        subst (λ v. IsDeletedBy repo now command w l v) same
                            (delete_message_sound repo now command w ran),
                        ground arith,
                        ground arith,
                        ground arith,
                      )
                ]
          ]
        ]
