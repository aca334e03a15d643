-- ===== src/Chat/Gateway/Access.antt =====
-- Who marks by the gateway, and who hears of a receipt.
use nestjs_chat.Base.{
  ℕ, ◌≡◌, refl, subst, Bool, true, some, List, [], ◌∷◌, arith, inl, inr, any, includes, Bool-cases,
}
use nestjs_chat.Action.{World, ok}
use nestjs_chat.Action.Inversion.{run_cases, found_cases}
use nestjs_chat.Chat.Message.{ChatEvent}
use nestjs_chat.Chat.Ports.{
  ConversationReadDto, ConversationMemberReadDto, ConversationRepositoryPort,
  ConversationReadRepositoryPort, UserIntegrationPort,
}
use nestjs_chat.Chat.Commands.MarkAsRead.{
  mark_conversation_as_read, IsMarkedBy, mark_conversation_as_read_sound,
}
use nestjs_chat.Chat.Rooms.{Emission, WsEvent, message_seen}
use nestjs_chat.Chat.Gateway.Preview.{is_dto_of, get_user_conversation, broadcast}
use nestjs_chat.Chat.Gateway.Messages.{
  MarkMessageSeenRequest, user_ids_of, own_conversation, ws_mark_message_as_seen,
}

-- somebody of the client's rooms hears of one of the emissions
abbrev pub heard_in : ℕ → List Emission → Bool
heard_in u emissions = any (λ (e : Emission). includes u e.rooms) emissions

heard_in-broadcast :
    (u : ℕ) (rooms : List ℕ) (event : WsEvent)
    → heard_in u (broadcast rooms event) ≡ includes u rooms
heard_in-broadcast u [] event = refl
heard_in-broadcast u (room ∷ rooms) event = ground arith

includes-user_ids_of :
    (u : ℕ) (members : List ConversationMemberReadDto)
    → includes u (user_ids_of members) ≡ any (is_dto_of u) members
includes-user_ids_of u [] = refl
includes-user_ids_of u (m ∷ members) = ground (arith, includes-user_ids_of u members)

module _ {S : Type 0} (repo : ConversationRepositoryPort S)
    (reads : ConversationReadRepositoryPort S) (users : UserIntegrationPort S) where
  -- A receipt that the gateway has answered for is stored for the sender, who is a member of the
  -- conversation that was found, and is heard in the rooms of exactly the members.
  pub ws_mark_message_as_seen_sound :
      (now : ℕ) (request : MarkMessageSeenRequest) (auth_user_id : ℕ) (w : World S ChatEvent)
      {emissions : List Emission} {w' : World S ChatEvent}
      → ws_mark_message_as_seen repo reads users now request auth_user_id w ≡ (ok emissions, w')
      → (c : ConversationReadDto) × (reads.get_user_conversation_by_id request.conversation_id
            auth_user_id w.store
          ≡ ok (some c))
        × (any (is_dto_of auth_user_id) c.members ≡ true)
        × IsMarkedBy repo now
            (record {
              conversation_id = c.id;
              user_id = auth_user_id;
              message_id = request.message_id;
            })
            w
            w'
        × ((u : ℕ) → heard_in u emissions ≡ any (is_dto_of u) c.members)
  unfolding ws_mark_message_as_seen own_conversation get_user_conversation
  ws_mark_message_as_seen_sound now request auth_user_id w {emissions} {w'} h =
      elim (found_cases
        (reads.get_user_conversation_by_id request.conversation_id auth_user_id w.store)) [
          | inr missing ↦ absurd (ground arith)
          | inl (c, known) ↦ elim (Bool-cases (any (is_dto_of auth_user_id) c.members)) [
            | inr foreign ↦ absurd (ground arith)
            | inl own ↦
                elim (run_cases (
                  mark_conversation_as_read repo now
                    (record {
                      conversation_id = c.id;
                      user_id = auth_user_id;
                      message_id = request.message_id;
                    })
                    w)) [
                      | inr failed ↦ absurd (ground arith)
                      | inl (done_, w1, marked) ↦
                          let same : w1 ≡ w' = ground arith in
                          let sound =
                            mark_conversation_as_read_sound repo now
                              (record {
                                conversation_id = c.id;
                                user_id = auth_user_id;
                                message_id = request.message_id;
                              })
                              w marked in
                          (
                            c,
                            known,
                            own,
                            subst
                                (λ v.
                                  IsMarkedBy repo now
                                    (record {
                                      conversation_id = c.id;
                                      user_id = auth_user_id;
                                      message_id = request.message_id;
                                    })
                                    w v)
                                same sound,
                            λ u. ground (
                              arith,
                              heard_in-broadcast u (user_ids_of c.members)
                                  (message_seen c.id request.message_id),
                              includes-user_ids_of u c.members,
                            ),
                          )
                    ]
          ]
        ]
