-- ===== src/Chat/Rooms/Laws.antt =====
-- Who hears of an edited or a deleted message.
use nestjs_chat.Base.{
  ℕ, ◌≡◌, refl, inl, inr, Bool, false, not, ◌&&◌, Option, none, some, List, [], ◌∷◌, includes, any,
  arith, Bool-cases, ◌==◌, ==_iff,
}
use nestjs_chat.Action.{ok}
use nestjs_chat.Action.Inversion.{found_cases}
use nestjs_chat.Chat.Message.{me, everyone, MessageEditedDomainEvent, MessageDeletedDomainEvent}
use nestjs_chat.Chat.Conversation.{ConversationEntity, ConversationMemberEntity, is_user}
use nestjs_chat.Chat.Ports.{ConversationRepositoryPort}
use nestjs_chat.Chat.Rooms.{
  WsEvent, Emission, server_broadcast, rooms_of, handle_message_edited, handle_message_deleted,
}

-- A user's room is chosen exactly if the user is a member for whom the message is not hidden.
includes-rooms_of :
    (u : ℕ) (hidden : List ℕ) (members : List ConversationMemberEntity)
    → includes u (rooms_of hidden members) ≡ (any (is_user u) members && not (includes u hidden))
includes-rooms_of u hidden [] = refl
includes-rooms_of u hidden (m ∷ members) =
    let rest = includes-rooms_of u hidden members in
    elim (Bool-cases (includes m.user_id hidden)) [
      | inl h ↦ elim (Bool-cases (m.user_id == u)) [
        | inl e ↦ ground (arith, rest, ==_iff m.user_id u)
        | inr e ↦ ground (arith, rest)
      ]
      | inr h ↦ elim (Bool-cases (m.user_id == u)) [
        | inl e ↦ ground (arith, rest, ==_iff m.user_id u)
        | inr e ↦ ground (arith, rest)
      ]
    ]

-- The rooms that an emission reaches.
abbrev pub heard_by : ℕ → Option Emission → Bool
heard_by u none = false
heard_by u (some emission) = includes u emission.rooms

heard_by-server_broadcast :
    (u : ℕ) (rooms : List ℕ) (event : WsEvent)
    → heard_by u (server_broadcast rooms event) ≡ includes u rooms
heard_by-server_broadcast u [] event = refl
heard_by-server_broadcast u (room ∷ rooms) event = refl

module _ {S : Type 0} (repo : ConversationRepositoryPort S) where
  -- A user hears of an edit exactly if the user is a member of the conversation that is found and the
  -- message is not hidden from that user.
  pub handle_message_edited_rooms :
      (event : MessageEditedDomainEvent) (s : S) (c : ConversationEntity) (u : ℕ)
      → repo.get_conversation_by_id event.conversation_id s ≡ ok (some c)
      → heard_by u (handle_message_edited repo event s)
        ≡ (any (is_user u) c.members && not (includes u event.deleted_for_user_ids))
  unfolding handle_message_edited
  handle_message_edited_rooms event s c u found = ground (
    arith,
    includes-rooms_of u event.deleted_for_user_ids c.members,
    heard_by-server_broadcast u (rooms_of event.deleted_for_user_ids c.members),
  )

  -- A deletion for oneself is heard by the one who deleted alone, whatever the store holds and also
  -- when the conversation cannot be read. One for everyone is heard exactly by the members of the
  -- conversation from whom the message was not hidden, and by nobody when it is not found or not read.
  pub handle_message_deleted_rooms :
      (event : MessageDeletedDomainEvent) (s : S) (u : ℕ)
      → heard_by u (handle_message_deleted repo event s) ≡ elim event.scope [
        | me ↦ event.actor_user_id == u
        | everyone ↦ elim (repo.get_conversation_by_id event.conversation_id s) [
          | ok (some c) ↦ any (is_user u) c.members && not (includes u event.deleted_for_user_ids)
          | _ ↦ false
        ]
      ]
  unfolding handle_message_deleted
  handle_message_deleted_rooms event s u =
      elim (found_cases (repo.get_conversation_by_id event.conversation_id s)) [
        | inr missing ↦ ground arith
        | inl (c, found) ↦ ground (
          arith,
          includes-rooms_of u event.deleted_for_user_ids c.members,
          heard_by-server_broadcast u (rooms_of event.deleted_for_user_ids c.members),
        )
      ]
