-- ===== src/Chat/Conversation/Tests.antt =====
-- Runs of the conversation entity: users 1 and 2.
use nestjs_chat.Base.{ℕ, refl, [], ◌∷◌}
use nestjs_chat.Chat.Conversation.Defs.{
  ConversationEntity, Stamp, create_member, empty_direct, add_member,
}
use nestjs_chat.Chat.Conversation.Members.{IsValid, add_member-IsValid}

abbrev stamp : ℕ → Stamp
stamp i = record { id = i; created_at = 1; updated_at = 1 }

abbrev alone : ConversationEntity
alone = record (empty_direct (stamp 5) 50) {
  members = create_member (stamp 11) 1 5 ∷ [];
  updated_at = 2;
}

abbrev both : ConversationEntity
both = record alone {
  members = create_member (stamp 11) 1 5 ∷ create_member (stamp 12) 2 5 ∷ [];
  updated_at = 3;
}

alone-IsValid : IsValid alone
alone-IsValid = record { two = refl; nodup = (refl, tt) }

add_member-IsValid_example : IsValid both
unfolding add_member
add_member-IsValid_example =
    add_member-IsValid 3 (create_member (stamp 12) 2 5) alone alone-IsValid refl

both-IsValid : IsValid both
both-IsValid = record { two = refl; nodup = (refl, (refl, tt)) }
