-- ===== src/Chat/Conversation/Members.antt =====
-- Who is in a conversation.
use nestjs_chat.Base.{
  ℕ, suc, if◌then◌else◌, ◌≡◌, refl, ltb, ◌&&◌, false, List, [], ◌∷◌, ◌++◌, arith, length, any,
  includes, IsNodup, append-IsNodup, ◌==◌,
}
use nestjs_chat.Action.{ok}
use nestjs_chat.Chat.Conversation.Defs.{
  ConversationMemberEntity, ConversationEntity, Stamp, is_user, is_direct, direct, add_member,
  create_direct, create_member, empty_direct,
}

abbrev pub user_ids : List ConversationMemberEntity → List ℕ
user_ids [] = []
user_ids (m ∷ ms) = m.user_id ∷ user_ids ms

-- A direct conversation has two members at most, and no conversation lists a user twice.
pub record IsValid (c : ConversationEntity) : Type 0 where
  pub two : (is_direct c.type && ltb 2 (length c.members)) ≡ false
  pub nodup : IsNodup (user_ids c.members)

user_ids-concat :
    (ms : List ConversationMemberEntity) (m : ConversationMemberEntity)
    → user_ids (ms ++ m ∷ []) ≡ user_ids ms ++ m.user_id ∷ []
user_ids-concat [] m = refl
user_ids-concat (n ∷ ms) m = rw (user_ids-concat ms m)

length-concat :
    (ms : List ConversationMemberEntity) (m : ConversationMemberEntity)
    → length (ms ++ m ∷ []) ≡ suc (length ms)
length-concat [] m = refl
length-concat (n ∷ ms) m = rw (length-concat ms m)

any-is_user :
    (u : ℕ) (ms : List ConversationMemberEntity) → any (is_user u) ms ≡ includes u (user_ids ms)
any-is_user u [] = refl
any-is_user u (m ∷ ms) = rw (any-is_user u ms)

-- When `add_member` accepts a member for a valid conversation, the conversation stays valid: a direct
-- one has two members at most, and no user is a member twice.
pub add_member-IsValid :
    (now : ℕ) (m : ConversationMemberEntity) (c : ConversationEntity) {c' : ConversationEntity}
    → IsValid c
    → add_member now m c ≡ ok c'
    → IsValid c'
unfolding add_member
add_member-IsValid now m c v e = record {
  two = ground (arith, length-concat c.members m, v.two);
  nodup = ground (
    arith,
    user_ids-concat c.members m,
    any-is_user m.user_id c.members,
    append-IsNodup (user_ids c.members) m.user_id v.nodup,
  );
}

-- What `createDirect` makes.
abbrev pub direct_of :
    (s first second : Stamp) → (identifier joined joined' u t : ℕ) → ConversationEntity
direct_of s first second identifier joined joined' u t =
    if u == t
    then record (empty_direct s identifier) {
      members = create_member first u s.id ∷ [];
      updated_at = joined;
    }
    else record (empty_direct s identifier) {
      members = create_member first u s.id ∷ create_member second t s.id ∷ [];
      updated_at = joined';
    }

pub create_direct-eq :
    (s first second : Stamp) (identifier joined joined' u t : ℕ)
    → create_direct s first second identifier joined joined' u t
      ≡ ok (direct_of s first second identifier joined joined' u t)
unfolding create_direct
create_direct-eq s first second identifier joined joined' u t = ground arith

-- `createDirect` never throws. The conversation is valid and has the two users as its members, and
-- only one member if they are one user.
pub create_direct_lem :
    (s first second : Stamp) (identifier joined joined' u t : ℕ)
    → (c : ConversationEntity) × (create_direct s first second identifier joined joined' u t ≡ ok c)
      × (c.id ≡ s.id)
      × (c.type ≡ direct)
      × (user_ids c.members ≡ (if u == t then u ∷ [] else u ∷ t ∷ []))
      × IsValid c
create_direct_lem s first second identifier joined joined' u t = (
  direct_of s first second identifier joined joined' u t,
  create_direct-eq s first second identifier joined joined' u t,
  ground arith,
  ground arith,
  ground arith,
  record { two = ground arith; nodup = ground arith },
)
