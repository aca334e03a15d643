-- ===== src/Chat/Conversation/Reading.antt =====
-- Read receipts.
use nestjs_chat.Base.{
  ℕ, ◌≡◌, refl, ◌≢◌, ◌↔◌, inl, inr, Option, none, some, List, [], ◌∷◌, arith, find, length, ◌==◌,
  if◌then◌else◌, Option-cases, Bool-cases, is_id,
}
use nestjs_chat.Action.{ok}
use nestjs_chat.Chat.Conversation.Defs.{
  ConversationMemberEntity, ConversationEntity, is_user, update_found, update_last_seen_message,
  mark_as_read,
}
use nestjs_chat.Chat.Conversation.Members.{user_ids, IsValid}

-- What a user has seen last; `none` for who is no member.
abbrev pub last_seen_in : ℕ → List ConversationMemberEntity → Option (Option ℕ)
last_seen_in u ms = elim (find (is_user u) ms) [
  | none ↦ none
  | some m ↦ some m.last_seen_message_id
]

last_seen_in-update_found :
    (now u message v : ℕ) (ms : List ConversationMemberEntity) (m : ConversationMemberEntity)
    → find (is_user u) ms ≡ some m
    → last_seen_in v (update_found u (update_last_seen_message now message) ms)
      ≡ (if u == v then some (some message) else last_seen_in v ms)
unfolding update_found
last_seen_in-update_found now u message v [] m e = cc
last_seen_in-update_found now u message v (n ∷ ms) m e = elim (Bool-cases (n.user_id == u)) [
  | inl p ↦ rw p (ground arith)
  | inr p ↦ rw p (ground (arith, last_seen_in-update_found now u message v ms m))
]

user_ids-update_found :
    (now u message : ℕ) (ms : List ConversationMemberEntity)
    → user_ids (update_found u (update_last_seen_message now message) ms) ≡ user_ids ms
unfolding update_found
user_ids-update_found now u message [] = refl
user_ids-update_found now u message (n ∷ ms) =
    ground (arith, user_ids-update_found now u message ms)

length-update_found :
    (now u message : ℕ) (ms : List ConversationMemberEntity)
    → length (update_found u (update_last_seen_message now message) ms) ≡ length ms
unfolding update_found
length-update_found now u message [] = refl
length-update_found now u message (n ∷ ms) = ground (arith, length-update_found now u message ms)

-- `mark_as_read` succeeds exactly for a user who is a member.
pub mark_as_read-ok_iff :
    (now u message : ℕ) (c : ConversationEntity)
    → ((c' : ConversationEntity) × (mark_as_read now u message c ≡ ok c'))
      ↔ (last_seen_in u c.members ≢ none)
unfolding mark_as_read
mark_as_read-ok_iff now u message c = elim (Option-cases (find (is_user u) c.members)) [
  | inl missing ↦ (λ (c', e). ground arith, λ h. absurd (ground arith))
  | inr (m, found) ↦ (
    λ (c', e). ground arith,
    λ h. (
      if is_id m.last_seen_message_id message then c else record c {
        members = update_found u (update_last_seen_message now message) c.members;
      },
      ground arith,
    ),
  )
]

-- After it the reader has seen that message last, every other user what they had seen before, and
-- the members are the same users.
pub mark_as_read_lem :
    (now u message : ℕ) (c : ConversationEntity) {c' : ConversationEntity}
    → mark_as_read now u message c ≡ ok c'
    → ((v : ℕ)
        → last_seen_in v c'.members
          ≡ (if u == v then some (some message) else last_seen_in v c.members))
      × (user_ids c'.members ≡ user_ids c.members)
unfolding mark_as_read
mark_as_read_lem now u message c e = elim (Option-cases (find (is_user u) c.members)) [
  | inl missing ↦ ground arith
  | inr (m, found) ↦ (
    λ v. ground (arith, last_seen_in-update_found now u message v c.members m),
    ground (arith, user_ids-update_found now u message c.members),
  )
]

-- After a message has been marked as read, marking it again at any later time changes nothing.
pub mark_as_read_twice :
    (now later u message : ℕ) (c : ConversationEntity) {c' : ConversationEntity}
    → mark_as_read now u message c ≡ ok c'
    → mark_as_read later u message c' ≡ ok c'
unfolding mark_as_read
mark_as_read_twice now later u message c {c'} e =
    let seen = (mark_as_read_lem now u message c e).0 u in
    elim (Option-cases (find (is_user u) c'.members)) [
      | inl missing ↦ ground arith
      | inr (m, found) ↦ ground arith
    ]

-- When `mark_as_read` succeeds on a valid conversation, the conversation stays valid.
pub mark_as_read-IsValid :
    (now u message : ℕ) (c : ConversationEntity) {c' : ConversationEntity}
    → IsValid c
    → mark_as_read now u message c ≡ ok c'
    → IsValid c'
unfolding mark_as_read
mark_as_read-IsValid now u message c v e = record {
  two = ground (arith, length-update_found now u message c.members, v.two);
  nodup = ground (arith, user_ids-update_found now u message c.members, v.nodup);
}
