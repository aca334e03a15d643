-- ===== src/Chat/Postgres/Sample.antt =====
-- Rows on which the tests run the repository: users 1 and 2 are the members 11 and 12 of the
-- conversation 5, where 11 has sent the message 7.
use nestjs_chat.Base.{ℕ, ◌≡◌, refl, subst, none, some, [], ◌∷◌, arith}
use nestjs_chat.Chat.Message.{MessageEntity}
use nestjs_chat.Chat.InMemory.{hi, two_members}
use nestjs_chat.Chat.Postgres.Entities.{
  ConversationMember, message_from_domain, conversation_from_domain,
}
use nestjs_chat.Chat.Postgres.Database.{IsLatest}
use nestjs_chat.Chat.Postgres.LastMessage.{HasLatest, IsStored}
use nestjs_chat.Chat.Postgres.NewMessage.{IsNew}
use nestjs_chat.Chat.Postgres.InMemory.{Rows, tables}

abbrev member_row : (id user_id : ℕ) → ConversationMember
member_row id user_id = record {
  id = id;
  user_id = user_id;
  conversation_id = 5;
  last_seen_message_id = none;
  last_message_id = some 7;
  created_at = 1;
  updated_at = 1;
  deleted_at = none;
}

abbrev pub rows : Rows
rows = record {
  conversations = conversation_from_domain two_members ∷ [];
  members = member_row 11 1 ∷ member_row 12 2 ∷ [];
  messages = message_from_domain hi ∷ [];
  deleted = [];
}

-- an answer, hidden from user 1, with an identifier of the client's
abbrev pub answer : MessageEntity
answer = record hi {
  id = 8;
  sender_id = 12;
  created_at = 3;
  updated_at = 3;
  deleted_for_user_ids = 1 ∷ [];
  client_message_id = some (97 ∷ []);
}

-- the first message, deleted for everyone
abbrev pub hi_deleted : MessageEntity
hi_deleted = record hi { deleted_at = some 4; updated_at = 4 }

row-IsLatest : (u : ℕ) → IsLatest (tables rows) 5 u (some 7)
row-IsLatest u = (ground arith, λ i. ground arith)

pub rows-HasLatest : HasLatest (tables rows)
rows-HasLatest c u m joined =
    let place : 5 ≡ c = ground arith in
    let last : some 7 ≡ m.last_message_id = ground arith in
    subst (λ d. IsLatest (tables rows) d u m.last_message_id) place
      (subst (λ x. IsLatest (tables rows) 5 u x) last (row-IsLatest u))

pub answer-IsNew : IsNew (tables rows) answer
answer-IsNew = record {
  fresh = refl;
  unhidden = λ u. refl;
  undeleted = refl;
  newest = λ i n stored same. ground arith;
}

pub hi-IsStored : IsStored (tables rows) hi_deleted
hi-IsStored = record {
  row = message_from_domain hi;
  stored = refl;
  conversation = refl;
  marked = λ h. ground arith;
}
