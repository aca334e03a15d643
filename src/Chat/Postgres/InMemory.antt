-- ===== src/Chat/Postgres/InMemory.antt =====
-- A database kept in lists, on which the tests run the repository: the newest version of a row
-- stands first.
use nestjs_chat.Base.{
  ℕ, Bool, false, not, ◌&&◌, ◌==◌, ltb, Option, none, some, List, [], ◌∷◌, Text, if◌then◌else◌,
  find, any, keep, is_some, is_id, map,
}
use nestjs_chat.Exceptions.{database}
use nestjs_chat.Action.{Write, ok, err}
use nestjs_chat.Chat.Postgres.Entities.{Message, Conversation, ConversationMember, DeletedMessage}
use nestjs_chat.Chat.Postgres.Database.{
  ChatDatabase, Tables, message_in, conversation_in, is_sent_as, is_client, is_visible, sent_at,
  with_text, with_deleted_at,
}

pub record Rows : Type 0 where
  pub conversations : List Conversation
  pub members : List ConversationMember
  pub messages : List Message
  pub deleted : List DeletedMessage

abbrev pub has_key : (id : ℕ) → Message → Bool
has_key i m = m.id == i

abbrev pub is_at : (conversation_id user_id : ℕ) → ConversationMember → Bool
is_at c u m = (m.conversation_id == c) && (m.user_id == u)

abbrev pub is_hidden : (user_id message_id : ℕ) → DeletedMessage → Bool
is_hidden u i d = (d.user_id == u) && (d.message_id == i)

abbrev pub tables : Rows → Tables
tables t = record {
  conversation_at = λ i. find (λ (c : Conversation). c.id == i) t.conversations;
  member_at = λ c u. find (is_at c u) t.members;
  message_at = λ i. find (has_key i) t.messages;
  hidden = λ u i. any (is_hidden u i) t.deleted;
}

abbrev pub is_other : (user_id : ℕ) → ConversationMember → Bool
is_other u m = not (m.user_id == u)

-- the newest versions of the members' rows
abbrev pub newest : (conversation_id : ℕ) → List ConversationMember → List ConversationMember
newest c [] = []
newest c (m ∷ ms) =
    if m.conversation_id == c then m ∷ keep (is_other m.user_id) (newest c ms) else newest c ms

abbrev pub is_live : ConversationMember → Bool
is_live m = not (is_some m.deleted_at)

abbrev pub is_last : (message_id : ℕ) → ConversationMember → Bool
is_last i m = is_id m.last_message_id i

abbrev pub find_by_client :
    (conversation_id sender_id : ℕ) → Text → Rows → List Message → Option (Message × Option Message)
find_by_client c i client t [] = none
find_by_client c i client t (m ∷ ms) =
    let rest = find_by_client c i client t ms in
    elim (message_in (tables t) m.id) [
      | none ↦ rest
      | some (n, reply) ↦ if is_sent_as c i client n then some (n, reply) else rest
    ]

-- the newer one of the two, if it is visible
abbrev pub newer :
    Tables → (conversation_id user_id : ℕ) → Message → Option Message → Option Message
newer v c u m none = if is_visible v c u m.id then v.message_at m.id else none
newer v c u m (some n) =
    if is_visible v c u m.id && ltb (sent_at v n.id) (sent_at v m.id)
    then v.message_at m.id
    else some n

abbrev pub latest : Tables → (conversation_id user_id : ℕ) → List Message → Option Message
latest v c u [] = none
latest v c u (m ∷ ms) = newer v c u m (latest v c u ms)

-- messages_sender_id_client_message_id_uniq
abbrev pub is_taken : Message → Message → Bool
is_taken m n = elim m.client_message_id [
  | none ↦ false
  | some client ↦
      (n.conversation_id == m.conversation_id)
      && (n.sender_id == m.sender_id)
      && (is_client client n.client_message_id && not (n.id == m.id))
]

abbrev pub insert_all : List DeletedMessage → Rows → Rows
insert_all [] t = t
insert_all (d ∷ ds) t = insert_all ds (record t { deleted = d ∷ t.deleted })

abbrev pub update_row : (id : ℕ) → (Message → Message) → Rows → Rows
update_row i f t = record t {
  messages = elim (find (has_key i) t.messages) [ none ↦ t.messages | some m ↦ f m ∷ t.messages ];
}

abbrev pub mark_member : (conversation_id now : ℕ) → ConversationMember → ConversationMember
mark_member c now m = if m.conversation_id == c then record m { deleted_at = some now } else m

abbrev pub mark_row : (id now : ℕ) → Conversation → Conversation
mark_row i now c = if c.id == i then record c { deleted_at = some now } else c

abbrev pub all_or_nothing : {A : Type 0} → Write Rows A → Write Rows A
all_or_nothing run t = let (r, t') = run t in elim r [ ok a ↦ (ok a, t') | err e ↦ (err e, t) ]

-- 0 is no identifier of a message
abbrev pub in_lists : ChatDatabase Rows
in_lists = record {
  find_conversation = λ i t. ok (elim (conversation_in (tables t) i) [
    | none ↦ none
    | some c ↦ some (c, keep is_live (newest i t.members))
  ]);
  find_message = λ i t. ok (message_in (tables t) i);
  find_message_by_client = λ c i client t. ok (find_by_client c i client t t.messages);
  find_deleted = λ i t. ok (keep (λ (d : DeletedMessage). d.message_id == i) t.deleted);
  find_members = λ c t. ok (keep is_live (newest c t.members));
  find_members_by_last = λ c i t. ok (keep (is_last i) (keep is_live (newest c t.members)));
  find_latest = λ c u t. ok (latest (tables t) c u t.messages);
  save_conversation = λ c t. (ok c, record t { conversations = c ∷ t.conversations });
  save_member = λ m t. (ok m, record t { members = m ∷ t.members });
  save_message = λ m t.
      if m.id == 0
      then (err (database 22000), t)
      else if any (is_taken m) t.messages
      then (err (database 23505), t)
      else (ok m, record t { messages = m ∷ t.messages });
  save_deleted = λ d t. (ok d, record t { deleted = d ∷ t.deleted });
  insert_deleted = λ ds t. (ok tt, insert_all ds t);
  update_text = λ i content edited_at updated_at t.
      (ok tt, update_row i (with_text content edited_at updated_at) t);
  update_deleted_at =
      λ i deleted_at updated_at t. (ok tt, update_row i (with_deleted_at deleted_at updated_at) t);
  soft_delete_members = λ c t. (ok 2, record t { members = map (mark_member c 9) t.members });
  soft_delete_conversation = λ i t. (
    ok (if is_some (conversation_in (tables t) i) then 1 else 0),
    record t { conversations = map (mark_row i 9) t.conversations },
  );
  transaction = all_or_nothing;
}
