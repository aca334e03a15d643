-- ===== src/Chat/InMemory.antt =====
-- A repository kept in two lists, on which the tests run the handlers: the newest version of an
-- entity stands first.
use nestjs_chat.Base.{
  ℕ, ◌≡◌, refl, Bool, true, false, ◌&&◌, ◌==◌, ◌+◌, map, any, if◌then◌else◌, Option, none, some,
  List, [], ◌∷◌, find, Text, text_eq, text_eq_refl, arith, Option-cases, inl, inr,
}
use nestjs_chat.Action.{World, ok}
use nestjs_chat.Chat.Message.{MessageEntity, ChatEvent, text}
use nestjs_chat.Chat.Conversation.{ConversationEntity, ConversationMemberEntity, direct, is_user}
use nestjs_chat.Chat.Ports.{
  LoadedMessage, ConversationRepositoryPort, ConversationRepositoryLaws,
  ConversationReadRepositoryPort, UserIntegrationPort, ConversationReadDto,
  ConversationMemberReadDto, ChatUser, UserIntegrationLaws,
}

pub record Store : Type 0 where
  pub conversations : List ConversationEntity
  pub messages : List MessageEntity

abbrev pub load : MessageEntity → LoadedMessage
load m = record { message = m; reply_to_message = none }

abbrev load_found : Option MessageEntity → Option LoadedMessage
load_found none = none
load_found (some m) = some (load m)

abbrev is_named : Option Text → Text → Bool
is_named none client = false
is_named (some name) client = text_eq name client

abbrev is_sent_as : (conversation_id sender_id : ℕ) → Text → MessageEntity → Bool
is_sent_as c i client m =
    (m.conversation_id == c) && ((m.sender_id == i) && is_named m.client_message_id client)

abbrev put_message : MessageEntity → Store → Store
put_message m s = record s { messages = m ∷ s.messages }

-- the earlier message under the client's identifier, if there is one
abbrev earlier : MessageEntity → Store → Option MessageEntity
earlier m s = elim m.client_message_id [
  | none ↦ none
  | some client ↦ find (is_sent_as m.conversation_id m.sender_id client) s.messages
]

abbrev pub in_memory : ConversationRepositoryPort Store
in_memory = record {
  get_conversation_by_id = λ i s. ok (find (λ (c : ConversationEntity). c.id == i) s.conversations);
  save_conversation = λ c s. (ok (some c), record s { conversations = c ∷ s.conversations });
  get_message_by_id = λ i s. ok (load_found (find (λ (m : MessageEntity). m.id == i) s.messages));
  get_message_by_client_message_id =
      λ c i client s. ok (load_found (find (is_sent_as c i client) s.messages));
  save_message = λ m s. elim (earlier m s) [
    | none ↦ (ok (load m), put_message m s)
    | some e ↦ (ok (load e), s)
  ];
  update_message = λ m s. (ok (some (load m)), put_message m s);
  save_message_deletion = λ m s. (ok (some (load m)), put_message m s);
  delete_conversation = λ i s. (ok true, s);
}

-- a member as it is read, and a conversation
abbrev member_dto : ConversationMemberEntity → ConversationMemberReadDto
member_dto m = record {
  id = m.id;
  user_id = m.user_id;
  last_seen_message_id = m.last_seen_message_id;
  last_seen_message = none;
  last_message_id = m.last_message_id;
}

abbrev conversation_dto : ConversationEntity → ConversationReadDto
conversation_dto c = record {
  id = c.id;
  type = c.type;
  identifier = c.identifier;
  title = c.title;
  picture = c.picture;
  created_at = c.created_at;
  updated_at = c.updated_at;
  members = map member_dto c.members;
  last_message = none;
  not_seen_count = 0;
}

abbrev read_found : (user_id : ℕ) → Option ConversationEntity → Option ConversationReadDto
read_found u none = none
read_found u (some c) = if any (is_user u) c.members then some (conversation_dto c) else none

abbrev pub in_memory_reads : ConversationReadRepositoryPort Store
in_memory_reads = record {
  conversation_exists = λ u t s. ok false;
  get_user_conversation_by_id =
      λ i u s. ok (read_found u (find (λ (c : ConversationEntity). c.id == i) s.conversations));
}

-- the users are named by a letter
abbrev pub user_of : ℕ → ChatUser
user_of i = record {
  id = i;
  username = (96 + i) ∷ [];
  first_name = some ((64 + i) ∷ []);
  last_name = none;
  avatar = none;
}

abbrev pub in_memory_users : {S : Type 0} → UserIntegrationPort S
in_memory_users = record {
  does_user_exist = λ i s. ok true;
  has_block_relation = λ a b s. ok false;
  get_user_by_id = λ i s. ok (user_of i);
  get_block_status = λ a b s. ok (record { is_blocker = false; is_blocked = false });
}

saved_is_found :
    (m : MessageEntity) (client : Text) (s : Store) (l : LoadedMessage) (s' : Store)
    → m.client_message_id ≡ some client
    → in_memory.save_message m s ≡ (ok l, s')
    → in_memory.get_message_by_client_message_id m.conversation_id m.sender_id client s'
      ≡ ok (some l)
saved_is_found m client s l s' named h =
    elim (Option-cases (find (is_sent_as m.conversation_id m.sender_id client) s.messages)) [
      | inl missing ↦
          let kept : earlier m s ≡ none = ground arith in ground (arith, kept, text_eq_refl client)
      | inr (e, found) ↦ let kept : earlier m s ≡ some e = ground arith in ground (arith, kept)
    ]

conversations_kept :
    (m : MessageEntity) (s : Store) (l : LoadedMessage) (s' : Store)
    → in_memory.save_message m s ≡ (ok l, s')
    → s'.conversations ≡ s.conversations
conversations_kept m s l s' h = elim (Option-cases (earlier m s)) [
  | inl missing ↦ ground arith
  | inr (e, found) ↦ ground arith
]

pub in_memory_laws : ConversationRepositoryLaws in_memory
in_memory_laws = record {
  found_after_save =
      λ m client s l s' named h. (l, saved_is_found m client s l s' named h, refl, refl);
  members_after_save = λ m s l s' i u c member h known joined.
      (c, member, ground (arith, conversations_kept m s l s' h), joined, refl);
}

abbrev pub member_of : (id user_id : ℕ) → ConversationMemberEntity
member_of id user_id = record {
  id = id;
  created_at = 1;
  updated_at = 1;
  user_id = user_id;
  conversation_id = 5;
  last_message_id = none;
  last_seen_message_id = none;
  deleted_at = none;
}

-- users 1 and 2 are the members 11 and 12
abbrev pub two_members : ConversationEntity
two_members = record {
  id = 5;
  created_at = 1;
  updated_at = 1;
  title = none;
  picture = none;
  identifier = some 50;
  type = direct;
  deleted_at = none;
  members = member_of 11 1 ∷ member_of 12 2 ∷ [];
  messages = [];
  last_message = none;
}

-- "hi", from user 1
abbrev pub hi : MessageEntity
hi = record {
  id = 7;
  created_at = 2;
  updated_at = 2;
  content = 104 ∷ 105 ∷ [];
  type = text;
  sender_id = 11;
  conversation_id = 5;
  deleted_for_user_ids = [];
  deleted_at = none;
  edited_at = none;
  reply_to_message_id = none;
  client_message_id = none;
}

abbrev pub world : World Store ChatEvent
world = record {
  store = record { conversations = two_members ∷ []; messages = hi ∷ [] };
  published = [];
}

pub in_memory_users_laws : {S : Type 0} → UserIntegrationLaws (in_memory_users {S = S})
in_memory_users_laws = record {
  found_id = λ i s u h. ground arith;
  relation = λ a b s status h. ground arith;
}
