-- ===== src/Chat/Gateway/Listing.antt =====
-- What the gateway's two lists show.
use nestjs_chat.Base.{
  ℕ, ◌≡◌, ◌≤◌, refl, subst, sym, Bool, true, not, ◌&&◌, ◌||◌, Option, none, some, List, [], ◌∷◌,
  arith, inl, inr, Option-cases, is_some, map, change, Text,
}
use nestjs_chat.Action.{World, ok}
use nestjs_chat.Action.Inversion.{Result-cases, found_cases}
use nestjs_chat.Pagination.{PaginatedResult, parse}
use nestjs_chat.Chat.Message.{ChatEvent}
use nestjs_chat.Chat.Ports.{
  ChatUser, MessageReadDto, ConversationReadDto, ConversationReadRepositoryPort,
  ConversationListsPort, UserListsPort,
}
use nestjs_chat.Chat.Rooms.{ReplyTo}
use nestjs_chat.Chat.Reads.Masking.{all_masked, is_masked}
use nestjs_chat.Chat.Gateway.Preview.{get_user_conversation}
use nestjs_chat.Chat.Gateway.MessageList.{
  GetConversationMessageListRequest, GetConversationMessageListResponse,
  UserConversationMessageItem, is_seen, seen_at, message_item, involved, ids_of, quoted_view,
  ws_message_list,
}

-- A deleted message is shown without a text, and so is a message replied to that is hidden.
abbrev pub is_reply_shown : (ℕ → Bool) → Option (ReplyTo (ℕ × Option Text)) → Bool
is_reply_shown hid none = true
is_reply_shown hid (some reply) = not (hid reply.id) || not (is_some reply.content)

abbrev pub all_shown : (ℕ → Bool) → List UserConversationMessageItem → Bool
all_shown hid [] = true
all_shown hid (item ∷ items) =
    ((not (is_some item.deleted_at) || not (is_some item.content))
      && is_reply_shown hid item.reply_to)
    && all_shown hid items

item-shown :
    (hid : ℕ → Bool) (c : ConversationReadDto) (i : ℕ) (users : List ChatUser) (m : MessageReadDto)
    → is_masked hid m ≡ true
    → is_reply_shown hid (change (quoted_view users) m.reply_to) ≡ true
item-shown hid c i users m h = elim (Option-cases m.reply_to) [
  | inl none_ ↦ ground arith
  | inr (q, quoted) ↦ ground arith
]

items-shown :
    (hid : ℕ → Bool) (c : ConversationReadDto) (i : ℕ) (users : List ChatUser)
    (ms : List MessageReadDto)
    → all_masked hid ms ≡ true
    → all_shown hid (map (message_item c i users) ms) ≡ true
items-shown hid c i users [] h = refl
items-shown hid c i users (m ∷ ms) h =
    ground (arith, item-shown hid c i users m, items-shown hid c i users ms)

is_seen-antitone : (at : Option ℕ) {a b : ℕ} → a ≤ b → is_seen at b ≡ true → is_seen at a ≡ true
is_seen-antitone none earlier seen = seen
is_seen-antitone (some t) earlier seen = ground arith

-- Of two messages of one sender, when the later one is shown as seen, so is the earlier one.
seen_earlier :
    (c : ConversationReadDto) (i : ℕ) (users : List ChatUser) (x y : MessageReadDto)
    → x.sender_id ≡ y.sender_id
    → x.created_at ≤ y.created_at
    → (message_item c i users y).seen ≡ true
    → (message_item c i users x).seen ≡ true
seen_earlier c i users x y same earlier seen =
    is_seen-antitone (seen_at c i x.sender_id) earlier
      (subst (λ s. is_seen (seen_at c i s) y.created_at ≡ true) (sym same) seen)

module _ {S : Type 0} (reads : ConversationReadRepositoryPort S) (lists : ConversationListsPort S)
    (users : UserListsPort S) where
  -- When the messages that were read are masked for the user, so are those that the gateway answers
  -- with: none with a deletion mark has a text, and no message replied to has one that is hidden from
  -- the user. `hid` says which are hidden.
  pub ws_message_list_shown :
      (hid : ℕ → Bool) (request : GetConversationMessageListRequest) (auth_user_id : ℕ)
      (w : World S ChatEvent) {response : GetConversationMessageListResponse}
      {w' : World S ChatEvent}
      → ((result : PaginatedResult MessageReadDto)
          → lists.get_user_conversation_message_list request.conversation_id auth_user_id
              (parse request.page request.page_size)
              w.store
            ≡ ok result
          → all_masked hid result.items ≡ true)
      → ws_message_list reads lists users request auth_user_id w ≡ (ok response, w')
      → all_shown hid response.list ≡ true
  unfolding ws_message_list get_user_conversation
  ws_message_list_shown hid request auth_user_id w {response} {w'} masked h =
      elim (found_cases
        (reads.get_user_conversation_by_id request.conversation_id auth_user_id w.store)) [
          | inr missing ↦ absurd (ground arith)
          | inl (c, known) ↦
              elim (Result-cases (
                lists.get_user_conversation_message_list request.conversation_id auth_user_id
                  (parse request.page request.page_size) w.store)) [
                    | inr failed ↦ absurd (ground arith)
                    | inl (result, listed_) ↦
                        elim (Result-cases
                          (users.get_users_by_ids (involved result.items c) w.store)) [
                            | inr failed ↦ absurd (ground arith)
                            | inl (found, people) ↦
                                elim (Result-cases (
                                  users.get_blocked_users_ids auth_user_id (ids_of found)
                                    w.store)) [
                                      | inr failed ↦ absurd (ground arith)
                                      | inl (blocked, blocks) ↦
                                          let items : map (message_item c auth_user_id found)
                                                result.items
                                              ≡ response.list =
                                            ground arith in
                                          subst (λ ms. all_shown hid ms ≡ true) items
                                            (items-shown hid c auth_user_id found result.items
                                              (masked result listed_))
                                    ]
                          ]
                  ]
        ]
