-- ===== src/Chat/Gateway/OwnName.antt =====
-- What the gateway lists when a search finds the user alone.
use nestjs_chat.Base.{ℕ, ◌≡◌, none, List, [], ◌∷◌, Text, arith, keep, false}
use nestjs_chat.Action.{World, ok}
use nestjs_chat.Chat.Message.{ChatEvent}
use nestjs_chat.Chat.Ports.{ConversationListsPort, UserListsPort}
use nestjs_chat.Chat.Gateway.ConversationList.{
  GetUserConversationListRequest, is_other_id, is_none, ws_conversation_list, with_target,
}

abbrev pub without_filter : GetUserConversationListRequest → GetUserConversationListRequest
without_filter request = record request { target_user_id = none; filter = [] }

module _ {S : Type 0} (lists : ConversationListsPort S) (users : UserListsPort S) where
  -- A search by name or username is answered as if nothing was searched for, with a page of all the
  -- user's conversations, when somebody is found or named as the target but none other than the user
  -- (`keep` drops the user from those found and the target).
  pub ws_conversation_list-own_name :
      (request : GetUserConversationListRequest) (auth_user_id : ℕ) (w : World S ChatEvent) (a : ℕ)
      (filter : Text) (found : List ℕ)
      → request.filter ≡ a ∷ filter
      → users.get_user_ids_by_name_or_username (a ∷ filter) w.store ≡ ok found
      → is_none (with_target request.target_user_id found) ≡ false
      → keep (is_other_id auth_user_id) (with_target request.target_user_id found) ≡ []
      → ws_conversation_list lists users request auth_user_id w
        ≡ ws_conversation_list lists users (without_filter request) auth_user_id w
  unfolding ws_conversation_list
  ws_conversation_list-own_name request auth_user_id w a filter found searched answered some_ own =
      grind arith
