-- ===== src/Chat/Message/Deletion.antt =====
-- Deleting for oneself and deleting for everyone.
use nestjs_chat.Base.{
  ℕ, ◌≡◌, true, ◌||◌, some, List, [], ◌∷◌, arith, Text, includes, includes-append, IsNodup,
  append-IsNodup, ◌==◌, is_some,
}
use nestjs_chat.Exceptions.{domain, message_not_found}
use nestjs_chat.Action.{ok, err}
use nestjs_chat.Chat.Message.Defs.{
  MessageEntity, ChatEvent, edit, delete_for_user, delete_for_everyone, load_deleted_for_user_id,
}

-- After a deletion for one user the message is hidden from that user, and from nobody else who did
-- not hide it before.
pub includes-delete_for_user :
    (now user_id other : ℕ) (m : MessageEntity)
    → includes other (delete_for_user now user_id m).0.deleted_for_user_ids
      ≡ (includes other m.deleted_for_user_ids || (user_id == other))
unfolding delete_for_user
includes-delete_for_user now user_id other m =
    ground (arith, includes-append other m.deleted_for_user_ids (user_id ∷ []))

-- Deleting again for the same user, at any later time, changes nothing and announces nothing.
pub delete_for_user_twice :
    (now later user_id : ℕ) (m : MessageEntity)
    → let m' = (delete_for_user now user_id m).0 in delete_for_user later user_id m' ≡ (m', [])
unfolding delete_for_user
delete_for_user_twice now later user_id m =
    ground (arith, includes-append user_id m.deleted_for_user_ids (user_id ∷ []))

-- No user is listed twice, whether the list grows by a deletion or by loading.
pub delete_for_user-IsNodup :
    (now user_id : ℕ) (m : MessageEntity)
    → IsNodup m.deleted_for_user_ids
    → IsNodup (delete_for_user now user_id m).0.deleted_for_user_ids
      × IsNodup (load_deleted_for_user_id user_id m).deleted_for_user_ids
unfolding delete_for_user load_deleted_for_user_id
delete_for_user-IsNodup now user_id m h =
    ground (arith, append-IsNodup m.deleted_for_user_ids user_id h)

-- When a deletion for everyone succeeds, the requester is the sender; the message is marked as deleted, its text stays,
-- a second deletion changes and announces nothing, and no edit is accepted.
pub delete_for_everyone_lem :
    (now later requester actor editor : ℕ) (new_text : Text) (m : MessageEntity)
    {m' : MessageEntity} {events : List ChatEvent}
    → delete_for_everyone now requester actor m ≡ ok (m', events)
    → (requester ≡ m.sender_id)
      × (is_some m'.deleted_at ≡ true)
      × (m'.content ≡ m.content)
      × (delete_for_everyone later requester actor m' ≡ ok (m', []))
      × (edit later new_text editor m'
          ≡ err (domain (message_not_found (some "Cannot edit a deleted message"))))
unfolding delete_for_everyone edit
delete_for_everyone_lem now later requester actor editor new_text m e = ground arith
