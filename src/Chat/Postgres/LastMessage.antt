-- ===== src/Chat/Postgres/LastMessage.antt =====
-- `last_message_id` of the members, when one message changes.
use nestjs_chat.Base.{
  ℕ, ◌≡◌, refl, sym, subst, true, false, ◌==◌, Option, none, some, arith, inl, inr, is_id, is_some,
  Bool-cases,
}
use nestjs_chat.Chat.Message.{MessageEntity}
use nestjs_chat.Chat.Postgres.Entities.{Message, ConversationMember}
use nestjs_chat.Chat.Postgres.Database.{
  Tables, live, has_last, hide_all, change_message, with_deleted_at, is_visible, is_shown, sent_at,
  IsLatest,
}
use nestjs_chat.Chat.Postgres.Repository.{deleted_rows}
use nestjs_chat.Chat.Postgres.EachMember.{with_members_of}
use nestjs_chat.Chat.Postgres.SaveMessage.{hide_all_framed, hidden-hide_all}

-- Each member's last message is the latest that is visible to the user.
abbrev pub HasLatest : Tables → Type 0
HasLatest v =
    (c u : ℕ) (m : ConversationMember)
    → live (v.member_at c u) ≡ some m
    → IsLatest v c u m.last_message_id

-- To the user in the conversation, only the message `id` can look different, and it is not shown
-- where it was not.
pub record IsLess (v v' : Tables) (id c u : ℕ) : Type 0 where
  pub same : (i : ℕ) → (i == id) ≡ false → is_visible v' c u i ≡ is_visible v c u i
  pub same_time : (i : ℕ) → (i == id) ≡ false → sent_at v' i ≡ sent_at v i
  pub fewer : is_visible v' c u id ≡ true → is_visible v c u id ≡ true
  pub fewer_time : is_visible v' c u id ≡ true → sent_at v' id ≡ sent_at v id

pub IsLatest-less :
    (v v' : Tables) (id c u : ℕ) (last : Option ℕ)
    → IsLess v v' id c u
    → is_id last id ≡ false
    → IsLatest v c u last
    → IsLatest v' c u last
IsLatest-less v v' id c u none less other (shown, latest) = (
  refl,
  λ i. elim (Bool-cases (i == id)) [
    | inr apart ↦ ground (arith, less.same i, latest i)
    | inl this ↦ elim (Bool-cases (is_visible v' c u id)) [
      | inl visible ↦ absurd (ground (arith, less.fewer visible, latest id))
      | inr gone ↦ ground arith
    ]
  ],
)
IsLatest-less v v' id c u (some j) less other (shown, latest) = (
  ground (arith, less.same j),
  λ i. elim (Bool-cases (i == id)) [
    | inr apart ↦
        ground (arith, less.same i apart, less.same_time i apart, less.same_time j, latest i)
    | inl this ↦ elim (Bool-cases (is_visible v' c u id)) [
      | inl visible ↦
          let was = less.fewer visible in
          let time = less.fewer_time visible in
          let time' : sent_at v' j ≡ sent_at v j = less.same_time j (ground arith) in
          let old = latest id in ground arith
      | inr gone ↦ ground arith
    ]
  ],
)

-- The members' rows do not matter to what is the latest message.
pub IsLatest-to_members :
    (w v : Tables) (c u : ℕ) (last : Option ℕ)
    → w ≡ with_members_of w v
    → IsLatest v c u last
    → IsLatest w c u last
IsLatest-to_members w v c u last framed h = subst (λ x. IsLatest x c u last) (sym framed) h

pub IsLatest-from_members :
    (w v : Tables) (c u : ℕ) (last : Option ℕ)
    → w ≡ with_members_of w v
    → IsLatest w c u last
    → IsLatest v c u last
IsLatest-from_members w v c u last framed h = subst (λ x. IsLatest x c u last) framed h

-- The row of the message that `entity` stands for: `entity` is of the same conversation, and has a
-- deletion mark if the row has one.
pub record IsStored (v : Tables) (entity : MessageEntity) : Type 0 where
  pub row : Message
  pub stored : v.message_at entity.id ≡ some row
  pub conversation : row.conversation_id ≡ entity.conversation_id
  pub marked : is_some row.deleted_at ≡ true → is_some entity.deleted_at ≡ true

-- the tables after steps 1 and 2 of `saveMessageDeletion`
abbrev pub marked : MessageEntity → Tables → Tables
marked entity v =
    change_message entity.id (with_deleted_at entity.deleted_at entity.updated_at)
      (hide_all (deleted_rows entity.id entity.deleted_for_user_ids) v)

pub marked-IsLess :
    (v : Tables) (entity : MessageEntity) (c u : ℕ)
    → IsStored v entity
    → IsLess v (marked entity v) entity.id c u
marked-IsLess v entity c u s =
    let hides = hide_all_framed (deleted_rows entity.id entity.deleted_for_user_ids) v in
    let hidden = λ (i : ℕ). hidden-hide_all entity.id entity.deleted_for_user_ids v u i in
    record {
      same = λ i other. ground (arith, hidden i, hides);
      same_time = λ i other. ground (arith, hides);
      fewer = λ visible. ground (arith, hidden entity.id, hides, s.stored, s.marked);
      fewer_time = λ visible. ground (arith, hides, s.stored);
    }

pub marked-members :
    (entity : MessageEntity) (v : Tables) → (marked entity v).member_at ≡ v.member_at
marked-members entity v =
    ground (arith, hide_all_framed (deleted_rows entity.id entity.deleted_for_user_ids) v)

-- A member of another conversation does not have the message as the last.
pub shown-elsewhere :
    (v : Tables) (entity : MessageEntity) (c u : ℕ) (last : Option ℕ)
    → IsStored v entity
    → (c == entity.conversation_id) ≡ false
    → is_shown v c u last ≡ true
    → is_id last entity.id ≡ false
shown-elsewhere v entity c u none s elsewhere shown = refl
shown-elsewhere v entity c u (some j) s elsewhere shown = ground (arith, s.stored, s.conversation)

pub has_last_is_live :
    (i : ℕ) (o : Option ConversationMember) (m : ConversationMember)
    → has_last i o ≡ some m
    → o ≡ some m
has_last_is_live i none m h = absurd (ground arith)
has_last_is_live i (some n) m h = ground arith
