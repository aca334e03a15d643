-- ===== src/Chat/Reads/Masking.antt =====
-- No text of a deleted or hidden message is read.
use nestjs_chat.Base.{
  ℕ, ◌≡◌, refl, subst, not, ◌&&◌, is_blank, Bool, true, ◌||◌, Option, none, some, List, [], ◌∷◌,
  if◌then◌else◌, includes, is_some, map, arith, inl, inr, Option-cases,
}
use nestjs_chat.Action.{ok}
use nestjs_chat.Action.Inversion.{Result-cases}
use nestjs_chat.Pagination.{PaginationOptions, PaginatedResult, create_result}
use nestjs_chat.Chat.Postgres.Entities.{Message, ConversationMember, DeletedMessage}
use nestjs_chat.Chat.Ports.{QuotedMessageReadDto, MessageReadDto}
use nestjs_chat.Chat.Reads.{
  MessageRow, ReadDatabase, reply_ids, message_ids, reply_dto, message_dto, hidden_replies,
  get_user_conversation_message_list,
}

-- the reply of a row is the message that the row names
abbrev pub IsJoined : MessageRow → Type 0
IsJoined row = elim row.reply_to_message [
  | none ↦ Unit {0}
  | some reply ↦ row.message.reply_to_message_id ≡ some reply.0.id
]

abbrev pub AllJoined : List MessageRow → Type 0
AllJoined [] = Unit
AllJoined (row ∷ rows) = IsJoined row × AllJoined rows

-- What the reads rely on: `is_hidden` stands for the table of deleted messages.
pub record ReadDatabaseLaws {T : Type 0} (db : ReadDatabase T) : Type 0 where
  pub is_hidden : T → (user_id message_id : ℕ) → Bool
  -- the answer names those of the messages asked for that are hidden
  pub deleted_found :
      (u i : ℕ) (ids : List ℕ) (t : T) (ds : List DeletedMessage)
      → db.find_deleted u ids t ≡ ok ds
      → includes i ids ≡ true
      → includes i (message_ids ds) ≡ is_hidden t u i
  -- a row is joined to the message that it names, and is not hidden itself
  pub rows_found :
      (c u : ℕ) (p : PaginationOptions) (t : T) (rows : List MessageRow) (count : ℕ)
      → db.find_messages c u p t ≡ ok (rows, count)
      → AllJoined rows

-- A deleted message has no text, and a message replied to has a text exactly if it has no deletion
-- mark, which it has if it is hidden.
abbrev pub is_reply_masked : (ℕ → Bool) → Option QuotedMessageReadDto → Bool
is_reply_masked hid none = true
is_reply_masked hid (some reply) =
    if is_some reply.deleted_at
    then not (is_some reply.content)
    else is_some reply.content && not (hid reply.id)

abbrev pub is_masked : (ℕ → Bool) → MessageReadDto → Bool
is_masked hid dto =
    (not (is_some dto.deleted_at) || is_blank dto.content) && is_reply_masked hid dto.reply_to

abbrev pub all_masked : (ℕ → Bool) → List MessageReadDto → Bool
all_masked hid [] = true
all_masked hid (dto ∷ dtos) = is_masked hid dto && all_masked hid dtos

reply-masked :
    (hid : ℕ → Bool) (now : ℕ) (hidden : List ℕ) (reply : Message × Option ConversationMember)
    → includes reply.0.id hidden ≡ hid reply.0.id
    → is_reply_masked hid (some (reply_dto now hidden reply)) ≡ true
reply-masked hid now hidden (rm, sender) h = ground arith

row-masked :
    (hid : ℕ → Bool) (now : ℕ) (hidden : List ℕ) (row : MessageRow)
    → ((i : ℕ) → row.message.reply_to_message_id ≡ some i → includes i hidden ≡ hid i)
    → IsJoined row
    → is_masked hid (message_dto now hidden row) ≡ true
row-masked hid now hidden row h joined = elim (Option-cases row.reply_to_message) [
  | inl none_ ↦ ground arith
  | inr (reply, replied) ↦ ground (arith, reply-masked hid now hidden reply, h reply.0.id)
]

later :
    (i : ℕ) (row : MessageRow) (rows : List MessageRow)
    → includes i (reply_ids rows) ≡ true
    → includes i (reply_ids (row ∷ rows)) ≡ true
later i row rows h = elim (Option-cases row.message.reply_to_message_id) [
  | inl none_ ↦ ground arith
  | inr (j, e) ↦ ground arith
]

rows-masked :
    (hid : ℕ → Bool) (now : ℕ) (hidden : List ℕ) (rows : List MessageRow)
    → ((i : ℕ) → includes i (reply_ids rows) ≡ true → includes i hidden ≡ hid i)
    → AllJoined rows
    → all_masked hid (map (message_dto now hidden) rows) ≡ true
rows-masked hid now hidden [] h joined = refl
rows-masked hid now hidden (row ∷ rows) h joined = ground (
  arith,
  row-masked hid now hidden row (λ i e. h i (ground arith)) joined.0,
  rows-masked hid now hidden rows (λ i listed. h i (ground (arith, later i row rows))) joined.1,
)

module _ {T : Type 0} {db : ReadDatabase T} (laws : ReadDatabaseLaws db) where
  hidden_agrees :
      (u : ℕ) (ids hidden : List ℕ) (t : T) (i : ℕ)
      → hidden_replies db u ids t ≡ ok hidden
      → includes i ids ≡ true
      → includes i hidden ≡ laws.is_hidden t u i
  hidden_agrees u [] hidden t i h listed = absurd (ground arith)
  hidden_agrees u (j ∷ ids) hidden t i h listed =
      elim (Result-cases (db.find_deleted u (j ∷ ids) t)) [
        | inr failed ↦ absurd (ground arith)
        | inl (ds, found) ↦ ground (arith, laws.deleted_found u i (j ∷ ids) t ds found listed)
      ]

  -- In a list of messages that was read for a user, a message with a deletion mark has no text; a
  -- message replied to has a text exactly if it has no deletion mark, and one that is hidden from the
  -- user has the mark.
  pub get_user_conversation_message_list_masked :
      (now c u : ℕ) (p : PaginationOptions) (t : T) {result : PaginatedResult MessageReadDto}
      → get_user_conversation_message_list db now c u p t ≡ ok result
      → all_masked (laws.is_hidden t u) result.items ≡ true
  unfolding get_user_conversation_message_list create_result
  get_user_conversation_message_list_masked now c u p t {result} h =
      elim (Result-cases (db.find_messages c u p t)) [
        | inr failed ↦ absurd (ground arith)
        | inl ((rows, count), found) ↦
            elim (Result-cases (hidden_replies db u (reply_ids rows) t)) [
              | inr failed ↦ absurd (ground arith)
              | inl (hidden, read_) ↦
                  let masked =
                    rows-masked (laws.is_hidden t u) now hidden rows
                      (λ i listed. hidden_agrees u (reply_ids rows) hidden t i read_ listed)
                      (laws.rows_found c u p t rows count found) in
                  let items : map (message_dto now hidden) rows ≡ result.items = ground arith in
                  subst (λ dtos. all_masked (laws.is_hidden t u) dtos ≡ true) items masked
            ]
      ]
