-- ===== src/Chat/Postgres/Updates.antt =====
-- The tables after an update or a deletion in the database in lists.
use nestjs_chat.Base.{
  ℕ, ◌≡◌, refl, ap, sym, ◌∙◌, fun_ext, ◌==◌, Option, List, [], ◌∷◌, find, map, arith, Option-cases,
  Bool-cases, inl, inr,
}
use nestjs_chat.Chat.Postgres.Entities.{Message, Conversation, ConversationMember, DeletedMessage}
use nestjs_chat.Chat.Postgres.Database.{change_message, mark_members, mark_conversation, hide_all}
use nestjs_chat.Chat.Postgres.InMemory.{
  Rows, has_key, is_at, tables, insert_all, update_row, mark_member, mark_row,
}
use nestjs_chat.Chat.Postgres.Newest.{find-has_key}

abbrev no_rows : Rows
no_rows = record { conversations = []; members = []; messages = []; deleted = [] }

updated_at_id :
    (i j : ℕ) (f : Message → Message) (t : Rows)
    → ((m : Message) → (f m).id ≡ m.id)
    → find (has_key j) (update_row i f t).messages ≡ (change_message i f (tables t)).message_at j
updated_at_id i j f t keeps = elim (Option-cases (find (has_key i) t.messages)) [
  | inl missing ↦ elim (Bool-cases (i == j)) [
    | inl same ↦
        let key : i ≡ j = ground arith in
        let missing' = ap (λ k. find (has_key k) t.messages) (sym key) ∙ missing in ground arith
    | inr other ↦ ground arith
  ]
  | inr (m, found) ↦
      let key = find-has_key i t.messages m found in
      elim (Bool-cases (i == j)) [
        | inl same ↦
            let key' : i ≡ j = ground arith in
            let found' = ap (λ k. find (has_key k) t.messages) (sym key') ∙ found in
            ground (arith, keeps m)
        | inr other ↦ ground (arith, keeps m)
      ]
]

pub updated_view :
    (i : ℕ) (f : Message → Message) (t : Rows)
    → ((m : Message) → (f m).id ≡ m.id)
    → tables (update_row i f t) ≡ change_message i f (tables t)
updated_view i f t keeps =
    ap (λ (g : ℕ → Option Message). record (tables t) { message_at = g })
      (fun_ext (λ j. updated_at_id i j f t keeps))

pub inserted_view :
    (ds : List DeletedMessage) (t : Rows) → tables (insert_all ds t) ≡ hide_all ds (tables t)
inserted_view [] t = refl
inserted_view (d ∷ ds) t = inserted_view ds (record t { deleted = d ∷ t.deleted })

pub find-mark_member :
    (c now d u : ℕ) (ms : List ConversationMember)
    → find (is_at d u) (map (mark_member c now) ms)
      ≡ (mark_members c now
            (record (tables no_rows) { member_at = λ e w. find (is_at e w) ms })).member_at
          d u
find-mark_member c now d u [] = ground arith
find-mark_member c now d u (m ∷ ms) = ground (arith, find-mark_member c now d u ms)

pub find-mark_row :
    (i now j : ℕ) (cs : List Conversation)
    → find (λ (c : Conversation). c.id == j) (map (mark_row i now) cs)
      ≡ (mark_conversation i now (record (tables no_rows) {
        conversation_at = λ k. find (λ (c : Conversation). c.id == k) cs;
      })).conversation_at
          j
find-mark_row i now j [] = ground arith
find-mark_row i now j (c ∷ cs) = ground (arith, find-mark_row i now j cs)
