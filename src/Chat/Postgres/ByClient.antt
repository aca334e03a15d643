-- ===== src/Chat/Postgres/ByClient.antt =====
-- The search by the client's identifier in the database in lists.
use nestjs_chat.Base.{
  ℕ, ◌≡◌, ap, ◌∙◌, true, false, ◌==◌, Option, none, some, List, [], ◌∷◌, Text, find, arith,
  Option-cases, Bool-cases, inl, inr,
}
use nestjs_chat.Chat.Postgres.Entities.{Message}
use nestjs_chat.Chat.Postgres.Database.{message_in, is_sent_as}
use nestjs_chat.Chat.Postgres.InMemory.{Rows, has_key, tables, find_by_client}
use nestjs_chat.Chat.Postgres.Laws.{message_in_is_stored}
use nestjs_chat.Chat.Postgres.Newest.{find-has_key}

pub client_in :
    (c i : ℕ) (client : Text) (t : Rows) (ms : List Message) (m : Message) (r : Option Message)
    → find_by_client c i client t ms ≡ some (m, r)
    → (message_in (tables t) m.id ≡ some (m, r)) × (is_sent_as c i client m ≡ true)
client_in c i client t [] m r h = absurd (ground arith)
client_in c i client t (n ∷ ms) m r h = elim (Option-cases (message_in (tables t) n.id)) [
  | inl missing ↦ client_in c i client t ms m r (ground arith)
  | inr ((n', reply), found) ↦ elim (Bool-cases (is_sent_as c i client n')) [
    | inr apart ↦ client_in c i client t ms m r (ground arith)
    | inl sent ↦
        let stored : find (has_key n.id) t.messages ≡ some n' =
          message_in_is_stored (tables t) n.id n' reply found in
        let key = find-has_key n.id t.messages n' stored in
        let result : ◌≡◌ {A = Option (Message × Option Message)} (some (n', reply)) (some (m, r)) =
          ground arith in
        let same_id : m.id ≡ n.id = ground arith in
        (ap (message_in (tables t)) same_id ∙ found ∙ result, ground arith)
  ]
]

pub client_missing_in :
    (c i : ℕ) (client : Text) (t : Rows) (ms : List Message) (j : ℕ) (m n : Message)
    → find_by_client c i client t ms ≡ none
    → find (has_key j) ms ≡ some n
    → find (has_key j) t.messages ≡ some m
    → is_sent_as c i client m ≡ false
client_missing_in c i client t [] j m n h here stored = absurd (ground arith)
client_missing_in c i client t (k ∷ ms) j m n h here stored = elim (Bool-cases (k.id == j)) [
  | inl same ↦ elim (Bool-cases (is_sent_as c i client m)) [
    | inr apart ↦ apart
    | inl sent ↦
        let key : k.id ≡ j = ground arith in
        let at : find (has_key k.id) t.messages ≡ some m =
          ap (λ x. find (has_key x) t.messages) key ∙ stored in
        absurd (ground arith)
  ]
  | inr other ↦ elim (Option-cases (message_in (tables t) k.id)) [
    | inl missing ↦ client_missing_in c i client t ms j m n (ground arith) (ground arith) stored
    | inr ((k', reply), found) ↦ elim (Bool-cases (is_sent_as c i client k')) [
      | inr apart ↦ client_missing_in c i client t ms j m n (ground arith) (ground arith) stored
      | inl sent ↦ absurd (ground arith)
    ]
  ]
]
