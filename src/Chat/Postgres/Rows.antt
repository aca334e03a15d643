-- ===== src/Chat/Postgres/Rows.antt =====
-- The maps between rows and entities, and what is found of a conversation that was deleted.
use nestjs_chat.Base.{ℕ, ◌≡◌, ◌≢◌, refl, Bool, some, List, [], ◌∷◌, arith, inl, inr, map}
use nestjs_chat.Action.{ok}
use nestjs_chat.Action.Inversion.{run_cases, Result-cases}
use nestjs_chat.Chat.Conversation.{ConversationEntity}
use nestjs_chat.Chat.Postgres.Entities.{
  Conversation, ConversationMember, member_from_domain, member_to_domain, conversation_from_domain,
  conversation_to_domain,
}
use nestjs_chat.Chat.Postgres.Database.{ChatDatabase}
use nestjs_chat.Chat.Postgres.Behaviour.{ChatDatabaseLaws}
use nestjs_chat.Chat.Postgres.Repository.{delete_conversation, get_conversation_by_id}

members_roundtrip :
    (ms : List ConversationMember) → map member_from_domain (map member_to_domain ms) ≡ ms
members_roundtrip [] = refl
members_roundtrip (m ∷ ms) = rw (members_roundtrip ms)

-- A conversation's row with its members, read as an entity and written back, is the same rows.
pub conversation_roundtrip :
    (row : Conversation) (ms : List ConversationMember)
    → (conversation_from_domain (conversation_to_domain (row, ms)) ≡ row)
      × (map member_from_domain (conversation_to_domain (row, ms)).members ≡ ms)
conversation_roundtrip row ms = (refl, members_roundtrip ms)

module _ {T : Type 0} {db : ChatDatabase T} (laws : ChatDatabaseLaws db) where
  -- After `deleteConversation` has returned, whatever it returned, no conversation is found.
  pub get_conversation_by_id-delete_conversation :
      (i : ℕ) (t : T) {b : Bool} {t' : T} (c : ConversationEntity)
      → delete_conversation db i t ≡ (ok b, t')
      → get_conversation_by_id db i t' ≢ ok (some c)
  unfolding delete_conversation get_conversation_by_id
  get_conversation_by_id-delete_conversation i t {b} {t'} c h found =
      let ran = laws.committed _ b t t' h in
      elim (run_cases (db.soft_delete_members i t)) [
        | inr failed ↦ absurd (ground arith)
        | inl (n, s, gone) ↦ elim (run_cases (db.soft_delete_conversation i s)) [
          | inr failed ↦ absurd (ground arith)
          | inl (n', s', gone') ↦
              let (now, view) = laws.conversation_deleted i n' s s' gone' in
              elim (Result-cases (db.find_conversation i t')) [
                | inr failed ↦ absurd (ground arith)
                | inl (row, answer) ↦
                    let is_row = laws.conversation_found i t' row answer in absurd (ground arith)
              ]
        ]
      ]
