-- ===== src/Chat/Postgres/Kept.antt =====
-- What `saveMessage` keeps of the conversations and their members.
use nestjs_chat.Base.{
  change, ℕ, ◌≡◌, refl, subst, ◌==◌, some, List, [], ◌∷◌, find, arith, map, inl, inr, Option-cases,
  Bool-cases,
}
use nestjs_chat.Action.{ok}
use nestjs_chat.Action.Inversion.{run_cases, found_cases}
use nestjs_chat.Chat.Message.{MessageEntity}
use nestjs_chat.Chat.Conversation.{ConversationEntity, ConversationMemberEntity, is_user}
use nestjs_chat.Chat.Ports.{LoadedMessage}
use nestjs_chat.Chat.Postgres.Entities.{
  Message, ConversationMember, member_to_domain, conversation_to_domain,
}
use nestjs_chat.Chat.Postgres.Database.{ChatDatabase, is_of, live, put_message}
use nestjs_chat.Chat.Postgres.Behaviour.{ChatDatabaseLaws, IsAvailable}
use nestjs_chat.Chat.Postgres.Repository.{
  deleted_rows, save_message_run, save_message, get_conversation_by_id,
}
use nestjs_chat.Chat.Postgres.SaveMessage.{
  IsRun, failed_keeps, save_message_run_sound, hide_all_framed,
}
use nestjs_chat.Chat.Postgres.EachMember.{live_deleted_at}

pub find-member_to_domain :
    (u : ℕ) (ms : List ConversationMember)
    → find (is_user u) (map member_to_domain ms) ≡ change member_to_domain (find (is_of u) ms)
find-member_to_domain u [] = refl
find-member_to_domain u (m ∷ ms) = ground (arith, find-member_to_domain u ms)

module _ {T : Type 0} {db : ChatDatabase T} (laws : ChatDatabaseLaws db) (up : IsAvailable db) where
  -- Saving a message keeps every conversation, and every member but for what it was read and sent.
  record Keeps (t t' : T) : Type 0 where
    conversations : (i : ℕ) → (laws.view t').conversation_at i ≡ (laws.view t).conversation_at i
    members :
        (i u : ℕ) (m : ConversationMember)
        → live ((laws.view t).member_at i u) ≡ some m
        → (n : ConversationMember) × (live ((laws.view t').member_at i u) ≡ some n) × (n.id ≡ m.id)

  run-Keeps : (m : MessageEntity) (row : Message) (t t' : T) → IsRun laws m row t t' → Keeps t t'
  run-Keeps m row t t' r = record {
    conversations = λ i.
        let framed =
          hide_all_framed (deleted_rows m.id m.deleted_for_user_ids)
            (put_message r.kept (laws.view t)) in
        ground (arith, r.stored, framed);
    members = λ i u n joined. elim (Bool-cases (i == m.conversation_id)) [
      | inr elsewhere ↦ (n, ground (arith, r.others i u), refl)
      | inl here ↦
          let (changed, stands, new) = r.listed u n (ground (arith, r.found u)) in
          (
            changed,
            ground (arith, live_deleted_at ((laws.view t).member_at i u) n joined),
            ground arith,
          )
    ];
  }

  save-Keeps :
      (m : MessageEntity) (t : T) (l : LoadedMessage) (t' : T)
      → save_message db m t ≡ (ok l, t')
      → Keeps t t'
  unfolding save_message
  save-Keeps m t l t' h = elim (run_cases (db.transaction (save_message_run db m) t)) [
    | inr (e, s, failed) ↦
        let same : s ≡ t = ground (arith, laws.rolled_back (save_message_run db m) e t) in
        let same' : t' ≡ s = ground (arith, failed_keeps db m e s) in
        record {
          conversations = λ i. ground arith;
          members = λ i u n joined. (n, ground arith, refl);
        }
    | inl (row, s, committed) ↦
        let same : s ≡ t' = ground arith in
        subst (Keeps t) same (
          run-Keeps m row t s
            (save_message_run_sound laws m row t s (laws.committed _ row t s committed)))
  ]

  pub members_after :
      (m : MessageEntity) (t : T) (l : LoadedMessage) (t' : T) (i u : ℕ) (c : ConversationEntity)
      (member : ConversationMemberEntity)
      → save_message db m t ≡ (ok l, t')
      → get_conversation_by_id db i t ≡ ok (some c)
      → find (is_user u) c.members ≡ some member
      → (c' : ConversationEntity) × (member' : ConversationMemberEntity) × (get_conversation_by_id
            db i t'
          ≡ ok (some c'))
        × (find (is_user u) c'.members ≡ some member')
        × (member'.id ≡ member.id)
  unfolding get_conversation_by_id
  members_after m t l t' i u c member saved known joined =
      let kept = save-Keeps m t l t' saved in
      elim (found_cases (db.find_conversation i t)) [
        | inr missing ↦ absurd (ground arith)
        | inl ((row, ms), found) ↦
            let known_row = laws.conversation_found i t (some (row, ms)) found in
            let (o, answer) = up.answers_conversation i t' in
            let row' = laws.conversation_found i t' o answer in
            elim (Option-cases o) [
              | inl missing ↦ absurd (ground (arith, kept.conversations i))
              | inr ((row'', ms'), found') ↦
                  let old = find-member_to_domain u ms in
                  let new = find-member_to_domain u ms' in
                  elim (Option-cases (find (is_of u) ms)) [
                    | inl none_ ↦ absurd (ground arith)
                    | inr (mem, listed) ↦
                        let (mem', joined', same) =
                          kept.members i u mem
                            (ground (arith, laws.conversation_members i u t row ms found)) in
                        let answer' : db.find_conversation i t' ≡ ok (some (row'', ms')) =
                          ground arith in
                        let members' = laws.conversation_members i u t' row'' ms' answer' in
                        (
                          conversation_to_domain (row'', ms'),
                          member_to_domain mem',
                          ground arith,
                          ground arith,
                          ground arith,
                        )
                  ]
            ]
      ]
