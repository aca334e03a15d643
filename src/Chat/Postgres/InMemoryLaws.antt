-- ===== src/Chat/Postgres/InMemoryLaws.antt =====
-- The database in lists keeps the laws.
use nestjs_chat.Base.{
  ℕ, ◌≡◌, refl, ap, sym, subst, ◌∙◌, fun_ext, true, ◌==◌, Option, some, List, [], ◌∷◌, Text,
  text_eq_refl, find, any, keep, map, arith, Bool-cases, inl, inr,
}
use nestjs_chat.Exceptions.{Exception}
use nestjs_chat.Action.Inversion.{run_cases}
use nestjs_chat.Action.{Result, Write, ok, err}
use nestjs_chat.Chat.Postgres.Entities.{Message, Conversation, ConversationMember}
use nestjs_chat.Chat.Postgres.Database.{
  IsLatest, with_text, with_deleted_at, put_message, put_member,
}
use nestjs_chat.Chat.Postgres.Behaviour.{ChatDatabaseLaws, IsAvailable, id_of}
use nestjs_chat.Chat.Postgres.InMemory.{
  Rows, has_key, tables, newest, is_live, is_last, latest, is_taken, insert_all, update_row,
  mark_member, mark_row, all_or_nothing, in_lists,
}
use nestjs_chat.Chat.Postgres.Newest.{
  find-live, live-IsNodup, keep-IsNodup, find-last, find-has_key, find-is_at, includes-deleted,
}
use nestjs_chat.Chat.Postgres.Latest.{latest-IsLatest}
use nestjs_chat.Chat.Postgres.Updates.{updated_view, inserted_view, find-mark_member, find-mark_row}
use nestjs_chat.Chat.Postgres.ByClient.{client_in, client_missing_in}

taken-any :
    (m n : Message) (j : ℕ) (ms : List Message)
    → find (has_key j) ms ≡ some n
    → is_taken m n ≡ true
    → any (is_taken m) ms ≡ true
taken-any m n j [] h taken = absurd (ground arith)
taken-any m n j (k ∷ ms) h taken = ground (arith, taken-any m n j ms)

pub saved_view :
    (m r : Message) (t t' : Rows)
    → in_lists.save_message m t ≡ (ok r, t')
    → (r ≡ record m { updated_at = r.updated_at }) × (tables t' ≡ put_message r (tables t))
saved_view m r t t' h = elim (Bool-cases (any (is_taken m) t.messages)) [
  | inl taken ↦ absurd (ground arith)
  | inr free ↦
      let r_eq : m ≡ r = ground arith in
      let t_eq : record t { messages = m ∷ t.messages } ≡ t' = ground arith in
      (ground arith, sym (ap tables t_eq) ∙ ap (λ x. put_message x (tables t)) r_eq)
]

pub saved_unique :
    (m r n : Message) (client : Text) (j : ℕ) (t t' : Rows)
    → in_lists.save_message m t ≡ (ok r, t')
    → m.client_message_id ≡ some client
    → (tables t').message_at j ≡ some n
    → n.conversation_id ≡ m.conversation_id
    → n.sender_id ≡ m.sender_id
    → n.client_message_id ≡ some client
    → j ≡ m.id
saved_unique m r n client j t t' h named stored place sender same =
    elim (Bool-cases (any (is_taken m) t.messages)) [
      | inl taken ↦ absurd (ground arith)
      | inr free ↦
          let t_eq : record t { messages = m ∷ t.messages } ≡ t' = ground arith in
          let at : find (has_key j) (m ∷ t.messages) ≡ some n =
            ap (λ x. find (has_key j) x.messages) t_eq ∙ stored in
          elim (Bool-cases (m.id == j)) [
            | inl key ↦ ground arith
            | inr other ↦
                let at' : find (has_key j) t.messages ≡ some n = ground arith in
                let key = find-has_key j t.messages n at' in
                absurd (ground (arith, taken-any m n j t.messages, text_eq_refl client))
          ]
    ]

pub member_saved_view :
    (m r : ConversationMember) (t t' : Rows)
    → in_lists.save_member m t ≡ (ok r, t')
    → (r ≡ record m { updated_at = r.updated_at }) × (tables t' ≡ put_member r (tables t))
member_saved_view m r t t' h =
    let r_eq : m ≡ r = ground arith in
    let t_eq : record t { members = m ∷ t.members } ≡ t' = ground arith in
    (ground arith, sym (ap tables t_eq) ∙ ap (λ x. put_member x (tables t)) r_eq)

-- the tables after a step that returned
pub view_after :
    {A : Type 0} {a b : A} (s t : Rows)
    → ◌≡◌ {A = Result A × Rows} (ok a, s) (ok b, t)
    → tables t ≡ tables s
view_after s t h = ap (λ p. tables p.1) (sym h)

pub committed_run :
    {A : Type 0} (run : Write Rows A) (a : A) (t t' : Rows)
    → all_or_nothing run t ≡ (ok a, t')
    → run t ≡ (ok a, t')
committed_run run a t t' h = elim (run_cases (run t)) [
  | inl (b, s, ran) ↦ ground arith
  | inr (e, s, ran) ↦ absurd (ground arith)
]

pub rolled_back_run :
    {A : Type 0} (run : Write Rows A) (e : Exception) (t : Rows)
    → (all_or_nothing run t).0 ≡ err e
    → (all_or_nothing run t).1 ≡ t
rolled_back_run run e t h = elim (run_cases (run t)) [
  | inl (b, s, ran) ↦ absurd (ground arith)
  | inr (e', s, ran) ↦ ground arith
]

unfoldable pub in_lists_laws : ChatDatabaseLaws in_lists
in_lists_laws = record {
  view = tables;
  conversation_found = λ i t o h. ground arith;
  conversation_members = λ i u t c ms h. ground (arith, find-live i u t.members);
  message_found = λ i t o h. ground arith;
  client_found = λ c i client t m r h. client_in c i client t t.messages m r (ground arith);
  client_missing = λ c i client t j m h stored.
      client_missing_in c i client t t.messages j m m (ground arith) stored stored;
  deleted_found = λ i u t ds h. ground (arith, includes-deleted i u t.deleted);
  members_found = λ c u t ms h. ground (arith, find-live c u t.members, live-IsNodup c t.members);
  members_found_by_last = λ c i u t ms h. ground (
    arith,
    find-last c i u t.members,
    keep-IsNodup (is_last i) (keep is_live (newest c t.members)) (live-IsNodup c t.members),
  );
  latest_found = λ c u t o h.
      let same : latest (tables t) c u t.messages ≡ o = ground arith in
      subst (λ x. IsLatest (tables t) c u (id_of x)) same (latest-IsLatest t c u);
  member_key = λ c u t m h. find-is_at c u t.members m h;
  message_key = λ i t m h. find-has_key i t.messages m h;
  message_saved = λ m r t t' h.
      let (same, view) = saved_view m r t t' h in (same, r, refl, (λ fresh. refl), view);
  client_unique = λ m r n client j t t' h named stored place sender same.
      saved_unique m r n client j t t' h named stored place sender same;
  member_saved = λ m r old t t' h stands same. member_saved_view m r t t' h;
  deleted_saved = λ d r t t' h. view_after (record t { deleted = d ∷ t.deleted }) t' h;
  deleted_inserted = λ ds t t' h. view_after (insert_all ds t) t' h ∙ inserted_view ds t;
  text_updated = λ i content edited_at updated_at t t' h.
      view_after (update_row i (with_text content edited_at updated_at) t) t' h
      ∙ updated_view i (with_text content edited_at updated_at) t (λ m. refl);
  deleted_at_updated = λ i deleted_at updated_at t t' h.
      view_after (update_row i (with_deleted_at deleted_at updated_at) t) t' h
      ∙ updated_view i (with_deleted_at deleted_at updated_at) t (λ m. refl);
  members_deleted = λ c n t t' h. (
    9,
    view_after (record t { members = map (mark_member c 9) t.members }) t' h
        ∙ ap (λ (g : ℕ → ℕ → Option ConversationMember). record (tables t) { member_at = g })
            (fun_ext (λ d. fun_ext (λ u. find-mark_member c 9 d u t.members))),
  );
  conversation_deleted = λ i n t t' h. (
    9,
    view_after (record t { conversations = map (mark_row i 9) t.conversations }) t' h
        ∙ ap (λ (g : ℕ → Option Conversation). record (tables t) { conversation_at = g })
            (fun_ext (λ j. find-mark_row i 9 j t.conversations)),
  );
  committed = λ run a t t' h. committed_run run a t t' h;
  rolled_back = λ run e t h. rolled_back_run run e t h;
}

pub in_lists-IsAvailable : IsAvailable in_lists
in_lists-IsAvailable = record {
  answers_conversation = λ i t. (_, refl);
  answers_client = λ c i client t. (_, refl);
  answers_deleted = λ i t. (_, refl);
}
