-- ===== src/Chat/Message/Lifecycle.antt =====
-- A message over time: every change that the entity offers is a step, and what no sequence of
-- steps can undo.
use nestjs_chat.Base.{
  ℕ, ◌≡◌, refl, List, [], ◌∷◌, arith, Text, includes, includes-append, IsNodup, append-IsNodup, ◌∙◌,
  ◌⊎◌, inr, false, not, ◌&&◌, none,
}
use nestjs_chat.Action.{ok}
use nestjs_chat.Chat.Message.Defs.{
  MessageEntity, ChatEvent, edit, delete_for_user, delete_for_everyone, load_deleted_for_user_id,
}

-- One successful call of a method. Whoever calls, with whatever arguments.
pub data Step (m m' : MessageEntity) : Type 0 where
  edits :
      (now : ℕ) (new_text : Text) (editor : ℕ) (events : List ChatEvent)
      → edit now new_text editor m ≡ ok (m', events)
      → Step m m'
  hides : (now user_id : ℕ) → m' ≡ (delete_for_user now user_id m).0 → Step m m'
  removes :
      (now requester actor : ℕ) (events : List ChatEvent)
      → delete_for_everyone now requester actor m ≡ ok (m', events)
      → Step m m'
  loads : (user_id : ℕ) → m' ≡ load_deleted_for_user_id user_id m → Step m m'

pub data Reach (m : MessageEntity) : MessageEntity → Type 0 where
  here : Reach m m
  next : {n o : MessageEntity} → Reach m n → Step n o → Reach m o

-- What a later state of a message keeps of an earlier one.
pub record Keeps (m m' : MessageEntity) : Type 0 where
  pub id : m'.id ≡ m.id
  pub created_at : m'.created_at ≡ m.created_at
  pub sender_id : m'.sender_id ≡ m.sender_id
  pub conversation_id : m'.conversation_id ≡ m.conversation_id
  pub reply_to_message_id : m'.reply_to_message_id ≡ m.reply_to_message_id
  pub client_message_id : m'.client_message_id ≡ m.client_message_id
  -- a deletion for everyone is final, and freezes the text
  pub final : (m.deleted_at ≡ none) ⊎ ((m'.deleted_at ≡ m.deleted_at) × (m'.content ≡ m.content))
  -- nobody who has hidden the message sees it again
  pub hidden :
      (u : ℕ)
      → (includes u m.deleted_for_user_ids && not (includes u m'.deleted_for_user_ids)) ≡ false

module _ {m m' : MessageEntity} where
  Step-hidden :
      Step m m'
      → (u : ℕ)
      → (includes u m.deleted_for_user_ids && not (includes u m'.deleted_for_user_ids)) ≡ false
  unfolding edit delete_for_user delete_for_everyone load_deleted_for_user_id
  Step-hidden (edits now t editor events e) u = ground arith
  Step-hidden (hides now i e) u = ground (arith, includes-append u m.deleted_for_user_ids (i ∷ []))
  Step-hidden (removes now r a events e) u = ground arith
  Step-hidden (loads i e) u = ground (arith, includes-append u m.deleted_for_user_ids (i ∷ []))

  Step-IsNodup : Step m m' → IsNodup m.deleted_for_user_ids → IsNodup m'.deleted_for_user_ids
  unfolding edit delete_for_user delete_for_everyone load_deleted_for_user_id
  Step-IsNodup (edits now t editor events e) h = ground arith
  Step-IsNodup (hides now i e) h = ground (arith, append-IsNodup m.deleted_for_user_ids i h)
  Step-IsNodup (removes now r a events e) h = ground arith
  Step-IsNodup (loads i e) h = ground (arith, append-IsNodup m.deleted_for_user_ids i h)

  Step-final :
      Step m m'
      → (m.deleted_at ≡ none) ⊎ ((m'.deleted_at ≡ m.deleted_at) × (m'.content ≡ m.content))
  unfolding edit delete_for_user delete_for_everyone load_deleted_for_user_id
  Step-final (edits now t editor events e) = ground arith
  Step-final (hides now i e) = ground arith
  Step-final (removes now r a events e) = ground arith
  Step-final (loads i e) = ground arith

  -- the fields that no method writes
  Step-fixed :
      Step m m'
      → (m'.id ≡ m.id)
        × (m'.created_at ≡ m.created_at)
        × (m'.sender_id ≡ m.sender_id)
        × (m'.conversation_id ≡ m.conversation_id)
        × (m'.reply_to_message_id ≡ m.reply_to_message_id)
        × (m'.client_message_id ≡ m.client_message_id)
  unfolding edit delete_for_user delete_for_everyone load_deleted_for_user_id
  Step-fixed (edits now t editor events e) = ground arith
  Step-fixed (hides now i e) = ground arith
  Step-fixed (removes now r a events e) = ground arith
  Step-fixed (loads i e) = ground arith

  Step-Keeps : Step m m' → Keeps m m'
  Step-Keeps s =
      let f = Step-fixed s in
      record {
        id = f.0;
        created_at = f.1;
        sender_id = f.2;
        conversation_id = f.3;
        reply_to_message_id = f.4;
        client_message_id = f.5;
        final = Step-final s;
        hidden = Step-hidden s;
      }

Keeps-refl : (m : MessageEntity) → Keeps m m
Keeps-refl m = record {
  id = refl;
  created_at = refl;
  sender_id = refl;
  conversation_id = refl;
  reply_to_message_id = refl;
  client_message_id = refl;
  final = inr (refl, refl);
  hidden = λ u. ground arith;
}

Keeps-trans : {m n o : MessageEntity} → Keeps m n → Keeps n o → Keeps m o
Keeps-trans k l = record {
  id = l.id ∙ k.id;
  created_at = l.created_at ∙ k.created_at;
  sender_id = l.sender_id ∙ k.sender_id;
  conversation_id = l.conversation_id ∙ k.conversation_id;
  reply_to_message_id = l.reply_to_message_id ∙ k.reply_to_message_id;
  client_message_id = l.client_message_id ∙ k.client_message_id;
  final = ground (arith, k.final, l.final);
  hidden = λ u. ground (arith, k.hidden u, l.hidden u);
}

-- However a message is edited, hidden, removed and loaded, it keeps its identity, sender,
-- conversation and reply; once deleted for everyone it stays so, since the same time and with the
-- same text; and whoever has hidden it never sees it again.
pub Reach-Keeps : {m m' : MessageEntity} → Reach m m' → Keeps m m'
Reach-Keeps {m} here = Keeps-refl m
Reach-Keeps (next r s) = Keeps-trans (Reach-Keeps r) (Step-Keeps s)

-- A message that lists no user twice among those it is hidden from never does, whatever steps it
-- takes.
pub Reach-IsNodup :
    {m m' : MessageEntity}
    → Reach m m'
    → IsNodup m.deleted_for_user_ids
    → IsNodup m'.deleted_for_user_ids
Reach-IsNodup here h = h
Reach-IsNodup (next r s) h = Step-IsNodup s (Reach-IsNodup r h)
