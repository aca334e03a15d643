-- ===== src/Chat/Message/Edit.antt =====
-- What `edit` accepts and what it changes.
use nestjs_chat.Base.{
  ℕ, ◌≡◌, refl, ◌≢◌, ◌↔◌, ◌⊎◌, inl, inr, none, some, List, [], ◌∷◌, arith, if◌then◌else◌, Text,
  trim, text_eq, text_eq→eq, text_eq_refl, Bool-cases,
}
use nestjs_chat.Action.{ok}
use nestjs_chat.Chat.Message.Defs.{MessageEntity, ChatEvent, message_edited, edit, edited}

trim_nil : trim [] ≡ []
unfolding trim
trim_nil = refl

-- The message is not deleted, the editor wrote it, and the new text is not blank.
abbrev pub IsEditable : Text → ℕ → MessageEntity → Type 0
IsEditable new_text editor m = (m.deleted_at ≡ none) × (editor ≡ m.sender_id) × (trim new_text ≢ [])

-- `edit` succeeds exactly on an undeleted message, for its own sender, with text that is not blank.
pub edit-ok_iff :
    (now : ℕ) (new_text : Text) (editor : ℕ) (m : MessageEntity)
    → ((r : MessageEntity × List ChatEvent) × (edit now new_text editor m ≡ ok r))
      ↔ IsEditable new_text editor m
unfolding edit
edit-ok_iff now new_text editor m = (
  λ (r, e). (ground arith, ground arith, λ (z : trim new_text ≡ []). ground arith),
  λ h. (
    if text_eq m.content new_text then (m, []) else edited now new_text m,
    ground (arith, trim_nil),
  ),
)

-- The entity after an edit with another text, and the event that announces it.
abbrev pub IsEdited : ℕ → Text → MessageEntity → MessageEntity × List ChatEvent → Type 0
IsEdited now new_text m (m', events) =
    (m' ≡ record m { content = new_text; edited_at = some now; updated_at = now })
    × (events
        ≡ message_edited (record {
          message_id = m.id;
          conversation_id = m.conversation_id;
          sender_id = m.sender_id;
          content = new_text;
          deleted_for_user_ids = m.deleted_for_user_ids;
          edited_at = now;
        })
          ∷ [])

-- An edit that succeeds, with a text other than the message's, sets the text and both times, and announces it once; with the text that the
-- message has already, it changes nothing and announces nothing.
pub edit_effect :
    (now : ℕ) (new_text : Text) (editor : ℕ) (m : MessageEntity)
    {r : MessageEntity × List ChatEvent}
    → edit now new_text editor m ≡ ok r
    → ((m.content ≡ new_text) × (r ≡ (m, [])))
      ⊎ ((m.content ≢ new_text) × IsEdited now new_text m r)
unfolding edit
edit_effect now new_text editor m e = elim (Bool-cases (text_eq m.content new_text)) [
  | inl same ↦ inl (text_eq→eq _ _ same, ground arith)
  | inr other ↦ inr (ground (arith, text_eq_refl new_text), ground arith)
]
