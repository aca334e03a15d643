-- ===== src/Chat/Commands/CreateMessage/Sound.antt =====
-- What has happened when `create_message` returns, or throws.
use nestjs_chat.Base.{
  ℕ, ◌≡◌, ◌∙◌, ap, [], ◌∷◌, ◌⊎◌, refl, false, Option, none, some, List, ◌++◌, arith, find, inl, inr,
  Option-cases, includes, Text, text_eq→eq, trim,
}
use nestjs_chat.Exceptions.{Exception}
use nestjs_chat.Action.{World, ok, err, IsAtomic}
use nestjs_chat.Action.Inversion.{Result-cases, found_cases, run_cases}
use nestjs_chat.Chat.Message.{
  MessageEntity, ChatEvent, create, create-ok_iff, IsStorable, trimmed, announcement,
}
use nestjs_chat.Chat.Conversation.{ConversationEntity, ConversationMemberEntity, is_user}
use nestjs_chat.Chat.Ports.{LoadedMessage, ConversationRepositoryPort}
use nestjs_chat.Chat.Commands.CreateMessage.{
  CreateMessageCommand, load_reply_to_message, idempotent_hit, reply_message, send_new,
  create_message,
}

module _ {S : Type 0} (repo : ConversationRepositoryPort S) where
  -- The message replied to, as the sender may see it; `none` where the command names none.
  abbrev pub IsReply : CreateMessageCommand → S → Option ℕ → Option LoadedMessage → Type 0
  IsReply cmd s none reply = reply ≡ none
  IsReply cmd s (some i) reply =
      (l : LoadedMessage) × (reply ≡ some l)
      × (repo.get_message_by_id i s ≡ ok (some l))
      × (l.message.conversation_id ≡ cmd.conversation_id)
      × (l.message.deleted_at ≡ none)
      × (includes cmd.sender_id l.message.deleted_for_user_ids ≡ false)

  reply_message-IsReply :
      (cmd : CreateMessageCommand) (w : World S ChatEvent) (i : Option ℕ)
      {reply : Option LoadedMessage} {w' : World S ChatEvent}
      → reply_message repo cmd i w ≡ (ok reply, w')
      → IsReply cmd w.store i reply × (w' ≡ w)
  unfolding reply_message
  reply_message-IsReply cmd w none h = ground arith
  reply_message-IsReply cmd w (some i) h = elim (found_cases (repo.get_message_by_id i w.store)) [
    | inr missing ↦ absurd (ground arith)
    | inl (l, found) ↦
        ((l, ground arith, found, ground arith, ground arith, ground arith), ground arith)
  ]

  -- A message sent anew.
  pub record IsSent (id now : ℕ) (cmd : CreateMessageCommand) (w : World S ChatEvent)
      (member : ConversationMemberEntity) (result : LoadedMessage) (w' : World S ChatEvent)
      : Type 0 where
    pub reply : Option LoadedMessage
    pub message : MessageEntity
    pub events : List ChatEvent
    pub saved : LoadedMessage
    pub replies : IsReply cmd w.store cmd.reply_to_message_id reply
    pub storable : IsStorable cmd.client_message_id
    pub made : message ≡ record {
      id = id;
      created_at = now;
      updated_at = now;
      content = cmd.content;
      type = cmd.type;
      sender_id = member.id;
      conversation_id = cmd.conversation_id;
      deleted_for_user_ids = cmd.deleted_for_user_ids;
      deleted_at = none;
      edited_at = none;
      reply_to_message_id = cmd.reply_to_message_id;
      client_message_id = trimmed cmd.client_message_id;
    }
    pub told : events ≡ announcement message ∷ []
    pub stored : repo.save_message message w.store ≡ (ok saved, w'.store)
    pub returned : result ≡ load_reply_to_message reply saved
    pub announced : w'.published ≡ w.published ++ events

  send_new-IsSent :
      (id now : ℕ) (cmd : CreateMessageCommand) (w : World S ChatEvent)
      (member : ConversationMemberEntity) {result : LoadedMessage} {w' : World S ChatEvent}
      (reply : Option LoadedMessage) (p : MessageEntity × List ChatEvent) (saved : LoadedMessage)
      (s : S)
      → IsReply cmd w.store cmd.reply_to_message_id reply
      → reply_message repo cmd cmd.reply_to_message_id w ≡ (ok reply, w)
      → create id now cmd.content cmd.type member.id cmd.conversation_id cmd.deleted_for_user_ids
          cmd.reply_to_message_id cmd.client_message_id
        ≡ ok p
      → repo.save_message p.0 w.store ≡ (ok saved, s)
      → send_new repo id now cmd member w ≡ (ok result, w')
      → IsSent id now cmd w member result w'
  unfolding send_new
  send_new-IsSent id now cmd w member reply p saved s replies ran made stored h =
      let (_, storable, parts, told) =
        (create-ok_iff id now cmd.content cmd.type member.id cmd.conversation_id
            cmd.deleted_for_user_ids cmd.reply_to_message_id cmd.client_message_id p).0
          made in
      record {
        reply = reply;
        message = p.0;
        events = p.1;
        saved = saved;
        replies = replies;
        storable = storable;
        made = parts;
        told = told;
        stored = ground arith;
        returned = ground arith;
        announced = ground arith;
      }

  send_new_sound :
      (id now : ℕ) (cmd : CreateMessageCommand) (w : World S ChatEvent)
      (member : ConversationMemberEntity) {result : LoadedMessage} {w' : World S ChatEvent}
      → send_new repo id now cmd member w ≡ (ok result, w')
      → IsSent id now cmd w member result w'
  unfolding send_new
  send_new_sound id now cmd w member h =
      elim (run_cases (reply_message repo cmd cmd.reply_to_message_id w)) [
        | inr stopped ↦ absurd (ground arith)
        | inl (reply, w1, ran) ↦
            let r = reply_message-IsReply cmd w cmd.reply_to_message_id ran in
            elim (Result-cases (
              create id now cmd.content cmd.type member.id cmd.conversation_id
                cmd.deleted_for_user_ids cmd.reply_to_message_id cmd.client_message_id)) [
                  | inr refused ↦ absurd (ground arith)
                  | inl (p, made) ↦ elim (run_cases (repo.save_message p.0 w.store)) [
                    | inr failed ↦ absurd (ground arith)
                    | inl (saved, s, stored) ↦
                        send_new-IsSent id now cmd w member reply p saved s r.0
                          (ran ∙ ap (λ v. (ok reply, v)) r.1) made stored h
                  ]
                ]
      ]

  -- A message that had been sent before under the same identifier of the client's.
  abbrev pub IsHit :
      CreateMessageCommand
      → World S ChatEvent
      → ConversationMemberEntity
      → LoadedMessage
      → World S ChatEvent
      → Type 0
  IsHit cmd w member result w' =
      (client : Text) × (cmd.client_message_id ≡ some client)
      × (repo.get_message_by_client_message_id cmd.conversation_id member.id (trim client) w.store
          ≡ ok (some result))
      × (result.message.content ≡ cmd.content)
      × (w' ≡ w)

  idempotent_hit-IsHit :
      (cmd : CreateMessageCommand) (w : World S ChatEvent) (member : ConversationMemberEntity)
      (client : Option Text) {hit : Option LoadedMessage} {w' : World S ChatEvent}
      → client ≡ cmd.client_message_id
      → idempotent_hit repo cmd member.id client w ≡ (ok hit, w')
      → (w' ≡ w)
        × ((hit ≡ none)
            ⊎ ((result : LoadedMessage) × (hit ≡ some result) × IsHit cmd w member result w))
  unfolding idempotent_hit
  idempotent_hit-IsHit cmd w member none p h = ground arith
  idempotent_hit-IsHit cmd w member (some []) p h = ground arith
  idempotent_hit-IsHit cmd w member (some (c ∷ t)) p h =
      elim (found_cases (
        repo.get_message_by_client_message_id cmd.conversation_id member.id (trim (c ∷ t))
          w.store)) [
            | inr missing ↦ ground arith
            | inl (l, found) ↦ (
              ground arith,
              inr (
                l,
                ground arith,
                (c ∷ t, ground arith, found, text_eq→eq _ _ (ground arith), refl),
              ),
            )
          ]

  -- What the return of `create_message` shows.
  pub record IsCreatedBy (id now : ℕ) (cmd : CreateMessageCommand) (w : World S ChatEvent)
      (result : LoadedMessage) (w' : World S ChatEvent) : Type 0 where
    pub conversation : ConversationEntity
    pub member : ConversationMemberEntity
    pub known : repo.get_conversation_by_id cmd.conversation_id w.store ≡ ok (some conversation)
    pub joined : find (is_user cmd.sender_id) conversation.members ≡ some member
    pub outcome : IsHit cmd w member result w' ⊎ IsSent id now cmd w member result w'

  create_message-outcome :
      (id now : ℕ) (cmd : CreateMessageCommand) (w : World S ChatEvent) {result : LoadedMessage}
      {w' : World S ChatEvent} (c : ConversationEntity) (m : ConversationMemberEntity)
      (hit : Option LoadedMessage)
      → repo.get_conversation_by_id cmd.conversation_id w.store ≡ ok (some c)
      → find (is_user cmd.sender_id) c.members ≡ some m
      → idempotent_hit repo cmd m.id cmd.client_message_id w ≡ (ok hit, w)
      → (hit ≡ none) ⊎ ((x : LoadedMessage) × (hit ≡ some x) × IsHit cmd w m x w)
      → create_message repo id now cmd w ≡ (ok result, w')
      → IsHit cmd w m result w' ⊎ IsSent id now cmd w m result w'
  unfolding create_message
  create_message-outcome id now cmd w c m none known joined ran cases h =
      inr (send_new_sound id now cmd w m (ground arith))
  create_message-outcome id now cmd w c m (some y) known joined ran (inl e) h = cc
  create_message-outcome id now cmd w c m (some y) known joined ran (inr (x, e, hit)) h =
      inl (hit.0, hit.1, ground arith, ground arith, ground arith)

  -- When `create_message` returns, the sender is a member of the conversation that is found. Either an earlier message of that member with the same
  -- client's identifier and text is returned and nothing changes. Or
  -- the message that `create` makes of the command is given to the repository, its answer is returned
  -- with the message replied to, and exactly the event of that creation is published. A message
  -- replied to is in the same conversation, not deleted for everyone, and not hidden from the sender.
  pub create_message_sound :
      (id now : ℕ) (cmd : CreateMessageCommand) (w : World S ChatEvent) {result : LoadedMessage}
      {w' : World S ChatEvent}
      → create_message repo id now cmd w ≡ (ok result, w')
      → IsCreatedBy id now cmd w result w'
  unfolding create_message
  create_message_sound id now cmd w {result} {w'} h =
      elim (found_cases (repo.get_conversation_by_id cmd.conversation_id w.store)) [
        | inr unknown ↦ absurd (ground arith)
        | inl (c, known) ↦ elim (Option-cases (find (is_user cmd.sender_id) c.members)) [
          | inl foreign ↦ absurd (ground arith)
          | inr (m, joined) ↦
              elim (run_cases (idempotent_hit repo cmd m.id cmd.client_message_id w)) [
                | inr stopped ↦ absurd (ground arith)
                | inl (hit, w1, ran) ↦
                    let (same, cases) =
                      idempotent_hit-IsHit cmd w m cmd.client_message_id refl ran in
                    record {
                      conversation = c;
                      member = m;
                      known = known;
                      joined = joined;
                      outcome =
                          create_message-outcome id now cmd w c m hit known joined
                            (ran ∙ ap (λ v. (ok hit, v)) same) cases h;
                    }
              ]
        ]
      ]

  -- When a save that fails stores nothing, a call that throws leaves the world as it was: nothing is
  -- stored and nothing is published.
  pub create_message-err :
      (id now : ℕ) (cmd : CreateMessageCommand) (w : World S ChatEvent) {e : Exception}
      → IsAtomic repo.save_message
      → (create_message repo id now cmd w).0 ≡ err e
      → (create_message repo id now cmd w).1 ≡ w
  unfolding create_message send_new idempotent_hit reply_message
  create_message-err id now cmd w {e} atomic h = grind (arith, atomic)
