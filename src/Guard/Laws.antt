-- ===== src/Guard/Laws.antt =====
-- Who passes the guards, and what is left of a client that does not.
use nestjs_chat.Base.{
  ℕ, ◌+◌, List, [], ◌∷◌, map, if◌then◌else◌, ◌≡◌, ◌⊎◌, ◌↔◌, refl, inl, inr, Bool, true, false,
  Option, none, some, Text, arith, is_blank, Option-cases,
}
use nestjs_chat.Action.{Result, ok, err}
use nestjs_chat.Action.Inversion.{Result-cases}
use nestjs_chat.Guard.{
  TokenPayload, ClientData, Client, extract_token, token_of, is_expired, unauthenticated, null_data,
  refuse, handle_expired_session, authenticate_user, can_activate, can_activate_http,
}

module _ (verify_token : Text → Result TokenPayload) where
  -- A token that the client gave when it connected has been verified as this payload's.
  abbrev pub IsVerified : Option Text → TokenPayload → Type 0
  IsVerified given payload =
      (token : Text) × (given ≡ some token)
      × (is_blank token ≡ false)
      × (verify_token token ≡ ok payload)

  -- A client that has passed has a user: the one it had, whose token has not expired, or the one of
  -- the token it gave.
  abbrev pub IsPassed : (now : ℕ) → Client → Client → Type 0
  IsPassed now client client' =
      (client_data : ClientData) × (user : TokenPayload) × (client'.client_data ≡ some client_data)
      × (client_data.auth_user ≡ some user)
      × (((client' ≡ client) × (is_expired now user ≡ false))
          ⊎ IsVerified (extract_token client) user)

  authenticate_user_sound :
      (now : ℕ) (has_ack : Bool) (client : Client) {client' : Client}
      → authenticate_user verify_token has_ack client ≡ (ok true, client')
      → IsPassed now client client'
  unfolding authenticate_user
  authenticate_user_sound now has_ack client h = elim (Option-cases (extract_token client)) [
    | inl missing ↦ absurd (ground arith)
    | inr (token, given) ↦ elim (Result-cases (verify_token token)) [
      | inr forged ↦ absurd (ground arith)
      | inl (payload, genuine) ↦ (
        record { auth_user = some payload; access_token = some token },
        payload,
        ground arith,
        refl,
        inr (token, given, ground arith, genuine),
      )
    ]
  ]

  -- When the socket guard lets a message pass, the client has a user: the one it had before, whose
  -- token has not expired, and then nothing has changed, or the one for whom the token that it gave
  -- when it connected has been verified.
  pub can_activate_sound :
      (now : ℕ) (has_ack : Bool) (client : Client) {client' : Client}
      → can_activate verify_token now has_ack client ≡ (ok true, client')
      → IsPassed now client client'
  unfolding can_activate handle_expired_session
  can_activate_sound now has_ack client h = elim (Option-cases client.client_data) [
    | inl gone ↦ absurd (ground arith)
    | inr (client_data, held) ↦ elim (Option-cases client_data.auth_user) [
      | inl unknown ↦ authenticate_user_sound now has_ack client (ground arith)
      | inr (user, known) ↦
          (client_data, user, ground arith, known, inl (ground arith, ground arith))
    ]
  ]

  -- the guard on the messages of a client, each with its time and whether it wants an
  -- acknowledgement
  abbrev pub activate_all : List (ℕ × Bool) → Client → List (Result Bool) × Client
  activate_all [] client = ([], client)
  activate_all ((now, has_ack) ∷ messages) client =
      let (result, client') = can_activate verify_token now has_ack client in
      let (results, client'') = activate_all messages client' in (result ∷ results, client'')

  -- without its data, no message passes
  activate_all-gone :
      (messages : List (ℕ × Bool)) (client : Client)
      → client.client_data ≡ none
      → activate_all messages client ≡ (map (λ _. err null_data) messages, client)
  unfolding can_activate
  activate_all-gone [] client gone = refl
  activate_all-gone ((now, has_ack) ∷ messages) client gone =
      ground (arith, activate_all-gone messages client gone)

  -- Once the token of a client's user has expired, no message of the client passes, whatever comes and
  -- at whatever time: the first one throws that the client is not authenticated, and all later ones
  -- throw a TypeError. After all of them the client is disconnected, has lost its data, and is
  -- otherwise as it was, except that the first message alone was acknowledged with a refusal, if it
  -- wanted one.
  pub can_activate-expired :
      (now : ℕ) (has_ack : Bool) (later : List (ℕ × Bool)) (client : Client)
      (client_data : ClientData) (user : TokenPayload)
      → client.client_data ≡ some client_data
      → client_data.auth_user ≡ some user
      → is_expired now user ≡ true
      → activate_all ((now, has_ack) ∷ later) client ≡ (
        err unauthenticated ∷ map (λ _. err null_data) later,
        record client {
          client_data = none;
          connected = false;
          refusals = client.refusals + (if has_ack then 1 else 0);
        },
      )
  unfolding can_activate handle_expired_session
  can_activate-expired now has_ack later client client_data user held known old = ground (
    arith,
    activate_all-gone later
        (record (refuse has_ack client) { client_data = none; connected = false }) refl,
  )

  -- The HTTP guard lets a request pass, as a user's, exactly if its header gives a bearer token that
  -- is not empty and is verified as that user's.
  can_activate_http-ok_iff :
      (authorization : Option Text) (payload : TokenPayload)
      → (can_activate_http verify_token authorization ≡ ok payload)
        ↔ IsVerified (token_of authorization) payload
  unfolding can_activate_http
  can_activate_http-ok_iff authorization payload = elim (Option-cases (token_of authorization)) [
    | inl missing ↦ (λ h. absurd (ground arith), λ v. absurd (ground (arith, v.1)))
    | inr (token, given) ↦ elim (Result-cases (verify_token token)) [
      | inr forged ↦ (λ h. absurd (ground arith), λ v. absurd (ground (arith, v.1, v.3)))
      | inl (found, genuine) ↦
          (λ h. (token, given, ground arith, ground arith), λ v. ground (arith, v.1, v.2, v.3))
    ]
  ]
