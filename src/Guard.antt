-- ===== src/Guard.antt =====
-- base-ws-auth.guard.ts and base-http-auth.guard.ts of src/common. Who verifies an access token is a
-- parameter. Messages of one socket are guarded one after the other, so `authPromise` is null between
-- them.
pub mod Laws
mod Tests
use nestjs_chat.Base.{
  ℕ, ◌*◌, ◌+◌, Bool, true, false, not, ◌&&◌, ◌==◌, ltb, if◌then◌else◌, Option, none, some, List, [],
  ◌∷◌, Text, text_eq, is_blank,
}
use nestjs_chat.Exceptions.{Exception, ws_coded, plain, unauthorized_http}
use nestjs_chat.Action.{Result, ok, err}

-- What the verification of an access token gives; `exp` in seconds.
pub record TokenPayload : Type 0 where
  pub sub : ℕ
  pub exp : Option ℕ

-- `client.data`, without the promise
pub record ClientData : Type 0 where
  pub auth_user : Option TokenPayload
  pub access_token : Option Text

pub record Client : Type 0 where
  pub client_data : Option ClientData
  pub connected : Bool
  -- the acknowledgements of a failure that were sent
  pub refusals : ℕ
  -- what the client gave when it connected
  pub authorization : Option Text
  pub auth_token : Option Text

-- `s.split(' ')`
abbrev pub split : Text → List Text
split [] = [] ∷ []
split (c ∷ s) =
    let rest = split s in
    if c == 32
    then [] ∷ rest
    else elim rest [ [] ↦ (c ∷ []) ∷ [] | part ∷ parts ↦ (c ∷ part) ∷ parts ]

-- 'Bearer'
abbrev pub bearer : Text
bearer = 66 ∷ 101 ∷ 97 ∷ 114 ∷ 101 ∷ 114 ∷ []

-- `const [type, value] = parts; return type === 'Bearer' ? value : null`
abbrev pub bearer_value : List Text → Option Text
bearer_value (type ∷ (value ∷ parts)) = if text_eq type bearer then some value else none
bearer_value _ = none

-- `token?.split(' ') ?? []`, and then as above
abbrev pub token_of : Option Text → Option Text
token_of none = none
token_of (some token) = bearer_value (split token)

-- `extractToken`
abbrev pub extract_token : Client → Option Text
extract_token client = elim client.authorization [
  | none ↦ token_of client.auth_token
  | some header ↦ token_of (some header)
]

-- `exp && Date.now() > exp * 1000`, at `now` in milliseconds
abbrev pub is_expired : ℕ → TokenPayload → Bool
is_expired now user = elim user.exp [
  | none ↦ false
  | some exp ↦ not (exp == 0) && ltb (exp * 1000) now
]

abbrev pub unauthenticated : Exception
unauthenticated = ws_coded "UNAUTHENTICATED" "Unauthorized"

-- the TypeError of reading `client.data.authUser` when `client.data` is null
abbrev pub null_data : Exception
null_data = plain "Cannot read properties of null (reading 'authUser')"

-- `data.ack({ error: 'Unauthorized', statusCode: 401 })`, if the message wants one
abbrev pub refuse : (has_ack : Bool) → Client → Client
refuse has_ack client = record client {
  refusals = if has_ack then client.refusals + 1 else client.refusals;
}

-- `handleExpiredSession`
unfoldable pub handle_expired_session : (has_ack : Bool) → Client → Result Bool × Client
handle_expired_session has_ack client =
    (err unauthenticated, record (refuse has_ack client) { client_data = none; connected = false })

module _ (verify_token : Text → Result TokenPayload) where
  -- `authenticateUser` of a client without a user, and the `catch` around it
  unfoldable pub authenticate_user : (has_ack : Bool) → Client → Result Bool × Client
  authenticate_user has_ack client = elim (extract_token client) [
    | none ↦ (err unauthenticated, refuse has_ack client)
    | some token ↦
        if is_blank token
        then (err unauthenticated, refuse has_ack client)
        else elim (verify_token token) [
          | err e ↦ (err unauthenticated, refuse has_ack client)
          | ok payload ↦ (
            ok true,
            record client {
              client_data = some (record { auth_user = some payload; access_token = some token });
            },
          )
        ]
  ]

  -- `canActivate`; after an expired session `client.data` is null, and reading it throws
  unfoldable pub can_activate : (now : ℕ) (has_ack : Bool) → Client → Result Bool × Client
  can_activate now has_ack client = elim client.client_data [
    | none ↦ (err null_data, client)
    | some client_data ↦ elim client_data.auth_user [
      | none ↦ authenticate_user has_ack client
      | some user ↦
          if is_expired now user then handle_expired_session has_ack client else (ok true, client)
    ]
  ]

  -- `canActivate` of the HTTP guard: the payload that it puts on the request
  unfoldable pub can_activate_http : (authorization : Option Text) → Result TokenPayload
  can_activate_http authorization = elim (token_of authorization) [
    | none ↦ err (unauthorized_http "No access token was provided.")
    | some token ↦
        if is_blank token
        then err (unauthorized_http "No access token was provided.")
        else elim (verify_token token) [
          | ok payload ↦ ok payload
          | err e ↦ err (unauthorized_http "Invalid access token.")
        ]
  ]
