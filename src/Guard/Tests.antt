-- ===== src/Guard/Tests.antt =====
-- A client that gave "Bearer t", and a user whose token expires at the second 5.
use nestjs_chat.Base.{◌≡◌, refl, true, false, Option, none, some, Text, [], ◌∷◌}
use nestjs_chat.Action.{Result, ok, err}
use nestjs_chat.Guard.{
  TokenPayload, Client, unauthenticated, null_data, authenticate_user, can_activate,
}
use nestjs_chat.Guard.Laws.{activate_all, IsPassed, can_activate_sound, can_activate-expired}

abbrev user_one : TokenPayload
user_one = record { sub = 1; exp = some 5 }

abbrev verify_token : Text → Result TokenPayload
verify_token token = ok user_one

abbrev header : Option Text
header = some (66 ∷ 101 ∷ 97 ∷ 114 ∷ 101 ∷ 114 ∷ 32 ∷ 116 ∷ [])

abbrev fresh : Client
fresh = record {
  client_data = some (record { auth_user = none; access_token = none });
  connected = true;
  refusals = 0;
  authorization = none;
  auth_token = header;
}

abbrev known : Client
known = record fresh {
  client_data = some (record { auth_user = some user_one; access_token = some (116 ∷ []) });
}

can_activate_sound_example : IsPassed verify_token 1 fresh known
unfolding can_activate authenticate_user
can_activate_sound_example = can_activate_sound verify_token 1 true fresh refl

abbrev gone : Client
gone = record fresh { client_data = none; connected = false; refusals = 1 }

can_activate-expired_example :
    activate_all verify_token ((5001, true) ∷ (5002, false) ∷ (5003, true) ∷ []) known ≡ (
      err unauthenticated ∷ err null_data ∷ err null_data ∷ [],
      record known { client_data = none; connected = false; refusals = 1 },
    )
can_activate-expired_example =
    can_activate-expired verify_token 5001 true ((5002, false) ∷ (5003, true) ∷ []) known
      (record { auth_user = some user_one; access_token = some (116 ∷ []) }) user_one refl refl refl
