-- ===== src/Exceptions/Tests.antt =====
-- The two filters at concrete exceptions.
use nestjs_chat.Base.{◌≡◌, refl, none, some}
use nestjs_chat.Exceptions.{domain, ws, ws_coded, not_message_owner, message}
use nestjs_chat.Exceptions.Status.{number, label, catch_ws, catch_http}

owner_message : message (not_message_owner (some "x")) ≡ "You are not the owner of this message: x"
unfolding message
owner_message = refl

filter_tests :
    ((catch_ws (domain (not_message_owner none))).status_code ≡ number 403)
    × ((catch_ws (ws_coded "UNAUTHENTICATED" "no")).status_code ≡ label "UNAUTHENTICATED")
    × ((catch_http (ws "no")).status_code ≡ number 500)
unfolding catch_ws catch_http
filter_tests = (refl, refl, refl)
