-- ===== src/Exceptions/Status.antt =====
-- From exceptions to responses: exception-mapper.ts, global-ws-exception.filter.ts and
-- global-http-exception.filter.ts. Logging and the transport calls are left out: a filter is the
-- response that it hands to the client.
use nestjs_chat.Base.{ℕ, String, ◌≡◌, refl, ◌↔◌, arith, Option, none, some}
use nestjs_chat.Exceptions.{
  DomainErrorType, not_found, conflict, unauthorized, forbidden, business_rule, internal_error,
  too_many_requests, DomainException, invalid_refresh_token, invalid_credentials, token_generation,
  Exception, domain, ws, ws_coded, unauthorized_http, conflict_http, message, code, error_type,
}

pub map_domain_error_type_to_http_status : DomainErrorType → ℕ
map_domain_error_type_to_http_status not_found = 404
map_domain_error_type_to_http_status conflict = 409
map_domain_error_type_to_http_status unauthorized = 401
map_domain_error_type_to_http_status forbidden = 403
map_domain_error_type_to_http_status business_rule = 400
map_domain_error_type_to_http_status internal_error = 500
map_domain_error_type_to_http_status too_many_requests = 429

-- The field `statusCode`: a number, or the code of a `WsException` that was made of an object.
pub data Status : Type 0 where
  number : ℕ → Status
  label : String → Status

pub record Response : Type 0 where
  pub status_code : Status
  pub message : String
  pub error_code : Option String

-- `error['code'] || error['statusCode'] || 400`; the gateway's objects have no `statusCode`.
abbrev status_of_code : String → Status
status_of_code String.[] = number 400
status_of_code (String.◌∷◌ c s) = label (String.◌∷◌ c s)

abbrev domain_response : DomainException → Response
unfolding message code error_type map_domain_error_type_to_http_status
domain_response e = record {
  status_code = number (map_domain_error_type_to_http_status (error_type e));
  message = message e;
  error_code = some (code e);
}

abbrev plain_response : ℕ → String → Response
plain_response status m = record { status_code = number status; message = m; error_code = none }

-- `GlobalWsExceptionFilter.catch`
unfoldable pub catch_ws : Exception → Response
unfolding message code error_type map_domain_error_type_to_http_status
catch_ws (domain e) = domain_response e
catch_ws (ws m) = plain_response 400 m
catch_ws (ws_coded c m) = record { status_code = status_of_code c; message = m; error_code = none }
catch_ws _ = plain_response 500 "Internal server error"

-- `GlobalHttpExceptionFilter.catch`; an `HttpException` answers with its own status.
unfoldable pub catch_http : Exception → Response
unfolding message code error_type map_domain_error_type_to_http_status
catch_http (domain e) = domain_response e
catch_http (unauthorized_http m) = plain_response 401 m
catch_http (conflict_http m) = plain_response 409 m
catch_http _ = plain_response 500 "Internal server error"

-- What the socket filter reports as an error of the server: a failure to make a token, and all
-- that neither the domain nor the gateway throws.
abbrev pub IsServerError : Exception → Type 0
IsServerError (domain (token_generation r)) = Unit
IsServerError (domain _) = ⊥
IsServerError (ws m) = ⊥
IsServerError (ws_coded c m) = ⊥
IsServerError _ = Unit

domain-eq-500_iff :
    (d : DomainException)
    → ((catch_ws (domain d)).status_code ≡ number 500) ↔ IsServerError (domain d)
unfolding catch_ws
domain-eq-500_iff (token_generation r) = ground arith
domain-eq-500_iff _ = ground arith

-- The socket filter answers 500 exactly to the errors of the server.
pub catch_ws-eq-500_iff :
    (e : Exception) → ((catch_ws e).status_code ≡ number 500) ↔ IsServerError e
unfolding catch_ws
catch_ws-eq-500_iff (domain d) = domain-eq-500_iff d
catch_ws-eq-500_iff (ws m) = ground arith
catch_ws-eq-500_iff (ws_coded String.[] m) = ground arith
catch_ws-eq-500_iff (ws_coded (String.◌∷◌ c s) m) = ground arith
catch_ws-eq-500_iff _ = (λ _. tt, λ _. refl)

-- What counts as failed authentication over HTTP.
abbrev pub IsUnauthorized : Exception → Type 0
IsUnauthorized (domain (invalid_refresh_token r)) = Unit
IsUnauthorized (domain (invalid_credentials r)) = Unit
IsUnauthorized (unauthorized_http m) = Unit
IsUnauthorized _ = ⊥

domain-eq-401_iff :
    (d : DomainException)
    → ((catch_http (domain d)).status_code ≡ number 401) ↔ IsUnauthorized (domain d)
unfolding catch_http
domain-eq-401_iff (invalid_refresh_token r) = ground arith
domain-eq-401_iff _ = ground arith

-- The HTTP filter answers 401 exactly to a bad refresh token, to bad credentials and to NestJS's
-- `UnauthorizedException`.
pub catch_http-eq-401_iff :
    (e : Exception) → ((catch_http e).status_code ≡ number 401) ↔ IsUnauthorized e
unfolding catch_http
catch_http-eq-401_iff (domain d) = domain-eq-401_iff d
catch_http-eq-401_iff _ = ground arith
