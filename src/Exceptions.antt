-- ===== src/Exceptions.antt =====
-- Exceptions as values: src/common/exceptions and the exception classes of the three contexts
-- (src/modules/{chat,auth,user}/domain/*.exceptions.ts). A class is a constructor with the
-- arguments of its `constructor`; the message, code and type that it passes to `super` are
-- functions.
pub mod Status
mod Tests
use Prim.Native.String.{String, ◌++◌}
use nestjs_chat.Base.{ℕ, Option, none, some}

pub data DomainErrorType : Type 0 where
  not_found conflict unauthorized forbidden : DomainErrorType
  business_rule internal_error too_many_requests : DomainErrorType

pub data DomainException : Type 0 where
  target_user_not_found blocked_user conversation_already_exists : Option String → DomainException
  conversation_not_found message_not_found not_message_owner : Option String → DomainException
  chat_domain_error : String → DomainException
  idempotency_conflict : Option String → DomainException
  invalid_refresh_token token_generation : Option String → DomainException
  user_already_exists invalid_credentials : Option String → DomainException
  user_not_found : Option String → DomainException

-- Whatever the code can throw: its own exceptions, NestJS's `WsException`
-- (of a text, or of an object with a code and a message), `UnauthorizedException` and `ConflictException`, a plain `Error`, and an error of the database
-- driver with its SQLSTATE code.
pub data Exception : Type 0 where
  domain : DomainException → Exception
  ws unauthorized_http conflict_http plain : String → Exception
  ws_coded : (code message : String) → Exception
  database : (code : ℕ) → Exception

abbrev with_reason : String → Option String → String
with_reason text none = text
with_reason text (some reason) = text ++ ": " ++ reason

unfoldable pub message : DomainException → String
message (target_user_not_found r) = with_reason "Target user does not exist" r
message (blocked_user r) = with_reason "Cannot interact with blocked user" r
message (conversation_already_exists r) = with_reason "Conversation already exists" r
message (conversation_not_found r) = with_reason "Conversation not found" r
message (message_not_found r) = with_reason "Message not found" r
message (not_message_owner r) = with_reason "You are not the owner of this message" r
message (chat_domain_error m) = m
message (idempotency_conflict none) =
    "Idempotency conflict: clientMessageId was previously used with different message content"
message (idempotency_conflict (some r)) = "Idempotency conflict: " ++ r
message (invalid_refresh_token r) = with_reason "Refresh token is invalid or expired" r
message (token_generation r) = with_reason "Failed to generate token" r
message (user_already_exists r) = with_reason "User already exists" r
message (invalid_credentials r) = with_reason "Username or password combination is invalid" r
message (user_not_found none) = "User not found"
message (user_not_found (some i)) = "User with identifier " ++ i ++ " not found"

unfoldable pub code : DomainException → String
code (target_user_not_found _) = "CHAT_TARGET_USER_NOT_FOUND"
code (blocked_user _) = "CHAT_BLOCKED_USER"
code (conversation_already_exists _) = "CHAT_CONVERSATION_ALREADY_EXISTS"
code (conversation_not_found _) = "CHAT_CONVERSATION_NOT_FOUND"
code (message_not_found _) = "CHAT_MESSAGE_NOT_FOUND"
code (not_message_owner _) = "CHAT_NOT_MESSAGE_OWNER"
code (chat_domain_error _) = "CHAT_DOMAIN_ERROR"
code (idempotency_conflict _) = "CHAT_IDEMPOTENCY_CONFLICT"
code (invalid_refresh_token _) = "AUTH_INVALID_REFRESH_TOKEN"
code (token_generation _) = "AUTH_TOKEN_GENERATION_FAILED"
code (user_already_exists _) = "USER_ALREADY_EXISTS"
code (invalid_credentials _) = "USER_INVALID_CREDENTIALS"
code (user_not_found _) = "USER_NOT_FOUND"

pub error_type : DomainException → DomainErrorType
error_type (target_user_not_found _) = not_found
error_type (blocked_user _) = forbidden
error_type (conversation_already_exists _) = conflict
error_type (conversation_not_found _) = not_found
error_type (message_not_found _) = not_found
error_type (not_message_owner _) = forbidden
error_type (chat_domain_error _) = business_rule
error_type (idempotency_conflict _) = conflict
error_type (invalid_refresh_token _) = unauthorized
error_type (token_generation _) = internal_error
error_type (user_already_exists _) = conflict
error_type (invalid_credentials _) = unauthorized
error_type (user_not_found _) = not_found
