-- ===== src/Auth.antt =====
-- The auth context, src/modules/auth.
pub mod Token
pub mod Ports
pub mod Sessions
pub mod Repository
pub mod InMemory
pub mod RefreshTokens
pub mod Logout
pub mod Signin
pub mod Signup
mod Tests
