-- ===== src/Auth.antt =====
-- internal/auth: tokens, macaroons and the authentication of a request.
pub mod Tokens
pub mod Authenticator
pub mod Macaroons
