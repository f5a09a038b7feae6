-- ===== src/Api.antt =====
-- internal/api: the HTTP layer.
pub mod Filenames
pub mod Documents
pub mod Responses
pub mod Requests
pub mod Identities
pub mod Handlers
pub mod Texts
pub mod Routes
pub mod Callers
pub mod Accounts
pub mod Safety
pub mod Writers
pub mod Authorization
pub mod Headers
pub mod Login
