-- ===== src/Service.antt =====
-- internal/service: the business logic. `Context` is what it works with.
pub mod Context
pub mod Root
pub mod Helpers
pub mod Links
pub mod Guards
pub mod Channels
pub mod Tokens
pub mod Packages
pub mod Views
pub mod Releases
pub mod Refresh
pub mod Search
pub mod ReleaseMap
pub mod Revisions
pub mod Resources
pub mod Authorization
