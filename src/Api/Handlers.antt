-- ===== src/Api/Handlers.antt =====
-- internal/api: the handlers, by the files that declare them. Each identifies the caller, decodes
-- the body, calls the service and writes the answer; an error of any step is written instead.
pub mod Tokens
pub mod Packages
pub mod Releases
pub mod Revisions
pub mod Resources
