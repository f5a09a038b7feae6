-- ===== src/Tests.antt =====
-- The theorems applied to concrete inputs. `Fixtures` holds the values that the others share.
mod Fixtures
mod Memory
mod Accounts
mod Texts
mod Macaroons
mod Services
mod Methods
mod Authentication
mod Registrations
mod Publications
mod Api
mod Catalogue
mod Login
mod Postgres
