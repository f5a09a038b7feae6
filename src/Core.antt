-- ===== src/Core.antt =====
-- internal/core/types.go: the types that the layers share. A time.Time is the number of
-- nanoseconds since Go's zero time, so that `IsZero` is a test for 0; a pointer is an `Option`, a
-- slice a list and a map an association list (nil and empty are one); an int64 length is a number.
-- A float64 is only copied, and is held as its bits.
mod Accounts
mod Packages
mod Revisions
mod Archives
pub use Accounts.*
pub use Packages.*
pub use Revisions.*
pub use Archives.*
