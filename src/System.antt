-- ===== src/System.antt =====
-- The repository in memory as a state machine: successful calls of its methods, in any order, what
-- holds of every state that they lead to, and which methods of the service are such calls.
pub mod Steps
pub mod Consistency
pub mod Preservation
pub mod Invariant
pub mod Methods
