-- ===== src/Service/Authorization.antt =====
-- Who gets past the methods of the service: those that write, and those that read.
pub mod Writes
pub mod Reads
