-- ===== src/AccessBook.antt =====
-- Scoped prepaid access books and their clearing (examples/access_book/engine.py).
pub mod Checks
pub mod Tables
pub mod Exec
pub mod Connection
pub mod Authority
pub mod Clearing
pub mod Sums
pub mod Outstanding
pub mod Rows
pub mod Invariant
pub mod Hoare
pub mod Conserve
pub mod Calls
pub mod Retry
pub mod Refusals
pub mod Grants
pub mod Atomic
pub mod Revoked
pub mod Tests
