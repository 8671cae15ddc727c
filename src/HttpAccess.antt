-- ===== src/HttpAccess.antt =====
-- The HTTP access example (examples/http_access): the ledger behind its two servers.
pub mod Checks
pub mod Tables
pub mod Ledger
pub mod Rows
pub mod Invariant
pub mod Bodies
pub mod Conserve
pub mod Reach
pub mod Granted
pub mod Grows
pub mod Later
pub mod Cancelled
pub mod Promises
pub mod Pool
pub mod Signing
pub mod Tests
