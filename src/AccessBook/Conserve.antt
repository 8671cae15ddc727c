-- ===== src/AccessBook/Conserve.antt =====
-- The invariant of the clearing, method by method.
pub mod Keeps
pub mod Rules
pub mod Redeem
pub mod Issue
pub mod Spend
pub mod Methods
