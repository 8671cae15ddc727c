-- ===== src/Receipts.antt =====
-- Record receipts (python/batchcrypto/receipts.py): inclusion trees and sealed batches. SHA-256 is
-- a parameter.
pub mod Tree
pub mod Climb
pub mod Complete
pub mod Included
pub mod Sound
pub mod Seal
pub mod Sealed
pub mod Tests
