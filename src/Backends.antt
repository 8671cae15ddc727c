-- ===== src/Backends.antt =====
-- The classes Cpu, Cuda and Runtime of the Python package (python/batchcrypto/__init__.py), over
-- OpenSSL and the native library, which are parameters.
pub mod Native
pub mod Cpu
pub mod Cuda
pub mod Runtime
pub mod Shapes
pub mod Life
pub mod Limits
pub mod Conform
pub mod Trip
pub mod Signatures
pub mod Tests
