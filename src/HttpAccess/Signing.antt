-- ===== src/HttpAccess/Signing.antt =====
-- `Keys` and `Consumer` of examples/http_access/signing.py. What signs a batch of digests, the
-- CPU's key or a `VerifiedSigner`, is the callback of `sign_es256`; the public keys are their
-- encoded points, and `jwt` is a parameter.
pub mod Issuer
pub mod Consumer
pub mod Trust
pub mod Rotation
pub mod Tests
