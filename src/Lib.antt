-- ===== src/Lib.antt =====
-- A batch cryptography library for Python (python/batchcrypto) with two funded-access examples on
-- it (examples/access_book and examples/http_access) and a signed grant of encrypted content
-- (examples/content_grant.py): what they promise, and why they keep it.
--
-- The parts, and the files of this library that model them:
--   Core         python/batchcrypto/__init__.py: the bounds, `Record`, `_key`, `_batch`,
--                `_records`, `_digests` and `_messages`. Core/Bounds: what they let through.
--   Jws          python/batchcrypto/jws.py: `sign_es256`. It checks its payloads with `_messages`,
--                gives the digests to a callback and checks the signatures that come back.
--                Jws/Tokens: the tokens that a call returns.
--   Receipts     python/batchcrypto/receipts.py. Receipts/Tree: `_leaf`, `_node`, `_tree` and
--                `_included`; Receipts/Climb: the loop of `_included`; Receipts/Complete and
--                Receipts/Included: the paths of the tree; Receipts/Sound: what is accepted against
--                its root; Receipts/Seal: `SealedBatch` and `seal_records`, which signs the root with
--                `sign_es256`; Receipts/Sealed: what it returns.
--   Verified     python/batchcrypto/verified.py: `VerifiedSigner`. Verified/Trust: what it returns;
--                Verified/Quarantine: a signer that was closed.
--   Manifests    python/batchcrypto/manifests.py: `seal_manifest` and `VerifiedManifest`.
--                Manifests/Signing: what is signed; Manifests/Export: what is accepted.
--   AccessBook   examples/access_book/engine.py. Checks: `identifier`, `integer`, `sha256`,
--                `fingerprint`, `Offer`; Tables: SCHEMA and the statements that write; Exec: what a
--                method is and `now`; Connection: `transaction`, with the methods on it; Authority:
--                `Authority`, whose `sign` calls `sign_es256`; Clearing: the methods of
--                `Clearing`, split into the checks of the arguments (Requests), `issue` (Issue),
--                `activate`, `redeem`, `release` and `purchase` (Spend) and `audit` (Audit).
--                Proofs: Invariant and its children (the invariant and the statements of each
--                method), Hoare (postconditions), Conserve (the invariant, method by method),
--                Calls (sequences of calls), Retry, Refusals, Grants, Revoked and Atomic.
--   Backends     python/batchcrypto/__init__.py, the classes. Native: what the native library is
--                and what it fills in; Cpu: `Cpu`, `public_key` and `verify_p256` over OpenSSL; Cuda:
--                `Cuda`; Runtime: `Runtime` with its handle, its reports and its epochs.
--                Proofs: Shapes (what comes back), Life (after `close`), Limits and Conform (`Cuda`
--                against `Cpu`), Trip (sealing, then opening) and Signatures. `Core` has their checks.
--   HttpAccess   examples/http_access/ledger.py. Checks: `identifier`, `integer`, `digest`,
--                `offer`; Tables: SCHEMA and the statements that write; Ledger: the methods, split
--                into `connection` and `prior` (Exec), the checks of the arguments (Requests),
--                `seed`, `issue` and `revoke` (Issue), `spend` (Spend), `cancel` and `cancel_many`
--                (Cancel) and `audit` (Audit); Pool: `_checkout`, `_release` and `close`, a state
--                machine with the borrowers of connections.
--                Proofs: Invariant, Rows, Bodies and Conserve (the invariant, method by method),
--                Reach (any interleaving), Grows and Later (what no transaction takes back),
--                Granted, Cancelled and Promises, Pool/Ownership.
--                HttpAccess/Signing is examples/http_access/signing.py. Issuer: `Keys`, whose
--                `sign` calls `sign_es256` and is what `issue` signs with; Consumer: `Consumer`.
--                Proofs: Rotation (the pins) and Trust (what is cached and accepted).
--   ContentGrant examples/content_grant.py. ContentGrant: `consume` and what it calls; Hex:
--                `bytes.fromhex`; Publish: `publish`, on the CPU. Both work with Backends/Cpu.
--                Proofs: Checked and Consume (what is accepted), Published, Drafted and Trip (the
--                round trip).
--   Python, Sql  what those use of the language and its standard library: integers and bytes,
--                base64, compact JSON, values told apart by their type; and the tables of SQLite
--                as lists of rows in the order of insertion. Prelude: helpers.
--
-- A method is a function from a state to a result and a state. The state is the database, a record
-- of tables, with counts of how often the clock, the random source and the key were used; a
-- statement that a CHECK, a key or a foreign key of SCHEMA refuses raises `integrity`. The methods
-- stand over a transaction that is one step and restores the database where its body raises.
-- AccessBook/Connection has `transaction` with the statements that it sends, whether or not a
-- transaction is open, and the methods on it; each statement does to the database and the saved
-- states what SQLite documents. SQLite serializes transactions: several connections are one
-- sequence of calls.
--
-- In the HTTP ledger each transaction is a step, and `issue` is two: it reads, signs, and commits
-- in a second transaction, with steps of other threads between. There a transaction that raises
-- leaves the database as it was. The table `publisher` is the one row that SCHEMA inserts. In the
-- pool a step is one stretch of code under its lock.
--
-- What is not the program's own is a parameter. SHA-256 is a function on byte lists;
-- Receipts/Sound takes that it gives 32 bytes; the statements there and in Manifests/Export name a
-- collision where there is one. The callback of `sign_es256` is any function. The record Env of
-- AccessBook/Exec holds the clock, the random source, SHA-256, the private key and `jwt.decode`;
-- nothing is assumed of them. Nor is anything of the runtime that `VerifiedSigner` owns, a record
-- of calls on a state of its own, or of the curve. OpenSSL and the native library are records of
-- functions. Backends/Conform takes that the kernels compute what OpenSSL does within the limits
-- of src/engine/crypto_engine.cu (Backends/Limits), and Backends/Trip that decryption undoes
-- encryption, which adds a tag of 16 bytes; ContentGrant/Trip takes that too, with hashes of 32
-- bytes, scalars in range and signatures that verify in their low form. The HTTP ledger takes two
-- readings of the clock, the random ids and SHA-256; its `keys.sign` gives a token for each of the
-- claims, which `Keys` does. PyJWT is its two functions, with `none` where they raise.
--
-- Choices of the model: strings and bytes are lists of numbers; an argument of any type is a
-- Value, told apart as `isinstance` and `type` do; an item of `_records` that is no `Record` stands
-- as one whose fields are not bytes, which fails the same test with the same exception;
-- integers of SQLite have no upper bound; the columns of JSON text, such as `payload`, `receipt`
-- and `response`, hold the values that their text stands for; exceptions keep what they were
-- raised for, without the text of the message, and those of Core and Jws keep their class. Loops
-- run on the lists they walk, but for three. `build` of the tree has as fuel the number of
-- records, which bounds its depth since both halves are shorter. `strip`, the inner loop of
-- `_included`, has the position as its fuel, which it halves; `bit_length` has the number. A
-- signature is a function of the key and the digest, though OpenSSL draws a nonce for each. The
-- pins of a `Consumer` are those of its issuer at the time of a call.
--
-- Not modelled: a failing COMMIT, files and sockets; the ctypes declarations, the clearing of
-- buffers and the locks of python/batchcrypto/__init__.py, whose calls are a sequence;
-- `ReceiptVerifier` and `open_manifest`, which parse JSON; the HTTP server
-- (examples/http_access/service.py); the runtime branches of `publish` in
-- examples/content_grant.py; the constructor and the thread pool of `Keys`, and the state in which
-- `Keys.sign` leaves its `VerifiedSigner`; the table generators, benchmarks and reports.
pub mod Prelude
pub mod Python
pub mod Sql
pub mod ContentGrant
pub mod Core
pub mod Jws
pub mod Receipts
pub mod Verified
pub mod Manifests
pub mod AccessBook
pub mod HttpAccess
pub mod Backends
