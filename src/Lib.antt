-- ===== src/Lib.antt =====
-- A verification library of ULLM, the end-to-end encrypted inference stack of this repository.
--
-- Parts, and where they are modelled:
-- - crates/ullm-core (error.rs, ids.rs, version.rs, clock.rs): Core. `Error` and `ErrorCode` are
--   data types without the texts; a call comes to `ok`, `err` or `panic` (`Core.Result`).
--   Core/Bytes has the big-endian bytes of Rust's unsigned integers, Core/Suites the identifiers
--   of cipher suites.
-- - crates/ullm-crypto (aead.rs, kdf.rs, kex.rs, ratchet.rs): Crypto. The crate
--   `chacha20poly1305` is the record `Cipher`, `hkdf` the record `Hkdf`, X25519 and ML-KEM the
--   record `Exchange`, each with its documented behaviour. Random bytes are arguments.
-- - crates/ullm-wire: Wire. Frame and Codec have the frame header and the encoding of frames
--   (frame.rs, codec.rs), Control the body of control frames (control.rs), Replay the anti-replay
--   window (replay.rs). A frame on the wire is the header's 28 bytes, then the sealed text. The
--   type `bitflags` is the record `Bitflags`.
-- - crates/ullm-tee/src/nonce_registry.rs: Tee/NonceRegistry. The table that it shares with
--   other parts of the program, a hash map beside an ordered set of rows by age, is Lru.
-- - crates/ullm-gateway/src/rate_limit.rs: Gateway/RateLimiter, over the same table. `f64` is the
--   record `Float`, and what is used of its order the record `Ordered`.
-- - crates/ullm-gateway/src/session_token.rs: Gateway/SessionToken. HMAC-SHA256 and hex are the
--   record `Mac`. The printing of a number has fuel for 20 digits, which every u64 fits.
-- - crates/ullm-transparency: Transparency. Entry has the log's entry, Log the log with its file
--   and Reopen its reopening (log.rs), Merkle the tree of hashes (merkle.rs), Path and Inclusion the inclusion proofs (inclusion.rs), Sth the signed tree head
--   (sth.rs), Witness the cosignatures (witness.rs) and Auditor the audit (auditor.rs). SHA-256,
--   hex and JSON are the record `Crates`, Ed25519 the record `Ed25519`.
-- - crates/ullm-federation: Federation. Pool plans over vendors (pool.rs), MultiVendor verifies k of
--   n (multi_vendor.rs), Build admits builds (build.rs). Attestation has the evidence and the trait
--   `Verifier` of crates/ullm-attest, a record of its two methods.
-- - crates/ullm-handshake: Handshake. Messages has the messages, the transcript and the suites
--   (messages.rs, transcript.rs), State the steps of client and server (state.rs). `postcard` is
--   the record `Core.Postcard.Postcard` at each type that it writes, `sha2` the record `Sha`.
-- - crates/ullm-model: Model. Seed derives the model and its commitments (model.rs, commit.rs), Trace
--   runs it (model.rs, trace.rs). The Pallas field and Poseidon are the record `Field`.
-- - crates/ullm-mpc: Mpc. Share has the shares and one party (share.rs, party.rs), Session the two
--   together (transcript.rs).
-- - crates/ullm-kvcloak: Kvcloak. Cloak has the cloaking of a block (cloak.rs), Seal the sealing at
--   rest (seal.rs, and crates/ullm-crypto/src/seal.rs); AES-256-GCM-SIV is the record `GcmSiv`.
-- - crates/ullm-tee/src/tenant.rs: Tee/Tenant, the pool over the table of Lru, and the slots.
-- - crates/ullm-overlay: Overlay. Layer has one onion layer (layer.rs), Relay the registry, the
--   routing and the sending (relay.rs, transport.rs).
-- - crates/ullm-receipts: Receipts.
--
-- Machine integers are native numbers with their ranges as hypotheses and their wrap-around
-- written out; an array of bytes is a list of its length; an instant is a count of nanoseconds; a
-- hash map is an association list with one entry to a key, a BTreeSet a sorted list. A mutex is
-- held for a whole call, so each call is one function of the state. The loops of the Merkle tree
-- run on as much fuel as there are leaves, which is enough, since each round leaves at most half
-- of the hashes, rounded up. The routing of an onion runs on one more than the bytes that enter,
-- which is enough, since a layer is longer than what is peeled off it. The reopening of a log runs
-- on one more than the bytes of its file, which is enough, since each turn reads a byte or ends.
--
-- Not modelled: the text of errors and logs, the network, failing file calls on reopening a log,
-- threads, the cryptography of third-party crates (parameters, as above), and the parts of the
-- program that stand beside the session and the log: attestation formats, zero-knowledge proofs,
-- the cloaking over floating-point matrices, threshold keys, TLS pinning, the model runners, the
-- binaries, the benches and the bindings.
pub mod Prelude
pub mod Core
pub mod Crypto
pub mod Wire
pub mod Lru
pub mod Tee
pub mod Gateway
pub mod Transparency
pub mod Federation
pub mod Handshake
pub mod Kvcloak
pub mod Model
pub mod Mpc
pub mod Overlay
pub mod Receipts
