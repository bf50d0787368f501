-- ===== src/Lib.antt =====
-- ViperVault core: the library crate core/crates/vipervault-core of the password manager.
--
-- Paths below start from core/crates/vipervault-core/src. The program keeps an encrypted vault
-- file (vault/), opens it into a session that one manager holds in memory (core/lock_state.rs), and
-- lets callers work on its entries (core/entries.rs, entries/) under a runtime policy (core/policy.rs)
-- and an automatic lock. Passwords go through a gate that throttles failures (core/auth_gate.rs,
-- core/rate_limit.rs). TOTP codes are made from stored blocks (totp/).
--
-- (Base) shared names. Base/Tests has the conditional and the Boolean tests on numbers, Base/Lists
--   lists measured by native numbers, Base/LittleEndian bytes and to_le_bytes, and Base/Results Rust's
--   Result with `?` as a do block.
-- (Session) the enums of core/session.rs, the runtime inspection state of core/antidebug.rs and
--   the outcome of vault/duress.rs. What a probe of the runtime answers is an argument.
-- (Policy) core/policy.rs, every method of PolicyContext. Policy/Matrix: who passes which gate.
-- (Text) Rust strings as lists of Unicode scalar values.
-- (Entries) entries/error.rs, entries/validate.rs and entries/types.rs. Entries/Update models
--   `&mut self` with early returns: an update returns the entry that it leaves beside its result.
--   Entries/WellFormed and Entries/Rejected are about successful and about failing updates.
-- (LockState) core/lock_state.rs. Types has VaultLockManager with the tasks and Notify objects that the
--   runtime keeps for it, numbered as they are allocated; Timer has unlock, lock, activity and the
--   auto-lock task, whose polls are events with an instant; Posture has the getters, the runtime
--   posture, authorization and events. History lists what may happen to a manager. Races takes
--   unlock and lock apart at their awaits. Tasks, Effects, Guard, Deadline, AutoLock, Waiting, Ceiling,
--   Authorize and Overtaken hold the proofs.
-- (Crud) core/entries.rs and the payload access of core/lock_state.rs. Crud/Dictionary compares the
--   list of entries with a dictionary from identifiers, Crud/Unique is about identifiers, Crud/Calls
--   about what later reads answer and Crud/Reveal about what leaves the vault.
-- (RateLimit) core/rate_limit.rs. A Duration and an Instant are nanoseconds; the clock and the
--   random bits are arguments; `none` is a panic.
-- (AuthGate) core/auth_gate.rs, over the limiter.
-- (Vault) vault/types.rs, vault/error.rs and vault/codec.rs. A reader is the bytes that it has left.
--   Vault/Codec/Layout, RoundTrip and Inversion hold the proofs.
--   Vault/Duress has the duress envelopes of vault/duress.rs, Vault/Create and Vault/Migrate the files
--   vault/create.rs and vault/migrate.rs. Vault/Storage is vault/storage.rs over disks as functions from
--   paths: an operation tells the disks that it passes through, so that a crash may come at any of
--   them. Disk has the steps, Writer the transactional writer over a backend, Backend what the writer
--   relies on, Locked the entry points with their lock file; Hoare, Atomic, Crash, Saved and Reread hold
--   the proofs.
-- (Crypto) crypto/kdf.rs and crypto/aead.rs over Argon2id and XChaCha20-Poly1305 as parameters.
-- (Unlock) core/unlock.rs. Agrees compares its entry points, Authentic is about what a file opens to,
--   Throttled about the gate in front, Reopened, Dual, Created and Migrated about files that were
--   written and are opened again.
-- (Backup) backup/codec.rs, backup/types.rs and backup/error.rs. Layout, Signed and Accepted hold the
--   proofs.
-- (Import) import/signed.rs, import/e2e_signed.rs and import/error.rs; Import/Session is about the
--   session that an import opens. Import/Commit has the commit of import/interop.rs and core/import.rs.
-- (Biometrics) core/biometrics.rs and the trait of biometrics/mod.rs.
-- (Clipboard) clipboard/guard.rs with its tasks on the runtime. The two halves of a copy are events of
--   their own, and so are a task's first poll, from which its sleep counts, the end of its sleep, its read
--   of the clipboard, and its comparison with the clearing. An abort drops a task only where it waits.
--   Copied also has totp/clipboard.rs; Tracked, Grounded and Cleared hold the proofs.
-- (Totp) totp/engine.rs and totp/decode.rs; Totp/Export has the canonical form of decode.rs, Totp/Format
--   is totp/format.rs. Totp/Truncate and Totp/Window hold the proofs.
-- (Examples) the theorems at concrete data.
--
-- Numbers are natural numbers. Wrap-around and saturation are written out where the source has them:
-- the generation counter modulo 2 ^ 64, the casts of lengths in the container, the failure count,
-- durations and the counters of the TOTP window. A secret wrapper is the value that it holds, an
-- identifier a number, and usize has 64 bits. Loops are structural recursion; none needs fuel: the
-- auto-lock task's loop is a sequence of events, one for each poll. Whether the clock can represent
-- `Instant::now() + timeout` is the platform's: a poll in which it cannot is an event of its own
-- (`overflowed`), by which the task panics.
--
-- Parameters: serde_json on payloads and headers (with the round trip of the value at hand as a
-- hypothesis), HMAC (documented to take every key and to answer 20 bytes or more), the Base32
-- decoder, the platform's clipboard, clocks, random bits and runtime probes, Argon2id, the AEAD
-- (which unseals what it sealed), HKDF, Ed25519 (which verifies what it signed), the operating
-- system's file calls (with their documented effects) and the biometric backend.
--
-- Not modelled: the parser of plaintext exports and otpauth URIs; zeroizing memory,
-- file permissions and the platform interfaces; readers that fail other than by ending.
pub mod Base
pub mod Session
pub mod Policy
pub mod Text
pub mod Entries
pub mod LockState
pub mod Crud
pub mod RateLimit
pub mod AuthGate
pub mod Crypto
pub mod Vault
pub mod Unlock
pub mod Backup
pub mod Import
pub mod Biometrics
pub mod Clipboard
pub mod Totp
pub mod Examples
