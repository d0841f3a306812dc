-- ===== src/Lib.antt =====
-- Verification of mybench, a privacy-preserving attestation system (src/mybench).
--
-- The capture daemon cuts transcripts into items, commits each item with a fresh nonce, and appends
-- one ledger row with the root over the commitments of a session. The ledger is a chain of hashed
-- rows in one file. Anchors publish a root over the session roots of a range of rows together with
-- the hash of the newest one.
--
-- The files and the code they model:
--   Commitment, and below   src/mybench/commitment_tree.py: leaf commitments, the Merkle tree,
--                           inclusion proofs (`tree_root` is `merkle_root`, `audit_path` is
--                           `inclusion_proof`, each on fuel; `fold` is `_fold`).
--   Ledger                  src/mybench/ledger.py: the rows and the file.
--   Ledger/Read             `Ledger.rows` and `Ledger.verify_chain`.
--   Ledger/Write            `_append_row`, `_prepare_provenance_rows`, `append_session`,
--                           `append_binding`, `append_event`.
--   Ledger/Recover          `Ledger.recover`.
--   Archive, and below      src/mybench/archive.py: `archive_session` (`opened`, `extend` and the
--                           `check_` functions are its steps) and `read_verified_items`.
--   Nonces, and below       src/mybench/nonces.py: `append_nonce`, `load_nonces`, `ensure_durable`.
--   Capture, and below      src/mybench/daemon/capture.py: `_capture_file`, from `load_known` through
--                           `commit_items_row` to `archive_row`, on the state of one session, and
--                           `preview_historical` of one source.
--   Capture/Pass            `_scan_once_locked`: the loop over the sources of all sessions.
--   Anchor/Batch            src/mybench/anchor/batch.py: `build_batch`, `validate_batch` and
--                           `verify_batch`.
--   Json                    the values that `json.loads` gives.
--   Metadata, and below     src/mybench/daemon/session_metadata.py: `_claude` and `_codex` (one round
--                           of each loop is `claude_record`, `codex_record`).
--   Stamp, and below        src/mybench/normalizer/claude.py: `_canonical_timestamp`.
--   Sessions, and below     src/mybench/normalizer/claude.py: `_check_input_sessions`.
--   Timing, and below       src/mybench/normalizer/session_timing.py: `_normalize_one` (`open_of`,
--                           `close_of`, `forward`, `eligible` and `observations` are its steps),
--                           `SessionTiming.__post_init__` (`check_timing`).
--   Lifecycle, and below    src/mybench/hooks/lifecycle.py: `_validate_queue_record` (in
--                           Lifecycle/Record), `enqueue_event`, `_context_generation` and `flush_queue`;
--                           in Lifecycle/Settings `install` and `uninstall`.
--   Anchor/Event            src/mybench/anchor/event.py: `build_event`, `verify_event`.
--   Anchor/Receipt          `Ledger.append_anchor_receipt` of src/mybench/ledger.py, and
--                           src/mybench/anchor/receipt.py: `derive_receipt_latencies`.
--   Identity, and below     src/mybench/identity.py: the signed records and `verify_record`.
--   Verifier, and below     src/mybench/verify/cli.py: `verify_anchors` (`admit_files`, `check_groups` and
--                           `check_day` are its loops), `_load_identities` in Verifier/Identities,
--                           the patterns of paths in Verifier/Paths, `_check_headers` and
--                           `proof_info` of src/mybench/anchor/ots.py in Verifier/Proofs.
--   Hours, and below        src/mybench/scorer/agent_hours.py: `score_agent_hours` (`profile_of`); the
--                           bands are in Hours/Band.
--   Lines, Hex              `split(b"\n")`, `bytes.hex` and `bytes.fromhex`.
--   Effect                  code that changes the disk and may raise.
--   Base, and below         shared helpers.
--   Examples, and below     tests and the theorems at concrete inputs.
--
-- Bytes are natural numbers, a byte string or text is their list. SHA-256 is a parameter;
-- statements about binding give a collision in the place of the impossibility. The ledger takes the
-- JSON reader with the schema validator, the two JSON writers and the validator as the record
-- `Host`; `IsHost` and `IsFaithful` say what is relied on: a row that conforms is read back from
-- its line, a line has no raw newline, the canonical text determines the row, digests are bytes.
-- `NonceJson` is the JSON codec of the nonce rows, and `QueueHost` that of the lifecycle queue with
-- the digits that `\d` matches; the queue's writer sorts the keys, so a line is read back as a
-- dictionary with the same values whose keys may stand in another order. Capture takes the nonces
-- that are drawn, for each session and item, and the metadata extraction as functions, and the JSON
-- reader of transcript records is a function too. A batch takes its schema validator, canonical
-- JSON and Ed25519 as the record `Device`, an event what it takes besides as `EventHost`, and a
-- receipt the parser of UTC times, HMAC and the JSON of its identity as `ReceiptHost`. The identity
-- records take SHA-256, Ed25519 and the JSON writer as `IdentityHost`, and the verifier what it
-- reads besides as `VerifierHost`, with a clone of the log as a `Log`. The agent hours take the
-- registry's entry, its `check_claim` and the parser of times as arguments; `IsClock` says that
-- times are ordered as their canonical texts are.
-- A method of the ledger runs under the writer lock, and a call on the queue under the lock of the
-- queue, so each is one action on the disk.
--
-- Fuel: a tree is walked with one unit more than its leaves, and each part of a tree has fewer
-- leaves; recovery has one round more than the file has bytes, and each round cuts a byte or more.
-- A loop that runs out of fuel returns `no_fuel`.
--
-- Not modelled: the clock, fsync and the lock files, the check that a path is a regular file, the
-- test-only fault injection of `_append_row`, logging and the failure counter; the walk over vendor
-- transcripts in src/mybench/normalizer, the assembly of claims and reports, the registry's data,
-- and the command line, scheduling, git and network calls, which are input and output.
pub mod Base
pub mod Commitment
pub mod Lines
pub mod Hex
pub mod Effect
pub mod Ledger
pub mod Archive
pub mod Nonces
pub mod Stamp
pub mod Json
pub mod Sessions
pub mod Timing
pub mod Metadata
pub mod Lifecycle
pub mod Hours
pub mod Capture
pub mod Anchor
pub mod Identity
pub mod Verifier
mod Examples
