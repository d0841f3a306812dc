-- ===== src/Capture.antt =====
-- src/mybench/daemon/capture.py: one source file of one scan. The state is what `_capture_file`
-- reads and writes of one session: its nonces, the ledger, its archive and its entry in `covered`.
pub mod Commits
pub mod Scans
pub mod Due
pub mod Settles
pub mod Preview
pub mod Pass
use mybench.Base.{
  Bool, Bytes, List, Option, Result, [], bytes_eq, capture_integrity_error, drop, err, false,
  if◌then◌else◌, key_error, length, ltb, none, not, ok, refuse, some, suc, take, true, zero, ℕ,
  ◌++◌, ◌==◌, ◌>>=◌, ◌>>◌, ◌||◌, ◌∷◌,
}
use mybench.Effect.{Effect, pure, continue}
use mybench.Hex.{hex}
use mybench.Lines.{split_lines, pop_last}
use mybench.Commitment.{session_root}
use mybench.Ledger.{Text, Provenance, SessionColumns, Body, session, Row, Host, Disk}
use mybench.Ledger.Write.{append_session}
use mybench.Archive.{ArchiveFile, ArchiveResult, commit_items, archive_session}
use mybench.Nonces.{NonceJson, NonceFile, load_nonces, append_nonce, ensure_durable}

-- `SessionMetadata`
pub record Metadata : Type 0 where
  pub models_seen : List Text
  pub provider : Option Text
  pub effort : Option Text
  pub input_tokens : Option ℕ
  pub output_tokens : Option ℕ
  pub cache_creation_input_tokens : Option ℕ
  pub cache_read_input_tokens : Option ℕ
  pub harness_version : Option Text

abbrev pub no_metadata : Metadata
no_metadata = record {
  models_seen = [];
  provider = none;
  effort = none;
  input_tokens = none;
  output_tokens = none;
  cache_creation_input_tokens = none;
  cache_read_input_tokens = none;
  harness_version = none;
}

-- One file of a scan: its bytes, the id of its session, and the settings and clock of the scan.
pub record Scan : Type 0 where
  pub source : Text
  pub session_id : Text
  pub transcript : Bytes
  pub provenance : Option Provenance
  pub archive_enabled : Bool
  pub ts : Text

pub record CaptureResult : Type 0 where
  pub rows_appended : ℕ
  pub archive_covered : ℕ
  pub archive_failed : ℕ
  pub archive_bytes_appended : ℕ

abbrev pub nothing : CaptureResult
nothing = record {
  rows_appended = 0;
  archive_covered = 0;
  archive_failed = 0;
  archive_bytes_appended = 0;
}

pub record Store : Type 0 where
  pub nonces : Option NonceFile
  pub disk : Disk
  pub archive : Option ArchiveFile
  pub covered : Option SessionColumns

-- `_complete_lines`
unfoldable pub complete_lines : Bytes → List Bytes
complete_lines bytes = pop_last (split_lines bytes)

-- A row of the ledger as one of `covered`.
abbrev pub session_of : Body → Result SessionColumns
session_of (session c) = ok c
session_of _ = err key_error

-- The nonce file is shorter than the committed row.
abbrev pub too_short : List Bytes → Option SessionColumns → Bool
too_short known none = false
too_short known (some row) = ltb (length known) row.item_count

-- A row is missing, or is shorter than the items, or nonces are. A list of nonces that is not
-- `too_short` for a row that covers the items is not shorter than the items.
abbrev pub needs_row : List Bytes → List Bytes → Option SessionColumns → Bool
needs_row items known none = true
needs_row items known (some row) =
    ltb row.item_count (length items) || ltb (length known) (length items)

abbrev pub observed : Result Metadata → Metadata
observed (ok m) = m
observed (err e) = no_metadata

-- The arguments of `append_session`.
unfoldable pub row_columns : Scan → List Bytes → Bytes → Metadata → SessionColumns
row_columns scan items root m = record {
  session_id = scan.session_id;
  session_root = root;
  item_count = length items;
  source = scan.source;
  provenance = scan.provenance;
  models_seen = m.models_seen;
  provider = m.provider;
  effort = m.effort;
  input_tokens = m.input_tokens;
  output_tokens = m.output_tokens;
  cache_creation_input_tokens = m.cache_creation_input_tokens;
  cache_read_input_tokens = m.cache_read_input_tokens;
  harness_version = m.harness_version;
}

abbrev pub archive_outcome : Result ArchiveResult → CaptureResult
archive_outcome (err e) = record nothing { archive_failed = 1 }
archive_outcome (ok r) = record nothing {
  archive_covered = 1;
  archive_bytes_appended = r.bytes_appended;
}

-- `random n` is the nonce that the call of `generate_nonce` for item `n` gives; `metadata` is
-- `extract_session_metadata`, which may raise.
module _ (host : Host) (json : NonceJson) (metadata : Text → List Bytes → Result Metadata)
    (random : ℕ → Bytes) where
  -- The items that a row covers must still be the ones it commits.
  unfoldable pub check_committed :
      List Bytes → List Bytes → Option SessionColumns → Result (Unit {0})
  check_committed items known none = ok tt
  check_committed items known (some row) =
      if ltb row.item_count (length items)
      then (do
        leaves ← commit_items host.sha256 (take row.item_count known) (take row.item_count items)
        root ← session_root host.sha256 leaves
        refuse (not (bytes_eq (hex root) row.session_root)) capture_integrity_error)
      else ok tt

  -- Nonces for `n` items from item `i` on.
  unfoldable pub fresh_nonces : ℕ → ℕ → List Bytes
  fresh_nonces i zero = []
  fresh_nonces i (suc n) = random i ∷ fresh_nonces (suc i) n

  -- `for nonce in fresh: nonces.append_nonce(session_id, nonce)`
  unfoldable pub append_nonces : Text → List Bytes → Effect (Option NonceFile) (Unit {0})
  append_nonces id [] file = (ok tt, file)
  append_nonces id (nonce ∷ rest) file =
      let (index, file') = append_nonce json id nonce file in
      continue index (λ _. append_nonces id rest) file'

  -- The root of the new row, with the nonces made durable first.
  unfoldable pub commit_root : Scan → List Bytes → List Bytes → Option NonceFile → Result Bytes
  commit_root scan items nonces file = do
    leaves ← commit_items host.sha256 nonces items
    ensure_durable scan.session_id file
    session_root host.sha256 leaves

  -- `covered[session_id] = row`
  unfoldable pub keep_row : Result Row → Effect Store SessionColumns
  keep_row (err e) s = (err e, s)
  keep_row (ok row) s = elim (session_of row.body) [
    | err e ↦ (err e, s)
    | ok c ↦ (ok c, record s { covered = some c })
  ]

  -- The row of the items, under nonces that are stored.
  unfoldable pub write_row : Scan → List Bytes → List Bytes → Effect Store SessionColumns
  write_row scan items nonces s = elim (commit_root scan items nonces s.nonces) [
    | err e ↦ (err e, s)
    | ok root ↦
        let columns = row_columns scan items root (observed (metadata scan.source items)) in
        let (row, disk') = append_session host columns scan.ts s.disk in
        keep_row row (record s { disk = disk' })
  ]

  unfoldable pub new_nonces : List Bytes → List Bytes → List Bytes
  new_nonces items known = fresh_nonces (length known) (length (drop (length known) items))

  -- The branch that appends a row, and the row.
  unfoldable pub commit_items_row : Scan → List Bytes → List Bytes → Effect Store SessionColumns
  commit_items_row scan items known s = elim (check_committed items known s.covered) [
    | err e ↦ (err e, s)
    | ok _ ↦
        let (done, file) = append_nonces scan.session_id (new_nonces items known) s.nonces in
        continue done (λ _. write_row scan items (known ++ new_nonces items known))
          (record s { nonces = file })
  ]

  -- `_archive_file`, which catches what `archive_session` raises.
  unfoldable pub archive_file :
      List Bytes → List Bytes → SessionColumns → Effect Store CaptureResult
  archive_file items known row s =
      let (result, file) =
        archive_session host.sha256
          (record {
            source_items = items;
            nonces = known;
            expected_item_count = row.item_count;
            expected_session_root = row.session_root;
          })
          s.archive in
      (ok (archive_outcome result), record s { archive = file })

  -- The end of `_capture_file`.
  unfoldable pub archive_row :
      Scan → ℕ → List Bytes → List Bytes → SessionColumns → Effect Store CaptureResult
  archive_row scan appended items known row s =
      if scan.archive_enabled
      then continue (archive_file items known row s).0
          (λ r. pure (record r { rows_appended = appended })) (archive_file items known row s).1
      else (ok (record nothing { rows_appended = appended }), s)

  -- A source that has shrunk, or a row that covers everything: nothing is appended.
  unfoldable pub capture_covered :
      Scan → List Bytes → List Bytes → Option SessionColumns → Effect Store CaptureResult
  capture_covered scan items known none = pure nothing
  capture_covered scan items known (some row) = archive_row scan 0 items known row

  unfoldable pub capture_new : Scan → List Bytes → List Bytes → Effect Store CaptureResult
  capture_new scan items known s =
      let (row, s') = commit_items_row scan items known s in
      continue row (archive_row scan 1 items (known ++ new_nonces items known)) s'

  unfoldable pub capture_items : Scan → List Bytes → List Bytes → Effect Store CaptureResult
  capture_items scan items known s =
      if ltb (length items) (length known)
      then capture_covered scan items known s.covered s
      else if length items == 0
      then (ok nothing, s)
      else if needs_row items known s.covered
      then capture_new scan items known s
      else capture_covered scan items known s.covered s

  -- `known`, refused if it is shorter than the committed row.
  unfoldable pub load_known : Scan → Store → Result (List Bytes)
  load_known scan s = do
    known ← load_nonces json scan.session_id s.nonces
    refuse (too_short known s.covered) capture_integrity_error
    ok known

  -- `_capture_file`
  unfoldable pub capture_file : Scan → Effect Store CaptureResult
  capture_file scan s = elim (load_known scan s) [
    | err e ↦ (err e, s)
    | ok known ↦ capture_items scan (complete_lines scan.transcript) known s
  ]
