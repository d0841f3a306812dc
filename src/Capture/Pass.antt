-- ===== src/Capture/Pass.antt =====
-- `Daemon._scan_once_locked` of src/mybench/daemon/capture.py: one pass over the source files, in
-- the order of the walk. The state is all nonce files, archives and rows of `covered` by their keys.
pub mod Keeps
use mybench.Base.{
  Bool, Bytes, List, Option, Result, [], bytes_eq, err, if◌then◌else◌, leb, none, ok, some, true, ℕ,
  ◌+◌, ◌∷◌,
}
use mybench.Effect.{Effect}
use mybench.Ledger.{Text, SessionColumns, session, Row, Host, Disk}
use mybench.Ledger.Read.{rows}
use mybench.Ledger.Recover.{recover}
use mybench.Archive.{ArchiveFile}
use mybench.Nonces.{NonceJson, NonceFile}
use mybench.Capture.{Metadata, Scan, CaptureResult, nothing, Store, capture_file}

pub record World : Type 0 where
  pub nonces : Text → Option NonceFile
  pub archives : Text → Text → Option ArchiveFile
  pub disk : Disk
  pub covered : Text → Option SessionColumns

-- A table with one entry set.
abbrev pub set {ℓ} : {A : Type ℓ} → Text → A → (Text → A) → Text → A
set key a table k = if bytes_eq k key then a else table k

-- What `_capture_file` reads of the state, and the state with what it has written.
abbrev pub focus : Scan → World → Store
focus scan w = record {
  nonces = w.nonces scan.session_id;
  disk = w.disk;
  archive = w.archives scan.source scan.session_id;
  covered = w.covered scan.session_id;
}

abbrev pub put_back : Scan → Store → World → World
put_back scan s w = record {
  nonces = set scan.session_id s.nonces w.nonces;
  archives = set scan.source (set scan.session_id s.archive (w.archives scan.source)) w.archives;
  disk = s.disk;
  covered = set scan.session_id s.covered w.covered;
}

-- The rows that one file adds to `appended`; an exception is logged and counts nothing.
abbrev pub rows_of : Result CaptureResult → ℕ
rows_of (err e) = 0
rows_of (ok r) = r.rows_appended

abbrev pub takes_over : SessionColumns → Option SessionColumns → Bool
takes_over c none = true
takes_over c (some previous) = leb previous.item_count c.item_count

-- The loop that fills `covered` from the rows of the ledger.
unfoldable pub cover_rows : List Row → (Text → Option SessionColumns) → Text → Option SessionColumns
cover_rows [] covered = covered
cover_rows (row ∷ rest) covered = elim row.body [
  | session c ↦
      cover_rows rest
        (if takes_over c (covered c.session_id) then set c.session_id (some c) covered else covered)
  | _ ↦ cover_rows rest covered
]

-- The flush of the lifecycle queue, which a historical pass leaves out; what it raises is logged.
abbrev pub flush_rows : Option (Effect Disk ℕ) → Disk → ℕ × Disk
flush_rows none d = (0, d)
flush_rows (some flush) d = (elim (flush d).0 [ err e ↦ 0 | ok n ↦ n ], (flush d).1)

-- `random id n` is the nonce that the call of `generate_nonce` for item `n` of session `id` gives.
module _ (host : Host) (json : NonceJson) (metadata : Text → List Bytes → Result Metadata)
    (random : Text → ℕ → Bytes) where
  unfoldable pub capture_one : Scan → World → ℕ × World
  capture_one scan w =
      let (result, s) =
        capture_file host json metadata (random scan.session_id) scan (focus scan w) in
      (rows_of result, put_back scan s w)

  -- The loop over the files that the walk gives, with the rows appended so far.
  unfoldable pub capture_all : List Scan → ℕ → World → ℕ × World
  capture_all [] appended w = (appended, w)
  capture_all (scan ∷ rest) appended w =
      let (n, w') = capture_one scan w in capture_all rest (appended + n) w'

  -- With the ledger repaired and the queue flushed.
  unfoldable pub scan_rows : List Scan → ℕ → Effect World ℕ
  scan_rows scans appended w = elim (rows host w.disk) [
    | err e ↦ (err e, w)
    | ok rs ↦
        let (n, w') =
          capture_all scans appended (record w { covered = cover_rows rs (λ id. none) }) in
        (ok n, w')
  ]

  unfoldable pub scan_once_locked : Option (Effect Disk ℕ) → List Scan → Effect World ℕ
  scan_once_locked flush scans w =
      let (recovered, d) = recover host w.disk in
      elim recovered [
        | err e ↦ (err e, record w { disk = d })
        | ok bytes ↦
            let (appended, d') = flush_rows flush d in
            scan_rows scans appended (record w { disk = d' })
      ]
