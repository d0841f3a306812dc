-- ===== src/Anchor/Receipt.antt =====
-- The private receipt of an anchor: `append_anchor_receipt` of src/mybench/ledger.py, and the
-- latencies that src/mybench/anchor/receipt.py derives from it. `datetime.fromisoformat` of a UTC
-- time, the JSON of the identity and HMAC are parameters. Times are counts of one unit.
pub mod Recorded
pub mod Times
pub mod Matching
pub mod Append
pub mod Latency
pub mod Built
use mybench.Base.{
  Bool, Bytes, Error, List, Option, Result, [], ascii, bytes_eq, err, false, if◌then◌else◌, leb,
  ledger_error, length, ltb, none, not, ok, receipt_error, refuse, some, take, true, ℕ, ◌&&◌, ◌++◌,
  ◌+◌, ◌-◌, ◌==◌, ◌>>=◌, ◌>>◌, ◌||◌, ◌∷◌,
}
use mybench.Hex.{hex}
use mybench.Effect.{Effect, continue}
use mybench.Commitment.{day_root}
use mybench.Ledger.{Text, v2, ReceiptColumns, session, anchor_receipt, Row, Host, Disk}
use mybench.Ledger.Read.{rows, verify_chain}
use mybench.Ledger.Write.{newest, append_behind}
use mybench.Anchor.Batch.{Device, session_leaves, covered_rows}
use mybench.Anchor.Event.{Event, SignedEvent, EventHost, verify_event, item_sum}

-- The six fields of `ANCHOR_RECEIPT_EVENT_FIELDS`.
pub record Identity : Type 0 where
  pub identity_id : Text
  pub date : Text
  pub row_start : ℕ
  pub row_end : ℕ
  pub root : Text
  pub chain_tip : Text

pub record ReceiptHost : Type 0 where
  pub fromisoformat : Text → Option ℕ
  pub identity_json : Identity → Bytes
  pub hmac : Bytes → Bytes → Bytes

abbrev pub receipt_domain : Bytes
receipt_domain = ascii "anchor-receipt:v1:"

-- `value[:-1]` of a text that ends in "Z"
abbrev pub before_z : Text → Option Text
before_z [] = none
before_z (c ∷ []) = if c == b'Z' then some [] else none
before_z (c ∷ d ∷ t) = elim (before_z (d ∷ t)) [ none ↦ none | some front ↦ some (c ∷ front) ]

-- Whether a row is the receipt with an identity: range, root and tip.
abbrev pub same_identity : SignedEvent → ReceiptColumns → Bool
same_identity e c =
    (c.anchor_row_start == e.row_start)
    && ((c.anchor_row_end == e.row_end)
        && (bytes_eq c.anchor_root e.root && bytes_eq c.anchor_chain_tip e.chain_tip))

-- The loop over the rows that are there: true where the receipt is, and an error where another one
-- has its id or its identity.
unfoldable pub is_recorded : SignedEvent → Text → Text → List Row → Result Bool
is_recorded e id receipt_ts [] = ok false
is_recorded e id receipt_ts (row ∷ rest) = elim row.body [
  | anchor_receipt c ↦
      let later = is_recorded e id receipt_ts rest in
      if bytes_eq c.receipt_id id || same_identity e c
      then (if bytes_eq c.receipt_id id && (same_identity e c && bytes_eq c.receipt_ts receipt_ts)
          then ok true
          else err ledger_error)
      else later
  | _ ↦ is_recorded e id receipt_ts rest
]

abbrev pub receipt_columns : SignedEvent → Text → Text → ReceiptColumns
receipt_columns e id receipt_ts = record {
  anchor_row_start = e.row_start;
  anchor_row_end = e.row_end;
  anchor_root = e.root;
  anchor_chain_tip = e.chain_tip;
  receipt_ts = receipt_ts;
  receipt_id = id;
}

abbrev pub noted : Result Row × Disk → Result (Option Row) × Disk
noted (ok row, d) = (ok (some row), d)
noted (err e, d) = (err e, d)

-- `receipt_for_event`: the receipts of an event.
unfoldable pub matching : List Row → SignedEvent → List ReceiptColumns
matching [] e = []
matching (row ∷ rest) e =
    let later = matching rest e in
    elim row.body [ anchor_receipt c ↦ if same_identity e c then c ∷ later else later | _ ↦ later ]

unfoldable pub receipt_for_event : List Row → SignedEvent → Result (Option ReceiptColumns)
receipt_for_event rs e = elim (matching rs e) [
  | [] ↦ ok none
  | c ∷ [] ↦ ok (some c)
  | c ∷ _ ∷ _ ↦ err receipt_error
]

-- `except EventError as exc: raise LedgerError`
abbrev pub as_ledger_error : Result (Unit {0}) → Result (Unit {0})
as_ledger_error (err raised) = err ledger_error
as_ledger_error (ok passed) = ok passed

-- The times of a call, and the id of its receipt.
pub record Call : Type 0 where
  pub receipt_time : ℕ
  pub append_time : ℕ
  pub id : Text

pub record ReceiptLatencies : Type 0 where
  pub per_row : List (ℕ × ℕ)
  pub batch : ℕ

-- The rows of the ledger, once its chain is verified.
unfoldable pub verified_rows : Host → Disk → Result (List Row)
verified_rows host d = verify_chain host none d >>= λ total. rows host d

module _ (clock : ReceiptHost) where
  -- `_parse_utc_timestamp`, and `_parse_timestamp` of receipt.py, raise different errors.
  unfoldable pub parse_utc : Error → Text → Result ℕ
  parse_utc e value = elim (before_z value) [
    | none ↦ err e
    | some front ↦ elim (clock.fromisoformat (front ++ ascii "+00:00")) [
      | none ↦ err e
      | some t ↦ ok t
    ]
  ]

  unfoldable pub anchor_receipt_id : Event → Bytes → Result Text
  anchor_receipt_id e scope_key = do
    refuse (not (length scope_key == 32)) ledger_error
    let identity : Identity = record {
      identity_id = e.identity_id;
      date = e.date;
      row_start = e.row_start;
      row_end = e.row_end;
      root = e.root;
      chain_tip = e.chain_tip;
    }
    ok (take 16 (hex (clock.hmac scope_key (receipt_domain ++ clock.identity_json identity))))

  -- `max(_parse_utc_timestamp(row["ts"]) for row in covered)`, from the newest time so far
  unfoldable pub newest_time : ℕ → List Row → Result ℕ
  newest_time newest_so_far [] = ok newest_so_far
  newest_time newest_so_far (row ∷ rest) = parse_utc ledger_error row.ts >>= λ t.
      newest_time (if ltb newest_so_far t then t else newest_so_far) rest

  -- The rows of the event's range: what it says of them, and their times.
  unfoldable pub check_slice : Host → SignedEvent → ℕ → ℕ → List Row → Result (Unit {0})
  check_slice host e receipt_time append_time covered = do
    leaves ← session_leaves covered
    refuse (length leaves == 0) ledger_error
    root ← day_root host.sha256 leaves
    refuse (not (bytes_eq (hex root) e.root)) ledger_error
    last ← newest covered
    refuse (not (bytes_eq last.h e.chain_tip)) ledger_error
    refuse (not (length leaves == e.session_count)) ledger_error
    refuse (not (item_sum covered == e.item_count)) ledger_error
    newest_covered ← newest_time 0 covered
    refuse (ltb receipt_time newest_covered) ledger_error
    refuse (ltb append_time receipt_time) ledger_error

  -- What it checks against the rows: whether the receipt is among them.
  unfoldable pub check_existing : Host → SignedEvent → Text → Call → List Row → Result Bool
  check_existing host e receipt_ts call existing = do
    refuse (ltb (length existing) e.row_end || leb e.row_end e.row_start) ledger_error
    check_slice host e call.receipt_time call.append_time
        (covered_rows e.row_start e.row_end existing)
    is_recorded e call.id receipt_ts existing

  module _ (host : Host) (device : Device) (events : EventHost) where
    -- What `append_anchor_receipt` checks of the call alone.
    unfoldable pub check_event : SignedEvent → Text → Text → Bytes → Result Call
    check_event e receipt_ts ts scope_key = do
      as_ledger_error (verify_event device events e)
      receipt_time ← parse_utc ledger_error receipt_ts
      append_time ← parse_utc ledger_error ts
      id ← anchor_receipt_id e.event scope_key
      ok (record { receipt_time = receipt_time; append_time = append_time; id = id })

    abbrev pub append_new :
        SignedEvent
        → Text
        → Text
        → Call
        → List Row
        → Result Bool
        → Disk
        → Result (Option Row) × Disk
    append_new e receipt_ts ts call existing (err raised) d = (err raised, d)
    append_new e receipt_ts ts call existing (ok true) d = (ok none, d)
    append_new e receipt_ts ts call existing (ok false) d = noted (
        append_behind host existing v2 ts (anchor_receipt (receipt_columns e call.id receipt_ts)) d)

    abbrev pub append_verified :
        SignedEvent
        → Text
        → Text
        → Result Call
        → Result (List Row)
        → Disk
        → Result (Option Row) × Disk
    append_verified e receipt_ts ts (err raised) read d = (err raised, d)
    append_verified e receipt_ts ts (ok call) (err raised) d = (err raised, d)
    append_verified e receipt_ts ts (ok call) (ok existing) d =
        append_new e receipt_ts ts call existing (check_existing host e receipt_ts call existing) d

    unfoldable pub append_anchor_receipt :
        SignedEvent → Text → Text → Bytes → Disk → Result (Option Row) × Disk
    append_anchor_receipt e receipt_ts ts scope_key d =
        append_verified e receipt_ts ts (check_event e receipt_ts ts scope_key)
          (verified_rows host d) d

  -- The interval from each row to the receipt, with the row's index, and the newest time so far.
  unfoldable pub latencies : ℕ → ℕ → ℕ → List Row → Result (List (ℕ × ℕ) × ℕ)
  latencies endpoint index newest_so_far [] = ok ([], newest_so_far)
  latencies endpoint index newest_so_far (row ∷ rest) = do
    t ← parse_utc receipt_error row.ts
    refuse (ltb endpoint t) receipt_error
    found ← latencies endpoint (index + 1) (if ltb newest_so_far t then t else newest_so_far) rest
    ok ((index, endpoint - t) ∷ found.0, found.1)

  -- With the receipt's own time.
  unfoldable pub latencies_to : ℕ → List Row → SignedEvent → Result (Option ReceiptLatencies)
  latencies_to endpoint rs e = do
    found ← latencies endpoint e.row_start 0 (covered_rows e.row_start e.row_end rs)
    refuse (ltb endpoint found.1) receipt_error
    ok (some (record { per_row = found.0; batch = endpoint - found.1 }))

  abbrev pub with_receipt :
      List Row → SignedEvent → Option ReceiptColumns → Result (Option ReceiptLatencies)
  with_receipt rs e none = ok none
  with_receipt rs e (some c) = do
    refuse (leb e.row_end e.row_start || ltb (length rs) e.row_end) receipt_error
    endpoint ← parse_utc receipt_error c.receipt_ts
    latencies_to endpoint rs e

  unfoldable pub derive_receipt_latencies :
      List Row → SignedEvent → Result (Option ReceiptLatencies)
  derive_receipt_latencies rs e = receipt_for_event rs e >>= with_receipt rs e
