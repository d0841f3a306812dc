-- ===== src/Anchor/Batch.antt =====
-- src/mybench/anchor/batch.py: building a signed batch over a range of rows, and verifying one. The
-- schema validator, the canonical JSON and Ed25519 are parameters.
pub mod Verified
use mybench.Base.{
  Bool, Bytes, List, Option, Result, [], anchor_error, bytes_eq, drop, err, if◌then◌else◌, leb,
  length, ltb, none, not, ok, refuse, some, take, ℕ, ◌*◌, ◌-◌, ◌==◌, ◌>>=◌, ◌>>◌, ◌∷◌,
}
use mybench.Hex.{hex, fromhex}
use mybench.Commitment.{day_root}
use mybench.Ledger.{Text, SessionColumns, Body, session, Row, Host, Disk}
use mybench.Ledger.Read.{rows, verify_chain}
use mybench.Ledger.Write.{text_lt, newest}

-- A batch without `sig`, and without the two columns that are constants.
pub record Batch : Type 0 where
  pub row_start : ℕ
  pub row_end : ℕ
  pub row_count : ℕ
  pub session_count : ℕ
  pub root : Text
  pub chain_tip : Text
  pub ts : Text
  pub device_pub : Text

pub record Signed : Type 0 where
  pub batch : Batch
  pub open batch use *
  pub sig : Text

-- The validator of the schema, `signed_bytes`, the device key, and `Ed25519PublicKey.verify` on a raw
-- key, which refuses a key or a signature that does not parse.
pub record Device : Type 0 where
  pub conforms : Signed → Bool
  pub signed_bytes : Batch → Bytes
  pub public_key : Bytes
  pub sign : Bytes → Bytes
  pub verify : Bytes → Bytes → Bytes → Bool

-- `[bytes.fromhex(r["session_root"]) for r in rows if r["type"] == "session"]`
unfoldable pub session_leaves : List Row → Result (List Bytes)
session_leaves [] = ok []
session_leaves (row ∷ rest) =
    let leaves = session_leaves rest in
    elim row.body [
      | session c ↦ fromhex c.session_root >>= λ leaf. leaves >>= λ others. ok (leaf ∷ others)
      | _ ↦ leaves
    ]

-- `max(r["ts"] for r in rows)`, from the newest time so far.
abbrev pub max_ts : Text → List Row → Text
max_ts newest_ts [] = newest_ts
max_ts newest_ts (row ∷ rest) = max_ts (if text_lt newest_ts row.ts then row.ts else newest_ts) rest

-- `rows[start:end]`
abbrev pub covered_rows : ℕ → ℕ → List Row → List Row
covered_rows start end rs = take (end - start) (drop start rs)

abbrev pub start_of : Option Signed → ℕ
start_of none = 0
start_of (some previous) = previous.row_end

abbrev pub end_of : Option ℕ → ℕ → ℕ
end_of none total = total
end_of (some end) total = end

module _ (device : Device) where
  unfoldable pub validate_batch : Signed → Result (Unit {0})
  validate_batch b = do
    refuse (not (device.conforms b)) anchor_error
    refuse (leb b.row_end b.row_start) anchor_error
    refuse (not (b.row_count == b.row_end - b.row_start)) anchor_error
    refuse (ltb b.row_count b.session_count) anchor_error

  unfoldable pub sign_batch : Batch → Signed
  sign_batch b = record { batch = b; sig = hex (device.sign (device.signed_bytes b)) }

  -- The signature; a text that is not hexadecimal is refused alike.
  unfoldable pub check_signature : Signed → Result (Unit {0})
  check_signature b =
      elim (fromhex b.device_pub >>= λ key.
      fromhex b.sig >>= λ sig. ok (device.verify key sig (device.signed_bytes b.batch))) [
        | err e ↦ err anchor_error
        | ok good ↦ refuse (not good) anchor_error
      ]

module _ (host : Host) (device : Device) where
  -- The fields over the rows of a range.
  unfoldable pub batch_fields : ℕ → ℕ → List Row → Result Batch
  batch_fields start end covered = do
    refuse (length covered == 0) anchor_error
    leaves ← session_leaves covered
    refuse (length leaves == 0) anchor_error
    root ← day_root host.sha256 leaves
    last ← newest covered
    ok (record {
      row_start = start;
      row_end = end;
      row_count = end - start;
      session_count = length leaves;
      root = hex root;
      chain_tip = last.h;
      ts = max_ts [] covered;
      device_pub = hex device.public_key;
    })

  unfoldable pub build_batch : Option Signed → Option ℕ → Disk → Result Signed
  build_batch previous row_end d = do
    total ← verify_chain host none d
    refuse (ltb total (end_of row_end total)) anchor_error
    rs ← rows host d
    b ←
        batch_fields (start_of previous) (end_of row_end total)
          (covered_rows (start_of previous) (end_of row_end total) rs)
    validate_batch device (sign_batch device b)
    ok (sign_batch device b)

  -- The checks against the covered rows.
  unfoldable pub check_covered : Batch → List Row → Result (Unit {0})
  check_covered b rs = do
    refuse (not (length rs == b.row_count)) anchor_error
    leaves ← session_leaves rs
    refuse (not (length leaves == b.session_count)) anchor_error
    root ← day_root host.sha256 leaves
    refuse (not (bytes_eq (hex root) b.root)) anchor_error
    last ← newest rs
    refuse (not (bytes_eq last.h b.chain_tip)) anchor_error

  unfoldable pub verify_batch : Signed → Option (List Row) → Result (Unit {0})
  verify_batch b covered = do
    validate_batch device b
    check_signature device b
    elim covered [ none ↦ ok tt | some rs ↦ check_covered b.batch rs ]
