-- ===== src/Anchor/Event.antt =====
-- src/mybench/anchor/event.py: the event that is published for a batch. The schema validator, the
-- canonical JSON and Ed25519 are parameters.
use mybench.Base.{
  Bool, Bytes, List, Result, [], anchor_error, err, length, none, not, ok, refuse, ℕ, ◌+◌, ◌==◌,
  ◌>>=◌, ◌>>◌, ◌∷◌,
}
use mybench.Hex.{hex, fromhex}
use mybench.Ledger.{Text, session, Row, Host}
use mybench.Anchor.Batch.{Signed, Device, covered_rows, verify_batch}

-- An event without `sig`, and without the two columns that are constants.
pub record Event : Type 0 where
  pub identity_id : Text
  pub date : Text
  pub row_start : ℕ
  pub row_end : ℕ
  pub row_count : ℕ
  pub session_count : ℕ
  pub item_count : ℕ
  pub root : Text
  pub chain_tip : Text
  pub client_version : Text
  pub device_pub : Text

pub record SignedEvent : Type 0 where
  pub event : Event
  pub open event use *
  pub sig : Text

-- The validator of the schema, `signed_bytes`, `local_identity_id` and the version of the package.
pub record EventHost : Type 0 where
  pub conforms : SignedEvent → Bool
  pub signed_bytes : Event → Bytes
  pub identity_id : Text
  pub client_version : Text

-- `sum(r["item_count"] for r in covered if r["type"] == "session")`
unfoldable pub item_sum : List Row → ℕ
item_sum [] = 0
item_sum (row ∷ rest) = elim row.body [
  | session c ↦ c.item_count + item_sum rest
  | _ ↦ item_sum rest
]

module _ (device : Device) (events : EventHost) where
  unfoldable pub validate_event : SignedEvent → Result (Unit {0})
  validate_event e = do
    refuse (not (events.conforms e)) anchor_error
    refuse (not (e.row_count + e.row_start == e.row_end)) anchor_error

  -- A text that is not hexadecimal is refused as a signature that does not verify.
  unfoldable pub verify_event : SignedEvent → Result (Unit {0})
  verify_event e = do
    validate_event e
    elim (fromhex e.device_pub >>= λ key.
        fromhex e.sig >>= λ sig. ok (device.verify key sig (events.signed_bytes e.event))) [
          | err raised ↦ err anchor_error
          | ok good ↦ refuse (not good) anchor_error
        ]

  unfoldable pub project : Signed → Text → List Row → Event
  project b date covered = record {
    identity_id = events.identity_id;
    date = date;
    row_start = b.row_start;
    row_end = b.row_end;
    row_count = b.row_count;
    session_count = b.session_count;
    item_count = item_sum covered;
    root = b.root;
    chain_tip = b.chain_tip;
    client_version = events.client_version;
    device_pub = b.device_pub;
  }

  unfoldable pub sign_event : Event → SignedEvent
  sign_event e = record { event = e; sig = hex (device.sign (events.signed_bytes e)) }

  unfoldable pub build_event : Host → Signed → List Row → Text → Result SignedEvent
  build_event host b rs date = do
    let covered = covered_rows b.row_start b.row_end rs
    let e = sign_event (project b date covered)
    verify_batch host device b none
    refuse (not (length covered == b.row_count)) anchor_error
    validate_event e
    ok e
