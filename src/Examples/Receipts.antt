-- ===== src/Examples/Receipts.antt =====
-- A receipt for the event of a ledger of two rows.
use mybench.Base.{
  Bytes, Option, Result, [], arith, ascii, bytes_eq, length, none, ok, refl, replicate, some, take,
  true, ◌++◌, ◌∷◌, ◌≡◌,
}
use mybench.Hex.{hex, fromhex}
use mybench.Lines.{split_lines}
use mybench.Commitment.{domain_day, day_root, merkle_root, tree_root, check_hash}
use mybench.Ledger.{Text, v2, anchor_receipt, Row, Disk, row_hash}
use mybench.Ledger.Read.{
  rows, file_rows, content_rows, read_rows, read_row, verify_chain, verify_rows, check_rows,
  check_row, boundary_check,
}
use mybench.Ledger.Read.Chain.{verify_rows_iff}
use mybench.Ledger.Write.{newest, append_behind, append_row, append_bytes, line_of}
use mybench.Ledger.Write.Step.{Holds, hashed}
use mybench.Anchor.Batch.{
  session_leaves, covered_rows, check_covered, check_signature, validate_batch, verify_batch,
}
use mybench.Anchor.Receipt.Built.{build_event-accepted}
use mybench.Anchor.Event.{
  Event, SignedEvent, EventHost, item_sum, project, sign_event, build_event, validate_event,
  verify_event,
}
use mybench.Anchor.Receipt.{
  ReceiptHost, receipt_domain, is_recorded, receipt_columns, ReceiptLatencies, verified_rows,
  parse_utc, anchor_receipt_id, newest_time, check_slice, check_event, check_existing,
  append_anchor_receipt, derive_receipt_latencies,
}
use mybench.Anchor.Receipt.Append.{
  Leaves, append_anchor_receipt-Leaves, append_anchor_receipt_twice,
}
use mybench.Anchor.Receipt.Latency.{derive_receipt_latencies-append_anchor_receipt}
use mybench.Anchor.Receipt.Times.{IsLatencies}
use mybench.Examples.Codec.{dec_items}
use mybench.Examples.Host.{digest, host, host-IsHost}
use mybench.Examples.Ledgers.{noon, first}
use mybench.Examples.Anchors.{second, two_rows, device, device-IsDevice, batch}

-- A time stands for the number of its characters.
abbrev clock : ReceiptHost
clock = record {
  fromisoformat = λ t. some (length t);
  identity_json = λ i. i.root;
  hmac = λ key m. digest (key ++ m);
}

abbrev events : EventHost
events = record {
  conforms = λ e. true;
  signed_bytes = λ e. e.root;
  identity_id = ascii "i";
  client_version = ascii "1";
}

abbrev event : Event
event = record {
  identity_id = ascii "i";
  date = ascii "2026-07-13";
  row_start = 0;
  row_end = 2;
  row_count = 2;
  session_count = 1;
  item_count = 1;
  root = hex (digest (domain_day ++ replicate 32 170));
  chain_tip = second.h;
  client_version = ascii "1";
  device_pub = hex (digest []);
}

abbrev signed : SignedEvent
signed = record { event = event; sig = hex (digest event.root) }

abbrev scope_key : Bytes
scope_key = replicate 32 7

abbrev receipt_id : Text
receipt_id = take 16 (hex (digest (scope_key ++ (receipt_domain ++ event.root))))

abbrev receipt_row : Row
receipt_row = hashed host (record {
  version = v2;
  i = 2;
  ts = noon;
  prev = second.h;
  body = anchor_receipt (receipt_columns signed receipt_id noon);
})

two_rows-read : rows host two_rows ≡ ok (first ∷ second ∷ [])
unfolding rows file_rows content_rows read_rows read_row split_lines row_hash hex dec_items
two_rows-read = refl

two_rows-verified : verify_rows host none (first ∷ second ∷ []) ≡ ok 2
unfolding verify_rows check_rows check_row boundary_check bytes_eq row_hash hex
two_rows-verified = refl

two_rows-Holds : Holds host two_rows (first ∷ second ∷ [])
two_rows-Holds = record {
  read = two_rows-read;
  chain = (verify_rows_iff host (first ∷ second ∷ [])).0 two_rows-verified;
}

abbrev receipt_out : Result (Option Row) × Disk
receipt_out = append_anchor_receipt clock host device events signed noon noon scope_key two_rows

receipt_out-row : receipt_out ≡ (ok (some receipt_row), receipt_out.1)
unfolding append_anchor_receipt check_event check_existing check_slice verified_rows verify_event
    validate_event parse_utc anchor_receipt_id newest_time is_recorded item_sum session_leaves
    day_root merkle_root tree_root check_hash newest append_behind append_row append_bytes line_of
    verify_chain verify_rows check_rows check_row boundary_check rows file_rows content_rows
    read_rows read_row split_lines row_hash hex fromhex dec_items bytes_eq
receipt_out-row = refl

append_anchor_receipt-Leaves_example :
    Leaves clock host device events host-IsHost signed noon noon two_rows
      (first ∷ second ∷ [])
      receipt_out
append_anchor_receipt-Leaves_example =
    append_anchor_receipt-Leaves clock host device events host-IsHost signed noon noon scope_key
      two_rows (first ∷ second ∷ []) two_rows-Holds

append_anchor_receipt_twice_example :
    append_anchor_receipt clock host device events signed noon noon scope_key receipt_out.1
    ≡ (ok none, receipt_out.1)
append_anchor_receipt_twice_example =
    append_anchor_receipt_twice clock host device events host-IsHost signed noon noon scope_key
      two_rows receipt_out.1 (first ∷ second ∷ []) (some receipt_row) two_rows-Holds receipt_out-row

derive_receipt_latencies-append_anchor_receipt_example :
    (rows host receipt_out.1 ≡ ok (first ∷ second ∷ receipt_row ∷ []))
    × (l : ReceiptLatencies) × (derive_receipt_latencies clock
          (first ∷ second ∷ receipt_row ∷ [])
          signed
        ≡ ok (some l))
    × IsLatencies clock signed l
derive_receipt_latencies-append_anchor_receipt_example =
    derive_receipt_latencies-append_anchor_receipt clock host device events host-IsHost signed noon
      noon scope_key two_rows receipt_out.1 (first ∷ second ∷ []) receipt_row two_rows-Holds
      receipt_out-row

batch-verified :
    verify_batch host device batch (some (covered_rows 0 2 (first ∷ second ∷ []))) ≡ ok tt
unfolding verify_batch check_covered check_signature validate_batch session_leaves day_root
    merkle_root tree_root check_hash newest row_hash hex fromhex bytes_eq
batch-verified = refl

signed-built :
    build_event device events host batch (first ∷ second ∷ []) (ascii "2026-07-13") ≡ ok signed
unfolding build_event project sign_event item_sum validate_event verify_batch check_signature
    validate_batch session_leaves row_hash hex fromhex bytes_eq
signed-built = refl

newest-noon : newest_time clock 0 (covered_rows 0 2 (first ∷ second ∷ [])) ≡ ok 25
unfolding newest_time parse_utc
newest-noon = refl

build_event-accepted_example :
    (verify_event device events signed ≡ ok tt)
    × (check_slice clock host signed 25 30 (covered_rows 0 2 (first ∷ second ∷ [])) ≡ ok tt)
build_event-accepted_example =
    build_event-accepted host device clock events device-IsDevice batch (first ∷ second ∷ [])
      (ascii "2026-07-13") signed 25 30 25 refl batch-verified signed-built newest-noon
      (omega arith) (omega arith)
