-- ===== src/Examples/Ledgers.antt =====
-- A ledger of two rows, its recovery and its writers.
use mybench.Base.{
  Bytes, List, Option, [], arith, ascii, bytes_eq, false, none, ok, refl, some, take, ◌++◌, ◌↔◌,
  ◌∷◌, ◌≡◌, ◌⊎◌,
}
use mybench.Lines.{newline, split_lines}
use mybench.Hex.{hex}
use mybench.Commitment.Binding.{Collision}
use mybench.Ledger.{
  Text, v1, v2, Provenance, imported, live, SessionColumns, BindingColumns, EventColumns, genesis,
  session, binding, event, Fields, Row, genesis_prev, File, Disk, row_hash,
}
use mybench.Ledger.Read.{
  rows, file_rows, content_rows, read_rows, read_row, check_rows, check_row, boundary_check,
  verify_rows, verify_chain,
}
use mybench.Ledger.Read.Chain.{IsChain, onto, verify_rows_iff}
use mybench.Ledger.Read.Tip.{verify_chain-binding}
use mybench.Ledger.Write.{
  append_bytes, line_of, append_row, append_session, append_binding, append_event, ensure_genesis,
  ensure_boundary, prepare, prepare_provenance_rows, append_behind, newest, session_columns,
  sorted_set, insert_text, text_lt, is_replay,
}
use mybench.Ledger.Write.Step.{Holds, hashed}
use mybench.Ledger.Write.Chain.{Records, append_session-Records, append_binding-Records}
use mybench.Ledger.Write.Event.{append_event_twice}
use mybench.Ledger.Recover.{recover}
use mybench.Ledger.Recover.Loop.{Repairs, recover-Repairs}
use mybench.Ledger.Recover.Crash.{interrupted, recover-interrupted}
use mybench.Examples.Codec.{dec_items}
use mybench.Examples.Host.{host, host-IsHost, host-IsFaithful}

abbrev pub no_ledger : Disk
no_ledger = record { ledger = none; quarantine = [] }

pub no_ledger-Holds : Holds host no_ledger []
unfolding rows file_rows
no_ledger-Holds = record { read = refl; chain = tt }

abbrev pub noon : Text
noon = ascii "2026-07-13T12:00:00Z"

abbrev columns : Option Provenance → SessionColumns
columns p = record {
  session_id = ascii "s1";
  session_root = 1 ∷ 2 ∷ [];
  item_count = 2;
  source = ascii "codex";
  provenance = p;
  models_seen = ascii "b" ∷ ascii "a" ∷ ascii "b" ∷ [];
  provider = none;
  effort = none;
  input_tokens = some 0;
  output_tokens = none;
  cache_creation_input_tokens = none;
  cache_read_input_tokens = none;
  harness_version = none;
}

models_sorted : sorted_set (ascii "b" ∷ ascii "a" ∷ ascii "b" ∷ []) ≡ ascii "a" ∷ ascii "b" ∷ []
unfolding sorted_set insert_text text_lt bytes_eq
models_sorted = refl

append_session-Records_example :
    Records host [] noon
      (session (session_columns (columns (some imported))))
      no_ledger
      (append_session host (columns (some imported)) noon no_ledger)
append_session-Records_example =
    append_session-Records host host-IsHost (columns (some imported)) noon no_ledger []
      no_ledger-Holds

abbrev commit : BindingColumns
commit = record {
  commit_hash = ascii "c0";
  commit_ts = noon;
  repo_id = ascii "r";
  provenance = none;
}

append_binding-Records_example :
    Records host [] noon (binding commit) no_ledger (append_binding host commit noon no_ledger)
append_binding-Records_example =
    append_binding-Records host host-IsHost commit noon no_ledger [] no_ledger-Holds

abbrev first_fields : Fields
first_fields = record { version = v1; i = 0; ts = noon; prev = genesis_prev; body = genesis }

abbrev pub first : Row
first = hashed host first_fields

abbrev one_row : Disk
one_row = record {
  ledger = some (record { loose = false; content = host.dumps first ++ (newline ∷ []) });
  quarantine = [];
}

one_row-verified : verify_chain host none one_row ≡ ok 1
unfolding verify_chain rows file_rows content_rows read_rows read_row split_lines verify_rows
    check_rows check_row boundary_check bytes_eq row_hash hex dec_items
one_row-verified = refl

one_row-read : rows host one_row ≡ ok (first ∷ [])
unfolding rows file_rows content_rows read_rows read_row split_lines row_hash hex dec_items
one_row-read = refl

three_rows :
    verify_chain host none (append_session host (columns (some live)) noon one_row).1 ≡ ok 3
unfolding verify_chain rows file_rows content_rows read_rows read_row split_lines verify_rows
    check_rows check_row boundary_check bytes_eq row_hash hex dec_items append_session prepare
    prepare_provenance_rows ensure_genesis ensure_boundary append_behind append_row append_bytes
    line_of newest session_columns sorted_set insert_text text_lt
three_rows = refl

verify_rows_iff_example :
    (verify_rows host none (first ∷ []) ≡ ok 1) ↔ IsChain host (onto (first ∷ []) [])
verify_rows_iff_example = verify_rows_iff host (first ∷ [])

one_row-Holds : Holds host one_row (first ∷ [])
unfolding verify_rows check_rows check_row boundary_check bytes_eq row_hash hex dec_items
one_row-Holds = record {
  read = one_row-read;
  chain = (verify_rows_iff host (first ∷ [])).0 one_row-rows;
}
  where
    one_row-rows : verify_rows host none (first ∷ []) ≡ ok 1
    one_row-rows = refl

verify_chain-binding_example : (rows host one_row ≡ rows host one_row) ⊎ Collision host.sha256
unfolding verify_chain rows file_rows content_rows read_rows read_row split_lines verify_rows
    check_rows check_row boundary_check bytes_eq row_hash hex dec_items
verify_chain-binding_example =
    verify_chain-binding host host-IsFaithful first.h one_row one_row refl refl

abbrev opened : EventColumns
opened = record {
  event_kind = ascii "session_start";
  trigger = ascii "startup";
  session_id = ascii "s1";
  context_gen = 0;
  harness = ascii "codex";
  parent_session_id = none;
  harness_version = none;
  model = none;
  effort = none;
  repo_id = none;
  worktree_id = none;
  head_before = none;
  head_after = none;
}

abbrev opened_fields : Fields
opened_fields = record { version = v2; i = 1; ts = noon; prev = first.h; body = event opened }

abbrev with_event : Disk
with_event = append_bytes (line_of host (hashed host opened_fields)) one_row

append_event_twice_example :
    (append_event host opened noon with_event ≡ (ok none, with_event))
    × (added : List Row) × Holds host with_event ((first ∷ []) ++ added)
unfolding rows file_rows content_rows read_rows read_row split_lines row_hash hex dec_items
    append_event ensure_genesis append_behind append_row append_bytes line_of newest is_replay
    bytes_eq
append_event_twice_example =
    append_event_twice host host-IsHost opened noon one_row with_event (first ∷ [])
      (some (hashed host opened_fields)) one_row-Holds appended
  where
    appended :
        append_event host opened noon one_row ≡ (ok (some (hashed host opened_fields)), with_event)
    appended = refl

abbrev torn : Disk
torn = interrupted host opened_fields 5 one_row

abbrev one_row_file : File
one_row_file = record { loose = false; content = host.dumps first ++ (newline ∷ []) }

recover-interrupted_example :
    let piece : Bytes = take 5 (line_of host (hashed host opened_fields)) in
    (recover host torn ≡ (ok 5, record one_row { quarantine = [] ++ piece }))
    × Holds host (record one_row { quarantine = [] ++ piece }) (first ∷ [])
unfolding line_of
recover-interrupted_example =
    recover-interrupted host host-IsHost opened_fields 5 one_row_file one_row (first ∷ []) refl
      one_row-Holds (omega arith) (omega arith)

abbrev torn_file : File
torn_file = record { loose = false; content = host.dumps first ++ (newline ∷ []) ++ (1 ∷ 2 ∷ []) }

recover-Repairs_example :
    Repairs host torn_file
      (record { ledger = some torn_file; quarantine = [] })
      0
      (recover host (record { ledger = some torn_file; quarantine = [] }))
recover-Repairs_example =
    recover-Repairs host torn_file (record { ledger = some torn_file; quarantine = [] }) refl
