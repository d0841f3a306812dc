-- ===== src/Examples/Queues.antt =====
-- A queue of two lifecycle events on an empty ledger. A line of the queue is the session id alone.
use mybench.Base.{
  All, Bytes, List, Result, [], ascii, bytes_eq, err, false, if◌then◌else◌, length, lifecycle_error,
  none, ok, refl, some, take, type_error, ℕ, ◌++◌, ◌==◌, ◌||◌, ◌∷◌, ◌≡◌,
}
use mybench.Json.{Json, null, text, array, object, nil, Members, end, member, get}
use mybench.Lines.{newline}
use mybench.Hex.{hex}
use mybench.Nonces.{is_session_id}
use mybench.Ledger.{Text, File, Disk, row_hash}
use mybench.Ledger.Read.{rows, file_rows}
use mybench.Ledger.Write.{
  append_event, ensure_genesis, append_behind, append_row, append_bytes, line_of, newest, is_replay,
}
use mybench.Ledger.Recover.{last_break}
use mybench.Sessions.{is_hex}
use mybench.Stamp.{is_digit}
use mybench.Lifecycle.{
  context_generation, events_of, byte_lines, enqueue_event, flush_record, flush_lines, flush_queue,
}
use mybench.Lifecycle.Record.{
  QueueRecord, QueueHost, string_at, queue_record, check_provenance, check_head, is_timestamp,
  validate_members, validate_queue_record, parse_queue_line,
}
use mybench.Lifecycle.Flush.{Flushes, flush_lines-Flushes}
use mybench.Lifecycle.Replay.{counted, flush_queue-interrupted}
use mybench.Lifecycle.Enqueue.{flush_queue-torn}
use mybench.Examples.Codec.{dec_items}
use mybench.Examples.Host.{host, host-IsHost}
use mybench.Examples.Ledgers.{no_ledger, no_ledger-Holds}

abbrev pub start_members : Text → Members
start_members id = member (ascii "queue_version") (text (ascii "2")) (
    member (ascii "ts") (text (ascii "2026-07-13T12:00:00Z")) (
      member (ascii "event_kind") (text (ascii "session_start")) (
        member (ascii "trigger") (text (ascii "startup")) (
          member (ascii "session_id") (text id)
            (member (ascii "harness") (text (ascii "claude-code")) end)))))

abbrev id_of : Json → Text
id_of (object m) = string_at (ascii "session_id") m
id_of _ = []

abbrev codec : QueueHost
codec = record {
  loads = λ line. if length line == 2 then some (object (start_members line)) else none;
  dumps = id_of;
  is_decimal = is_digit;
}

abbrev pub start_record : Text → QueueRecord
start_record id = queue_record (start_members id)

start-valid :
    validate_queue_record codec (some (object (start_members (ascii "s1"))))
    ≡ ok (start_record (ascii "s1"))
unfolding validate_members check_provenance check_head get is_timestamp is_session_id is_hex
    bytes_eq
start-valid = refl

start-dumps : codec.dumps (object (start_members (ascii "s1"))) ≡ ascii "s1"
unfolding get bytes_eq
start-dumps = refl

-- A head without the other Git fields
lone_head-refused :
    validate_queue_record codec
      (some (object (member (ascii "head_after") (text []) (start_members (ascii "s1")))))
    ≡ err lifecycle_error
unfolding validate_members check_provenance check_head get is_timestamp is_session_id is_hex
    bytes_eq
lone_head-refused = refl

-- A version that is a list has no hash: the test in a set raises another error.
list_version-raises :
    validate_members codec (
      member (ascii "queue_version") (array nil) (
        member (ascii "ts") null (
          member (ascii "event_kind") null (
            member
              (ascii "trigger")
              null
              (member (ascii "session_id") null (member (ascii "harness") null end))))))
    ≡ err type_error
unfolding validate_members get bytes_eq
list_version-raises = refl

abbrev two_lines : File
two_lines = record { loose = false; content = ascii "s1\ns2\n" }

abbrev first_line : List Bytes
first_line = ascii "s1" ∷ []

abbrev flushed : Result ℕ × Disk
flushed = flush_lines codec host first_line 0 no_ledger

-- The process has died with one line in the ledger.
one_flushed : flushed ≡ (ok 1, flushed.1)
unfolding flush_lines parse_queue_line flush_record context_generation events_of validate_members
    check_provenance check_head get is_timestamp is_session_id is_hex bytes_eq append_event rows
    file_rows ensure_genesis append_behind append_row append_bytes line_of newest is_replay row_hash
    hex dec_items
one_flushed = refl

flush_lines-Flushes_example : Flushes codec host host-IsHost [] first_line no_ledger flushed
flush_lines-Flushes_example =
    flush_lines-Flushes codec host host-IsHost first_line 0 no_ledger [] no_ledger-Holds

two_lines-cut :
    byte_lines (take (last_break two_lines.content) two_lines.content)
    ≡ first_line ++ (ascii "s2" ∷ [])
unfolding byte_lines last_break
two_lines-cut = refl

two_lines-some : (last_break two_lines.content == 0) ≡ false
unfolding last_break
two_lines-some = refl

flush_queue-interrupted_example :
    flush_queue codec host (record { queue = some two_lines; disk = no_ledger })
    ≡ counted 1 (flush_queue codec host (record { queue = some two_lines; disk = flushed.1 }))
flush_queue-interrupted_example =
    flush_queue-interrupted codec host host-IsHost two_lines first_line (ascii "s2" ∷ []) 1
      no_ledger flushed.1 [] refl two_lines-some two_lines-cut no_ledger-Holds one_flushed

abbrev start_event : Json
start_event = object (start_members (ascii "s1"))

abbrev pub empty_queue : File
empty_queue = record { loose = false; content = [] }

abbrev torn_queue : File
torn_queue = record { loose = false; content = ascii "s" }

start_event-unread : codec.loads (torn_queue.content ++ codec.dumps start_event) ≡ none
unfolding get bytes_eq
start_event-unread = refl

torn-entry :
    All (λ c. ((c == newline) || (c == 13)) ≡ false) (torn_queue.content ++ codec.dumps start_event)
unfolding get bytes_eq
torn-entry = (refl, (refl, (refl, tt)))

flush_queue-torn_example :
    ((enqueue_event codec none start_event (record { queue = some torn_queue; disk = no_ledger })).0
      ≡ ok tt)
    × (flush_queue codec host
          (enqueue_event codec none start_event
            (record { queue = some torn_queue; disk = no_ledger })).1
        ≡ (ok 0, record { queue = some empty_queue; disk = no_ledger }))
flush_queue-torn_example =
    flush_queue-torn codec host start_event (start_record (ascii "s1")) torn_queue no_ledger
      start-valid start_event-unread torn-entry refl
