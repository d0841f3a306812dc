-- ===== src/Lifecycle.antt =====
-- src/mybench/hooks/lifecycle.py: the queue of lifecycle events, from the hook that enqueues a record
-- to the flush into the ledger. The JSON codec and the digits of `\d` are parameters.
pub mod Tight
pub mod Reordered
pub mod Settings
pub mod Flush
pub mod Replay
pub mod Enqueue
pub mod Record
use mybench.Base.{
  Bool, Bytes, Error, List, Option, Result, [], ascii, bytes_eq, drop, err, false, if◌then◌else◌,
  last?, length, lifecycle_error, ltb, none, ok, refuse, some, take, true, ℕ, ◌&&◌, ◌++◌, ◌+◌, ◌==◌,
  ◌||◌, ◌∷◌,
}
use mybench.Lifecycle.Record.{
  QueueHost, QueueRecord, check_head, check_provenance, digits_z, event_kinds, follows, fraction_z,
  has_key, has_keys, has_some_key, in_set, is_timestamp, keys_among, mem_text, parse_queue_line,
  provenance_keys, queue_record, required_keys, string_at, takes, text_passes, triggers,
  validate_members, validate_queue_record,
}
use mybench.Json.{Json, text, array, object, Members, end, member, get, text_of, has_text}
use mybench.Lines.{newline, cons_head}
use mybench.Effect.{Effect, continue}
use mybench.Nonces.{is_session_id, starts_newline}
use mybench.Ledger.{Text, EventColumns, event, Row, Host, File, Disk}
use mybench.Ledger.Read.{rows}
use mybench.Ledger.Write.{append_event}
use mybench.Ledger.Recover.{last_break}
use mybench.Sessions.{is_none, is_hex, is_head, text_is, optional}
use mybench.Stamp.{Slot, digit, char, stamp_slots}

-- The events of one session, with its context generations.
unfoldable pub events_of : Text → List Row → List EventColumns
events_of id [] = []
events_of id (row ∷ rest) = elim row.body [
  | event e ↦
      (let later = events_of id rest in if bytes_eq e.session_id id then e ∷ later else later)
  | _ ↦ events_of id rest
]

abbrev pub greatest_generation : List EventColumns → ℕ
greatest_generation [] = 0
greatest_generation (e ∷ es) =
    let rest = greatest_generation es in if ltb rest e.context_gen then e.context_gen else rest

-- The generation behind a compaction: the one that its own event opened, or a new one.
abbrev pub after_compact : Option EventColumns → ℕ → ℕ
after_compact none current = current + 1
after_compact (some e) current =
    if bytes_eq e.event_kind (ascii "compact_pre") then e.context_gen else current + 1

unfoldable pub context_generation : List Row → QueueRecord → ℕ
context_generation existing r =
    let events = events_of r.session_id existing in
    let current = greatest_generation events in
    if bytes_eq r.event_kind (ascii "compact_pre")
    then current + 1
    else if bytes_eq r.event_kind (ascii "session_start") && bytes_eq r.trigger (ascii "compact")
    then after_compact (last? events) current
    else current

abbrev pub event_columns : QueueRecord → ℕ → EventColumns
event_columns r generation = record {
  event_kind = r.event_kind;
  trigger = r.trigger;
  session_id = r.session_id;
  context_gen = generation;
  harness = r.harness;
  parent_session_id = none;
  harness_version = none;
  model = none;
  effort = none;
  repo_id = r.repo_id;
  worktree_id = r.worktree_id;
  head_before = r.head_before;
  head_after = r.head_after;
}

-- `bytes.splitlines`: a newline, a carriage return, or both are one cut.
unfoldable pub byte_lines : Bytes → List Bytes
byte_lines [] = []
byte_lines (c ∷ cs) =
    let rest = byte_lines cs in
    if (c == newline) || (c == 13)
    then (if (c == 13) && starts_newline cs then rest else [] ∷ rest)
    else cons_head c rest

-- `appended += row is not None`
abbrev pub tally : Option Row → ℕ → ℕ
tally none n = n
tally (some row) n = n + 1

abbrev pub is_lifecycle : Error → Bool
is_lifecycle lifecycle_error = true
is_lifecycle _ = false

-- The queue file, and the ledger.
pub record Queued : Type 0 where
  pub queue : Option File
  pub disk : Disk

module _ (codec : QueueHost) where
  -- One `os.write` of the line at the end of the queue, which is created where it is missing: of all
  -- of the line, or of that many bytes, which is refused if they are fewer.
  abbrev pub taken : Option ℕ → Bytes → Bytes
  taken none line = line
  taken (some k) line = take k line

  abbrev pub write_result : Option ℕ → Bytes → Result (Unit {0})
  write_result none line = ok tt
  write_result (some k) line = refuse (ltb k (length line)) lifecycle_error

  abbrev pub queue_line : Option ℕ → Bytes → Option File → Result (Unit {0}) × Option File
  queue_line short line none =
      (write_result short line, some (record { loose = false; content = taken short line }))
  queue_line short line (some f) =
      if f.loose
      then (err lifecycle_error, some f)
      else (write_result short line, some (record f { content = f.content ++ taken short line }))

  unfoldable pub enqueue_event : Option ℕ → Json → Effect Queued (Unit {0})
  enqueue_event short value s = elim (validate_queue_record codec (some value)) [
    | err e ↦ (err e, s)
    | ok r ↦
        let (written, queue) = queue_line short (codec.dumps value ++ (newline ∷ [])) s.queue in
        (written, record s { queue = queue })
  ]

  module _ (host : Host) where
    -- One record into the ledger.
    unfoldable pub flush_record : QueueRecord → Effect Disk (Option Row)
    flush_record r d = elim (rows host d) [
      | err e ↦ (err e, d)
      | ok existing ↦ append_event host (event_columns r (context_generation existing r)) r.ts d
    ]

    -- The loop over the lines, with the number of rows so far; only a LifecycleError is passed over.
    unfoldable pub flush_lines : List Bytes → ℕ → Effect Disk ℕ
    flush_lines [] appended d = (ok appended, d)
    flush_lines (line ∷ rest) appended d = elim (parse_queue_line codec line) [
      | err e ↦
          (let later = flush_lines rest appended d in if is_lifecycle e then later else (err e, d))
      | ok r ↦
          let out = flush_record r d in
          continue out.0 (λ row. flush_lines rest (tally row appended)) out.1
    ]

    -- Once all complete lines are in the ledger, the queue keeps what is behind them.
    abbrev pub compact : File → ℕ → Result ℕ × Disk → Result ℕ × Queued
    compact f n (err e, d) = (err e, record { queue = some f; disk = d })
    compact f n (ok appended, d) =
        (ok appended, record { queue = some (record f { content = drop n f.content }); disk = d })

    unfoldable pub flush_file : File → Effect Disk ℕ → Disk → Result ℕ × Queued
    flush_file f flush d =
        let n = last_break f.content in
        if f.loose
        then (err lifecycle_error, record { queue = some f; disk = d })
        else if n == 0
        then (ok 0, record { queue = some f; disk = d })
        else compact f n (flush d)

    unfoldable pub flush_queue : Effect Queued ℕ
    flush_queue s = elim s.queue [
      | none ↦ (ok 0, s)
      | some f ↦
          flush_file f (flush_lines (byte_lines (take (last_break f.content) f.content)) 0) s.disk
    ]
