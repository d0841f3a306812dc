-- ===== src/Examples/Sorted.antt =====
-- A codec in place of JSON that writes the members of a flat dictionary of texts without quotes in the
-- order of their keys, and what `enqueue_event` does with it.
use mybench.Base.{
  All, Bool, Bool-cases, Bytes, List, Option, Result, [], ap, ascii, bytes_eq, false, if◌then◌else◌,
  inl, inr, none, ok, refl, some, true, ℕ, ◌++◌, ◌==◌, ◌||◌, ◌∙◌, ◌∷◌, ◌≡◌,
}
use mybench.Json.{Json, text, object, Members, end, member, get}
use mybench.Json.Lookup.{one-key}
use mybench.Lines.{newline}
use mybench.Hex.{hex}
use mybench.Nonces.{is_session_id}
use mybench.Ledger.{Text, Row, row_hash}
use mybench.Ledger.Read.{rows, file_rows}
use mybench.Ledger.Write.{
  text_lt, append_event, ensure_genesis, append_behind, append_row, append_bytes, line_of, newest,
  is_replay,
}
use mybench.Ledger.Write.Step.{Holds}
use mybench.Ledger.Recover.{last_break}
use mybench.Timing.Order.{text_lt-ne}
use mybench.Sessions.{is_hex}
use mybench.Stamp.{is_digit}
use mybench.Lifecycle.{
  Queued, context_generation, events_of, byte_lines, enqueue_event, flush_record, flush_lines,
  flush_file, flush_queue,
}
use mybench.Lifecycle.Record.{
  QueueHost, check_provenance, check_head, is_timestamp, validate_members, validate_queue_record,
  parse_queue_line,
}
use mybench.Lifecycle.Reordered.{SameLookups}
use mybench.Lifecycle.Flush.{HasEvent}
use mybench.Lifecycle.Enqueue.{flush_queue-enqueue_event}
use mybench.Examples.Codec.{dec_items}
use mybench.Examples.Host.{host, host-IsHost}
use mybench.Examples.Ledgers.{no_ledger, no_ledger-Holds}
use mybench.Examples.Queues.{start_members, start_record, empty_queue}

abbrev insert_member : Text → Json → Members → Members
insert_member k v end = member k v end
insert_member k v (member l w rest) =
    let later = insert_member k v rest in
    if text_lt l k then member l w later else member k v (member l w rest)

abbrev sorted : Members → Members
sorted end = end
sorted (member k v m) = insert_member k v (sorted m)

abbrev quoted : Text → Bytes
quoted t = b'"' ∷ (t ++ (b'"' ∷ []))

abbrev entry : Text → Json → Bytes
entry k (text v) = quoted k ++ (b':' ∷ quoted v)
entry k _ = quoted k

abbrev entries : Members → Bytes
entries end = b'}' ∷ []
entries (member k v end) = entry k v ++ (b'}' ∷ [])
entries (member k v (member l w m)) = entry k v ++ (b',' ∷ entries (member l w m))

-- The texts between quotes, with the one that is being read.
abbrev unquoted : Option Text → Bytes → List Text
unquoted open_text [] = []
unquoted none (c ∷ cs) =
    let inside = unquoted (some []) cs in
    let outside = unquoted none cs in if c == b'"' then inside else outside
unquoted (some t) (c ∷ cs) =
    let closed = unquoted none cs in
    let longer = unquoted (some (t ++ (c ∷ []))) cs in if c == b'"' then t ∷ closed else longer

abbrev members_of : List Text → Members
members_of [] = end
members_of (k ∷ []) = end
members_of (k ∷ v ∷ ts) = member k (text v) (members_of ts)

abbrev written_by : Json → Bytes
written_by (object m) = b'{' ∷ entries (sorted m)
written_by _ = []

abbrev codec : QueueHost
codec = record {
  loads = λ line. some (object (members_of (unquoted none line)));
  dumps = written_by;
  is_decimal = is_digit;
}

get-insert_member :
    (key k : Text) (v : Json) (m : Members) → get key (insert_member k v m) ≡ get key (member k v m)
unfolding get
get-insert_member key k v end = refl
get-insert_member key k v (member l w rest) = elim (Bool-cases (text_lt l k)) [
  | inr after ↦ rw after refl
  | inl before ↦ rw before (elim (Bool-cases (bytes_eq l key)) [
    | inl same ↦ rw (same, one-key l k key (text_lt-ne l k before) same) refl
    | inr differ ↦ rw differ (get-insert_member key k v rest)
  ])
]

sorted-SameLookups : (m : Members) → SameLookups m (sorted m)
unfolding get
sorted-SameLookups end key = refl
sorted-SameLookups (member k v m) key =
    get-insert_member key k v (sorted m)
    ∙ ap (λ o. if bytes_eq k key then some v else o) (sorted-SameLookups m key)

-- A record in the order in which the hook builds it, and its line.
abbrev built : Members
built = start_members (ascii "s1")

built-line :
    codec.dumps (object built)
    ≡ ascii
        "{\"event_kind\":\"session_start\",\"harness\":\"claude-code\",\"queue_version\":\"2\",\"session_id\":\"s1\",\"trigger\":\"startup\",\"ts\":\"2026-07-13T12:00:00Z\"}"
unfolding text_lt
built-line = refl

built-valid : validate_queue_record codec (some (object built)) ≡ ok (start_record (ascii "s1"))
unfolding validate_members check_provenance check_head get is_timestamp is_session_id is_hex
    bytes_eq
built-valid = refl

built-read : codec.loads (codec.dumps (object built)) ≡ some (object (sorted built))
unfolding text_lt
built-read = refl

-- No byte ends a line.
abbrev is_one_line : Bytes → Bool
is_one_line [] = true
is_one_line (c ∷ cs) =
    let rest = is_one_line cs in if (c == newline) || (c == 13) then false else rest

is_one_line-All :
    (cs : Bytes) → is_one_line cs ≡ true → All (λ c. ((c == newline) || (c == 13)) ≡ false) cs
is_one_line-All [] h = tt
is_one_line-All (c ∷ cs) h = elim (Bool-cases ((c == newline) || (c == 13))) [
  | inl breaks ↦ cc (rw breaks at h)
  | inr inner ↦ (inner, is_one_line-All cs (rw inner at h))
]

built-is_one_line : is_one_line (codec.dumps (object built)) ≡ true
unfolding text_lt
built-is_one_line = refl

built-entry : All (λ c. ((c == newline) || (c == 13)) ≡ false) (codec.dumps (object built))
built-entry = is_one_line-All (codec.dumps (object built)) built-is_one_line

abbrev enqueued : Result (Unit {0}) × Queued
enqueued =
    enqueue_event codec none (object built) (record { queue = some empty_queue; disk = no_ledger })

abbrev drained : Result ℕ × Queued
drained = flush_queue codec host enqueued.1

enqueued-drained : drained ≡ (ok 1, drained.1)
unfolding enqueue_event flush_queue flush_file byte_lines last_break flush_lines parse_queue_line
    flush_record context_generation events_of validate_members check_provenance check_head get
    is_timestamp is_session_id is_hex bytes_eq append_event rows file_rows ensure_genesis
    append_behind append_row append_bytes line_of newest is_replay row_hash hex dec_items text_lt
enqueued-drained = refl

flush_queue-enqueue_event_example :
    (enqueued.0 ≡ ok tt)
    × (drained.1.queue ≡ some empty_queue)
    × (added : List Row) × Holds host drained.1.disk added
    × HasEvent added (start_record (ascii "s1"))
flush_queue-enqueue_event_example =
    flush_queue-enqueue_event codec host host-IsHost built (sorted built)
      (start_record (ascii "s1")) empty_queue no_ledger [] 1 drained.1 built-valid built-read
      (sorted-SameLookups built) built-entry refl tt no_ledger-Holds enqueued-drained
