-- ===== src/Examples/Timings.antt =====
-- The timing of two sessions, one of them another's, and the metadata of one record. A record's
-- bytes stand for its JSON.
use mybench.Base.{
  All, Bool, Bytes, List, Option, [], ascii, bytes_eq, false, length, none, ok, refl, replicate,
  some, true, ℕ, ◌∷◌, ◌≡◌,
}
use mybench.Json.{get, Members, text, object, end, member}
use mybench.Ledger.{Text}
use mybench.Ledger.Write.{text_lt, insert_text, sorted_set}
use mybench.Nonces.{is_session_id}
use mybench.Stamp.{is_leap, days_in_month, is_civil, canonical_timestamp}
use mybench.Stamp.Canonical.{canonical_timestamp_twice}
use mybench.Sessions.{
  Attribution, subject, non_subject, VerifiedRecord, VerifiedSession, is_hex, admitted_records,
  check_fields, check_session, sort_sessions, check_all, check_input_sessions,
}
use mybench.Timing.{
  SessionTiming, complete, observed, unknown, normalize_one, admit, normalize_session_timings,
  sort_texts, check_timing, first_marker, last_marker, open_of, close_of, eligible, observations,
  timing_between, decode_records, normalize_all,
}
use mybench.Timing.Total.{IsTiming}
use mybench.Timing.Consent.{
  consented, normalize_session_timings-consented, normalize_session_timings-IsTiming,
}

abbrev noon_text : Text
noon_text = ascii "2026-07-13T12:00:00Z"

abbrev noon_stamp : Text
noon_stamp = ascii "2026-07-13T12:00:00.000000Z"

noon-canonical : canonical_timestamp noon_text ≡ some noon_stamp
unfolding canonical_timestamp is_civil days_in_month is_leap
noon-canonical = refl

canonical_timestamp_twice_example : canonical_timestamp noon_stamp ≡ some noon_stamp
canonical_timestamp_twice_example = canonical_timestamp_twice noon_text noon_stamp noon-canonical

-- 29 February of a year without one
february-refused : canonical_timestamp (ascii "2025-02-29T12:00:00Z") ≡ none
unfolding canonical_timestamp is_civil days_in_month is_leap
february-refused = refl

abbrev stamped : Bytes → Option Members
stamped raw = some (member (ascii "timestamp") (text raw) end)

abbrev record_of : ℕ → Attribution → VerifiedRecord
record_of i who = record {
  index = i;
  raw_bytes = noon_text;
  record_commitment = replicate 64 b'a';
  attribution = who;
  context_generation_id = none;
}

abbrev session_with : Text → Bool → List VerifiedRecord → VerifiedSession
session_with id owned records = record {
  source = ascii "codex";
  session_id = id;
  session_root = [];
  records = records;
  subject_owned = owned;
  parent_session_id = none;
  repo_id = none;
  head_before = none;
  head_after = none;
  start_row_index = none;
  end_row_index = none;
  binding_observations = [];
  started_at = some noon_text;
  ended_at = none;
}

abbrev own_session : VerifiedSession
own_session = session_with (ascii "s1") true (record_of 0 subject ∷ record_of 1 non_subject ∷ [])

abbrev two_sessions : List VerifiedSession
two_sessions = own_session ∷ session_with (ascii "s2") false (record_of 0 subject ∷ []) ∷ []

-- The session as it is admitted: without the record of another, with the canonical time.
abbrev admitted_session : VerifiedSession
admitted_session = record own_session {
  records = record_of 0 subject ∷ [];
  started_at = some noon_stamp;
}

two_sessions-admitted : admit stamped [] two_sessions ≡ ok (admitted_session ∷ [])
unfolding bytes_eq admit check_input_sessions check_all check_session check_fields admitted_records
    is_hex is_session_id canonical_timestamp is_civil days_in_month is_leap sort_sessions
two_sessions-admitted = refl

normalize_session_timings-IsTiming_example :
    (ts : List SessionTiming) × (normalize_session_timings stamped two_sessions ≡ ok ts)
    × (length ts ≡ 1)
    × All IsTiming ts
normalize_session_timings-IsTiming_example =
    normalize_session_timings-IsTiming stamped two_sessions admitted_session []
      two_sessions-admitted

normalize_session_timings-consented_example :
    normalize_session_timings stamped (consented two_sessions)
    ≡ normalize_session_timings stamped two_sessions
normalize_session_timings-consented_example =
    normalize_session_timings-consented stamped two_sessions

abbrev noon_timing : SessionTiming
noon_timing = record {
  source = ascii "codex";
  open_status = observed;
  close_status = unknown;
  observed_at_status = complete;
  opened_at = some noon_stamp;
  closed_at = none;
  event_observed_at = noon_stamp ∷ [];
}

two_sessions-timings : normalize_session_timings stamped two_sessions ≡ ok (noon_timing ∷ [])
unfolding bytes_eq get normalize_session_timings normalize_all normalize_one decode_records open_of
    close_of first_marker last_marker eligible observations timing_between check_timing sort_texts
    sorted_set insert_text text_lt admit check_input_sessions check_all check_session check_fields
    admitted_records is_hex is_session_id canonical_timestamp is_civil days_in_month is_leap
    sort_sessions
two_sessions-timings = refl

abbrev assistant : Bytes → Option Members
assistant raw = some (
    member (ascii "type") (text (ascii "assistant")) (
      member (ascii "message")
        (object (
          member (ascii "role") (text (ascii "assistant")) (member (ascii "model") (text raw) end)))
        end))
