-- ===== src/Timing.antt =====
-- src/mybench/normalizer/session_timing.py: the times of one session, without its content. The JSON
-- reader `_json_object` is a parameter.
pub mod Order
pub mod Checked
pub mod Total
pub mod Consent
use mybench.Base.{
  Bool, Bytes, List, Option, Result, [], ascii, bytes_eq, false, if◌then◌else◌, leb, length,
  no_evidence, none, normalization_error, not, ok, refuse, some, true, ℕ, ◌&&◌, ◌++◌, ◌==◌, ◌>>=◌,
  ◌>>◌, ◌||◌, ◌∷◌,
}
use mybench.Json.{Json, Members, get, text_of, object_of, has_text}
use mybench.Ledger.{Text}
use mybench.Ledger.Write.{text_lt, sorted_set}
use mybench.Sessions.{
  Attribution, subject, VerifiedRecord, VerifiedSession, is_none, is_empty, text_is, reversed,
  stamp_in, is_seen, sort_sessions, check_input_sessions,
}
use mybench.Stamp.{canonical_timestamp}

-- Of a boundary.
pub data Status : Type 0 where
  observed scan_inferred unknown : Status

-- Of the observations.
pub data Coverage : Type 0 where
  complete partial uncovered : Coverage

pub record SessionTiming : Type 0 where
  pub source : Text
  pub open_status : Status
  pub close_status : Status
  pub observed_at_status : Coverage
  pub opened_at : Option Text
  pub closed_at : Option Text
  pub event_observed_at : List Text

abbrev pub is_unknown : Status → Bool
is_unknown unknown = true
is_unknown _ = false

abbrev pub is_uncovered : Coverage → Bool
is_uncovered uncovered = true
is_uncovered _ = false

-- `_SOURCES`
abbrev pub is_codex : Text → Bool
is_codex source = bytes_eq source (ascii "codex")

abbrev pub is_supported : Text → Bool
is_supported source = is_codex source || bytes_eq source (ascii "claude-code")

-- `_canonical_timestamp(value) == value`
abbrev pub is_canonical : Text → Bool
is_canonical t = text_is (canonical_timestamp t) t

abbrev pub optional_canonical : Option Text → Bool
optional_canonical none = true
optional_canonical (some t) = is_canonical t

abbrev pub all_canonical : List Text → Bool
all_canonical [] = true
all_canonical (t ∷ ts) = is_canonical t && all_canonical ts

-- `sorted(ts)`
abbrev pub insert_sorted : Text → List Text → List Text
insert_sorted t [] = t ∷ []
insert_sorted t (u ∷ us) =
    let rest = insert_sorted t us in if text_lt u t then u ∷ rest else t ∷ u ∷ us

unfoldable pub sort_texts : List Text → List Text
sort_texts [] = []
sort_texts (t ∷ ts) = insert_sorted t (sort_texts ts)

abbrev pub texts_eq : List Text → List Text → Bool
texts_eq [] [] = true
texts_eq [] (t ∷ ts) = false
texts_eq (t ∷ ts) [] = false
texts_eq (t ∷ ts) (u ∷ us) = bytes_eq t u && texts_eq ts us

abbrev pub bool_eq : Bool → Bool → Bool
bool_eq true b = b
bool_eq false b = not b

-- `SessionTiming.__post_init__`; the closed sets of the statuses are the types here.
unfoldable pub check_timing : SessionTiming → Result SessionTiming
check_timing t = do
  refuse (not (is_supported t.source)) normalization_error
  refuse (not (bool_eq (is_none t.opened_at) (is_unknown t.open_status))) normalization_error
  refuse (not (bool_eq (is_none t.closed_at) (is_unknown t.close_status))) normalization_error
  refuse
      (not (
        optional_canonical t.opened_at
        && (optional_canonical t.closed_at && all_canonical t.event_observed_at)))
      normalization_error
  refuse (not (texts_eq (sort_texts t.event_observed_at) t.event_observed_at)) normalization_error
  refuse (not (length (sorted_set t.event_observed_at) == length t.event_observed_at))
      normalization_error
  refuse (reversed t.opened_at t.closed_at) normalization_error
  refuse (is_uncovered t.observed_at_status && not (is_empty t.event_observed_at))
      normalization_error
  ok t

-- One entry of `decoded`.
pub record Decoded : Type 0 where
  pub index : ℕ
  pub value : Option Members
  pub observed_at : Option Text

abbrev pub timestamp_of : Option Members → Option Text
timestamp_of none = none
timestamp_of (some m) = stamp_in (text_of (get (ascii "timestamp") m))

abbrev pub is_subject : Attribution → Bool
is_subject subject = true
is_subject _ = false

abbrev pub matches : (Members → Bool) → Option Members → Bool
matches predicate none = false
matches predicate (some m) = predicate m

-- `_marker`: the first match, or the last one.
unfoldable pub first_marker : (Members → Bool) → List Decoded → Option Decoded
first_marker predicate [] = none
first_marker predicate (r ∷ rs) =
    let rest = first_marker predicate rs in if matches predicate r.value then some r else rest

abbrev pub or_else {ℓ} : {A : Type ℓ} → Option A → Option A → Option A
or_else (some a) o = some a
or_else none o = o

unfoldable pub last_marker : (Members → Bool) → List Decoded → Option Decoded
last_marker predicate [] = none
last_marker predicate (r ∷ rs) =
    or_else (last_marker predicate rs) (if matches predicate r.value then some r else none)

-- `_is_claude_marker`
abbrev pub is_claude_marker : Text → Members → Bool
is_claude_marker subtype m =
    has_text (ascii "type") (ascii "system") m && has_text (ascii "subtype") subtype m

-- `_is_codex_session_meta`
abbrev pub is_codex_session_meta : Members → Bool
is_codex_session_meta m =
    has_text (ascii "type") (ascii "session_meta") m
    && not (is_none (object_of (get (ascii "payload") m)))

abbrev pub payload_is : Option Members → Text → Bool
payload_is none t = false
payload_is (some m) t = has_text (ascii "type") t m

-- `_is_codex_task_complete`
abbrev pub is_codex_task_complete : Members → Bool
is_codex_task_complete m =
    has_text (ascii "type") (ascii "event_msg") m
    && payload_is (object_of (get (ascii "payload") m)) (ascii "task_complete")

-- One end of the session: its time, what it rests on, and the record that bounds it.
pub record Boundary : Type 0 where
  pub time : Option Text
  pub status : Status
  pub index : Option ℕ

abbrev pub marked_boundary : Status → Option Decoded → Boundary
marked_boundary inferred none = record { time = none; status = unknown; index = none }
marked_boundary inferred (some r) = elim r.observed_at [
  | none ↦ record { time = none; status = unknown; index = some r.index }
  | some t ↦ record { time = some t; status = inferred; index = some r.index }
]

abbrev pub end_boundary : Status → Option Text → Option Decoded → Boundary
end_boundary inferred (some t) marker = record { time = some t; status = observed; index = none }
end_boundary inferred none marker = marked_boundary inferred marker

-- The status of an end that a record shows, and the records that show the ends.
abbrev pub inferred_status : Text → Status
inferred_status source = if is_codex source then scan_inferred else observed

abbrev pub opens : Text → Members → Bool
opens source m =
    if is_codex source then is_codex_session_meta m else is_claude_marker (ascii "session_start") m

abbrev pub closes : Text → Members → Bool
closes source m =
    if is_codex source then is_codex_task_complete m else is_claude_marker (ascii "session_end") m

unfoldable pub open_of : VerifiedSession → List Decoded → Boundary
open_of s decoded =
    end_boundary (inferred_status s.source) s.started_at (first_marker (opens s.source) decoded)

unfoldable pub close_of : VerifiedSession → List Decoded → Boundary
close_of s decoded =
    end_boundary (inferred_status s.source) s.ended_at (last_marker (closes s.source) decoded)

-- A close before the open is no close; its record still bounds the session.
abbrev pub forward : Boundary → Boundary → Boundary
forward o c =
    if reversed o.time c.time then record { time = none; status = unknown; index = c.index } else c

abbrev pub from_index : Option ℕ → ℕ → Bool
from_index none i = true
from_index (some k) i = leb k i

abbrev pub to_index : Option ℕ → ℕ → Bool
to_index none i = true
to_index (some k) i = leb i k

unfoldable pub eligible : Option ℕ → Option ℕ → List Decoded → List Decoded
eligible first last [] = []
eligible first last (r ∷ rs) =
    let rest = eligible first last rs in
    if from_index first r.index && to_index last r.index then r ∷ rest else rest

-- The observation of a record, if it is a dictionary with a time between the boundaries.
abbrev pub observation_in : Option Text → Option Text → Option Members → Option Text → Option Text
observation_in opened closed none time = none
observation_in opened closed (some m) none = none
observation_in opened closed (some m) (some t) =
    if reversed opened (some t) || reversed (some t) closed then none else some t

unfoldable pub observations : Option Text → Option Text → List Decoded → List Text
observations opened closed [] = []
observations opened closed (r ∷ rs) = elim (observation_in opened closed r.value r.observed_at) [
  | none ↦ observations opened closed rs
  | some t ↦ t ∷ observations opened closed rs
]

abbrev pub all_observed : Option Text → Option Text → List Decoded → Bool
all_observed opened closed [] = true
all_observed opened closed (r ∷ rs) =
    not (is_none (observation_in opened closed r.value r.observed_at))
    && all_observed opened closed rs

abbrev pub coverage_of : Option Text → Option Text → List Decoded → Coverage
coverage_of opened closed [] = uncovered
coverage_of opened closed (r ∷ rs) =
    if all_observed opened closed (r ∷ rs) then complete else partial

-- The timing between two boundaries.
unfoldable pub timing_between : Text → List Decoded → Boundary → Boundary → SessionTiming
timing_between source decoded o c =
    let rs = eligible o.index c.index decoded in
    record {
      source = source;
      open_status = o.status;
      close_status = c.status;
      observed_at_status = coverage_of o.time c.time rs;
      opened_at = o.time;
      closed_at = c.time;
      event_observed_at = sorted_set (observations o.time c.time rs);
    }

module _ (json_object : Bytes → Option Members) where
  -- The subject's records, decoded.
  unfoldable pub decode_records : List VerifiedRecord → List Decoded
  decode_records [] = []
  decode_records (r ∷ rs) =
      let rest = decode_records rs in
      if is_subject r.attribution
      then record {
        index = r.index;
        value = json_object r.raw_bytes;
        observed_at = timestamp_of (json_object r.raw_bytes);
      }
        ∷ rest
      else rest

  -- `_normalize_one`
  unfoldable pub normalize_one : VerifiedSession → Result SessionTiming
  normalize_one s =
      let decoded = decode_records s.records in
      let o = open_of s decoded in
      check_timing (timing_between s.source decoded o (forward o (close_of s decoded)))

  -- The loop of `normalize_session_timings`, with the sessions admitted so far.
  unfoldable pub admit : List VerifiedSession → List VerifiedSession → Result (List VerifiedSession)
  admit admitted [] = ok admitted
  admit admitted (s ∷ ss) =
      let passed = admit admitted ss in
      if not s.subject_owned then passed else (do
        refuse (not (is_supported s.source)) normalization_error
        checked ← check_input_sessions s.source (s ∷ [])
        elim checked [
          | [] ↦ admit admitted ss
          | t ∷ ts ↦
              refuse (is_seen t.source t.session_id admitted) normalization_error
              >> admit (admitted ++ (t ∷ [])) ss
        ])

  unfoldable pub normalize_all : List VerifiedSession → Result (List SessionTiming)
  normalize_all [] = ok []
  normalize_all (s ∷ ss) = do timing ← normalize_one s; rest ← normalize_all ss; ok (timing ∷ rest)

  unfoldable pub normalize_session_timings : List VerifiedSession → Result (List SessionTiming)
  normalize_session_timings sessions = do
    refuse (is_empty sessions) no_evidence
    admitted ← admit [] sessions
    refuse (is_empty admitted) no_evidence
    normalize_all (sort_sessions admitted)
