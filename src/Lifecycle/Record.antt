-- ===== src/Lifecycle/Record.antt =====
-- `_validate_queue_record` of src/mybench/hooks/lifecycle.py: the closed shape of a queue record. The
-- JSON codec and the digits of `\d` are parameters.
use mybench.Base.{
  Bool, Bytes, List, Option, Result, [], ascii, bytes_eq, err, false, if◌then◌else◌,
  lifecycle_error, none, not, ok, refuse, some, true, type_error, ℕ, ◌&&◌, ◌++◌, ◌==◌, ◌>>=◌, ◌>>◌,
  ◌||◌, ◌∷◌,
}
use mybench.Json.{Json, text, array, object, Members, end, member, get, text_of, has_text}
use mybench.Nonces.{is_session_id}
use mybench.Ledger.{Text}
use mybench.Sessions.{is_none, is_hex, is_head}
use mybench.Stamp.{Slot, digit, char, stamp_slots}

abbrev pub required_keys : List Text
required_keys =
    ascii "queue_version"
    ∷ ascii "ts"
    ∷ ascii "event_kind"
    ∷ ascii "trigger"
    ∷ ascii "session_id"
    ∷ ascii "harness"
    ∷ []

abbrev pub provenance_keys : List Text
provenance_keys =
    ascii "repo_id" ∷ ascii "worktree_id" ∷ ascii "head_before" ∷ ascii "head_after" ∷ []

abbrev pub event_kinds : List Text
event_kinds = ascii "session_start" ∷ ascii "session_end" ∷ ascii "compact_pre" ∷ []

abbrev pub triggers : List Text
triggers =
    ascii "startup"
    ∷ ascii "resume"
    ∷ ascii "clear"
    ∷ ascii "compact"
    ∷ ascii "manual"
    ∷ ascii "auto"
    ∷ ascii "unknown"
    ∷ []

abbrev pub mem_text : List Text → Text → Bool
mem_text [] t = false
mem_text (u ∷ us) t = bytes_eq t u || mem_text us t

abbrev pub has_key : Text → Members → Bool
has_key key m = not (is_none (get key m))

abbrev pub has_keys : List Text → Members → Bool
has_keys [] m = true
has_keys (k ∷ ks) m = has_key k m && has_keys ks m

abbrev pub has_some_key : List Text → Members → Bool
has_some_key [] m = false
has_some_key (k ∷ ks) m = has_key k m || has_some_key ks m

abbrev pub keys_among : List Text → Members → Bool
keys_among allowed end = true
keys_among allowed (member k v m) = mem_text allowed k && keys_among allowed m

-- `value in texts` for a set of texts: a list or a dictionary has no hash, which raises.
abbrev pub in_set : List Text → Option Json → Result Bool
in_set texts (some (text t)) = ok (mem_text texts t)
in_set texts (some (array _)) = err type_error
in_set texts (some (object _)) = err type_error
in_set texts _ = ok false

-- A validated record; its fields are strings.
pub record QueueRecord : Type 0 where
  pub ts : Text
  pub event_kind : Text
  pub trigger : Text
  pub session_id : Text
  pub harness : Text
  pub repo_id : Option Text
  pub worktree_id : Option Text
  pub head_before : Option Text
  pub head_after : Option Text

abbrev pub text_or_empty : Option Text → Text
text_or_empty none = []
text_or_empty (some t) = t

abbrev pub string_at : Text → Members → Text
string_at key m = text_or_empty (text_of (get key m))

abbrev pub text_passes : (Text → Bool) → Option Json → Bool
text_passes test v = elim (text_of v) [ none ↦ false | some t ↦ test t ]

abbrev pub queue_record : Members → QueueRecord
queue_record m = record {
  ts = string_at (ascii "ts") m;
  event_kind = string_at (ascii "event_kind") m;
  trigger = string_at (ascii "trigger") m;
  session_id = string_at (ascii "session_id") m;
  harness = string_at (ascii "harness") m;
  repo_id = text_of (get (ascii "repo_id") m);
  worktree_id = text_of (get (ascii "worktree_id") m);
  head_before = text_of (get (ascii "head_before") m);
  head_after = text_of (get (ascii "head_after") m);
}

-- The Git fields of a boundary event, whose head is `head` and not `other`.
unfoldable pub check_head : Members → Text → Text → Result (Unit {0})
check_head m head other = do
  refuse
      (not
        (has_keys (ascii "repo_id" ∷ ascii "worktree_id" ∷ head ∷ []) m && not (has_key other m)))
      lifecycle_error
  refuse
      (not (
        text_passes (is_hex 16) (get (ascii "repo_id") m)
        && text_passes (is_hex 16) (get (ascii "worktree_id") m)))
      lifecycle_error
  refuse (not (text_passes is_head (get head m))) lifecycle_error

unfoldable pub check_provenance : Members → Result (Unit {0})
check_provenance m =
    if not (has_some_key provenance_keys m)
    then ok tt
    else if has_text (ascii "event_kind") (ascii "session_start") m
    then check_head m (ascii "head_before") (ascii "head_after")
    else if has_text (ascii "event_kind") (ascii "session_end") m
    then check_head m (ascii "head_after") (ascii "head_before")
    else err lifecycle_error

-- What the queue calls: `json.loads` with `_pairs_without_duplicates`, `json.dumps` with sorted keys,
-- and the characters that `\d` matches.
pub record QueueHost : Type 0 where
  pub loads : Bytes → Option Json
  pub dumps : Json → Bytes
  pub is_decimal : ℕ → Bool

module _ (codec : QueueHost) where
  abbrev pub takes : Slot → ℕ → Bool
  takes digit c = codec.is_decimal c
  takes (char k) c = c == k

  abbrev pub follows : List Slot → Text → Option Text
  follows [] t = some t
  follows (s ∷ p) [] = none
  follows (s ∷ p) (c ∷ t) = let rest = follows p t in if takes s c then rest else none

  -- `\d*Z` behind which nothing follows
  abbrev pub digits_z : Text → Bool
  digits_z [] = false
  digits_z (c ∷ []) = c == b'Z'
  digits_z (c ∷ d ∷ t) = codec.is_decimal c && digits_z (d ∷ t)

  -- `(?:\.\d+)?Z`
  abbrev pub fraction_z : Text → Bool
  fraction_z [] = false
  fraction_z (c ∷ []) = c == b'Z'
  fraction_z (c ∷ d ∷ t) = (c == b'.') && (codec.is_decimal d && digits_z t)

  -- `_TS_RE`
  unfoldable pub is_timestamp : Text → Bool
  is_timestamp t = elim (follows stamp_slots t) [ none ↦ false | some rest ↦ fraction_z rest ]

  -- `_validate_queue_record`
  unfoldable pub validate_members : Members → Result QueueRecord
  validate_members m = do
    refuse (not (has_keys required_keys m && keys_among (required_keys ++ provenance_keys) m))
        lifecycle_error
    known_version ← in_set (ascii "1" ∷ ascii "2" ∷ []) (get (ascii "queue_version") m)
    refuse (not known_version) lifecycle_error
    refuse (has_text (ascii "queue_version") (ascii "1") m && not (keys_among required_keys m))
        lifecycle_error
    known_kind ← in_set event_kinds (get (ascii "event_kind") m)
    refuse (not known_kind) lifecycle_error
    known_trigger ← in_set triggers (get (ascii "trigger") m)
    refuse (not known_trigger) lifecycle_error
    refuse (not (has_text (ascii "harness") (ascii "claude-code") m)) lifecycle_error
    refuse (not (text_passes is_timestamp (get (ascii "ts") m))) lifecycle_error
    refuse (not (text_passes is_session_id (get (ascii "session_id") m))) lifecycle_error
    check_provenance m
    ok (queue_record m)

  abbrev pub validate_queue_record : Option Json → Result QueueRecord
  validate_queue_record (some (object m)) = validate_members m
  validate_queue_record _ = err lifecycle_error

  unfoldable pub parse_queue_line : Bytes → Result QueueRecord
  parse_queue_line line = validate_queue_record (codec.loads line)
