-- ===== src/Metadata.antt =====
-- src/mybench/daemon/session_metadata.py: the whitelisted columns that a session's records show.
-- The JSON reader `_json_object` is a parameter.
pub mod Closed
use mybench.Base.{
  Bool, Bytes, List, Option, [], ascii, bytes_eq, false, if◌then◌else◌, leb, length, none, not,
  some, suc, true, zero, ℕ, ◌&&◌, ◌+◌, ◌==◌, ◌||◌, ◌∷◌,
}
use mybench.Json.{
  Json, natural, text, null, boolean, negative, real, array, object, nil, end, Members, get,
  text_of, object_of, has_text,
}
use mybench.Ledger.{Text}
use mybench.Ledger.Write.{insert_text}
use mybench.Capture.{Metadata, no_metadata}

abbrev pub is_alnum : ℕ → Bool
is_alnum c =
    (leb b'0' c && leb c b'9') || ((leb b'A' c && leb c b'Z') || (leb b'a' c && leb c b'z'))

-- `[A-Za-z0-9._:/+-]`, and the same without `:` and `/`
abbrev pub is_model_char : ℕ → Bool
is_model_char c =
    is_alnum c
    || ((c == b'.')
        || ((c == b'_') || ((c == b':') || ((c == b'/') || ((c == b'+') || (c == b'-'))))))

abbrev pub is_version_char : ℕ → Bool
is_version_char c = is_alnum c || ((c == b'.') || ((c == b'_') || ((c == b'+') || (c == b'-'))))

abbrev pub all_of : (ℕ → Bool) → Text → Bool
all_of test [] = true
all_of test (c ∷ cs) = test c && all_of test cs

-- `_MODEL` and `_VERSION`
abbrev pub is_model : Text → Bool
is_model [] = false
is_model (c ∷ cs) = is_alnum c && (leb (length cs) 127 && all_of is_model_char cs)

abbrev pub is_version : Text → Bool
is_version [] = false
is_version (c ∷ cs) = is_alnum c && (leb (length cs) 63 && all_of is_version_char cs)

abbrev pub is_one_of : List Text → Text → Bool
is_one_of [] t = false
is_one_of (u ∷ us) t = bytes_eq t u || is_one_of us t

abbrev pub providers : List Text
providers =
    ascii "anthropic"
    ∷ ascii "aws-bedrock"
    ∷ ascii "google-vertex"
    ∷ ascii "openai"
    ∷ ascii "azure-openai"
    ∷ ascii "synthetic"
    ∷ []

abbrev pub efforts : List Text
efforts =
    ascii "none"
    ∷ ascii "minimal"
    ∷ ascii "low"
    ∷ ascii "medium"
    ∷ ascii "high"
    ∷ ascii "max"
    ∷ ascii "xhigh"
    ∷ []

-- `_identifier` and `_label`: the text, if there is one and it passes the test.
abbrev pub kept_text : (Text → Bool) → Option Text → Option Text
kept_text test none = none
kept_text test (some t) = if test t then some t else none

unfoldable pub identifier : (Text → Bool) → Option Json → Option Text
identifier test value = kept_text test (text_of value)

unfoldable pub label : List Text → Option Json → Option Text
label allowed value = kept_text (is_one_of allowed) (text_of value)

-- The newer value, if there is one.
abbrev pub newer {ℓ} : {A : Type ℓ} → Option A → Option A → Option A
newer none old = old
newer (some a) old = some a

abbrev pub add_model : Option Text → List Text → List Text
add_model none models = models
add_model (some m) models = insert_text m models

-- The four token fields.
pub record Tokens : Type 0 where
  pub input_tokens : Option ℕ
  pub output_tokens : Option ℕ
  pub cache_creation_input_tokens : Option ℕ
  pub cache_read_input_tokens : Option ℕ

abbrev pub no_tokens : Tokens
no_tokens = record {
  input_tokens = none;
  output_tokens = none;
  cache_creation_input_tokens = none;
  cache_read_input_tokens = none;
}

-- One mapped field of a usage object: absent, a count, or malformed, which rejects the object.
abbrev pub count_of : Option Json → Option (Option ℕ)
count_of none = some none
count_of (some (natural n)) = some (some n)
count_of (some _) = none

abbrev pub has_count : Tokens → Bool
has_count t = elim t.input_tokens [
  | some n ↦ true
  | none ↦ elim t.output_tokens [
    | some n ↦ true
    | none ↦ elim t.cache_creation_input_tokens [
      | some n ↦ true
      | none ↦ elim t.cache_read_input_tokens [ some n ↦ true | none ↦ false ]
    ]
  ]
]

-- `result or None`
abbrev pub some_count : Tokens → Option Tokens
some_count t = if has_count t then some t else none

abbrev pub counts :
    Option (Option ℕ) → Option (Option ℕ) → Option (Option ℕ) → Option (Option ℕ) → Option Tokens
counts (some i) (some o) (some c) (some r) = some_count (record {
  input_tokens = i;
  output_tokens = o;
  cache_creation_input_tokens = c;
  cache_read_input_tokens = r;
})
counts _ _ _ _ = none

-- `_usage` with the mapping of Claude records, and with that of Codex, which has three fields.
unfoldable pub claude_usage : Option Members → Option Tokens
claude_usage none = none
claude_usage (some m) =
    counts (count_of (get (ascii "input_tokens") m)) (count_of (get (ascii "output_tokens") m))
      (count_of (get (ascii "cache_creation_input_tokens") m))
      (count_of (get (ascii "cache_read_input_tokens") m))

unfoldable pub codex_usage : Option Members → Option Tokens
codex_usage none = none
codex_usage (some m) =
    counts (count_of (get (ascii "input_tokens") m)) (count_of (get (ascii "output_tokens") m))
      (some none) (count_of (get (ascii "cached_input_tokens") m))

-- `totals.get(name, 0) + value` where there is a value.
abbrev pub add_count : Option ℕ → Option ℕ → Option ℕ
add_count total none = total
add_count none (some n) = some n
add_count (some k) (some n) = some (k + n)

abbrev pub add_tokens : Tokens → Option Tokens → Tokens
add_tokens totals none = totals
add_tokens totals (some t) = record {
  input_tokens = add_count totals.input_tokens t.input_tokens;
  output_tokens = add_count totals.output_tokens t.output_tokens;
  cache_creation_input_tokens =
      add_count totals.cache_creation_input_tokens t.cache_creation_input_tokens;
  cache_read_input_tokens = add_count totals.cache_read_input_tokens t.cache_read_input_tokens;
}

-- The local variables of the two loops.
pub record Seen : Type 0 where
  pub models : List Text
  pub provider : Option Text
  pub effort : Option Text
  pub harness_version : Option Text
  pub tokens : Tokens

abbrev pub nothing_seen : Seen
nothing_seen = record {
  models = [];
  provider = none;
  effort = none;
  harness_version = none;
  tokens = no_tokens;
}

abbrev pub see_version : Option Json → Seen → Seen
see_version value s = record s {
  harness_version = newer (identifier is_version value) s.harness_version;
}

-- An assistant's message.
unfoldable pub claude_message : Members → Seen → Seen
claude_message message s =
    if has_text (ascii "role") (ascii "assistant") message
    then record s {
      models = add_model (identifier is_model (get (ascii "model") message)) s.models;
      provider = newer (label providers (get (ascii "provider") message)) s.provider;
      tokens = add_tokens s.tokens (claude_usage (object_of (get (ascii "usage") message)));
    }
    else s

abbrev pub in_message : Option Members → Seen → Seen
in_message none s = s
in_message (some m) s = claude_message m s

-- One round of `_claude`.
unfoldable pub claude_record : Members → Seen → Seen
claude_record value s =
    let s' = see_version (get (ascii "version") value) s in
    if has_text (ascii "type") (ascii "assistant") value
    then in_message (object_of (get (ascii "message") value)) s'
    else s'

-- Python's `a or b` on values of a dictionary: `b` where `a` is absent or empty.
abbrev pub is_truthy : Option Json → Bool
is_truthy none = false
is_truthy (some null) = false
is_truthy (some (boolean b)) = b
is_truthy (some (natural zero)) = false
is_truthy (some (natural (suc n))) = true
is_truthy (some (negative n)) = true
is_truthy (some (real is_zero t)) = not is_zero
is_truthy (some (text [])) = false
is_truthy (some (text (c ∷ cs))) = true
is_truthy (some (array nil)) = false
is_truthy (some (array _)) = true
is_truthy (some (object end)) = false
is_truthy (some (object _)) = true

abbrev pub or_value : Option Json → Option Json → Option Json
or_value a b = if is_truthy a then a else b

-- `_codex_settings`: the model, the provider and the effort.
pub record Settings : Type 0 where
  pub model : Option Json
  pub provider : Option Json
  pub effort : Option Json

abbrev pub thread_settings : Option Members → Settings
thread_settings none = record { model = none; provider = none; effort = none }
thread_settings (some m) = record {
  model = get (ascii "model") m;
  provider = get (ascii "model_provider_id") m;
  effort = get (ascii "reasoning_effort") m;
}

unfoldable pub codex_settings : Members → Settings
codex_settings payload =
    if has_text (ascii "type") (ascii "thread_settings_applied") payload
    then thread_settings (object_of (get (ascii "thread_settings") payload))
    else record {
      model = get (ascii "model") payload;
      provider =
          or_value (get (ascii "model_provider") payload) (get (ascii "model_provider_id") payload);
      effort = or_value (get (ascii "effort") payload) (get (ascii "reasoning_effort") payload);
    }

abbrev pub see_settings : Settings → Seen → Seen
see_settings v s = record s {
  models = add_model (identifier is_model v.model) s.models;
  provider = newer (label providers v.provider) s.provider;
  effort = newer (label efforts v.effort) s.effort;
}

-- A `session_meta` record: `_first_valid` of two providers.
unfoldable pub codex_meta : Members → Seen → Seen
codex_meta payload s =
    let s' = see_version (get (ascii "cli_version") payload) s in
    record s' {
      provider =
          newer
            (newer (label providers (get (ascii "model_provider") payload))
              (label providers (get (ascii "model_provider_id") payload)))
            s.provider;
    }

-- The records that carry settings.
abbrev pub has_settings : Members → Members → Bool
has_settings value payload =
    has_text (ascii "type") (ascii "turn_context") value
    || (has_text (ascii "type") (ascii "event_msg") value
        && (has_text (ascii "type") (ascii "session_configured") payload
            || has_text (ascii "type") (ascii "thread_settings_applied") payload))

-- A snapshot of all tokens so far, which replaces the last one.
abbrev pub latest_tokens : Option Tokens → Seen → Seen
latest_tokens none s = s
latest_tokens (some t) s = record s { tokens = t }

abbrev pub see_usage : Option Members → Seen → Seen
see_usage none s = s
see_usage (some info) s =
    latest_tokens (codex_usage (object_of (get (ascii "total_token_usage") info))) s

unfoldable pub codex_event : Members → Members → Seen → Seen
codex_event value payload s =
    let s' = if has_settings value payload then see_settings (codex_settings payload) s else s in
    if has_text (ascii "type") (ascii "event_msg") value
      && has_text (ascii "type") (ascii "token_count") payload
    then see_usage (object_of (get (ascii "info") payload)) s'
    else s'

-- One round of `_codex`.
abbrev pub codex_payload : Members → Option Members → Seen → Seen
codex_payload value none s = s
codex_payload value (some payload) s =
    if has_text (ascii "type") (ascii "session_meta") value
    then codex_meta payload s
    else codex_event value payload s

unfoldable pub codex_record : Members → Seen → Seen
codex_record value s = codex_payload value (object_of (get (ascii "payload") value)) s

unfoldable pub metadata_of : Seen → Metadata
metadata_of s = record {
  models_seen = s.models;
  provider = s.provider;
  effort = s.effort;
  input_tokens = s.tokens.input_tokens;
  output_tokens = s.tokens.output_tokens;
  cache_creation_input_tokens = s.tokens.cache_creation_input_tokens;
  cache_read_input_tokens = s.tokens.cache_read_input_tokens;
  harness_version = s.harness_version;
}

module _ (json_object : Bytes → Option Members) where
  abbrev pub see_record : (Members → Seen → Seen) → Option Members → Seen → Seen
  see_record round none s = s
  see_record round (some value) s = round value s

  -- The loop over the records, with what has been seen.
  unfoldable pub see_records : (Members → Seen → Seen) → List Bytes → Seen → Seen
  see_records round [] s = s
  see_records round (raw ∷ rest) s = see_records round rest (see_record round (json_object raw) s)

  unfoldable pub extract_session_metadata : Text → List Bytes → Metadata
  extract_session_metadata source records =
      if bytes_eq source (ascii "claude-code")
      then metadata_of (see_records claude_record records nothing_seen)
      else if bytes_eq source (ascii "codex")
      then metadata_of (see_records codex_record records nothing_seen)
      else no_metadata
