-- ===== src/Sessions.antt =====
-- `_check_input_sessions` of src/mybench/normalizer/claude.py: the view of verified sessions that
-- the consent filter admits. What the source checks of types alone is the types here.
pub mod Admitted
use mybench.Base.{
  Bool, Bytes, List, Option, Result, [], bytes_eq, false, if◌then◌else◌, leb, length, ltb,
  no_evidence, none, normalization_error, not, ok, refuse, some, true, ℕ, ◌&&◌, ◌++◌, ◌==◌, ◌>>=◌,
  ◌>>◌, ◌||◌, ◌∷◌,
}
use mybench.Hex.{hex}
use mybench.Lines.{newline}
use mybench.Ledger.{Text}
use mybench.Ledger.Write.{text_lt}
use mybench.Nonces.{is_session_id}
use mybench.Stamp.{canonical_timestamp}

-- "subject", "non-subject" and "unknown"
pub data Attribution : Type 0 where
  subject non_subject unattributed : Attribution

pub record VerifiedRecord : Type 0 where
  pub index : ℕ
  pub raw_bytes : Bytes
  pub record_commitment : Text
  pub attribution : Attribution
  pub context_generation_id : Option ℕ

pub record GitBindingObservation : Type 0 where
  pub row_index : ℕ
  pub repo_id : Text
  pub commit_hash : Text

pub record VerifiedSession : Type 0 where
  pub source : Text
  pub session_id : Text
  pub session_root : Text
  pub records : List VerifiedRecord
  pub subject_owned : Bool
  pub parent_session_id : Option Text
  pub repo_id : Option Text
  pub head_before : Option Text
  pub head_after : Option Text
  pub start_row_index : Option ℕ
  pub end_row_index : Option ℕ
  pub binding_observations : List GitBindingObservation
  pub started_at : Option Text
  pub ended_at : Option Text

abbrev pub is_none {ℓ} : {A : Type ℓ} → Option A → Bool
is_none none = true
is_none (some a) = false

abbrev pub is_empty {ℓ} : {A : Type ℓ} → List A → Bool
is_empty [] = true
is_empty (x ∷ xs) = false

abbrev pub text_is : Option Text → Text → Bool
text_is none t = false
text_is (some s) t = bytes_eq s t

-- `[0-9a-f]{n}`
abbrev pub all_hex : Text → Bool
all_hex [] = true
all_hex (c ∷ cs) = ((leb b'0' c && leb c b'9') || (leb b'a' c && leb c b'f')) && all_hex cs

unfoldable pub is_hex : ℕ → Text → Bool
is_hex n t = (length t == n) && all_hex t

-- `_GIT_HEAD`
abbrev pub is_head : Text → Bool
is_head t = is_hex 40 t || is_hex 64 t

-- A field that is absent or passes a test.
abbrev pub optional {ℓ} : {A : Type ℓ} → (A → Bool) → Option A → Bool
optional test none = true
optional test (some a) = test a

-- `a is not None and b is not None and a > b`
abbrev pub reversed : Option Text → Option Text → Bool
reversed (some a) (some b) = text_lt b a
reversed _ _ = false

-- Not "non-subject": what the filter admits of a session's records.
abbrev pub is_admitted : Attribution → Bool
is_admitted non_subject = false
is_admitted _ = true

unfoldable pub admitted_records : List VerifiedRecord → List VerifiedRecord
admitted_records [] = []
admitted_records (r ∷ rs) =
    let rest = admitted_records rs in if is_admitted r.attribution then r ∷ rest else rest

abbrev pub valid_binding : GitBindingObservation → Bool
valid_binding b = is_hex 16 b.repo_id && is_head b.commit_hash

-- Valid observations whose row indexes increase.
abbrev pub above : Option ℕ → ℕ → Bool
above none n = true
above (some k) n = ltb k n

abbrev pub valid_bindings : Option ℕ → List GitBindingObservation → Bool
valid_bindings last [] = true
valid_bindings last (b ∷ bs) =
    valid_binding b && (above last b.row_index && valid_bindings (some b.row_index) bs)

abbrev pub has_newline : Bytes → Bool
has_newline [] = false
has_newline (c ∷ cs) = (c == newline) || has_newline cs

-- Records behind source index `last`.
abbrev pub valid_records : Option ℕ → List VerifiedRecord → Bool
valid_records last [] = true
valid_records last (r ∷ rs) =
    above last r.index
    && (not (has_newline r.raw_bytes)
        && (is_hex 64 r.record_commitment && valid_records (some r.index) rs))

-- `row_range`: both indexes or neither, with the Git fields, and in order.
abbrev pub valid_rows : VerifiedSession → Option ℕ → Option ℕ → Bool
valid_rows s none none = true
valid_rows s none (some e) = false
valid_rows s (some b) none = false
valid_rows s (some b) (some e) =
    not (is_none s.repo_id || (is_none s.head_before || is_none s.head_after)) && ltb b e

abbrev pub stamp_in : Option Text → Option Text
stamp_in none = none
stamp_in (some t) = canonical_timestamp t

-- A time that is there and is none.
abbrev pub bad_stamp : Option Text → Bool
bad_stamp t = not (is_none t) && is_none (stamp_in t)

-- The checks of a session that has admitted records, in the order of the source.
unfoldable pub check_fields : Text → VerifiedSession → List VerifiedRecord → Result (Unit {0})
check_fields expected_source s records = do
  refuse (not (bytes_eq s.source expected_source)) normalization_error
  refuse (not (is_session_id s.session_id)) normalization_error
  refuse (not (optional is_session_id s.parent_session_id)) normalization_error
  refuse (text_is s.parent_session_id s.session_id) normalization_error
  refuse (not (optional (is_hex 16) s.repo_id)) normalization_error
  refuse (not (optional is_head s.head_before && optional is_head s.head_after)) normalization_error
  refuse (not (valid_bindings none s.binding_observations)) normalization_error
  refuse (not (valid_rows s s.start_row_index s.end_row_index)) normalization_error
  refuse (bad_stamp s.started_at || bad_stamp s.ended_at) normalization_error
  refuse (reversed (stamp_in s.started_at) (stamp_in s.ended_at)) normalization_error
  refuse (not (valid_records none records)) normalization_error

-- The admitted view of one session.
abbrev pub admitted_view : VerifiedSession → List VerifiedRecord → VerifiedSession
admitted_view s records = record s {
  records = records;
  subject_owned = true;
  started_at = stamp_in s.started_at;
  ended_at = stamp_in s.ended_at;
}

-- One round of the loop, but for the test for a repeated id: `none` passes the session over.
unfoldable pub check_session : Text → VerifiedSession → Result (Option VerifiedSession)
check_session expected_source s =
    let records = admitted_records s.records in
    if not s.subject_owned || is_empty records
    then ok none
    else (check_fields expected_source s records >> ok (some (admitted_view s records)))

-- `key in seen`
abbrev pub is_seen : Text → Text → List VerifiedSession → Bool
is_seen source id [] = false
is_seen source id (s ∷ ss) =
    (bytes_eq s.source source && bytes_eq s.session_id id) || is_seen source id ss

-- The order of the key `(source, session_id)`.
abbrev pub session_lt : VerifiedSession → VerifiedSession → Bool
session_lt a b =
    text_lt a.source b.source || (bytes_eq a.source b.source && text_lt a.session_id b.session_id)

abbrev pub insert_session : VerifiedSession → List VerifiedSession → List VerifiedSession
insert_session s [] = s ∷ []
insert_session s (t ∷ ts) =
    let rest = insert_session s ts in if session_lt t s then t ∷ rest else s ∷ t ∷ ts

unfoldable pub sort_sessions : List VerifiedSession → List VerifiedSession
sort_sessions [] = []
sort_sessions (s ∷ ss) = insert_session s (sort_sessions ss)

-- The loop over the sessions, with those admitted so far.
unfoldable pub check_all :
    Text → List VerifiedSession → List VerifiedSession → Result (List VerifiedSession)
check_all expected_source checked [] = ok checked
check_all expected_source checked (s ∷ ss) = check_session expected_source s >>= λ found.
    elim found [
      | none ↦ check_all expected_source checked ss
      | some t ↦
          refuse (is_seen t.source t.session_id checked) normalization_error
          >> check_all expected_source (checked ++ (t ∷ [])) ss
    ]

-- `_check_input_sessions`
unfoldable pub check_input_sessions : Text → List VerifiedSession → Result (List VerifiedSession)
check_input_sessions expected_source sessions = do
  refuse (is_empty sessions) no_evidence
  checked ← check_all expected_source [] sessions
  ok (sort_sessions checked)
