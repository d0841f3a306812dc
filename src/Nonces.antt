-- ===== src/Nonces.antt =====
-- src/mybench/nonces.py: one file of nonces for a session, a row of JSON for each item. A file is its
-- text in code points. The JSON codec is a parameter.
pub mod Stored
pub mod Torn
use mybench.Base.{
  Bool, Bytes, List, Option, Result, [], err, false, if◌then◌else◌, insecure_permissions, key_error,
  leb, length, nonce_store_error, none, not, ok, refuse, some, suc, true, ℕ, ◌&&◌, ◌++◌, ◌==◌,
  ◌>>=◌, ◌>>◌, ◌||◌, ◌∷◌,
}
use mybench.Effect.{Effect}
use mybench.Hex.{hex, fromhex}
use mybench.Lines.{newline, cons_head}
use mybench.Commitment.{nonce_len}
use mybench.Ledger.{Text}

-- What `row.get("i")` and `row["nonce"]` find.
pub record NonceRow : Type 0 where
  pub i : Option ℕ
  pub nonce : Option Text

-- `json.dumps({"i": i, "nonce": text})`, and `json.loads`, which may raise.
pub record NonceJson : Type 0 where
  pub dumps : ℕ → Text → Text
  pub loads : Text → Result NonceRow

pub record NonceFile : Type 0 where
  pub loose : Bool
  pub text : Text

-- The code points at which `str.splitlines` cuts.
abbrev pub is_break : ℕ → Bool
is_break c =
    (leb 10 c && leb c 13)
    || ((leb 28 c && leb c 30) || ((c == 133) || ((c == 8232) || (c == 8233))))

abbrev pub starts_newline : Text → Bool
starts_newline [] = false
starts_newline (c ∷ cs) = c == newline

-- `str.splitlines`, where a carriage return and a newline are one cut.
unfoldable pub splitlines : Text → List Text
splitlines [] = []
splitlines (c ∷ cs) =
    let rest = splitlines cs in
    if is_break c
    then (if (c == 13) && starts_newline cs then rest else [] ∷ rest)
    else cons_head c rest

-- `[A-Za-z0-9_-]{1,64}`
abbrev pub is_id_char : ℕ → Bool
is_id_char c =
    (leb b'A' c && leb c b'Z')
    || ((leb b'a' c && leb c b'z') || ((leb b'0' c && leb c b'9') || ((c == b'_') || (c == b'-'))))

abbrev pub all_id_chars : Text → Bool
all_id_chars [] = true
all_id_chars (c ∷ cs) = is_id_char c && all_id_chars cs

unfoldable pub is_session_id : Text → Bool
is_session_id id = all_id_chars id && (not (length id == 0) && leb (length id) 64)

-- `_assert_tight`, on a file that is there.
abbrev pub assert_tight : Option NonceFile → Result (Unit {0})
assert_tight none = err nonce_store_error
assert_tight (some f) = refuse f.loose insecure_permissions

unfoldable pub nonce_of : NonceRow → Result Bytes
nonce_of row = elim row.nonce [ none ↦ err key_error | some text ↦ fromhex text ]

abbrev pub index_is : Option ℕ → ℕ → Bool
index_is none n = false
index_is (some i) n = i == n

-- The file with a row behind its text, created for its owner alone where it is missing.
abbrev pub append_text : Text → Option NonceFile → NonceFile
append_text row none = record { loose = false; text = row }
append_text row (some f) = record f { text = f.text ++ row }

module _ (json : NonceJson) where
  unfoldable pub load_row : ℕ → Text → Result Bytes
  load_row n line = do
    row ← json.loads line
    refuse (not (index_is row.i n)) nonce_store_error
    nonce ← nonce_of row
    refuse (not (length nonce == nonce_len)) nonce_store_error
    ok nonce

  unfoldable pub load_rows : ℕ → List Text → Result (List Bytes)
  load_rows n [] = ok []
  load_rows n (line ∷ lines) = do
    nonce ← load_row n line
    rest ← load_rows (suc n) lines
    ok (nonce ∷ rest)

  abbrev pub load_file : Option NonceFile → Result (List Bytes)
  load_file none = ok []
  load_file (some f) = do refuse f.loose insecure_permissions; load_rows 0 (splitlines f.text)

  unfoldable pub load_nonces : Text → Option NonceFile → Result (List Bytes)
  load_nonces id file = do refuse (not (is_session_id id)) nonce_store_error; load_file file

  -- One write of the row of a nonce, and the test of the file's mode.
  unfoldable pub write_nonce : Bytes → ℕ → Effect (Option NonceFile) ℕ
  write_nonce nonce index file =
      let written = some (append_text (json.dumps index (hex nonce) ++ (newline ∷ [])) file) in
      (assert_tight written >> ok index, written)

  -- The guards of `append_nonce`, and the index of the new row.
  unfoldable pub next_index : Text → Bytes → Option NonceFile → Result ℕ
  next_index id nonce file = do
    refuse (not (length nonce == nonce_len)) nonce_store_error
    known ← load_nonces id file
    ok (length known)

  unfoldable pub append_nonce : Text → Bytes → Effect (Option NonceFile) ℕ
  append_nonce id nonce file = elim (next_index id nonce file) [
    | err e ↦ (err e, file)
    | ok index ↦ write_nonce nonce index file
  ]

-- `ensure_durable`; the `fsync` calls do not change what is read.
unfoldable pub ensure_durable : Text → Option NonceFile → Result (Unit {0})
ensure_durable id file = do refuse (not (is_session_id id)) nonce_store_error; assert_tight file
