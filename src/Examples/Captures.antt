-- ===== src/Examples/Captures.antt =====
-- A scan of a source of two lines, on an empty store.
use mybench.Base.{
  All, Bytes, Error, List, Result, [], ap₂, arith, ascii, err, false, none, ok, refl, replicate,
  some, suc, true, value_error, zero, ℕ, ◌++◌, ◌+◌, ◌-◌, ◌<◌, ◌∷◌, ◌≡◌,
}
use mybench.Lines.{split_lines}
use mybench.Ledger.{Text}
use mybench.Nonces.{NonceRow, NonceJson, is_break, is_session_id, load_nonces, append_nonce}
use mybench.Nonces.Stored.{IsNonceJson, IsNonce, Stored, load_nonces-append_nonce}
use mybench.Capture.{Metadata, Scan, CaptureResult, Store, complete_lines, capture_file}
use mybench.Capture.Scans.{Grows, Appended, capture_file-Grows}
use mybench.Capture.Preview.{preview_file, preview_file-capture_file}
use mybench.Capture.Pass.{World, capture_all}
use mybench.Capture.Pass.Keeps.{Keeps, capture_all-Keeps}
use mybench.Examples.Host.{host, host-IsHost}
use mybench.Examples.Ledgers.{no_ledger, no_ledger-Holds, noon}

-- Code points above every line break stand in for the JSON of a row.
abbrev raised : Text → Text
raised [] = []
raised (c ∷ cs) = (c + 10000) ∷ raised cs

abbrev lowered : Text → Text
lowered [] = []
lowered (c ∷ cs) = (c - 10000) ∷ lowered cs

abbrev loads : Text → Result NonceRow
loads [] = err value_error
loads (c ∷ cs) = ok (record { i = some (c - 10000); nonce = some (lowered cs) })

abbrev json : NonceJson
json = record { dumps = λ i text. (i + 10000) ∷ raised text; loads = loads }

lowered-raised : (t : Text) → lowered (raised t) ≡ t
lowered-raised [] = refl
lowered-raised (c ∷ cs) = ap₂ ◌∷◌ {x = c + 10000 - 10000} (omega arith) (lowered-raised cs)

raised-no_break : (t : Text) → All (λ c. is_break c ≡ false) (raised t)
raised-no_break [] = tt
raised-no_break (c ∷ cs) = (ground arith, raised-no_break cs)

json-IsNonceJson : IsNonceJson json
json-IsNonceJson = record {
  loads-dumps = λ i text.
      ap₂ (λ n t. ok (record { i = some n; nonce = some t })) {x = i + 10000 - 10000} (omega arith)
        (lowered-raised text);
  one_line = λ i text. raised-no_break (i ∷ text);
}

abbrev zeros : ℕ → Bytes
zeros k = replicate 32 0

replicate-IsNonce : IsNonce (replicate 32 0)
replicate-IsNonce = (refl, bytes 32)
  where
    bytes : (n : ℕ) → All (λ b. b < 256) (replicate n 0)
    bytes zero = tt
    bytes (suc n) = (omega arith, bytes n)

no_nonces-Stored : Stored json [] none
no_nonces-Stored = record { tight = refl; text = refl; nonces = tt }

valid_id : is_session_id (ascii "s1") ≡ true
unfolding is_session_id
valid_id = refl

load_nonces-append_nonce_example :
    ((append_nonce json (ascii "s1") (zeros 0) none).0 ≡ ok 0)
    × (load_nonces json (ascii "s1") (append_nonce json (ascii "s1") (zeros 0) none).1
        ≡ ok (zeros 0 ∷ []))
load_nonces-append_nonce_example =
    load_nonces-append_nonce json json-IsNonceJson (ascii "s1") [] (zeros 0) none valid_id
      replicate-IsNonce no_nonces-Stored

abbrev scan : Scan
scan = record {
  source = ascii "codex";
  session_id = ascii "s1";
  transcript = ascii "a" ++ (10 ∷ (ascii "b" ++ (10 ∷ ascii "c")));
  provenance = none;
  archive_enabled = false;
  ts = noon;
}

abbrev no_store : Store
no_store = record { nonces = none; disk = no_ledger; archive = none; covered = none }

abbrev metadata : Text → List Bytes → Result Metadata
metadata source items = err value_error

capture_file-Grows_example :
    let out = capture_file host json metadata zeros scan no_store in
    Grows host json [] (complete_lines scan.transcript) [] no_store out.1 (Appended out.0)
capture_file-Grows_example =
    capture_file-Grows host host-IsHost json json-IsNonceJson metadata zeros
      (λ k. replicate-IsNonce) scan [] [] no_store valid_id no_ledger-Holds no_nonces-Stored

abbrev one_row : CaptureResult
one_row = record {
  rows_appended = 1;
  archive_covered = 0;
  archive_failed = 0;
  archive_bytes_appended = 0;
}

complete_lines_example : complete_lines scan.transcript ≡ ascii "a" ∷ ascii "b" ∷ []
unfolding complete_lines split_lines
complete_lines_example = refl

-- The same source with the begin of a third line, scanned later.
abbrev later_scan : Scan
later_scan = record scan {
  transcript = scan.transcript ++ ascii "d";
  ts = ascii "2026-07-14T00:00:00Z";
}

preview_file-capture_file_example :
    ((e : Error)
      → preview_file host json metadata zeros scan no_store ≡ err e
      → capture_file host json metadata zeros scan no_store ≡ (err e, no_store))
    × ((n : ℕ) (r : CaptureResult)
        → preview_file host json metadata zeros scan no_store ≡ ok n
        → (capture_file host json metadata zeros scan no_store).0 ≡ ok r
        → r.rows_appended ≡ n)
preview_file-capture_file_example = preview_file-capture_file host json metadata zeros scan no_store

abbrev no_world : World
no_world = record {
  nonces = λ id. none;
  archives = λ source id. none;
  disk = no_ledger;
  covered = λ id. none;
}

abbrev second_scan : Scan
second_scan = record scan { session_id = ascii "s2" }

second_id : is_session_id (ascii "s2") ≡ true
unfolding is_session_id
second_id = refl

capture_all-Keeps_example :
    Keeps host json [] no_world
      (capture_all host json metadata (λ id. zeros) (scan ∷ second_scan ∷ []) 0 no_world).1
capture_all-Keeps_example =
    capture_all-Keeps host host-IsHost json json-IsNonceJson metadata (λ id. zeros)
      (λ id k. replicate-IsNonce) (scan ∷ second_scan ∷ []) 0 [] no_world
      (valid_id, (second_id, tt)) no_ledger-Holds (λ id. ([], no_nonces-Stored))
