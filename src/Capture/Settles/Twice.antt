-- ===== src/Capture/Settles/Twice.antt =====
-- What a scan of one source that returns leaves behind it, and the scan after it: `_capture_file` of
-- src/mybench/daemon/capture.py, once behind itself.
use mybench.Base.{Bytes, List, Result, length, ok, ℕ, ◌≡◌, ◌≤◌}
use mybench.Ledger.{Text, Row, Host, IsHost}
use mybench.Ledger.Write.Step.{Holds}
use mybench.Nonces.{NonceJson}
use mybench.Nonces.Stored.{IsNonceJson, IsNonce, Stored}
use mybench.Capture.{Metadata, Store}
use mybench.Capture.Settles.{lines_of, Settled}

module _ (host : Host) (laws : IsHost host) (json : NonceJson) (json_laws : IsNonceJson json)
    (metadata : Text → List Bytes → Result Metadata) (random : ℕ → Bytes) where
  module _ (good : (k : ℕ) → IsNonce (random k)) (rs : List Row) (items known : List Bytes)
      (s : Store) (held : Holds host s.disk rs) (stored : Stored json known s.nonces)
      (bounded : lines_of s.covered ≤ length known) (whole : length known ≤ length items) where
    abbrev SettledIfOk : {A : Type 0} → Result A × Store → Type 0
    SettledIfOk {A} out = (r : A) → out.0 ≡ ok r → Settled json items out.1
