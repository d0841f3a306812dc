-- ===== src/Capture/Pass/Keeps.antt =====
-- A pass over many sources keeps the chain and every nonce.
use mybench.Base.{
  All, Bool-cases, Bytes, List, Option, Result, [], append-nil, append_assoc, bytes_eq,
  bytes_eq_iff, inl, inr, refl, subst, sym, true, ℕ, ◌++◌, ◌+◌, ◌∙◌, ◌∷◌, ◌≡◌,
}
use mybench.Ledger.{Text, Row, Host, IsHost}
use mybench.Ledger.Write.Step.{Holds}
use mybench.Nonces.{NonceJson, NonceFile, is_session_id}
use mybench.Nonces.Stored.{IsNonceJson, IsNonce, Stored}
use mybench.Capture.{Metadata, Scan, complete_lines, capture_file}
use mybench.Capture.Scans.{Grows, Appended, capture_file-Grows}
use mybench.Capture.Pass.{World, set, focus, capture_one, capture_all}

-- Every nonce file holds nonces.
abbrev pub AllStored : NonceJson → World → Type 0
AllStored json w = (id : Text) → (ns : List Bytes) × Stored json ns (w.nonces id)

-- The ledger goes on from its rows, and each nonce file from its nonces.
pub record Keeps (host : Host) (json : NonceJson) (rs : List Row) (w w' : World) : Type 0 where
  pub added : List Row
  pub held : Holds host w'.disk (rs ++ added)
  pub quarantine : w'.disk.quarantine ≡ w.disk.quarantine
  pub stored :
      (id : Text) (ns : List Bytes)
      → Stored json ns (w.nonces id)
      → (fresh : List Bytes) × Stored json (ns ++ fresh) (w'.nonces id)

module _ (host : Host) (laws : IsHost host) (json : NonceJson) (json_laws : IsNonceJson json)
    (metadata : Text → List Bytes → Result Metadata) (random : Text → ℕ → Bytes)
    (good : (id : Text) (k : ℕ) → IsNonce (random id k)) where
  kept_nonces :
      (key id : Text) (file : Option NonceFile) (table : Text → Option NonceFile) (ns : List Bytes)
      → ((ms : List Bytes)
          → Stored json ms (table key)
          → (fresh : List Bytes) × Stored json (ms ++ fresh) file)
      → Stored json ns (table id)
      → (fresh : List Bytes) × Stored json (ns ++ fresh) (set key file table id)
  kept_nonces key id file table ns grows h = elim (Bool-cases (bytes_eq id key)) [
    | inl same ↦
        rw same (grows ns (subst (λ k. Stored json ns (table k)) ((bytes_eq_iff id key).0 same) h))
    | inr other ↦ rw other ([], subst (λ t. Stored json t (table id)) (sym (append-nil ns)) h)
  ]

  capture_one-Keeps :
      (scan : Scan) (rs : List Row) (w : World)
      → is_session_id scan.session_id ≡ true
      → Holds host w.disk rs
      → AllStored json w
      → Keeps host json rs w (capture_one host json metadata random scan w).1
  unfolding capture_one
  capture_one-Keeps scan rs w valid held stored =
      let (known, h) = stored scan.session_id in
      let g = grows known h in
      record {
        added = g.added;
        held = g.held;
        quarantine = g.quarantine;
        stored = λ id ns.
            kept_nonces scan.session_id id _ w.nonces ns
              (λ ms k. ((grows ms k).fresh, (grows ms k).stored));
      }
    where
      grows :
          (ms : List Bytes)
          → Stored json ms (w.nonces scan.session_id)
          → let out =
              capture_file host json metadata (random scan.session_id) scan (focus scan w) in
            Grows host json rs
              (complete_lines scan.transcript)
              ms
              (focus scan w)
              out.1
              (Appended out.0)
      grows ms k =
          capture_file-Grows host laws json json_laws metadata (random scan.session_id)
            (good scan.session_id) scan rs ms (focus scan w) valid held k

  -- A pass over sources with valid session ids, on a ledger that holds a chain and with stored nonces
  -- for every session, whichever of them raise: the ledger holds a chain that begins with the old
  -- rows, the quarantine is unchanged, and each nonce file has its old nonces in front.
  pub capture_all-Keeps :
      (scans : List Scan) (appended : ℕ) (rs : List Row) (w : World)
      → All (λ (s : Scan). is_session_id s.session_id ≡ true) scans
      → Holds host w.disk rs
      → AllStored json w
      → Keeps host json rs w (capture_all host json metadata random scans appended w).1
  unfolding capture_all
  capture_all-Keeps [] appended rs w valid held stored = record {
    added = [];
    held = subst (Holds host w.disk) (sym (append-nil rs)) held;
    quarantine = refl;
    stored = λ id ns h. ([], subst (λ t. Stored json t (w.nonces id)) (sym (append-nil ns)) h);
  }
  capture_all-Keeps (scan ∷ rest) appended rs w valid held stored =
      let out = capture_one host json metadata random scan w in
      let first : Keeps host json rs w out.1 = capture_one-Keeps scan rs w valid.0 held stored in
      let later =
        capture_all-Keeps rest (appended + out.0) (rs ++ first.added) out.1 valid.1 first.held
          (still first) in
      record {
        added = first.added ++ later.added;
        held = subst (Holds host _) (append_assoc rs first.added later.added) later.held;
        quarantine = later.quarantine ∙ first.quarantine;
        stored = λ id ns h.
            let (a, s1) = first.stored id ns h in
            let (b, s2) = later.stored id (ns ++ a) s1 in
            (
              a ++ b,
              subst
                  (λ t. Stored json t (
                    (capture_all host json metadata random rest (appended + out.0) out.1).1.nonces
                      id))
                  (append_assoc ns a b) s2,
            );
      }
    where
      still : {w' : World} → Keeps host json rs w w' → AllStored json w'
      still k id = let (ns, h) = stored id in let (fresh, s) = k.stored id ns h in (ns ++ fresh, s)
