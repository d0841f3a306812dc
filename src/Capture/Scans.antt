-- ===== src/Capture/Scans.antt =====
-- One scan of one source: the ledger and the nonces only grow, and a new row commits all the items.
use mybench.Base.{
  Bool, Bool-cases, Bytes, List, Option, Result, [], ap, append-nil, arith, capture_integrity_error,
  err, err-ne-ok, false, inl, inr, length, ltb, ltb_false→le, none, ok, ok_injective, refl, refuse,
  some, subst, sym, true, ℕ, ◌++◌, ◌==◌, ◌>>=◌, ◌>>◌, ◌∙◌, ◌≡◌, ◌≤◌,
}
use mybench.Effect.{continue}
use mybench.Ledger.{Text, SessionColumns, Row, Host, IsHost}
use mybench.Ledger.Write.Step.{Holds}
use mybench.Nonces.{NonceJson, NonceFile, is_session_id, load_nonces}
use mybench.Nonces.Stored.{IsNonceJson, IsNonce, Stored, load_nonces-Stored}
use mybench.Capture.{
  Metadata, Scan, CaptureResult, nothing, Store, complete_lines, needs_row, too_short,
  check_committed, append_nonces, write_row, new_nonces, commit_items_row, archive_file,
  archive_row, capture_covered, capture_new, capture_items, load_known, capture_file,
}
use mybench.Capture.Commits.{
  CommitsTo, RowWritten, write_row-RowWritten, append_nonces-Stored, new_nonces-IsNonce,
  length-new_nonces,
}

-- The ledger goes on from its rows and the nonce file from its nonces. If `one` then the newest row
-- commits all the items under the nonces that are stored.
pub record Grows (host : Host) (json : NonceJson) (rs : List Row) (items known : List Bytes)
    (s s' : Store) (One : Type 0) : Type 0 where
  pub added : List Row
  pub held : Holds host s'.disk (rs ++ added)
  pub quarantine : s'.disk.quarantine ≡ s.disk.quarantine
  pub fresh : List Bytes
  pub stored : Stored json (known ++ fresh) s'.nonces
  pub commits : One → (c : SessionColumns) × CommitsTo host items (known ++ fresh) (rs ++ added) c

-- The result says that a row was appended.
abbrev pub Appended : Result CaptureResult → Type 0
Appended r = (c : CaptureResult) × (r ≡ ok c) × (c.rows_appended ≡ 1)

not_one_row :
    (c : CaptureResult) (r : Result CaptureResult) → r ≡ ok c → c.rows_appended ≡ 0 → Appended r → ⊥
not_one_row c r e z one = omega (
  arith,
  z,
  one.2,
  ap (λ (k : CaptureResult). k.rows_appended) (ok_injective _ _ (sym e ∙ one.1)),
)

module _ (host : Host) (laws : IsHost host) (json : NonceJson) (json_laws : IsNonceJson json)
    (metadata : Text → List Bytes → Result Metadata) (random : ℕ → Bytes)
    (good : (k : ℕ) → IsNonce (random k)) where
  module _ (rs : List Row) (items known : List Bytes) (s : Store) (held : Holds host s.disk rs)
      (stored : Stored json known s.nonces) where
    -- Nothing but the archive and `covered` changes.
    same-Grows :
        {One : Type 0} (s' : Store)
        → s'.disk ≡ s.disk
        → s'.nonces ≡ s.nonces
        → (One → ⊥)
        → Grows host json rs items known s s' One
    same-Grows s' d n never = record {
      added = [];
      held =
          subst (Holds host s'.disk) (sym (append-nil rs))
            (subst (λ t. Holds host t rs) (sym d) held);
      quarantine = ap (λ t. t.quarantine) d;
      fresh = [];
      stored =
          subst (λ t. Stored json t s'.nonces) (sym (append-nil known))
            (subst (Stored json known) (sym n) stored);
      commits = λ one. absurd (never one);
    }

    -- The branch that appends a row.
    commit_items_row-Grows :
        (scan : Scan)
        → is_session_id scan.session_id ≡ true
        → length known ≤ length items
        → let out = commit_items_row host json metadata random scan items known s in
          Grows host json rs items known s out.1 ((c : SessionColumns) × (out.0 ≡ ok c))
    unfolding commit_items_row
    commit_items_row-Grows scan valid enough =
        go (check_committed host json metadata random items known s.covered)
      where
        new : List Bytes
        new = new_nonces host json metadata random items known

        finish :
            (file : Option NonceFile) (out : Result SessionColumns × Store)
            → Stored json (known ++ new) file
            → RowWritten host rs items (known ++ new) (record s { nonces = file }) out
            → Grows host json rs items known s out.1 ((c : SessionColumns) × (out.0 ≡ ok c))
        finish file out h w = record {
          added = w.added;
          held = w.held;
          quarantine = w.quarantine;
          fresh = new;
          stored = subst (Stored json (known ++ new)) (sym w.same_nonces) h;
          commits = λ one. (one.0, w.returned one.0 one.1);
        }

        run : Result (Unit {0}) → Result SessionColumns × Store
        run m = elim m [
          | err e ↦ (err e, s)
          | ok _ ↦
              let out = append_nonces host json metadata random scan.session_id new s.nonces in
              continue out.0 (λ _. write_row host json metadata random scan items (known ++ new))
                (record s { nonces = out.1 })
        ]

        go :
            (m : Result (Unit {0}))
            → Grows host json rs items known s (run m).1 ((c : SessionColumns) × ((run m).0 ≡ ok c))
        go (err e) = same-Grows s refl refl (λ one. err-ne-ok _ _ one.1)
        go (ok _) =
            let (file, e, h) =
              append_nonces-Stored host laws json metadata random json_laws scan.session_id known
                new s.nonces valid
                (new_nonces-IsNonce host laws json metadata random good items known) stored in
            subst
              (λ (o : Result (Unit {0}) × Option NonceFile).
                let out =
                  continue o.0 (λ _. write_row host json metadata random scan items (known ++ new))
                    (record s { nonces = o.1 }) in
                Grows host json rs items known s out.1 ((c : SessionColumns) × (out.0 ≡ ok c)))
              (sym e)
              (finish file _ h (
                write_row-RowWritten host laws json metadata random scan rs items (known ++ new)
                  (record s { nonces = file })
                  (length-new_nonces host laws json metadata random items known enough) held))

    -- More changes to the archive and to `covered` behind it.
    then-Grows :
        {One One' : Type 0} (s' s'' : Store)
        → Grows host json rs items known s s' One
        → s''.disk ≡ s'.disk
        → s''.nonces ≡ s'.nonces
        → (One' → One)
        → Grows host json rs items known s s'' One'
    then-Grows s' s'' g d n back = record {
      added = g.added;
      held = subst (λ t. Holds host t (rs ++ g.added)) (sym d) g.held;
      quarantine = ap (λ t. t.quarantine) d ∙ g.quarantine;
      fresh = g.fresh;
      stored = subst (Stored json (known ++ g.fresh)) (sym n) g.stored;
      commits = λ one. g.commits (back one);
    }

    archive_row-keeps :
        (scan : Scan) (n : ℕ) (nonces : List Bytes) (row : SessionColumns) (s' : Store)
        → let out = archive_row host json metadata random scan n items nonces row s' in
          (out.1.disk ≡ s'.disk)
          × (out.1.nonces ≡ s'.nonces)
          × ((c : CaptureResult) × (out.0 ≡ ok c) × (c.rows_appended ≡ n))
    unfolding archive_row archive_file
    archive_row-keeps scan n nonces row s' = elim (Bool-cases scan.archive_enabled) [
      | inl y ↦ rw y (refl, refl, (_, refl, refl))
      | inr o ↦ rw o (refl, refl, (_, refl, refl))
    ]

    capture_new-Grows :
        (scan : Scan)
        → is_session_id scan.session_id ≡ true
        → length known ≤ length items
        → let out = capture_new host json metadata random scan items known s in
          Grows host json rs items known s out.1 (Appended out.0)
    unfolding capture_new
    capture_new-Grows scan valid enough =
        go (commit_items_row host json metadata random scan items known s)
          (commit_items_row-Grows scan valid enough)
      where
        go :
            (out : Result SessionColumns × Store)
            → Grows host json rs items known s out.1 ((c : SessionColumns) × (out.0 ≡ ok c))
            → let end =
                continue out.0
                  (archive_row host json metadata random scan 1 items
                    (known ++ new_nonces host json metadata random items known))
                  out.1 in
              Grows host json rs items known s end.1 (Appended end.0)
        go (err e, s') g = then-Grows s' s' g refl refl (λ one. absurd (err-ne-ok _ _ one.1))
        go (ok c, s') g =
            let (d, n, _) =
              archive_row-keeps scan 1 (known ++ new_nonces host json metadata random items known) c
                s' in
            then-Grows s' _ g d n (λ one. (c, refl))

    capture_covered-Grows :
        (scan : Scan) (row : Option SessionColumns)
        → let out = capture_covered host json metadata random scan items known row s in
          Grows host json rs items known s out.1 (Appended out.0)
    unfolding capture_covered
    capture_covered-Grows scan none = same-Grows s refl refl (not_one_row nothing _ refl refl)
    capture_covered-Grows scan (some row) =
        let (d, n, (c, e, z)) = archive_row-keeps scan 0 known row s in
        same-Grows _ d n (not_one_row c _ e z)

    capture_items-Grows :
        (scan : Scan)
        → is_session_id scan.session_id ≡ true
        → let out = capture_items host json metadata random scan items known s in
          Grows host json rs items known s out.1 (Appended out.0)
    unfolding capture_items
    capture_items-Grows scan valid = elim (Bool-cases (ltb (length items) (length known))) [
      | inl shrunk ↦ rw shrunk (capture_covered-Grows scan s.covered)
      | inr longer ↦ rw longer (elim (Bool-cases (length items == 0)) [
        | inl empty ↦ rw empty (same-Grows s refl refl (not_one_row nothing _ refl refl))
        | inr some_item ↦ rw some_item (elim (Bool-cases (needs_row items known s.covered)) [
          | inl new ↦ rw new (capture_new-Grows scan valid (ltb_false→le _ _ longer))
          | inr old ↦ rw old (capture_covered-Grows scan s.covered)
        ])
      ])
    ]

  -- A scan of one source, on a ledger that holds a chain and with stored nonces, whatever the
  -- outcome: the ledger holds a chain that begins with the old rows, the quarantine is unchanged,
  -- and the nonce file has the old nonces in front. If the result says that a row was appended, the
  -- newest row is a session's with the number of complete lines of the source, and its root is the
  -- one over those lines and the stored nonces.
  pub capture_file-Grows :
      (scan : Scan) (rs : List Row) (known : List Bytes) (s : Store)
      → is_session_id scan.session_id ≡ true
      → Holds host s.disk rs
      → Stored json known s.nonces
      → let out = capture_file host json metadata random scan s in
        Grows host json rs (complete_lines scan.transcript) known s out.1 (Appended out.0)
  unfolding capture_file load_known
  capture_file-Grows scan rs known s valid held stored =
      let loaded : load_nonces json scan.session_id s.nonces ≡ ok known =
        load_nonces-Stored json json_laws scan.session_id known s.nonces valid stored in
      subst
        (λ m. let out = run (checked m) in Grows host json rs items known s out.1 (Appended out.0))
        (sym loaded) (go (too_short known s.covered))
    where
      items : List Bytes
      items = complete_lines scan.transcript

      checked : Result (List Bytes) → Result (List Bytes)
      checked m = m >>= λ ns. refuse (too_short ns s.covered) capture_integrity_error >> ok ns

      run : Result (List Bytes) → Result CaptureResult × Store
      run m = elim m [
        | err e ↦ (err e, s)
        | ok ns ↦ capture_items host json metadata random scan items ns s
      ]

      go :
          (b : Bool)
          → let out = run (refuse b capture_integrity_error >> ok known) in
            Grows host json rs items known s out.1 (Appended out.0)
      go true = same-Grows rs items known s held stored s refl refl (λ one. err-ne-ok _ _ one.1)
      go false = capture_items-Grows rs items known s held stored scan valid
