-- ===== src/Capture/Commits.antt =====
-- What a scan of one source leaves in the ledger, under the nonces that it has stored.
use mybench.Base.{
  >>=-eq-ok, All, Bytes, Error, List, Option, Result, [], ap, append-nil, append_assoc, arith, drop,
  err, err-ne-ok, last?, length, length-append, length-drop, ok, ok_injective, refl, some, subst,
  suc, sym, take, take-length, true, zero, ℕ, ◌++◌, ◌>>=◌, ◌>>◌, ◌∙◌, ◌∷◌, ◌≡◌, ◌≤◌,
}
use mybench.Effect.{continue}
use mybench.Hex.{hex}
use mybench.Commitment.{session_root}
use mybench.Ledger.{Text, SessionColumns, session, Row, Host, IsHost, Disk}
use mybench.Ledger.Write.{session_columns, append_session}
use mybench.Ledger.Write.Step.{Holds}
use mybench.Ledger.Write.Chain.{Records, append_session-Records}
use mybench.Archive.{commit_items, root_for}
use mybench.Nonces.{NonceJson, NonceFile, is_session_id, ensure_durable}
use mybench.Nonces.Stored.{IsNonceJson, IsNonce, Stored, append_nonce-Stored}
use mybench.Capture.{
  Metadata, Scan, Store, session_of, observed, row_columns, fresh_nonces, append_nonces,
  commit_root, keep_row, write_row, new_nonces,
}

-- The newest row is a session's with these columns, and its root is the one over all the items under
-- the nonces.
abbrev pub CommitsTo : Host → List Bytes → List Bytes → List Row → SessionColumns → Type 0
CommitsTo host items nonces rows c =
    (row : Row) × (root : Bytes) × (last? rows ≡ some row)
    × (row.body ≡ session c)
    × (c.item_count ≡ length items)
    × (c.session_root ≡ hex root)
    × (root_for host.sha256 items nonces ≡ ok root)

-- The ledger goes on from the old rows, and what is returned commits the items.
pub record RowWritten (host : Host) (rs : List Row) (items nonces : List Bytes) (s : Store)
    (out : Result SessionColumns × Store) : Type 0 where
  pub added : List Row
  pub held : Holds host out.1.disk (rs ++ added)
  pub quarantine : out.1.disk.quarantine ≡ s.disk.quarantine
  pub same_nonces : out.1.nonces ≡ s.nonces
  pub returned : (c : SessionColumns) → out.0 ≡ ok c → CommitsTo host items nonces (rs ++ added) c

module _ (host : Host) (laws : IsHost host) (json : NonceJson)
    (metadata : Text → List Bytes → Result Metadata) (random : ℕ → Bytes) where
  raise-RowWritten :
      (rs : List Row) (items nonces : List Bytes) (s : Store) (e : Error)
      → Holds host s.disk rs
      → RowWritten host rs items nonces s (err e, s)
  raise-RowWritten rs items nonces s e held = record {
    added = [];
    held = subst (Holds host s.disk) (sym (append-nil rs)) held;
    quarantine = refl;
    same_nonces = refl;
    returned = λ c h. absurd (err-ne-ok _ _ h);
  }

  commit_root-root_for :
      (scan : Scan) (items nonces : List Bytes) (file : Option NonceFile) (root : Bytes)
      → length nonces ≡ length items
      → commit_root host json metadata random scan items nonces file ≡ ok root
      → root_for host.sha256 items nonces ≡ ok root
  unfolding commit_root root_for
  commit_root-root_for scan items nonces file root size h =
      let (leaves, e, k) =
        >>=-eq-ok (commit_items host.sha256 nonces items)
          (λ leaves. ensure_durable scan.session_id file >> session_root host.sha256 leaves) h in
      let (_, _, r) =
        >>=-eq-ok (ensure_durable scan.session_id file) (λ _. session_root host.sha256 leaves) k in
      let front : take (length items) nonces ≡ nonces =
        ap (λ n. take n nonces) (sym size) ∙ take-length nonces in
      ap (λ t. commit_items host.sha256 t items >>= λ ls. session_root host.sha256 ls) front
      ∙ (ap (λ m. m >>= λ ls. session_root host.sha256 ls) e ∙ r)

  keep_row-RowWritten :
      (scan : Scan) (rs : List Row) (items nonces : List Bytes) (root : Bytes) (s : Store)
      (m : Metadata) (out : Result Row × Disk)
      → root_for host.sha256 items nonces ≡ ok root
      → Records host rs scan.ts
          (session (session_columns (row_columns scan items root m)))
          s.disk
          out
      → RowWritten host rs items nonces s
          (keep_row host json metadata random out.0 (record s { disk = out.1 }))
  unfolding keep_row session_columns row_columns
  keep_row-RowWritten scan rs items nonces root s m (err e, d) r x = record {
    added = x.added;
    held = x.held;
    quarantine = x.quarantine;
    same_nonces = refl;
    returned = λ c h. absurd (err-ne-ok _ _ h);
  }
  keep_row-RowWritten scan rs items nonces root s m (ok row, d) r x =
      let (newest, body, _) = x.returned row refl in
      let columns : SessionColumns = session_columns (row_columns scan items root m) in
      let found : session_of row.body ≡ ok columns = ap session_of body in
      subst
        (λ o. RowWritten host rs items nonces s (elim o [
          | err e ↦ (err e, record s { disk = d })
          | ok c ↦ (ok c, record s { disk = d; covered = some c })
        ]))
        (sym found)
        (record {
          added = x.added;
          held = x.held;
          quarantine = x.quarantine;
          same_nonces = refl;
          returned = λ c h.
              let same : columns ≡ c = ok_injective _ _ h in
              (
                row,
                root,
                newest,
                body ∙ ap session same,
                ap (λ (k : SessionColumns). k.item_count) (sym same),
                ap (λ (k : SessionColumns). k.session_root) (sym same),
                r,
              );
        })

  pub write_row-RowWritten :
      (scan : Scan) (rs : List Row) (items nonces : List Bytes) (s : Store)
      → length nonces ≡ length items
      → Holds host s.disk rs
      → RowWritten host rs items nonces s (write_row host json metadata random scan items nonces s)
  unfolding write_row
  write_row-RowWritten scan rs items nonces s size held =
      go (commit_root host json metadata random scan items nonces s.nonces) refl
    where
      m : Metadata
      m = observed (metadata scan.source items)

      go :
          (r : Result Bytes)
          → commit_root host json metadata random scan items nonces s.nonces ≡ r
          → RowWritten host rs items nonces s (elim r [
            | err e ↦ (err e, s)
            | ok root ↦
                let out = append_session host (row_columns scan items root m) scan.ts s.disk in
                keep_row host json metadata random out.0 (record s { disk = out.1 })
          ])
      go (err e) h = raise-RowWritten rs items nonces s e held
      go (ok root) h =
          keep_row-RowWritten scan rs items nonces root s m _
            (commit_root-root_for scan items nonces s.nonces root size h)
            (append_session-Records host laws (row_columns scan items root m) scan.ts s.disk rs
              held)

  -- The loop that stores the nonces.
  pub append_nonces-Stored :
      IsNonceJson json
      → (id : Text) (ns fresh : List Bytes) (file : Option NonceFile) → is_session_id id ≡ true
      → All IsNonce fresh
      → Stored json ns file
      → (file' : Option NonceFile) × (append_nonces host json metadata random id fresh file
          ≡ (ok tt, file'))
        × Stored json (ns ++ fresh) file'
  unfolding append_nonces
  append_nonces-Stored laws' id ns [] file valid good h =
      (file, refl, subst (λ t. Stored json t file) (sym (append-nil ns)) h)
  append_nonces-Stored laws' id ns (n ∷ fresh) file valid good h =
      let (file1, e, h1) = append_nonce-Stored json laws' id ns n file valid good.0 h in
      let (file2, e2, h2) =
        append_nonces-Stored laws' id (ns ++ (n ∷ [])) fresh file1 valid good.1 h1 in
      (
        file2,
        ap
              (λ (o : Result ℕ × Option NonceFile).
                continue o.0 (λ _. append_nonces host json metadata random id fresh) o.1)
              e
            ∙ e2,
        subst (λ t. Stored json t file2) (append_assoc ns (n ∷ []) fresh) h2,
      )

  pub fresh_nonces-IsNonce :
      ((k : ℕ) → IsNonce (random k))
      → (i n : ℕ) → All IsNonce (fresh_nonces host json metadata random i n)
  unfolding fresh_nonces
  fresh_nonces-IsNonce good i zero = tt
  fresh_nonces-IsNonce good i (suc n) = (good i, fresh_nonces-IsNonce good (suc i) n)

  length-fresh_nonces : (i n : ℕ) → length (fresh_nonces host json metadata random i n) ≡ n
  unfolding fresh_nonces
  length-fresh_nonces i zero = refl
  length-fresh_nonces i (suc n) = ap suc (length-fresh_nonces (suc i) n)

  pub length-new_nonces :
      (items known : List Bytes)
      → length known ≤ length items
      → length (known ++ new_nonces host json metadata random items known) ≡ length items
  unfolding new_nonces
  length-new_nonces items known h = omega (
    arith,
    length-append known (new_nonces host json metadata random items known),
    length-fresh_nonces (length known) (length (drop (length known) items)),
    length-drop (length known) items,
  )

  pub new_nonces-IsNonce :
      ((k : ℕ) → IsNonce (random k))
      → (items known : List Bytes) → All IsNonce (new_nonces host json metadata random items known)
  unfolding new_nonces
  new_nonces-IsNonce good items known =
      fresh_nonces-IsNonce good (length known) (length (drop (length known) items))
