-- ===== src/Capture/Due.antt =====
-- When a scan appends a row: also for nonces that an interrupted scan has left without one.
use mybench.Base.{
  Bool, Bool-cases, Bytes, List, Option, Result, ap, capture_integrity_error, err, err-ne-ok, false,
  inl, inr, length, ltb, none, not, ok, ok_injective, refl, refuse, some, sym, true, ℕ, ◌&&◌, ◌++◌,
  ◌==◌, ◌>>=◌, ◌>>◌, ◌∙◌, ◌≡◌,
}
use mybench.Effect.{continue}
use mybench.Ledger.{Text, SessionColumns, Host}
use mybench.Nonces.{NonceJson, load_nonces}
use mybench.Capture.{
  Metadata, Scan, CaptureResult, nothing, Store, complete_lines, needs_row, too_short, new_nonces,
  commit_items_row, archive_file, archive_row, capture_covered, capture_new, capture_items,
  load_known, capture_file,
}

-- There are items, not fewer than nonces, and some lack a row or a nonce.
abbrev pub is_due : List Bytes → List Bytes → Option SessionColumns → Bool
is_due items known covered =
    not (ltb (length items) (length known))
    && (not (length items == 0) && needs_row items known covered)

abbrev pub one_if : Bool → ℕ
one_if true = 1
one_if false = 0

-- A result counts that many rows.
abbrev Counts : ℕ → Result CaptureResult → Type 0
Counts n out = (r : CaptureResult) → out ≡ ok r → r.rows_appended ≡ n

counted :
    (n : ℕ) (out : Result CaptureResult) (c : CaptureResult)
    → out ≡ ok c
    → c.rows_appended ≡ n
    → Counts n out
counted n out c e z r h =
    ap (λ (k : CaptureResult). k.rows_appended) (ok_injective _ _ (sym h ∙ e)) ∙ z

module _ (host : Host) (json : NonceJson) (metadata : Text → List Bytes → Result Metadata)
    (random : ℕ → Bytes) where
  archive_row-Counts :
      (scan : Scan) (n : ℕ) (items nonces : List Bytes) (row : SessionColumns) (s : Store)
      → Counts n (archive_row host json metadata random scan n items nonces row s).0
  unfolding archive_row archive_file
  archive_row-Counts scan n items nonces row s = elim (Bool-cases scan.archive_enabled) [
    | inl y ↦ rw y (counted n _ _ refl refl)
    | inr o ↦ rw o (counted n _ _ refl refl)
  ]

  capture_covered-Counts :
      (scan : Scan) (items known : List Bytes) (row : Option SessionColumns) (s : Store)
      → Counts 0 (capture_covered host json metadata random scan items known row s).0
  unfolding capture_covered
  capture_covered-Counts scan items known none s = counted 0 _ nothing refl refl
  capture_covered-Counts scan items known (some row) s = archive_row-Counts scan 0 items known row s

  capture_new-Counts :
      (scan : Scan) (items known : List Bytes) (s : Store)
      → Counts 1 (capture_new host json metadata random scan items known s).0
  unfolding capture_new
  capture_new-Counts scan items known s =
      go (commit_items_row host json metadata random scan items known s)
    where
      go :
          (out : Result SessionColumns × Store)
          → Counts 1
              (continue out.0
                (archive_row host json metadata random scan 1 items
                  (known ++ new_nonces host json metadata random items known))
                out.1).0
      go (err e, s') r h = absurd (err-ne-ok _ _ h)
      go (ok c, s') r h = archive_row-Counts scan 1 items _ c s' r h

  capture_items-Counts :
      (scan : Scan) (items known : List Bytes) (s : Store)
      → Counts
          (one_if (is_due items known s.covered))
          (capture_items host json metadata random scan items known s).0
  unfolding capture_items
  capture_items-Counts scan items known s = elim (Bool-cases (ltb (length items) (length known))) [
    | inl shrunk ↦ rw shrunk (capture_covered-Counts scan items known s.covered s)
    | inr longer ↦ rw longer (elim (Bool-cases (length items == 0)) [
      | inl empty ↦ rw empty (counted 0 _ nothing refl refl)
      | inr some_item ↦ rw some_item (elim (Bool-cases (needs_row items known s.covered)) [
        | inl new ↦ rw new (capture_new-Counts scan items known s)
        | inr old ↦ rw old (capture_covered-Counts scan items known s.covered s)
      ])
    ])
  ]

  -- A scan that returns has appended one row exactly if the source has complete lines, not fewer than
  -- there were nonces, and the session had no row in `covered`, or one for fewer lines, or fewer
  -- nonces than lines. Otherwise it has appended none.
  pub capture_file-Counts :
      (scan : Scan) (known : List Bytes) (s : Store) (r : CaptureResult)
      → load_nonces json scan.session_id s.nonces ≡ ok known
      → (capture_file host json metadata random scan s).0 ≡ ok r
      → r.rows_appended ≡ one_if (is_due (complete_lines scan.transcript) known s.covered)
  unfolding capture_file load_known
  capture_file-Counts scan known s r loaded h =
      go (too_short known s.covered) r (ap (λ m. (run (checked m)).0) (sym loaded) ∙ h)
    where
      items : List Bytes
      items = complete_lines scan.transcript

      checked : Result (List Bytes) → Result (List Bytes)
      checked m = m >>= λ ns. refuse (too_short ns s.covered) capture_integrity_error >> ok ns

      run : Result (List Bytes) → Result CaptureResult × Store
      run m = elim m [
        | err e ↦ (err e, s)
        | ok ns ↦ capture_items host json metadata random scan items ns s
      ]

      go :
          (b : Bool)
          → Counts
              (one_if (is_due items known s.covered))
              (run (refuse b capture_integrity_error >> ok known)).0
      go true r e = absurd (err-ne-ok _ _ e)
      go false r e = capture_items-Counts scan items known s r e
