-- ===== src/Capture/Settles.antt =====
-- When a scan of a source has nothing left to do: `_capture_file` of src/mybench/daemon/capture.py on
-- a session whose row and nonces cover the source.
pub mod Twice
use mybench.Base.{
  Bool-cases, Bytes, List, Option, Result, [], ap, arith, capture_integrity_error, err, err-ne-ok,
  false, inl, inr, length, le→ltb_false, ltb, ltb_false→le, none, ok, ok_injective, refl, refuse,
  some, subst, sym, true, ℕ, ◌==◌, ◌>>=◌, ◌>>◌, ◌∷◌, ◌≡◌, ◌≤◌,
}
use mybench.Effect.{continue}
use mybench.Ledger.{Text, SessionColumns, Row, Host, IsHost}
use mybench.Ledger.Write.{append_session}
use mybench.Ledger.Write.Step.{Holds}
use mybench.Nonces.{NonceJson, NonceFile, is_session_id, load_nonces}
use mybench.Nonces.Stored.{IsNonceJson, IsNonce, Stored, load_nonces-Stored}
use mybench.Capture.{
  Metadata, Scan, CaptureResult, nothing, Store, complete_lines, needs_row, too_short,
  check_committed, append_nonces, keep_row, write_row, new_nonces, commit_items_row, archive_file,
  archive_row, capture_covered, capture_new, capture_items, load_known, capture_file, session_of,
  commit_root, observed, row_columns,
}
use mybench.Capture.Commits.{
  RowWritten, write_row-RowWritten, append_nonces-Stored, new_nonces-IsNonce, length-new_nonces,
}

-- The lines that the session's entry of `covered` commits.
abbrev pub lines_of : Option SessionColumns → ℕ
lines_of none = 0
lines_of (some row) = row.item_count

-- The entry of `covered` commits every item, and the nonces of all that it commits are stored.
pub record Settled (json : NonceJson) (items : List Bytes) (s : Store) : Type 0 where
  pub known : List Bytes
  pub stored : Stored json known s.nonces
  pub enough : length items ≤ lines_of s.covered
  pub bounded : lines_of s.covered ≤ length known

-- No row was appended and only the archive may differ.
abbrev pub SameButArchive : Store → Result CaptureResult × Store → Type 0
SameButArchive s out =
    (out.1.disk ≡ s.disk)
    × (out.1.nonces ≡ s.nonces)
    × (out.1.covered ≡ s.covered)
    × ((r : CaptureResult) × (out.0 ≡ ok r) × (r.rows_appended ≡ 0))

pub too_short-lines_of :
    (known : List Bytes) (covered : Option SessionColumns)
    → too_short known covered ≡ false
    → lines_of covered ≤ length known
too_short-lines_of known none h = omega (arith)
too_short-lines_of known (some row) h = ltb_false→le _ _ h

lines_of-too_short :
    (known : List Bytes) (covered : Option SessionColumns)
    → lines_of covered ≤ length known
    → too_short known covered ≡ false
lines_of-too_short known none h = refl
lines_of-too_short known (some row) h = le→ltb_false _ _ h

pub needs_row-lines_of :
    (items known : List Bytes) (covered : Option SessionColumns)
    → needs_row items known covered ≡ false
    → length items ≤ lines_of covered
needs_row-lines_of items known none h = cc
needs_row-lines_of items known (some row) h =
    elim (Bool-cases (ltb row.item_count (length items))) [
      | inl less ↦ cc (rw less at h)
      | inr enough ↦ ltb_false→le _ _ enough
    ]

-- No row is needed of items that are covered.
lines_of-needs_row :
    (items known : List Bytes) (covered : Option SessionColumns)
    → (length items == 0) ≡ false
    → length items ≤ lines_of covered
    → length items ≤ length known
    → needs_row items known covered ≡ false
lines_of-needs_row [] known none h k l = cc
lines_of-needs_row (_ ∷ items) known none h k l = absurd (omega (arith, k))
lines_of-needs_row items known (some row) h k l = rw (le→ltb_false _ _ k, le→ltb_false _ _ l) refl

module _ (host : Host) (laws : IsHost host) (json : NonceJson) (json_laws : IsNonceJson json)
    (metadata : Text → List Bytes → Result Metadata) (random : ℕ → Bytes) where
  pub capture_covered-same :
      (scan : Scan) (items known : List Bytes) (row : Option SessionColumns) (s : Store)
      → SameButArchive s (capture_covered host json metadata random scan items known row s)
  unfolding capture_covered archive_row archive_file
  capture_covered-same scan items known none s = (refl, refl, refl, (nothing, refl, refl))
  capture_covered-same scan items known (some row) s = elim (Bool-cases scan.archive_enabled) [
    | inl y ↦ rw y (refl, refl, refl, (_, refl, refl))
    | inr o ↦ rw o (refl, refl, refl, (_, refl, refl))
  ]

  -- A source that is settled is left alone.
  capture_items-Settled :
      (scan : Scan) (items : List Bytes) (s : Store) (x : Settled json items s)
      → SameButArchive s (capture_items host json metadata random scan items x.known s)
  unfolding capture_items
  capture_items-Settled scan items s x = elim (Bool-cases (ltb (length items) (length x.known))) [
    | inl shrunk ↦ rw shrunk (capture_covered-same scan items x.known s.covered s)
    | inr longer ↦ rw longer (elim (Bool-cases (length items == 0)) [
      | inl empty ↦ rw empty (refl, refl, refl, (nothing, refl, refl))
      | inr some_item ↦
          let old : needs_row items x.known s.covered ≡ false =
            lines_of-needs_row items x.known s.covered some_item x.enough
              (omega (arith, x.enough, x.bounded)) in
          rw (some_item, old) (capture_covered-same scan items x.known s.covered s)
    ])
  ]

  pub capture_file-Settled :
      (scan : Scan) (s : Store)
      → is_session_id scan.session_id ≡ true
      → Settled json (complete_lines scan.transcript) s
      → SameButArchive s (capture_file host json metadata random scan s)
  unfolding capture_file load_known
  capture_file-Settled scan s valid x =
      subst (λ m. SameButArchive s (run (checked m)))
        (sym (load_nonces-Stored json json_laws scan.session_id x.known s.nonces valid x.stored))
        (subst (λ b. SameButArchive s (run (refuse b capture_integrity_error >> ok x.known)))
          (sym (lines_of-too_short x.known s.covered x.bounded))
          (capture_items-Settled scan (complete_lines scan.transcript) s x))
    where
      checked : Result (List Bytes) → Result (List Bytes)
      checked m = m >>= λ ns. refuse (too_short ns s.covered) capture_integrity_error >> ok ns

      run : Result (List Bytes) → Result CaptureResult × Store
      run m = elim m [
        | err e ↦ (err e, s)
        | ok ns ↦ capture_items host json metadata random scan (complete_lines scan.transcript) ns s
      ]

  keep_row-covered :
      (m : Result Row) (s : Store) (c : SessionColumns)
      → (keep_row host json metadata random m s).0 ≡ ok c
      → (keep_row host json metadata random m s).1.covered ≡ some c
  unfolding keep_row
  keep_row-covered (err e) s c h = absurd (err-ne-ok _ _ h)
  keep_row-covered (ok row) s c h = go (session_of row.body) h
    where
      run : Result SessionColumns → Result SessionColumns × Store
      run m = elim m [ err e ↦ (err e, s) | ok c ↦ (ok c, record s { covered = some c }) ]

      go : (m : Result SessionColumns) → (run m).0 ≡ ok c → (run m).1.covered ≡ some c
      go (err e) h = absurd (err-ne-ok _ _ h)
      go (ok _) h = ap some (ok_injective _ _ h)

  pub write_row-covered :
      (scan : Scan) (items nonces : List Bytes) (s : Store) (c : SessionColumns)
      → (write_row host json metadata random scan items nonces s).0 ≡ ok c
      → (write_row host json metadata random scan items nonces s).1.covered ≡ some c
  unfolding write_row
  write_row-covered scan items nonces s c h =
      go (commit_root host json metadata random scan items nonces s.nonces) h
    where
      run : Result Bytes → Result SessionColumns × Store
      run m = elim m [
        | err e ↦ (err e, s)
        | ok root ↦
            let columns = row_columns scan items root (observed (metadata scan.source items)) in
            let (row, disk') = append_session host columns scan.ts s.disk in
            keep_row host json metadata random row (record s { disk = disk' })
      ]

      go : (m : Result Bytes) → (run m).0 ≡ ok c → (run m).1.covered ≡ some c
      go (err e) h = absurd (err-ne-ok _ _ h)
      go (ok root) h = keep_row-covered _ _ c h
