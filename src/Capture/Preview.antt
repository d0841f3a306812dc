-- ===== src/Capture/Preview.antt =====
-- `Daemon.preview_historical` of src/mybench/daemon/capture.py, on one source file: it promises the
-- rows that a scan would append, without a write.
use mybench.Base.{
  >>=-eq-ok, Bool-cases, Bytes, Error, List, Option, Result, ap, capture_integrity_error, err,
  if◌then◌else◌, inl, inr, length, ltb, ok, ok_injective, refuse, refuse-eq-ok, sym, ℕ, ◌++◌, ◌==◌,
  ◌>>=◌, ◌>>◌, ◌||◌, ◌∙◌, ◌≡◌,
}
use mybench.Effect.{continue}
use mybench.Ledger.{Text, SessionColumns, Host}
use mybench.Nonces.{NonceJson, load_nonces}
use mybench.Capture.{
  Metadata, Scan, CaptureResult, Store, complete_lines, needs_row, too_short, check_committed,
  append_nonces, write_row, new_nonces, commit_items_row, archive_row, capture_new, capture_items,
  load_known, capture_file,
}
use mybench.Capture.Due.{is_due, one_if, capture_file-Counts}

module _ (host : Host) (json : NonceJson) (metadata : Text → List Bytes → Result Metadata)
    (random : ℕ → Bytes) where
  -- What one source adds to `planned`.
  unfoldable pub preview_items : List Bytes → List Bytes → Option SessionColumns → Result ℕ
  preview_items items known covered =
      if ltb (length items) (length known) || (length items == 0)
      then ok 0
      else if needs_row items known covered
      then (check_committed host json metadata random items known covered >> ok 1)
      else ok 0

  unfoldable pub preview_file : Scan → Store → Result ℕ
  preview_file scan s = load_known host json metadata random scan s >>= λ known.
      preview_items (complete_lines scan.transcript) known s.covered

  preview_items-due :
      (items known : List Bytes) (covered : Option SessionColumns) (n : ℕ)
      → preview_items items known covered ≡ ok n
      → n ≡ one_if (is_due items known covered)
  unfolding preview_items
  preview_items-due items known covered n h =
      elim (Bool-cases (ltb (length items) (length known))) [
        | inl shrunk ↦ rw shrunk (sym (ok_injective _ _ (rw shrunk at h)))
        | inr longer ↦ elim (Bool-cases (length items == 0)) [
          | inl empty ↦ rw (longer, empty) (sym (ok_injective _ _ (rw (longer, empty) at h)))
          | inr some_item ↦ elim (Bool-cases (needs_row items known covered)) [
            | inr old ↦
                rw (longer, some_item, old)
                  (sym (ok_injective _ _ (rw (longer, some_item, old) at h)))
            | inl new ↦
                let (_, _, one) =
                  >>=-eq-ok (check_committed host json metadata random items known covered)
                    (λ _. ok 1) (rw (longer, some_item, new) at h) in
                rw (longer, some_item, new) (sym (ok_injective _ _ one))
          ]
        ]
      ]

  capture_new-refused :
      (scan : Scan) (items known : List Bytes) (s : Store) (e : Error)
      → check_committed host json metadata random items known s.covered ≡ err e
      → capture_new host json metadata random scan items known s ≡ (err e, s)
  unfolding capture_new commit_items_row
  capture_new-refused scan items known s e h =
      ap
        (λ m.
          (λ (out : Result SessionColumns × Store).
              continue out.0 (archive_row host json metadata random scan 1 items (known ++ new))
                out.1)
            (run m))
        h
    where
      new : List Bytes
      new = new_nonces host json metadata random items known

      run : Result (Unit {0}) → Result SessionColumns × Store
      run m = elim m [
        | err e ↦ (err e, s)
        | ok _ ↦
            let out = append_nonces host json metadata random scan.session_id new s.nonces in
            continue out.0 (λ _. write_row host json metadata random scan items (known ++ new))
              (record s { nonces = out.1 })
      ]

  -- What the preview refuses, the scan refuses before it writes.
  preview_items-refused :
      (scan : Scan) (items known : List Bytes) (s : Store) (e : Error)
      → preview_items items known s.covered ≡ err e
      → capture_items host json metadata random scan items known s ≡ (err e, s)
  unfolding preview_items capture_items
  preview_items-refused scan items known s e h =
      elim (Bool-cases (ltb (length items) (length known))) [
        | inl shrunk ↦ cc (rw shrunk at h)
        | inr longer ↦ elim (Bool-cases (length items == 0)) [
          | inl empty ↦ cc (rw (longer, empty) at h)
          | inr some_item ↦ elim (Bool-cases (needs_row items known s.covered)) [
            | inr old ↦ cc (rw (longer, some_item, old) at h)
            | inl new ↦
                rw (longer, some_item, new)
                  (capture_new-refused scan items known s e (
                    check_err 1 (check_committed host json metadata random items known s.covered)
                      (rw (longer, some_item, new) at h)))
          ]
        ]
      ]
    where
      check_err : (n : ℕ) (m : Result (Unit {0})) → (m >> ok n) ≡ err e → m ≡ err e
      check_err n (ok _) h = cc
      check_err n (err x) h = cc

  -- The preview of a source against a scan of it from the same state: if the preview raises, the scan
  -- raises the same and changes nothing, and if it counts some rows, a scan that returns has
  -- appended as many.
  pub preview_file-capture_file :
      (scan : Scan) (s : Store)
      → ((e : Error)
          → preview_file scan s ≡ err e
          → capture_file host json metadata random scan s ≡ (err e, s))
        × ((n : ℕ) (r : CaptureResult)
            → preview_file scan s ≡ ok n
            → (capture_file host json metadata random scan s).0 ≡ ok r
            → r.rows_appended ≡ n)
  unfolding preview_file capture_file load_known
  preview_file-capture_file scan s = (refused (load_known host json metadata random scan s), agrees)
    where
      items : List Bytes
      items = complete_lines scan.transcript

      run : Result (List Bytes) → Result CaptureResult × Store
      run m = elim m [
        | err e ↦ (err e, s)
        | ok ns ↦ capture_items host json metadata random scan items ns s
      ]

      refused :
          (m : Result (List Bytes)) (e : Error)
          → (m >>= λ known. preview_items items known s.covered) ≡ err e
          → run m ≡ (err e, s)
      refused (err x) e h = cc
      refused (ok known) e h = preview_items-refused scan items known s e h

      agrees :
          (n : ℕ) (r : CaptureResult)
          → preview_file scan s ≡ ok n
          → (capture_file host json metadata random scan s).0 ≡ ok r
          → r.rows_appended ≡ n
      agrees n r h k =
          let (known, e, p) =
            >>=-eq-ok (load_known host json metadata random scan s)
              (λ known. preview_items items known s.covered) h in
          let (ns, loaded, q) =
            >>=-eq-ok (load_nonces json scan.session_id s.nonces)
              (λ ns. refuse (too_short ns s.covered) capture_integrity_error >> ok ns) e in
          let (_, same) = refuse-eq-ok (too_short ns s.covered) capture_integrity_error _ q in
          capture_file-Counts host json metadata random scan known s r (loaded ∙ same) k
          ∙ sym (preview_items-due items known s.covered n p)
