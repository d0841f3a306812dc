-- ===== src/Anchor/Receipt/Times.antt =====
-- The times that src/mybench/anchor/receipt.py derives from the rows of a range.
use mybench.Base.{
  >>=-eq-ok, All, Error, List, Option, Result, [], ap, arith, ascii, bytes_eq, drop, err, err-ne-ok,
  false, if◌then◌else◌, leb, ledger_error, length, length-append, length-drop, length-take,
  le→ltb_false, ltb, ltb_false→le, none, not, ok, ok_injective, receipt_error, refl, refuse,
  refuse-eq-ok, some, suc, ℕ, ◌++◌, ◌+◌, ◌-◌, ◌==◌, ◌>>=◌, ◌>>◌, ◌||◌, ◌∙◌, ◌∷◌, ◌≡◌, ◌≤◌,
}
use mybench.Hex.{hex}
use mybench.Commitment.{day_root}
use mybench.Ledger.{Text, anchor_receipt, Row, Host}
use mybench.Ledger.Write.{newest}
use mybench.Anchor.Batch.{session_leaves, covered_rows}
use mybench.Anchor.Event.{SignedEvent, item_sum}
use mybench.Anchor.Receipt.{
  ReceiptHost, Call, before_z, receipt_columns, ReceiptLatencies, parse_utc, newest_time,
  check_slice, check_existing, latencies, latencies_to, with_receipt, derive_receipt_latencies,
}
use mybench.Anchor.Receipt.Recorded.{covered_rows-append}
use mybench.Anchor.Receipt.Matching.{receipt_for_event-own}

module _ (clock : ReceiptHost) where
  -- The two parsers agree where they return.
  pub parse_utc-ok :
      (e e' : Error) (value : Text) (t : ℕ)
      → parse_utc clock e value ≡ ok t
      → parse_utc clock e' value ≡ ok t
  unfolding parse_utc
  parse_utc-ok e e' value t h = go (before_z value) h
    where
      inner :
          (o : Option ℕ)
          → (elim o [ none ↦ err e | some n ↦ ok n ]) ≡ ok t
          → (elim o [ none ↦ err e' | some n ↦ ok n ]) ≡ ok t
      inner none h = absurd (err-ne-ok _ _ h)
      inner (some n) h = h

      go :
          (o : Option Text)
          → (elim o [
            | none ↦ err e
            | some front ↦ elim (clock.fromisoformat (front ++ ascii "+00:00")) [
              | none ↦ err e
              | some n ↦ ok n
            ]
          ])
            ≡ ok t
          → (elim o [
            | none ↦ err e'
            | some front ↦ elim (clock.fromisoformat (front ++ ascii "+00:00")) [
              | none ↦ err e'
              | some n ↦ ok n
            ]
          ])
            ≡ ok t
      go none h = absurd (err-ne-ok _ _ h)
      go (some front) h = inner (clock.fromisoformat (front ++ ascii "+00:00")) h

  pub newest_time-grows : (k : ℕ) (rs : List Row) (m : ℕ) → newest_time clock k rs ≡ ok m → k ≤ m
  unfolding newest_time
  newest_time-grows k [] m h = omega (arith, ok_injective _ _ h)
  newest_time-grows k (row ∷ rs) m h =
      let (t, _, rest) = >>=-eq-ok (parse_utc clock ledger_error row.ts) _ h in
      ground (arith, newest_time-grows (if ltb k t then t else k) rs m rest)

  -- With all times up to the receipt's: an interval for each row, none below that of the newest row.
  pub latencies-newest :
      (endpoint i k : ℕ) (rs : List Row) (m : ℕ)
      → newest_time clock k rs ≡ ok m
      → m ≤ endpoint
      → (l : List (ℕ × ℕ)) × (latencies clock endpoint i k rs ≡ ok (l, m))
        × (length l ≡ length rs)
        × All (λ (p : ℕ × ℕ). endpoint - m ≤ p.1) l
  unfolding newest_time latencies
  latencies-newest endpoint i k [] m h b = ([], ap (λ n. ok ([], n)) (ok_injective _ _ h), refl, tt)
  latencies-newest endpoint i k (row ∷ rs) m h b =
      let (t, parsed, rest) = >>=-eq-ok (parse_utc clock ledger_error row.ts) _ h in
      let (l, e, n, all) =
        latencies-newest endpoint (i + 1) (if ltb k t then t else k) rs m rest b in
      let grown : (if ltb k t then t else k) ≤ m =
        newest_time-grows (if ltb k t then t else k) rs m rest in
      let below : t ≤ m = ground (arith, grown) in
      (
        (i, endpoint - t) ∷ l,
        rw
            (
              parse_utc-ok ledger_error receipt_error row.ts t parsed,
              le→ltb_false endpoint t (omega arith),
              e,
            )
            refl,
        ap suc n,
        (omega arith, all),
      )

  -- The times that a slice was checked for.
  pub check_slice-times :
      (host : Host) (e : SignedEvent) (receipt_time append_time : ℕ) (covered : List Row)
      → check_slice clock host e receipt_time append_time covered ≡ ok tt
      → (m : ℕ) × (newest_time clock 0 covered ≡ ok m) × (m ≤ receipt_time)
  unfolding check_slice
  check_slice-times host e receipt_time append_time covered h =
      let (leaves, _, h1) = >>=-eq-ok (session_leaves covered) _ h in
      let (_, h2) = refuse-eq-ok (length leaves == 0) ledger_error _ h1 in
      let (root, _, h3) = >>=-eq-ok (day_root host.sha256 leaves) _ h2 in
      let (_, h4) = refuse-eq-ok (not (bytes_eq (hex root) e.root)) ledger_error _ h3 in
      let (last, _, h5) = >>=-eq-ok (newest covered) _ h4 in
      let (_, h6) = refuse-eq-ok (not (bytes_eq last.h e.chain_tip)) ledger_error _ h5 in
      let (_, h7) = refuse-eq-ok (not (length leaves == e.session_count)) ledger_error _ h6 in
      let (_, h8) = refuse-eq-ok (not (item_sum covered == e.item_count)) ledger_error _ h7 in
      let (m, timed, h9) = >>=-eq-ok (newest_time clock 0 covered) _ h8 in
      let (early, _) = refuse-eq-ok (ltb receipt_time m) ledger_error _ h9 in
      (m, timed, ltb_false→le receipt_time m early)

  -- What the latencies of an event say: one for each row of its range, none below the batch's.
  pub record IsLatencies (e : SignedEvent) (l : ReceiptLatencies) : Type 0 where
    pub each_row : length l.per_row ≡ e.row_end - e.row_start
    pub least : All (λ (p : ℕ × ℕ). l.batch ≤ p.1) l.per_row

  pub covered-IsLatencies :
      (host : Host) (e : SignedEvent) (receipt_ts : Text) (call : Call) (rs : List Row) (row : Row)
      → parse_utc clock ledger_error receipt_ts ≡ ok call.receipt_time
      → check_existing clock host e receipt_ts call rs ≡ ok false
      → row.body ≡ anchor_receipt (receipt_columns e call.id receipt_ts)
      → (l : ReceiptLatencies) × (derive_receipt_latencies clock (rs ++ (row ∷ [])) e ≡ ok (some l))
        × IsLatencies e l
  unfolding check_existing derive_receipt_latencies latencies_to
  covered-IsLatencies host e receipt_ts call rs row parsed h own =
      let (inside, h1) =
        refuse-eq-ok (ltb (length rs) e.row_end || leb e.row_end e.row_start) ledger_error _ h in
      let (u, sliced, fresh) =
        >>=-eq-ok
          (check_slice clock host e call.receipt_time call.append_time
            (covered_rows e.row_start e.row_end rs))
          _ h1 in
      let (m, timed, late) =
        check_slice-times host e call.receipt_time call.append_time
          (covered_rows e.row_start e.row_end rs) sliced in
      let (l, found, size, all) =
        latencies-newest call.receipt_time e.row_start 0 (covered_rows e.row_start e.row_end rs) m
          timed late in
      let same : covered_rows e.row_start e.row_end (rs ++ (row ∷ []))
          ≡ covered_rows e.row_start e.row_end rs =
        covered_rows-append e.row_start e.row_end rs (row ∷ []) (within inside) (forward inside) in
      (
        record { per_row = l; batch = call.receipt_time - m },
        ap (λ r. r >>= with_receipt clock (rs ++ (row ∷ [])) e)
              (receipt_for_event-own e call.id receipt_ts rs row fresh own)
            ∙ (ap
                  (λ b.
                    refuse b receipt_error
                    >> (parse_utc clock receipt_error receipt_ts >>= λ endpoint.
                        latencies_to clock endpoint (rs ++ (row ∷ [])) e))
                  (still inside)
                ∙ (ap (λ r. r >>= λ endpoint. latencies_to clock endpoint (rs ++ (row ∷ [])) e)
                      (parse_utc-ok ledger_error receipt_error receipt_ts call.receipt_time parsed)
                    ∙ (ap
                          (λ covered.
                            finish (latencies clock call.receipt_time e.row_start 0 covered))
                          same
                        ∙ (ap finish found
                            ∙ ap
                                (λ b.
                                  refuse b receipt_error
                                  >> ok (
                                      some (record { per_row = l; batch = call.receipt_time - m })))
                                (le→ltb_false call.receipt_time m late))))),
        record { each_row = size ∙ range inside; least = all },
      )
    where
      finish : Result (List (ℕ × ℕ) × ℕ) → Result (Option ReceiptLatencies)
      finish r = r >>= λ found.
          refuse (ltb call.receipt_time found.1) receipt_error
          >> ok (some (record { per_row = found.0; batch = call.receipt_time - found.1 }))

      within :
          (ltb (length rs) e.row_end || leb e.row_end e.row_start) ≡ false → e.row_end ≤ length rs
      within b = ground arith

      forward :
          (ltb (length rs) e.row_end || leb e.row_end e.row_start) ≡ false → e.row_start ≤ e.row_end
      forward b = ground arith

      still :
          (ltb (length rs) e.row_end || leb e.row_end e.row_start) ≡ false
          → (leb e.row_end e.row_start || ltb (length (rs ++ (row ∷ []))) e.row_end) ≡ false
      still b = ground (arith, length-append rs (row ∷ []))

      range :
          (ltb (length rs) e.row_end || leb e.row_end e.row_start) ≡ false
          → length (covered_rows e.row_start e.row_end rs) ≡ e.row_end - e.row_start
      range b = ground (
        arith,
        length-take (e.row_end - e.row_start) (drop e.row_start rs),
        length-drop e.row_start rs,
      )
