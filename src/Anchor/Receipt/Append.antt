-- ===== src/Anchor/Receipt/Append.antt =====
-- `append_anchor_receipt` keeps the ledger a chain, and records a receipt once.
use mybench.Base.{
  >>=-eq-ok, Bool, Bytes, Error, List, Option, Option-cases, Result, [], ap, arith, err, err-ne-ok,
  false, index_error, inl, inr, last?, leb, ledger_error, length, length-append, ltb, none, ok,
  ok_injective, refl, refuse, refuse-eq-ok, some, subst, sym, true, ◌++◌, ◌+◌, ◌>>◌, ◌||◌, ◌∙◌, ◌∷◌,
  ◌≡◌, ◌≤◌, ◌⊎◌,
}
use mybench.Ledger.{Text, v2, anchor_receipt, Fields, Row, Host, IsHost, Disk}
use mybench.Ledger.Write.{append_behind, newest}
use mybench.Ledger.Write.Step.{Holds, hashed, Appends, append_behind-Appends}
use mybench.Ledger.Recover.Crash.{Holds-verify}
use mybench.Anchor.Batch.{Device, covered_rows}
use mybench.Anchor.Event.{SignedEvent, EventHost}
use mybench.Anchor.Receipt.{
  ReceiptHost, Call, is_recorded, receipt_columns, noted, check_slice, check_event, check_existing,
  verified_rows, append_new, append_verified, append_anchor_receipt,
}
use mybench.Anchor.Receipt.Recorded.{covered_rows-append, is_recorded-append, is_recorded-own}

module _ (clock : ReceiptHost) (host : Host) where
  -- A receipt that is not among the rows is the one behind them.
  check_existing-again :
      (e : SignedEvent) (receipt_ts : Text) (call : Call) (rs : List Row) (row : Row)
      → check_existing clock host e receipt_ts call rs ≡ ok false
      → row.body ≡ anchor_receipt (receipt_columns e call.id receipt_ts)
      → check_existing clock host e receipt_ts call (rs ++ (row ∷ [])) ≡ ok true
  unfolding check_existing
  check_existing-again e receipt_ts call rs row h own =
      let (inside, h1) =
        refuse-eq-ok (ltb (length rs) e.row_end || leb e.row_end e.row_start) ledger_error _ h in
      let (u, sliced, fresh) =
        >>=-eq-ok (slice (covered_rows e.row_start e.row_end rs))
          (λ _. is_recorded e call.id receipt_ts rs) h1 in
      ap
        (λ b.
          refuse b ledger_error
          >> (slice (covered_rows e.row_start e.row_end (rs ++ (row ∷ [])))
              >> is_recorded e call.id receipt_ts (rs ++ (row ∷ []))))
        (still inside)
      ∙ (ap (λ covered. slice covered >> is_recorded e call.id receipt_ts (rs ++ (row ∷ [])))
            (covered_rows-append e.row_start e.row_end rs (row ∷ []) (within inside)
              (forward inside))
          ∙ (ap (λ m. m >> is_recorded e call.id receipt_ts (rs ++ (row ∷ []))) sliced
              ∙ (is_recorded-append e call.id receipt_ts rs (row ∷ []) fresh
                  ∙ is_recorded-own e call.id receipt_ts row own)))
    where
      slice : List Row → Result (Unit {0})
      slice covered = check_slice clock host e call.receipt_time call.append_time covered

      within :
          (ltb (length rs) e.row_end || leb e.row_end e.row_start) ≡ false → e.row_end ≤ length rs
      within b = ground arith

      forward :
          (ltb (length rs) e.row_end || leb e.row_end e.row_start) ≡ false → e.row_start ≤ e.row_end
      forward b = ground arith

      still :
          (ltb (length rs) e.row_end || leb e.row_end e.row_start) ≡ false
          → (ltb (length (rs ++ (row ∷ []))) e.row_end || leb e.row_end e.row_start) ≡ false
      still b = ground (arith, length-append rs (row ∷ []))

  module _ (device : Device) (events : EventHost) (laws : IsHost host) where
    verified_rows-Holds :
        (d : Disk) (rs : List Row) → Holds host d rs → verified_rows host d ≡ ok rs
    unfolding verified_rows
    verified_rows-Holds d rs held = rw (Holds-verify host d rs held) held.read

    -- One more row, the receipt with an id.
    abbrev pub Adds :
        SignedEvent → Text → Text → Text → Disk → List Row → Result (Option Row) × Disk → Type 0
    Adds e id receipt_ts ts d rs out =
        (row : Row) × (out.0 ≡ ok (some row))
        × Holds host out.1 (rs ++ (row ∷ []))
        × (out.1.quarantine ≡ d.quarantine)
        × (row.ts ≡ ts)
        × (row.body ≡ anchor_receipt (receipt_columns e id receipt_ts))

    -- What a call can leave: nothing changed where it raises or returns no row, or the receipt behind
    -- the old rows.
    abbrev pub Leaves :
        SignedEvent → Text → Text → Disk → List Row → Result (Option Row) × Disk → Type 0
    Leaves e receipt_ts ts d rs out =
        ((raised : Error) × (out ≡ (err raised, d)))
        ⊎ (out ≡ (ok none, d))
        ⊎ ((id : Text) × Adds e id receipt_ts ts d rs out)

    pub append_behind-Adds :
        (e : SignedEvent) (id receipt_ts ts : Text) (d : Disk) (rs : List Row)
        → Holds host d rs
        → let out : Result (Option Row) × Disk =
            noted
              (append_behind host rs v2 ts (anchor_receipt (receipt_columns e id receipt_ts)) d) in
          ((raised : Error) × (out ≡ (err raised, d))) ⊎ Adds e id receipt_ts ts d rs out
    unfolding append_behind newest
    append_behind-Adds e id receipt_ts ts d rs held = elim (Option-cases (last? rs)) [
      | inl missing ↦ inl (index_error, ap noted (nothing missing))
      | inr (last, at) ↦
          let f : Fields = record {
            version = v2;
            i = last.i + 1;
            ts = ts;
            prev = last.h;
            body = anchor_receipt (receipt_columns e id receipt_ts);
          } in
          written f refl refl _ (
            append_behind-Appends host laws rs last v2 ts
              (anchor_receipt (receipt_columns e id receipt_ts)) d held at refl (λ h. cc)
              (λ h k. cc))
    ]
      where
        nothing :
            last? rs ≡ none
            → append_behind host rs v2 ts (anchor_receipt (receipt_columns e id receipt_ts)) d
              ≡ (err index_error, d)
        nothing h = rw (h, newest, append_behind) refl

        written :
            (f : Fields)
            → f.body ≡ anchor_receipt (receipt_columns e id receipt_ts)
            → f.ts ≡ ts
            → (out : Result Row × Disk) → Appends host rs (hashed host f) d out
            → ((raised : Error) × (noted out ≡ (err raised, d)))
              ⊎ Adds e id receipt_ts ts d rs (noted out)
        written f body time out (inl same) = inl (ledger_error, ap noted same)
        written f body time (ok row, s) (inr (returned, held', q)) = inr (
          row,
          refl,
          subst (λ (r : Row). Holds host s (rs ++ (r ∷ []))) (sym (ok_injective _ _ returned))
              held',
          q,
          ap (λ (r : Row). r.ts) (ok_injective _ _ returned) ∙ time,
          ap (λ (r : Row). r.body) (ok_injective _ _ returned) ∙ body,
        )
        written f body time (err raised, s) (inr (returned, held', q)) =
            absurd (err-ne-ok _ _ returned)

    pub append-Holds :
        (e : SignedEvent) (receipt_ts ts : Text) (scope_key : Bytes) (d : Disk) (rs : List Row)
        → Holds host d rs
        → append_anchor_receipt clock host device events e receipt_ts ts scope_key d
          ≡ append_verified clock host device events e receipt_ts ts
              (check_event clock host device events e receipt_ts ts scope_key)
              (ok rs)
              d
    unfolding append_anchor_receipt
    append-Holds e receipt_ts ts scope_key d rs held =
        ap
          (λ read.
            append_verified clock host device events e receipt_ts ts
              (check_event clock host device events e receipt_ts ts scope_key) read d)
          (verified_rows-Holds d rs held)

    -- `append_anchor_receipt` on a ledger that holds a chain: it raises or returns no row, and changes
    -- nothing; or it returns the one row that the ledger then holds behind the old ones, which has
    -- the range, root and tip of the event, with the times of the call, and the quarantine is
    -- unchanged.
    pub append_anchor_receipt-Leaves :
        (e : SignedEvent) (receipt_ts ts : Text) (scope_key : Bytes) (d : Disk) (rs : List Row)
        → Holds host d rs
        → Leaves e receipt_ts ts d rs
            (append_anchor_receipt clock host device events e receipt_ts ts scope_key d)
    append_anchor_receipt-Leaves e receipt_ts ts scope_key d rs held =
        subst (Leaves e receipt_ts ts d rs) (sym (append-Holds e receipt_ts ts scope_key d rs held))
          (called (check_event clock host device events e receipt_ts ts scope_key))
      where
        existing :
            (call : Call) (m : Result Bool)
            → Leaves e receipt_ts ts d rs
                (append_new clock host device events e receipt_ts ts call rs m d)
        existing call (err raised) = inl (raised, refl)
        existing call (ok true) = inr (inl refl)
        existing call (ok false) = elim (append_behind-Adds e call.id receipt_ts ts d rs held) [
          | inl failed ↦ inl failed
          | inr added ↦ inr (inr (call.id, added))
        ]

        called :
            (m : Result Call)
            → Leaves e receipt_ts ts d rs
                (append_verified clock host device events e receipt_ts ts m (ok rs) d)
        called (err raised) = inl (raised, refl)
        called (ok call) = existing call (check_existing clock host e receipt_ts call rs)

    -- After a call has returned, with a row or without, the same call returns no row and changes
    -- nothing.
    pub append_anchor_receipt_twice :
        (e : SignedEvent) (receipt_ts ts : Text) (scope_key : Bytes) (d d' : Disk) (rs : List Row)
        (o : Option Row)
        → Holds host d rs
        → append_anchor_receipt clock host device events e receipt_ts ts scope_key d ≡ (ok o, d')
        → append_anchor_receipt clock host device events e receipt_ts ts scope_key d'
          ≡ (ok none, d')
    append_anchor_receipt_twice e receipt_ts ts scope_key d d' rs o held h =
        called (check_event clock host device events e receipt_ts ts scope_key) refl
          (sym (append-Holds e receipt_ts ts scope_key d rs held) ∙ h)
      where
        Again : Type 0
        Again =
            append_anchor_receipt clock host device events e receipt_ts ts scope_key d'
            ≡ (ok none, d')

        -- The second call, on the rows that it finds.
        second :
            (call : Call) (found : List Row)
            → check_event clock host device events e receipt_ts ts scope_key ≡ ok call
            → Holds host d' found
            → check_existing clock host e receipt_ts call found ≡ ok true
            → Again
        second call found passed held' seen =
            append-Holds e receipt_ts ts scope_key d' found held'
            ∙ (ap (λ m. append_verified clock host device events e receipt_ts ts m (ok found) d')
                  passed
                ∙ ap (λ m. append_new clock host device events e receipt_ts ts call found m d')
                    seen)

        existing :
            (call : Call) (m : Result Bool)
            → check_event clock host device events e receipt_ts ts scope_key ≡ ok call
            → check_existing clock host e receipt_ts call rs ≡ m
            → append_new clock host device events e receipt_ts ts call rs m d ≡ (ok o, d')
            → Again
        existing call (err raised) passed same k =
            absurd (err-ne-ok _ _ (ap (λ (z : Result (Option Row) × Disk). z.0) k))
        existing call (ok true) passed same k =
            second call rs passed
              (subst (λ (s : Disk). Holds host s rs)
                (ap (λ (z : Result (Option Row) × Disk). z.1) k) held)
              same
        existing call (ok false) passed same k =
            elim (append_behind-Adds e call.id receipt_ts ts d rs held) [
              | inl (raised, failed) ↦ absurd (
                  err-ne-ok _ _ (
                    sym (ap (λ (z : Result (Option Row) × Disk). z.0) failed)
                    ∙ ap (λ (z : Result (Option Row) × Disk). z.0) k))
              | inr (row, returned, held', q, time, body) ↦
                  second call (rs ++ (row ∷ [])) passed
                    (subst (λ (s : Disk). Holds host s (rs ++ (row ∷ [])))
                      (ap (λ (z : Result (Option Row) × Disk). z.1) k) held')
                    (check_existing-again e receipt_ts call rs row same body)
            ]

        called :
            (m : Result Call)
            → check_event clock host device events e receipt_ts ts scope_key ≡ m
            → append_verified clock host device events e receipt_ts ts m (ok rs) d ≡ (ok o, d')
            → Again
        called (err raised) same k =
            absurd (err-ne-ok _ _ (ap (λ (z : Result (Option Row) × Disk). z.0) k))
        called (ok call) same k =
            existing call (check_existing clock host e receipt_ts call rs) same refl k
