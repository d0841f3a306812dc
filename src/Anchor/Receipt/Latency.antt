-- ===== src/Anchor/Receipt/Latency.antt =====
-- The receipt that was appended is the one that receipt.py finds, and its latencies hold together.
use mathlib.Core.Option.{some-injective}
use mybench.Base.{
  >>=-eq-ok, Bool, Bytes, Error, List, Option, Result, [], ap, err, err-ne-ok, false, inl, inr,
  ledger_error, none, ok, ok_injective, refl, some, subst, sym, true, ◌++◌, ◌∙◌, ◌∷◌, ◌≡◌,
}
use mybench.Ledger.{Text, Row, Host, IsHost, Disk}
use mybench.Ledger.Read.{rows}
use mybench.Ledger.Write.Step.{Holds}
use mybench.Anchor.Batch.{Device}
use mybench.Anchor.Event.{SignedEvent, EventHost, verify_event}
use mybench.Anchor.Receipt.{
  ReceiptHost, Call, ReceiptLatencies, as_ledger_error, parse_utc, anchor_receipt_id, check_event,
  check_existing, append_new, append_verified, append_anchor_receipt, derive_receipt_latencies,
}
use mybench.Anchor.Receipt.Append.{append_behind-Adds, append-Holds}
use mybench.Anchor.Receipt.Times.{covered-IsLatencies, IsLatencies}

module _ (clock : ReceiptHost) where
  module _ (host : Host) (device : Device) (events : EventHost) (laws : IsHost host) where
    check_event-time :
        (e : SignedEvent) (receipt_ts ts : Text) (scope_key : Bytes) (call : Call)
        → check_event clock host device events e receipt_ts ts scope_key ≡ ok call
        → parse_utc clock ledger_error receipt_ts ≡ ok call.receipt_time
    unfolding check_event
    check_event-time e receipt_ts ts scope_key call h =
        let (u, _, h1) = >>=-eq-ok (as_ledger_error (verify_event device events e)) _ h in
        let (t, parsed, h2) = >>=-eq-ok (parse_utc clock ledger_error receipt_ts) _ h1 in
        let (a, _, h3) = >>=-eq-ok (parse_utc clock ledger_error ts) _ h2 in
        let (id, _, h4) = >>=-eq-ok (anchor_receipt_id clock e.event scope_key) _ h3 in
        parsed
        ∙ ap (λ (c : Call). ok c.receipt_time)
            (ok_injective (record { receipt_time = t; append_time = a; id = id }) call h4)

    -- When `append_anchor_receipt` has returned a row: on the rows that the ledger then holds,
    -- `derive_receipt_latencies` finds that receipt and returns an interval for each row of the
    -- event's range, none less than the batch's.
    pub derive_receipt_latencies-append_anchor_receipt :
        (e : SignedEvent) (receipt_ts ts : Text) (scope_key : Bytes) (d d' : Disk) (rs : List Row)
        (row : Row)
        → Holds host d rs
        → append_anchor_receipt clock host device events e receipt_ts ts scope_key d
          ≡ (ok (some row), d')
        → (rows host d' ≡ ok (rs ++ (row ∷ [])))
          × (l : ReceiptLatencies) × (derive_receipt_latencies clock (rs ++ (row ∷ [])) e
              ≡ ok (some l))
          × IsLatencies clock e l
    derive_receipt_latencies-append_anchor_receipt e receipt_ts ts scope_key d d' rs row held h =
        called (check_event clock host device events e receipt_ts ts scope_key) refl
          (sym (append-Holds clock host device events laws e receipt_ts ts scope_key d rs held) ∙ h)
      where
        Derived : Type 0
        Derived =
            (rows host d' ≡ ok (rs ++ (row ∷ [])))
            × (l : ReceiptLatencies) × (derive_receipt_latencies clock (rs ++ (row ∷ [])) e
                ≡ ok (some l))
            × IsLatencies clock e l

        raised-none :
            {B : Type 0} (x : Error) (s : Disk)
            → ◌≡◌ {A = Result (Option Row) × Disk} (err x, s) (ok (some row), d')
            → B
        raised-none x s k = absurd (err-ne-ok _ _ (ap (λ (z : Result (Option Row) × Disk). z.0) k))

        recorded :
            (o : Option Row) (s : Disk)
            → ◌≡◌ {A = Result (Option Row) × Disk} (ok o, s) (ok (some row), d')
            → o ≡ some row
        recorded o s k = ok_injective _ _ (ap (λ (z : Result (Option Row) × Disk). z.0) k)

        existing :
            (call : Call) (m : Result Bool)
            → parse_utc clock ledger_error receipt_ts ≡ ok call.receipt_time
            → check_existing clock host e receipt_ts call rs ≡ m
            → append_new clock host device events e receipt_ts ts call rs m d ≡ (ok (some row), d')
            → Derived
        existing call (err x) parsed same k = raised-none x d k
        existing call (ok true) parsed same k = absurd (none-ne (recorded none d k))
          where
            none-ne : none ≡ some row → ⊥
            none-ne j = cc
        existing call (ok false) parsed same k =
            elim (append_behind-Adds clock host device events laws e call.id receipt_ts ts d rs
              held) [
                | inl (x, failed) ↦ raised-none x d (sym failed ∙ k)
                | inr (row', returned, held', q, time, body) ↦
                    let mine : row' ≡ row = some-injective row' row (
                      ok_injective _ _
                        (sym returned ∙ ap (λ (z : Result (Option Row) × Disk). z.0) k)) in
                    let (l, derived, good) =
                      covered-IsLatencies clock host e receipt_ts call rs row parsed same
                        (ap (λ (r : Row). r.body) (sym mine) ∙ body) in
                    (
                      subst (λ (r : Row). rows host d' ≡ ok (rs ++ (r ∷ []))) mine
                          (subst (λ (s : Disk). rows host s ≡ ok (rs ++ (row' ∷ [])))
                            (ap (λ (z : Result (Option Row) × Disk). z.1) k) held'.read),
                      l,
                      derived,
                      good,
                    )
              ]

        called :
            (m : Result Call)
            → check_event clock host device events e receipt_ts ts scope_key ≡ m
            → append_verified clock host device events e receipt_ts ts m (ok rs) d
              ≡ (ok (some row), d')
            → Derived
        called (err x) same k = raised-none x d k
        called (ok call) same k =
            existing call (check_existing clock host e receipt_ts call rs)
              (check_event-time e receipt_ts ts scope_key call same) refl k
