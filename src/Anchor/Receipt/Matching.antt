-- ===== src/Anchor/Receipt/Matching.antt =====
-- `receipt_for_event` of src/mybench/anchor/receipt.py on the rows behind which a receipt is appended.
use mybench.Base.{
  Bool, List, Result, [], ap, bytes_eq, err, false, if◌then◌else◌, ledger_error, none, ok,
  receipt_error, refl, some, true, ◌&&◌, ◌++◌, ◌||◌, ◌∙◌, ◌∷◌, ◌≡◌,
}
use mybench.Ledger.{
  Text, Body, genesis, schema_version, session, binding, event, ReceiptColumns, anchor_receipt, Row,
}
use mybench.Anchor.Event.{SignedEvent}
use mybench.Anchor.Receipt.{
  same_identity, is_recorded, receipt_columns, matching, receipt_for_event,
}
use mybench.Anchor.Receipt.Recorded.{same_identity-own}

-- Where `is_recorded` finds nothing, `receipt_for_event` finds nothing.
pub matching-none :
    (e : SignedEvent) (id receipt_ts : Text) (rs more : List Row)
    → is_recorded e id receipt_ts rs ≡ ok false
    → matching (rs ++ more) e ≡ matching more e
unfolding is_recorded matching
matching-none e id receipt_ts [] more h = refl
matching-none e id receipt_ts (row ∷ rs) more h =
    go row.body h (matching-none e id receipt_ts rs more)
  where
    one : Body → Result Bool → Result Bool
    one body later = elim body [
      | anchor_receipt c ↦
          if bytes_eq c.receipt_id id || same_identity e c
          then (if bytes_eq c.receipt_id id
                && (same_identity e c && bytes_eq c.receipt_ts receipt_ts)
              then ok true
              else err ledger_error)
          else later
      | _ ↦ later
    ]

    receipt :
        (c : ReceiptColumns) (by_id same exact : Bool) (later : Result Bool)
        → (if by_id || same then (if exact then ok true else err ledger_error) else later)
          ≡ ok false
        → (later ≡ ok false → matching (rs ++ more) e ≡ matching more e)
        → (if same then c ∷ matching (rs ++ more) e else matching (rs ++ more) e) ≡ matching more e
    receipt c true same true later h k = cc
    receipt c true same false later h k = cc
    receipt c false true true later h k = cc
    receipt c false true false later h k = cc
    receipt c false false exact later h k = k h

    go :
        (body : Body)
        → one body (is_recorded e id receipt_ts rs) ≡ ok false
        → (is_recorded e id receipt_ts rs ≡ ok false → matching (rs ++ more) e ≡ matching more e)
        → (elim body [
          | anchor_receipt c ↦
              if same_identity e c then c ∷ matching (rs ++ more) e else matching (rs ++ more) e
          | _ ↦ matching (rs ++ more) e
        ])
          ≡ matching more e
    go genesis h k = k h
    go (schema_version p) h k = k h
    go (session c) h k = k h
    go (binding c) h k = k h
    go (event c) h k = k h
    go (anchor_receipt c) h k =
        receipt c (bytes_eq c.receipt_id id) (same_identity e c)
          (bytes_eq c.receipt_id id && (same_identity e c && bytes_eq c.receipt_ts receipt_ts)) _ h
          k

pub matching-own :
    (e : SignedEvent) (id receipt_ts : Text) (row : Row)
    → row.body ≡ anchor_receipt (receipt_columns e id receipt_ts)
    → matching (row ∷ []) e ≡ receipt_columns e id receipt_ts ∷ []
unfolding matching
matching-own e id receipt_ts row h =
    ap (λ body. elim body [ anchor_receipt c ↦ if same_identity e c then c ∷ [] else [] | _ ↦ [] ])
      h
    ∙ ap (λ b. if b then receipt_columns e id receipt_ts ∷ [] else [])
        (same_identity-own e id receipt_ts)

pub receipt_for_event-own :
    (e : SignedEvent) (id receipt_ts : Text) (rs : List Row) (row : Row)
    → is_recorded e id receipt_ts rs ≡ ok false
    → row.body ≡ anchor_receipt (receipt_columns e id receipt_ts)
    → receipt_for_event (rs ++ (row ∷ [])) e ≡ ok (some (receipt_columns e id receipt_ts))
unfolding receipt_for_event
receipt_for_event-own e id receipt_ts rs row h own =
    ap (λ found. elim found [ [] ↦ ok none | c ∷ [] ↦ ok (some c) | c ∷ _ ∷ _ ↦ err receipt_error ])
      (matching-none e id receipt_ts rs (row ∷ []) h ∙ matching-own e id receipt_ts row own)
