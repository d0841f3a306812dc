-- ===== src/Anchor/Receipt/Recorded.antt =====
-- Rows behind the range of an event, and a receipt that is among them (src/mybench/ledger.py).
use mybench.Base.{
  ==_refl, Bool, List, Result, [], ap, arith, bytes_eq, bytes_eq_refl, drop, err, false,
  if◌then◌else◌, ledger_error, length, length-drop, ok, refl, suc, take, take-front, true, zero, ℕ,
  ◌&&◌, ◌++◌, ◌-◌, ◌||◌, ◌∙◌, ◌∷◌, ◌≡◌, ◌≤◌,
}
use mybench.Ledger.{
  Text, Body, genesis, schema_version, session, binding, event, anchor_receipt, Row,
}
use mybench.Anchor.Batch.{covered_rows}
use mybench.Anchor.Event.{SignedEvent}
use mybench.Anchor.Receipt.{same_identity, is_recorded, receipt_columns}

pub drop-front : (k : ℕ) (xs ys : List Row) → k ≤ length xs → drop k (xs ++ ys) ≡ drop k xs ++ ys
drop-front zero xs ys h = refl
drop-front (suc k) [] ys h = absurd (omega arith)
drop-front (suc k) (x ∷ xs) ys h = drop-front k xs ys (omega arith)

-- Rows behind the end of a range do not change it.
pub covered_rows-append :
    (start end : ℕ) (rs more : List Row)
    → end ≤ length rs
    → start ≤ end
    → covered_rows start end (rs ++ more) ≡ covered_rows start end rs
covered_rows-append start end rs more h k =
    ap (take (end - start)) (drop-front start rs more (omega arith))
    ∙ take-front (end - start) (drop start rs) more (omega (arith, length-drop start rs))

pub same_identity-own :
    (e : SignedEvent) (id receipt_ts : Text)
    → same_identity e (receipt_columns e id receipt_ts) ≡ true
same_identity-own e id receipt_ts =
    rw (==_refl e.row_start, ==_refl e.row_end, bytes_eq_refl e.root) (bytes_eq_refl e.chain_tip)

-- Rows without the receipt say nothing of what is behind them.
pub is_recorded-append :
    (e : SignedEvent) (id receipt_ts : Text) (rs more : List Row)
    → is_recorded e id receipt_ts rs ≡ ok false
    → is_recorded e id receipt_ts (rs ++ more) ≡ is_recorded e id receipt_ts more
unfolding is_recorded
is_recorded-append e id receipt_ts [] more h = refl
is_recorded-append e id receipt_ts (row ∷ rs) more h =
    go row.body h (is_recorded-append e id receipt_ts rs more)
  where
    one : Body → Result Bool → Result Bool
    one body later = elim body [
      | anchor_receipt c ↦
          if bytes_eq c.receipt_id id || same_identity e c
          then (if bytes_eq c.receipt_id id
                && (same_identity e c && bytes_eq c.receipt_ts receipt_ts)
              then ok true
              else err ledger_error)
          else later
      | _ ↦ later
    ]

    receipt :
        (seen exact : Bool) (later all : Result Bool)
        → (if seen then (if exact then ok true else err ledger_error) else later) ≡ ok false
        → (later ≡ ok false → all ≡ is_recorded e id receipt_ts more)
        → (if seen then (if exact then ok true else err ledger_error) else all)
          ≡ is_recorded e id receipt_ts more
    receipt true true later all h k = cc
    receipt true false later all h k = cc
    receipt false exact later all h k = k h

    go :
        (body : Body)
        → one body (is_recorded e id receipt_ts rs) ≡ ok false
        → (is_recorded e id receipt_ts rs ≡ ok false
            → is_recorded e id receipt_ts (rs ++ more) ≡ is_recorded e id receipt_ts more)
        → one body (is_recorded e id receipt_ts (rs ++ more)) ≡ is_recorded e id receipt_ts more
    go genesis h k = k h
    go (schema_version p) h k = k h
    go (session c) h k = k h
    go (binding c) h k = k h
    go (event c) h k = k h
    go (anchor_receipt c) h k =
        receipt (bytes_eq c.receipt_id id || same_identity e c)
          (bytes_eq c.receipt_id id && (same_identity e c && bytes_eq c.receipt_ts receipt_ts)) _ _
          h k

pub is_recorded-own :
    (e : SignedEvent) (id receipt_ts : Text) (row : Row)
    → row.body ≡ anchor_receipt (receipt_columns e id receipt_ts)
    → is_recorded e id receipt_ts (row ∷ []) ≡ ok true
unfolding is_recorded
is_recorded-own e id receipt_ts row h =
    ap
      (λ body. elim body [
        | anchor_receipt c ↦
            if bytes_eq c.receipt_id id || same_identity e c
            then (if bytes_eq c.receipt_id id
                  && (same_identity e c && bytes_eq c.receipt_ts receipt_ts)
                then ok true
                else err ledger_error)
            else ok false
        | _ ↦ ok false
      ])
      h
    ∙ rw (bytes_eq_refl id, same_identity-own e id receipt_ts, bytes_eq_refl receipt_ts) refl
