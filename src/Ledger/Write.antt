-- ===== src/Ledger/Write.antt =====
-- The appending methods of `Ledger`. Each runs under the writer lock, so it is one action on the
-- disk. `ts` is the time that the caller passes, or the clock's where it passes none.
pub mod Step
pub mod Prepare
pub mod Chain
pub mod Event
use mybench.Base.{
  Bool, Bytes, List, Option, Result, [], bytes_eq, err, false, if◌then◌else◌, index_error, last?,
  ledger_error, length, ltb, none, not, ok, refuse, some, true, ◌&&◌, ◌++◌, ◌+◌, ◌==◌, ◌||◌, ◌∷◌,
}
use mybench.Effect.{Effect, pure, raise, reads, ◌>>=◌, ◌>>◌}
use mybench.Hex.{hex}
use mybench.Lines.{newline}
use mybench.Ledger.{
  Text, Version, v1, v2, v3, Provenance, SessionColumns, BindingColumns, EventColumns, Body,
  genesis, schema_version, session, binding, event, Fields, Row, Host, genesis_prev, File, Disk,
  is_boundary, is_v3, row_hash,
}
use mybench.Ledger.Read.{rows}

-- `a < b` on texts, by code points.
unfoldable pub text_lt : Text → Text → Bool
text_lt [] [] = false
text_lt [] (y ∷ ys) = true
text_lt (x ∷ xs) [] = false
text_lt (x ∷ xs) (y ∷ ys) = let rest = text_lt xs ys in ltb x y || ((x == y) && rest)

unfoldable pub insert_text : Text → List Text → List Text
insert_text t [] = t ∷ []
insert_text t (u ∷ us) =
    let rest = insert_text t us in
    if text_lt t u then t ∷ u ∷ us else if bytes_eq t u then u ∷ us else u ∷ rest

-- `sorted(set(models_seen))`
unfoldable pub sorted_set : List Text → List Text
sorted_set [] = []
sorted_set (t ∷ ts) = insert_text t (sorted_set ts)

-- `existing[-1]`
unfoldable pub newest : List Row → Result Row
newest existing = elim (last? existing) [ none ↦ err index_error | some row ↦ ok row ]

-- The bytes of the file, none where there is no file yet.
abbrev pub content_of : Option File → Bytes
content_of none = []
content_of (some f) = f.content

abbrev pub loose_of : Option File → Bool
loose_of none = false
loose_of (some f) = f.loose

-- The one `os.write` of a line at the end of the file, which is created where it is missing.
unfoldable pub append_bytes : Bytes → Disk → Disk
append_bytes line d = record d {
  ledger = some (record { loose = loose_of d.ledger; content = content_of d.ledger ++ line });
}

-- A session's row keeps the root in hexadecimal and the models sorted, each once.
unfoldable pub session_columns : SessionColumns → SessionColumns
session_columns c = record c {
  session_root = hex c.session_root;
  models_seen = sorted_set c.models_seen;
}

abbrev pub evidence_version : Version → Option Provenance → Version
evidence_version default none = default
evidence_version default (some p) = v3

-- The replay key of an event, `(session_id, event_kind, ts)`.
unfoldable pub is_replay : EventColumns → Text → Row → Bool
is_replay c ts row = elim row.body [
  | event e ↦
      bytes_eq e.session_id c.session_id
      && (bytes_eq e.event_kind c.event_kind && bytes_eq row.ts ts)
  | _ ↦ false
]

abbrev pub any {ℓ} : {A : Type ℓ} → (A → Bool) → List A → Bool
any p [] = false
any p (x ∷ xs) = p x || any p xs

abbrev pub boundaries : List Row → List Row
boundaries [] = []
boundaries (r ∷ rs) = if is_boundary r.body then r ∷ boundaries rs else boundaries rs

-- A row of version 3 in front of the schema boundary.
abbrev pub precedes : List Row → Row → Bool
precedes transitions row =
    is_v3 row.version
    && (not (is_boundary row.body) && elim transitions [ [] ↦ true | t ∷ _ ↦ ltb row.i t.i ])

module _ (host : Host) where
  unfoldable pub line_of : Row → Bytes
  line_of row = host.dumps row ++ (newline ∷ [])

  unfoldable pub append_row : Fields → Effect Disk Row
  append_row fields d =
      let row : Row = record { fields = fields; h = row_hash host fields } in
      if host.conforms row then (ok row, append_bytes (line_of row) d) else (err ledger_error, d)

  unfoldable pub ensure_genesis : List Row → Text → Effect Disk (List Row)
  ensure_genesis [] ts = do
    row ← append_row (record { version = v1; i = 0; ts = ts; prev = genesis_prev; body = genesis })
    pure (row ∷ [])
  ensure_genesis (r ∷ rs) ts = pure (r ∷ rs)

  -- The last part of `_prepare_provenance_rows`: the boundary is written where there is none.
  unfoldable pub ensure_boundary : List Row → List Row → Text → Provenance → Effect Disk (List Row)
  ensure_boundary (t ∷ ts') existing ts p = pure existing
  ensure_boundary [] existing ts p = do
    last ← reads (λ _. newest existing)
    row ←
        append_row
          (record { version = v3; i = last.i + 1; ts = ts; prev = last.h; body = schema_version p })
    pure (existing ++ (row ∷ []))

  unfoldable pub prepare_provenance_rows : List Row → Text → Provenance → Effect Disk (List Row)
  prepare_provenance_rows none_yet ts p = do
    existing ← ensure_genesis none_yet ts
    let transitions = boundaries existing
    reads (λ _. refuse (ltb 1 (length transitions)) ledger_error)
    reads (λ _. refuse (any (precedes transitions) existing) ledger_error)
    ensure_boundary transitions existing ts p

  -- The rows in front of the new one, for evidence with or without an explicit provenance.
  unfoldable pub prepare : List Row → Text → Option Provenance → Effect Disk (List Row)
  prepare existing ts none = ensure_genesis existing ts
  prepare existing ts (some p) = prepare_provenance_rows existing ts p

  -- The new row itself, behind the newest of `existing`.
  unfoldable pub append_behind : List Row → Version → Text → Body → Effect Disk Row
  append_behind existing version ts body = do
    last ← reads (λ _. newest existing)
    append_row (record { version = version; i = last.i + 1; ts = ts; prev = last.h; body = body })

  unfoldable pub append_session : SessionColumns → Text → Effect Disk Row
  append_session c ts = do
    read ← reads (rows host)
    existing ← prepare read ts c.provenance
    append_behind existing (evidence_version v2 c.provenance) ts (session (session_columns c))

  unfoldable pub append_binding : BindingColumns → Text → Effect Disk Row
  append_binding c ts = do
    read ← reads (rows host)
    existing ← prepare read ts c.provenance
    append_behind existing (evidence_version v1 c.provenance) ts (binding c)

  -- `none` says that the event was there already.
  unfoldable pub append_event : EventColumns → Text → Effect Disk (Option Row)
  append_event c ts = do
    read ← reads (rows host)
    if any (is_replay c ts) read then pure none else do
      existing ← ensure_genesis read ts
      row ← append_behind existing v2 ts (event c)
      pure (some row)
