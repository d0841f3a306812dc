-- ===== src/Ledger/Read.antt =====
-- `Ledger.rows` and `Ledger.verify_chain`.
pub mod Chain
pub mod Tip
pub mod Append
use mybench.Base.{
  Bool, Bytes, List, Option, Result, [], bytes_eq, err, false, if◌then◌else◌, insecure_permissions,
  last?, ledger_error, length, none, not, ok, refuse, some, suc, torn_tail_error, true, ℕ, ◌&&◌,
  ◌==◌, ◌>>=◌, ◌>>◌, ◌∷◌,
}
use mybench.Lines.{split_lines, pop_empty}
use mybench.Ledger.{
  Text, Row, Parsed, unparseable, violation, parsed, Host, genesis_prev, File, Disk, Body, genesis,
  schema_version, is_genesis, is_boundary, is_v3, row_hash,
}

abbrev pub bool_eq : Bool → Bool → Bool
bool_eq true b = b
bool_eq false b = not b

abbrev pub is_last {ℓ} : {A : Type ℓ} → List A → Bool
is_last [] = true
is_last (x ∷ xs) = false

-- The part of the loop's body on the schema boundary: whether it has been seen after the row.
unfoldable pub boundary_check : Row → Bool → Result Bool
boundary_check row seen =
    if is_boundary row.body
    then (refuse seen ledger_error >> ok true)
    else (refuse (is_v3 row.version && not seen) ledger_error >> ok seen)

abbrev pub tip_matches : Option Text → List Row → Bool
tip_matches none rs = true
tip_matches (some tip) rs = elim (last? rs) [ none ↦ false | some row ↦ bytes_eq row.h tip ]

module _ (host : Host) where
  -- One line of the loop in `rows`; `last` says that none follows.
  unfoldable pub read_row : Bytes → Bool → Result Row
  read_row line last = elim (host.read_line line) [
    | unparseable ↦ err (if last then torn_tail_error else ledger_error)
    | violation ↦ err ledger_error
    | parsed row ↦ ok row
  ]

  unfoldable pub read_rows : List Bytes → Result (List Row)
  read_rows [] = ok []
  read_rows (line ∷ lines) =
      read_row line (is_last lines) >>= λ row. read_rows lines >>= λ rows. ok (row ∷ rows)

  -- The lines of the file; without a newline at the end the final row is torn.
  unfoldable pub content_rows : Bytes → Result (List Row)
  content_rows content = elim (pop_empty (split_lines content)) [
    | none ↦ err torn_tail_error
    | some lines ↦ read_rows lines
  ]

  unfoldable pub file_rows : Option File → Result (List Row)
  file_rows none = ok []
  file_rows (some f) = if f.loose then err insecure_permissions else content_rows f.content

  unfoldable pub rows : Disk → Result (List Row)
  unfolding file_rows
  rows d = file_rows d.ledger

  -- The loop's body: `n` is the index, `prev` the hash that is expected, `last` marks the final row.
  unfoldable pub check_row : ℕ → Text → Bool → Bool → Row → Result Bool
  check_row n prev seen last row = do
    refuse (not (row.i == n)) ledger_error
    refuse (not (bool_eq (is_genesis row.body) (n == 0))) ledger_error
    refuse (not (bytes_eq row.prev prev)) ledger_error
    refuse (not (bytes_eq (row_hash host row.fields) row.h))
        (if last then torn_tail_error else ledger_error)
    boundary_check row seen

  unfoldable pub check_rows : ℕ → Text → Bool → List Row → Result (Unit {0})
  check_rows n prev seen [] = ok tt
  check_rows n prev seen (row ∷ rest) =
      check_row n prev seen (is_last rest) row >>= λ seen'. check_rows (suc n) row.h seen' rest

  -- `verify_chain` on the rows that were read.
  unfoldable pub verify_rows : Option Text → List Row → Result ℕ
  verify_rows expect_tip rs = do
    check_rows 0 genesis_prev false rs
    refuse (not (tip_matches expect_tip rs)) ledger_error
    ok (length rs)

  unfoldable pub verify_chain : Option Text → Disk → Result ℕ
  verify_chain expect_tip d = rows d >>= λ rs. verify_rows expect_tip rs
