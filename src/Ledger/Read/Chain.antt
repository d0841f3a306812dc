-- ===== src/Ledger/Read/Chain.antt =====
-- What `verify_chain` checks, said without its loop: the rows, the newest first, are linked.
use mybench.Base.{
  ==_iff, >>=-eq-ok, Bool, Bool-cases, Error, List, Result, [], ap, arith, bytes_eq, bytes_eq_iff,
  false, if◌then◌else◌, inl, inr, ledger_error, length, none, not, ok, refl, refuse, suc, sym,
  torn_tail_error, true, ◌==◌, ◌>>◌, ◌||◌, ◌↔◌, ◌∙◌, ◌∷◌, ◌≡◌,
}
use mybench.Ledger.{Text, Row, Host, genesis_prev, is_genesis, is_boundary, is_v3, row_hash}
use mybench.Ledger.Read.{bool_eq, is_last, boundary_check, check_row, check_rows, verify_rows}

-- The hash that the next row must carry, and whether the schema boundary has been passed.
abbrev pub tip : List Row → Text
tip [] = genesis_prev
tip (row ∷ older) = row.h

abbrev pub passed : List Row → Bool
passed [] = false
passed (row ∷ older) = is_boundary row.body || passed older

-- A row that carries the version 3 stands behind the one schema boundary.
abbrev pub BoundaryOrder : Row → List Row → Type 0
BoundaryOrder row older =
    (is_boundary row.body ≡ true → passed older ≡ false)
    × (is_boundary row.body ≡ false → is_v3 row.version ≡ true → passed older ≡ true)

pub record IsLinked (host : Host) (row : Row) (older : List Row) : Type 0 where
  pub index : row.i ≡ length older
  pub genesis_first : is_genesis row.body ≡ (length older == 0)
  pub prev : row.prev ≡ tip older
  pub hash : row_hash host row.fields ≡ row.h
  pub order : BoundaryOrder row older

-- A chain, the newest row first.
abbrev pub IsChain : Host → List Row → Type 0
IsChain host [] = Unit
IsChain host (row ∷ older) = IsLinked host row older × IsChain host older

-- `rest` turned round in front of `older`.
abbrev pub onto : List Row → List Row → List Row
onto [] older = older
onto (row ∷ rest) older = onto rest (row ∷ older)

four_checks :
    (a b c d : Bool) (e : Error) (k : Result Bool) {s : Bool}
    → (refuse (not a) ledger_error
        >> (refuse (not b) ledger_error
            >> (refuse (not c) ledger_error >> (refuse (not d) e >> k))))
      ≡ ok s
    → (a ≡ true) × (b ≡ true) × (c ≡ true) × (d ≡ true) × (k ≡ ok s)
four_checks true true true true e k h = (refl, refl, refl, refl, h)
four_checks true true true false e k h = cc
four_checks true true false d e k h = cc
four_checks true false c d e k h = cc
four_checks false b c d e k h = cc

bool_eq-eq : (a b : Bool) → bool_eq a b ≡ true → a ≡ b
bool_eq-eq true b h = sym h
bool_eq-eq false true h = cc
bool_eq-eq false false h = refl

bool_eq_refl : (a : Bool) → bool_eq a a ≡ true
bool_eq_refl true = refl
bool_eq_refl false = refl

boundary_check-eq-ok :
    (row : Row) (older : List Row) {seen : Bool}
    → boundary_check row (passed older) ≡ ok seen
    → BoundaryOrder row older × (seen ≡ passed (row ∷ older))
unfolding boundary_check
boundary_check-eq-ok row older h = ground arith

boundary_check-order :
    (row : Row) (older : List Row)
    → BoundaryOrder row older
    → boundary_check row (passed older) ≡ ok (passed (row ∷ older))
unfolding boundary_check
boundary_check-order row older (once, behind) = elim (Bool-cases (is_boundary row.body)) [
  | inl y ↦ rw (y, once y) refl
  | inr n ↦ elim (Bool-cases (is_v3 row.version)) [
    | inl y ↦ rw (n, y, behind n y) refl
    | inr m ↦ rw (n, m) refl
  ]
]

module _ (host : Host) where
  IsChain-onto : (rest older : List Row) → IsChain host (onto rest older) → IsChain host older
  IsChain-onto [] older c = c
  IsChain-onto (row ∷ rest) older c = (IsChain-onto rest (row ∷ older) c).1

  -- One round of the loop accepts exactly a linked row.
  pub check_row-eq-ok :
      (row : Row) (older : List Row) (last : Bool) {seen : Bool}
      → check_row host (length older) (tip older) (passed older) last row ≡ ok seen
      → IsLinked host row older × (seen ≡ passed (row ∷ older))
  unfolding check_row
  check_row-eq-ok row older last h =
      let (index, first, prev, hash, boundary) =
        four_checks (row.i == length older) (bool_eq (is_genesis row.body) (length older == 0))
          (bytes_eq row.prev (tip older)) (bytes_eq (row_hash host row.fields) row.h)
          (if last then torn_tail_error else ledger_error) (boundary_check row (passed older)) h in
      let (order, same) = boundary_check-eq-ok row older boundary in
      (
        record {
          index = (==_iff _ _).0 index;
          genesis_first = bool_eq-eq _ _ first;
          prev = (bytes_eq_iff _ _).0 prev;
          hash = (bytes_eq_iff _ _).0 hash;
          order = order;
        },
        same,
      )

  pub check_row-linked :
      (row : Row) (older : List Row) (last : Bool)
      → IsLinked host row older
      → check_row host (length older) (tip older) (passed older) last row
        ≡ ok (passed (row ∷ older))
  unfolding check_row
  check_row-linked row older last l =
      rw
        (
          (==_iff _ _).1 l.index,
          ap (λ b. bool_eq b (length older == 0)) l.genesis_first
              ∙ bool_eq_refl (length older == 0),
          (bytes_eq_iff _ _).1 l.prev,
          (bytes_eq_iff _ _).1 l.hash,
        )
        (boundary_check-order row older l.order)

  check_rows-eq-ok :
      (rest older : List Row)
      → IsChain host older
      → check_rows host (length older) (tip older) (passed older) rest ≡ ok tt
      → IsChain host (onto rest older)
  unfolding check_rows
  check_rows-eq-ok [] older c h = c
  check_rows-eq-ok (row ∷ rest) older c h =
      let (seen, e, k) =
        >>=-eq-ok (check_row host (length older) (tip older) (passed older) (is_last rest) row)
          (λ s. check_rows host (suc (length older)) row.h s rest) h in
      let (linked, same) = check_row-eq-ok row older (is_last rest) e in
      check_rows-eq-ok rest (row ∷ older) (linked, c)
        (ap (λ s. check_rows host (suc (length older)) row.h s rest) (sym same) ∙ k)

  check_rows-chain :
      (rest older : List Row)
      → IsChain host (onto rest older)
      → check_rows host (length older) (tip older) (passed older) rest ≡ ok tt
  unfolding check_rows
  check_rows-chain [] older c = refl
  check_rows-chain (row ∷ rest) older c =
      rw (check_row-linked row older (is_last rest) (IsChain-onto rest (row ∷ older) c).0)
        (check_rows-chain rest (row ∷ older) c)

  -- Without an expected tip, the check passes on exactly the chains, and gives their length.
  pub verify_rows_iff :
      (rs : List Row) → (verify_rows host none rs ≡ ok (length rs)) ↔ IsChain host (onto rs [])
  unfolding verify_rows
  verify_rows_iff rs = (
    λ h.
        let (u, e, k) =
          >>=-eq-ok (check_rows host 0 genesis_prev false rs) (λ _. ok (length rs)) h in
        check_rows-eq-ok rs [] tt e,
    λ c. rw (check_rows-chain rs [] c),
  )
