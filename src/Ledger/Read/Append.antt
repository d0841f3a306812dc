-- ===== src/Ledger/Read/Append.antt =====
-- Reading a file to which a line, or the front of a line, has been added.
use mybench.Base.{
  >>=-eq-ok, Bool, Bytes, List, [], ap, arith, err, length, ok, ok_injective, refl, some, subst,
  sym, torn_tail_error, true, ◌++◌, ◌+◌, ◌>>=◌, ◌∷◌, ◌≡◌, ◌≢◌,
}
use mybench.Lines.{
  split_lines, pop_empty, IsLine, newline, pop_empty-append_line, pop_empty-append_torn,
}
use mybench.Ledger.{Row, parsed, Host}
use mybench.Ledger.Read.{is_last, read_row, read_rows, content_rows}
use mybench.Ledger.Read.Chain.{IsLinked, IsChain, onto}

pub onto-snoc : (rs us : List Row) (r : Row) → onto (rs ++ (r ∷ [])) us ≡ r ∷ onto rs us
onto-snoc [] us r = refl
onto-snoc (x ∷ rs) us r = onto-snoc rs (x ∷ us) r

pub length-onto : (rs us : List Row) → length (onto rs us) ≡ length rs + length us
length-onto [] us = omega arith
length-onto (r ∷ rs) us = omega (arith, length-onto rs (r ∷ us))

module _ (host : Host) where
  -- A chain goes on with a linked row.
  pub IsChain-snoc :
      (rs : List Row) (r : Row)
      → IsChain host (onto rs [])
      → IsLinked host r (onto rs [])
      → IsChain host (onto (rs ++ (r ∷ [])) [])
  IsChain-snoc rs r c l = subst (IsChain host) (sym (onto-snoc rs [] r)) (l, c)

  read_row-any :
      (line : Bytes) (a b : Bool) {row : Row}
      → read_row host line a ≡ ok row
      → read_row host line b ≡ ok row
  unfolding read_row
  read_row-any line a b h = ground arith

  read_row-parsed :
      (line : Bytes) (last : Bool) (r : Row)
      → host.read_line line ≡ parsed r
      → read_row host line last ≡ ok r
  unfolding read_row
  read_row-parsed line last r h = rw (h, read_row)

  read_rows-snoc :
      (ls : List Bytes) (l : Bytes) (r : Row) (rs : List Row)
      → read_rows host ls ≡ ok rs
      → host.read_line l ≡ parsed r
      → read_rows host (ls ++ (l ∷ [])) ≡ ok (rs ++ (r ∷ []))
  unfolding read_rows
  read_rows-snoc [] l r rs h e =
      rw (read_row-parsed l true r e) (ap (λ t. ok (t ++ (r ∷ []))) (ok_injective _ _ h))
  read_rows-snoc (k ∷ ls) l r rs h e =
      let (x, ex, hx) =
        >>=-eq-ok (read_row host k (is_last ls))
          (λ row. read_rows host ls >>= λ rows. ok (row ∷ rows)) h in
      let (xs, exs, same) = >>=-eq-ok (read_rows host ls) (λ rows. ok (x ∷ rows)) hx in
      rw (read_row-any k (is_last ls) (is_last (ls ++ (l ∷ []))) ex, read_rows-snoc ls l r xs exs e)
        (ap (λ t. ok (t ++ (r ∷ []))) (ok_injective _ _ same))

  pub content_rows-eq-ok :
      (content : Bytes) {rs : List Row}
      → content_rows host content ≡ ok rs
      → (ls : List Bytes) × (pop_empty (split_lines content) ≡ some ls)
        × (read_rows host ls ≡ ok rs)
  unfolding content_rows
  content_rows-eq-ok content h = ground arith

  -- One more complete line is one more row.
  pub content_rows-append :
      (content l : Bytes) (r : Row) (rs : List Row)
      → content_rows host content ≡ ok rs
      → host.read_line l ≡ parsed r
      → IsLine l
      → content_rows host (content ++ (l ++ (newline ∷ []))) ≡ ok (rs ++ (r ∷ []))
  unfolding content_rows
  content_rows-append content l r rs h e line =
      let (ls, split, read) = content_rows-eq-ok content h in
      rw (pop_empty-append_line content l ls split line, content_rows)
        (read_rows-snoc ls l r rs read e)

  -- The front of a line, with no newline behind it, is reported as torn.
  pub content_rows-torn :
      (content torn : Bytes) (rs : List Row)
      → content_rows host content ≡ ok rs
      → IsLine torn
      → torn ≢ []
      → content_rows host (content ++ torn) ≡ err torn_tail_error
  unfolding content_rows
  content_rows-torn content torn rs h line some_byte =
      let (ls, split, read) = content_rows-eq-ok content h in
      rw (pop_empty-append_torn content torn ls split line some_byte, content_rows)
