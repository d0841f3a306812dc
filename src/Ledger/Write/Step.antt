-- ===== src/Ledger/Write/Step.antt =====
-- One appended row: the file holds one more row, and the chain goes on; a refused row changes
-- nothing.
use mybench.Base.{
  Bool-cases, Bytes, List, Option, Result, [], ap, arith, err, err-ne-ok, false, inl, inr, last?,
  ledger_error, length, none, ok, refl, some, subst, suc, sym, true, ℕ, ◌++◌, ◌+◌, ◌==◌, ◌∙◌, ◌∷◌,
  ◌≡◌, ◌⊎◌,
}
use mybench.Lines.{newline, IsLine, split_lines}
use mybench.Ledger.{
  Text, Version, Body, Fields, Row, parsed, Host, IsHost, File, Disk, is_genesis, is_boundary,
  is_v3, row_hash,
}
use mybench.Ledger.Read.{content_rows, read_rows, file_rows, rows}
use mybench.Ledger.Read.Chain.{tip, passed, IsLinked, IsChain, onto}
use mybench.Ledger.Read.Tip.{last?-onto}
use mybench.Ledger.Read.Tip.{last?-onto}
use mybench.Ledger.Read.Append.{content_rows-append, IsChain-snoc}
use mybench.Ledger.Write.{
  content_of, loose_of, append_bytes, line_of, append_row, append_behind, newest,
}

-- The ledger on the disk reads as `rs`, and these are a chain.
pub record Holds (host : Host) (d : Disk) (rs : List Row) : Type 0 where
  pub read : rows host d ≡ ok rs
  pub chain : IsChain host (onto rs [])

-- The row that `append_row` makes of its fields.
abbrev pub hashed : Host → Fields → Row
hashed host f = record { fields = f; h = row_hash host f }

-- What an append that makes the row `r` can do: raise and change nothing, or add the row.
abbrev pub Appends : Host → List Row → Row → Disk → Result Row × Disk → Type 0
Appends host rs r d out =
    (out ≡ (err ledger_error, d))
    ⊎ ((out.0 ≡ ok r) × Holds host out.1 (rs ++ (r ∷ [])) × (out.1.quarantine ≡ d.quarantine))

module _ (host : Host) where
  content_rows-nil : content_rows host [] ≡ ok []
  unfolding content_rows read_rows split_lines
  content_rows-nil = refl

  file_rows-append :
      (file : Option File) (l : Bytes) (r : Row) (rs : List Row)
      → file_rows host file ≡ ok rs
      → host.read_line l ≡ parsed r
      → IsLine l
      → file_rows host (
          some
            (record { loose = loose_of file; content = content_of file ++ (l ++ (newline ∷ [])) }))
        ≡ ok (rs ++ (r ∷ []))
  unfolding file_rows
  file_rows-append none l r rs h e line =
      content_rows-append host [] l r rs (content_rows-nil ∙ h) e line
  file_rows-append (some f) l r rs h e line = elim (Bool-cases f.loose) [
    | inl y ↦ absurd (err-ne-ok _ _ (rw (y, file_rows) at h))
    | inr n ↦
        rw (n, file_rows)
          (content_rows-append host f.content l r rs (rw (n, file_rows) at h) e line)
  ]

  module _ (laws : IsHost host) where
    pub append_row-Appends :
        (f : Fields) (d : Disk) (rs : List Row)
        → Holds host d rs
        → IsLinked host (hashed host f) (onto rs [])
        → Appends host rs (hashed host f) d (append_row host f d)
    unfolding append_row append_bytes line_of rows
    append_row-Appends f d rs held linked = elim (Bool-cases (host.conforms (hashed host f))) [
      | inr no_fit ↦ inl (rw no_fit)
      | inl fits ↦ inr (
          rw fits (
            refl,
            record {
              read =
                  file_rows-append d.ledger (host.dumps (hashed host f)) (hashed host f) rs
                    held.read (laws.read_line-dumps (hashed host f) fits)
                    (laws.dumps-IsLine (hashed host f));
              chain = IsChain-snoc host rs (hashed host f) held.chain linked;
            },
            refl,
          ))
    ]

    -- A row behind the newest one.
    pub append_behind-Appends :
        (ex : List Row) (last : Row) (version : Version) (ts : Text) (body : Body) (d : Disk)
        → Holds host d ex
        → last? ex ≡ some last
        → is_genesis body ≡ false
        → (is_boundary body ≡ true → passed (onto ex []) ≡ false)
        → (is_boundary body ≡ false → is_v3 version ≡ true → passed (onto ex []) ≡ true)
        → let f : Fields = record {
          version = version;
          i = last.i + 1;
          ts = ts;
          prev = last.h;
          body = body;
        } in
          Appends host ex (hashed host f) d (append_behind host ex version ts body d)
    unfolding append_behind newest
    append_behind-Appends ex last version ts body d held at no_genesis once behind =
        let f : Fields = record {
          version = version;
          i = last.i + 1;
          ts = ts;
          prev = last.h;
          body = body;
        } in
        let (older, same) = last?-onto ex [] last at in
        let linked : IsLinked host last older = (subst (IsChain host) same held.chain).0 in
        let grown : length (onto ex []) ≡ suc (length older) = ap length same in
        rw (at, newest, append_behind)
          (append_row-Appends f d ex held (record {
            index = omega (arith, linked.index, grown);
            genesis_first = no_genesis ∙ sym (suc_not_zero _ (length older) grown);
            prev = sym (ap tip same);
            hash = refl;
            order = (once, behind);
          }))
      where
        suc_not_zero : (n m : ℕ) → n ≡ suc m → (n == 0) ≡ false
        suc_not_zero n m e = ground arith
