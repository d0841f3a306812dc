-- ===== src/Ledger/Recover/Loop.antt =====
-- `recover` ends by its own test, loses no byte, and leaves what `verify_chain` passes.
use mybench.Base.{
  Bool-cases, Bytes, Error, List, Result, Result-cases, [], ap, append-nil, append_assoc, arith,
  drop, err, false, inl, inr, length, length-append, length-take, none, ok, refl, some, subst, suc,
  sym, take, take-append-drop, true, zero, ℕ, ◌++◌, ◌+◌, ◌<◌, ◌∙◌, ◌∷◌, ◌≡◌, ◌≢◌, ◌⊎◌,
}
use mybench.Lines.{split_lines}
use mybench.Ledger.{Host, File, Disk}
use mybench.Ledger.Read.{
  content_rows, read_rows, file_rows, rows, check_rows, verify_rows, verify_chain,
}
use mybench.Ledger.Recover.{boundary, is_torn, cut, recover_loop, recover_file, recover}
use mybench.Ledger.Recover.Boundary.{boundary-lt}

-- The pieces in the order in which they were cut off, and in the order of the file.
abbrev pub flat : List Bytes → Bytes
flat [] = []
flat (p ∷ ps) = p ++ flat ps

abbrev pub back : List Bytes → Bytes
back [] = []
back (p ∷ ps) = back ps ++ p

-- How a run ends: the count of bytes with a ledger that passes the check, or the error of the
-- check, which is not that of a torn end.
abbrev pub Ends : Host → ℕ → Result ℕ × Disk → Type 0
Ends host count out =
    ((out.0 ≡ ok count) × (n : ℕ) × (verify_chain host none out.1 ≡ ok n))
    ⊎ ((e : Error) × (out.0 ≡ err e) × (verify_chain host none out.1 ≡ err e) × (is_torn e ≡ false))

-- The file is a front of the old one, and the quarantine has got the rest, piece by piece.
pub record Repairs (host : Host) (f : File) (d : Disk) (before : ℕ) (out : Result ℕ × Disk)
    : Type 0 where
  pub file : File
  pub pieces : List Bytes
  pub on_disk : out.1.ledger ≡ some file
  pub content : f.content ≡ file.content ++ back pieces
  pub quarantine : out.1.quarantine ≡ d.quarantine ++ flat pieces
  pub ends : Ends host (before + length (back pieces)) out

module _ (host : Host) where
  verify_chain-nil :
      (f : File) (d : Disk) (e : Error)
      → d.ledger ≡ some f
      → verify_chain host none d ≡ err e
      → is_torn e ≡ true
      → f.content ≢ []
  unfolding verify_chain rows file_rows content_rows read_rows split_lines verify_rows check_rows
  verify_chain-nil f d e at h torn empty = elim (Bool-cases f.loose) [
    | inl y ↦ ground arith
    | inr n ↦ ground arith
  ]

  recover_loop-Repairs :
      (fuel : ℕ) (f : File) (d : Disk) (before : ℕ)
      → d.ledger ≡ some f
      → length f.content < fuel
      → Repairs host f d before (recover_loop host fuel f d before)
  unfolding recover_loop cut
  recover_loop-Repairs zero f d before at enough = absurd (omega arith)
  recover_loop-Repairs (suc fuel) f d before at enough =
      elim (Result-cases (verify_chain host none d)) [
        | inl (n, e) ↦
            rw (e, recover_loop)
              (record {
                file = f;
                pieces = [];
                on_disk = at;
                content = sym (append-nil f.content);
                quarantine = sym (append-nil d.quarantine);
                ends = inl (ap ok (omega arith), n, e);
              })
        | inr (x, e) ↦ elim (Bool-cases (is_torn x)) [
          | inr other ↦
              rw (e, recover_loop)
                (rw other (record {
                  file = f;
                  pieces = [];
                  on_disk = at;
                  content = sym (append-nil f.content);
                  quarantine = sym (append-nil d.quarantine);
                  ends = inr (x, refl, e, other);
                }))
          | inl torn ↦
              let n : ℕ = boundary f.content in
              let less = boundary-lt f.content (verify_chain-nil f d x at e torn) in
              let f' : File = record f { content = take n f.content } in
              let r =
                recover_loop-Repairs fuel f' (cut f n d) (before + length (drop n f.content)) refl
                  (omega (arith, length-take n f.content)) in
              rw (e, recover_loop)
                (rw torn (record {
                  file = r.file;
                  pieces = drop n f.content ∷ r.pieces;
                  on_disk = r.on_disk;
                  content =
                      sym (take-append-drop n f.content)
                      ∙ (ap (λ z. z ++ drop n f.content) r.content
                          ∙ append_assoc r.file.content (back r.pieces) (drop n f.content));
                  quarantine =
                      r.quarantine ∙ append_assoc d.quarantine (drop n f.content) (flat r.pieces);
                  ends =
                      subst
                        (λ k. Ends host k (
                          recover_loop host fuel f' (cut f n d)
                            (before + length (drop n f.content))))
                        (omega (arith, length-append (back r.pieces) (drop n f.content))) r.ends;
                }))
        ]
      ]

  -- Recovery of a ledger file always ends. The file that is left is a front of the old one, the
  -- quarantine has got every byte that was cut off, and either the file passes the check and the
  -- count is that of the bytes cut off, or the check's error, of another kind than a torn end, is
  -- raised.
  pub recover-Repairs :
      (f : File) (d : Disk) → d.ledger ≡ some f → Repairs host f d 0 (recover host d)
  unfolding recover recover_file
  recover-Repairs f d at =
      subst (λ o. Repairs host f d 0 (recover_file host o d)) (sym at)
        (recover_loop-Repairs (suc (length f.content)) f d 0 at (omega arith))
