-- ===== src/Nonces/Stored.antt =====
-- A file of nonces that `append_nonce` has written is loaded as those nonces.
use mybench.Base.{
  ==_refl, All, All-append, Bool, Bytes, List, Option, Result, [], ap, append_assoc, arith, err,
  false, insecure_permissions, length, none, ok, refl, refuse, some, suc, sym, true, ℕ, ◌++◌, ◌+◌,
  ◌>>◌, ◌∙◌, ◌∷◌, ◌≡◌,
}
use mybench.Hex.{hex, IsBytes, fromhex-hex}
use mybench.Lines.{newline}
use mybench.Ledger.{Text}
use mybench.Nonces.{
  NonceJson, NonceFile, is_break, splitlines, is_session_id, nonce_of, append_text, load_row,
  load_rows, load_nonces, write_nonce, next_index, append_nonce,
}

-- What is relied on: a row that was written is read back, and its text is one line.
pub record IsNonceJson (json : NonceJson) : Type 0 where
  pub loads-dumps :
      (i : ℕ) (text : Text)
      → json.loads (json.dumps i text) ≡ ok (record { i = some i; nonce = some text })
  pub one_line : (i : ℕ) (text : Text) → All (λ c. is_break c ≡ false) (json.dumps i text)

-- 32 bytes.
abbrev pub IsNonce : Bytes → Type 0
IsNonce n = (length n ≡ 32) × IsBytes n

abbrev pub rows_text : NonceJson → ℕ → List Bytes → Text
rows_text json i [] = []
rows_text json i (n ∷ ns) = json.dumps i (hex n) ++ (newline ∷ rows_text json (suc i) ns)

abbrev pub text_of : Option NonceFile → Text
text_of none = []
text_of (some f) = f.text

abbrev pub loose_file : Option NonceFile → Bool
loose_file none = false
loose_file (some f) = f.loose

-- A private file, or none yet, with one row for each of the nonces.
pub record Stored (json : NonceJson) (ns : List Bytes) (file : Option NonceFile) : Type 0 where
  pub tight : loose_file file ≡ false
  pub text : text_of file ≡ rows_text json 0 ns
  pub nonces : All IsNonce ns

pub splitlines-line :
    (l rest : Text)
    → All (λ c. is_break c ≡ false) l
    → splitlines (l ++ (newline ∷ rest)) ≡ l ∷ splitlines rest
unfolding splitlines
splitlines-line [] rest h = refl
splitlines-line (c ∷ l) rest h = rw (h.0, splitlines-line l rest h.1) refl

module _ (json : NonceJson) (laws : IsNonceJson json) where
  pub load_row-dumps :
      (i : ℕ) (n : Bytes) → IsNonce n → load_row json i (json.dumps i (hex n)) ≡ ok n
  unfolding load_row nonce_of
  load_row-dumps i n h = rw (laws.loads-dumps i (hex n), ==_refl i, fromhex-hex n h.1, h.0) refl

  load_rows-rows_text :
      (i : ℕ) (ns : List Bytes)
      → All IsNonce ns
      → load_rows json i (splitlines (rows_text json i ns)) ≡ ok ns
  unfolding load_rows splitlines
  load_rows-rows_text i [] h = refl
  load_rows-rows_text i (n ∷ ns) h =
      ap (load_rows json i) (
        splitlines-line (json.dumps i (hex n)) (rows_text json (suc i) ns)
          (laws.one_line i (hex n)))
      ∙ rw (load_row-dumps i n h.0, load_rows-rows_text (suc i) ns h.1) refl

  pub load_nonces-Stored :
      (id : Text) (ns : List Bytes) (file : Option NonceFile)
      → is_session_id id ≡ true
      → Stored json ns file
      → load_nonces json id file ≡ ok ns
  unfolding load_nonces load_rows splitlines
  load_nonces-Stored id ns none valid h = rw valid (
      sym (ap (λ t. load_rows json 0 (splitlines t)) (sym h.text))
      ∙ load_rows-rows_text 0 ns h.nonces)
  load_nonces-Stored id ns (some f) valid h =
      rw (valid, h.tight, h.text) (load_rows-rows_text 0 ns h.nonces)

  rows_text-snoc :
      (i : ℕ) (ns : List Bytes) (n : Bytes)
      → rows_text json i ns ++ (json.dumps (i + length ns) (hex n) ++ (newline ∷ []))
        ≡ rows_text json i (ns ++ (n ∷ []))
  rows_text-snoc i [] n = ap (λ k. json.dumps k (hex n) ++ (newline ∷ [])) (omega arith)
  rows_text-snoc i (m ∷ ns) n =
      append_assoc (json.dumps i (hex m)) (newline ∷ rows_text json (suc i) ns) _
      ∙ ap (λ t. json.dumps i (hex m) ++ (newline ∷ t))
          (ap (λ k. rows_text json (suc i) ns ++ (json.dumps k (hex n) ++ (newline ∷ [])))
              {y = suc i + length ns} (omega arith)
            ∙ rows_text-snoc (suc i) ns n)

  -- A nonce is appended behind the nonces that the file has, under their number.
  pub append_nonce-Stored :
      (id : Text) (ns : List Bytes) (n : Bytes) (file : Option NonceFile)
      → is_session_id id ≡ true
      → IsNonce n
      → Stored json ns file
      → (file' : Option NonceFile) × (append_nonce json id n file ≡ (ok (length ns), file'))
        × Stored json (ns ++ (n ∷ [])) file'
  unfolding append_nonce next_index write_nonce
  append_nonce-Stored id ns n file valid good h = (
    some (append_text row file),
    ap outcome next
        ∙ ap (λ b. (refuse b insecure_permissions >> ok (length ns), some (append_text row file)))
            (written_tight file h.tight),
    record {
      tight = written_tight file h.tight;
      text =
          written_text file
          ∙ (ap (λ t. t ++ row) h.text
              ∙ (ap (λ k. rows_text json 0 ns ++ (json.dumps k (hex n) ++ (newline ∷ [])))
                    {y = 0 + length ns} (omega arith)
                  ∙ rows_text-snoc 0 ns n));
      nonces = All-append IsNonce ns (n ∷ []) h.nonces (good, tt);
    },
  )
    where
      row : Text
      row = json.dumps (length ns) (hex n) ++ (newline ∷ [])

      next : next_index json id n file ≡ ok (length ns)
      next = rw (good.0, load_nonces-Stored id ns file valid h) refl

      outcome : Result ℕ → Result ℕ × Option NonceFile
      outcome m = elim m [ err e ↦ (err e, file) | ok index ↦ write_nonce json n index file ]

      written_tight :
          (file : Option NonceFile) → loose_file file ≡ false → (append_text row file).loose ≡ false
      written_tight none h = refl
      written_tight (some f) h = h

      written_text : (file : Option NonceFile) → (append_text row file).text ≡ text_of file ++ row
      written_text none = refl
      written_text (some f) = refl

  -- On a file that holds nonces, `append_nonce` of 32 bytes returns their number, and the file then
  -- loads as the old nonces with the new one behind them.
  pub load_nonces-append_nonce :
      (id : Text) (ns : List Bytes) (n : Bytes) (file : Option NonceFile)
      → is_session_id id ≡ true
      → IsNonce n
      → Stored json ns file
      → ((append_nonce json id n file).0 ≡ ok (length ns))
        × (load_nonces json id (append_nonce json id n file).1 ≡ ok (ns ++ (n ∷ [])))
  load_nonces-append_nonce id ns n file valid good h =
      let (file', e, stored) = append_nonce-Stored id ns n file valid good h in
      (
        ap (λ o. o.0) e,
        ap (λ o. load_nonces json id o.1) e
            ∙ load_nonces-Stored id (ns ++ (n ∷ [])) file' valid stored,
      )
