-- ===== src/Nonces/Torn.antt =====
-- A nonce file whose last row has lost its newline, as a crash in `append_nonce` can leave it.
use mybench.Base.{
  All, All-append, Bytes, List, Option, Result, [], ap, append_assoc, arith, bind-ok, err, false,
  insecure_permissions, length, ok, refl, refuse, some, suc, sym, true, value_error, ℕ, ◌++◌, ◌+◌,
  ◌>>=◌, ◌>>◌, ◌∙◌, ◌∷◌, ◌≡◌, ◌≢◌,
}
use mybench.Hex.{hex}
use mybench.Lines.{newline}
use mybench.Ledger.{Text}
use mybench.Nonces.{
  NonceJson, NonceFile, is_break, splitlines, is_session_id, append_text, load_row, load_rows,
  load_nonces, write_nonce, next_index, append_nonce,
}
use mybench.Nonces.Stored.{IsNonceJson, IsNonce, rows_text, splitlines-line, load_row-dumps}

-- The codec refuses two rows on one line, and a row is not empty.
pub record IsOneValue (json : NonceJson) : Type 0 where
  pub glued :
      (i j : ℕ) (t u : Text) → json.loads (json.dumps i t ++ json.dumps j u) ≡ err value_error
  pub some_char : (i : ℕ) (t : Text) → json.dumps i t ≢ []

splitlines-end : (l : Text) → All (λ c. is_break c ≡ false) l → l ≢ [] → splitlines l ≡ l ∷ []
unfolding splitlines
splitlines-end [] h n = absurd (n refl)
splitlines-end (c ∷ []) h n = rw h.0 refl
splitlines-end (c ∷ d ∷ l) h n = rw (h.0, splitlines-end (d ∷ l) h.1 (λ e. cc)) refl

-- A private file whose last row has no newline.
abbrev pub torn_file : NonceJson → List Bytes → Bytes → NonceFile
torn_file json ns n = record {
  loose = false;
  text = rows_text json 0 ns ++ json.dumps (0 + length ns) (hex n);
}

module _ (json : NonceJson) (laws : IsNonceJson json) (one : IsOneValue json) where
  -- Rows in front of any text are loaded first.
  load_rows-front :
      (i : ℕ) (ns : List Bytes) (t : Text)
      → All IsNonce ns
      → load_rows json i (splitlines (rows_text json i ns ++ t))
        ≡ (load_rows json (i + length ns) (splitlines t) >>= λ rest. ok (ns ++ rest))
  unfolding load_rows
  load_rows-front i [] t h =
      ap (λ k. load_rows json k (splitlines t)) {y = i + 0} (omega arith)
      ∙ sym (bind-ok (load_rows json (i + 0) (splitlines t)))
  load_rows-front i (n ∷ ns) t h =
      ap (λ u. load_rows json i (splitlines u))
        (append_assoc (json.dumps i (hex n)) (newline ∷ rows_text json (suc i) ns) t)
      ∙ (ap (load_rows json i) (
            splitlines-line (json.dumps i (hex n)) (rows_text json (suc i) ns ++ t)
              (laws.one_line i (hex n)))
          ∙ rw (load_row-dumps json laws i n h.0, load_rows-front (suc i) ns t h.1)
              (behind (load_rows json (suc i + length ns) (splitlines t))
                ∙ ap (λ k. load_rows json k (splitlines t) >>= λ rest. ok ((n ∷ ns) ++ rest))
                    {x = suc i + length ns} (omega arith)))
    where
      behind :
          (m : Result (List Bytes))
          → ((m >>= λ rest. ok (ns ++ rest)) >>= λ rest. ok (n ∷ rest))
            ≡ (m >>= λ rest. ok ((n ∷ ns) ++ rest))
      behind (ok rest) = refl
      behind (err e) = refl

  glued_row :
      (i j : ℕ) (t u : Text) → load_row json i (json.dumps i t ++ json.dumps j u) ≡ err value_error
  unfolding load_row
  glued_row i j t u = rw (one.glued i j t u) refl

  append_nonce-loaded :
      (id : Text) (ks : List Bytes) (m : Bytes) (f : NonceFile)
      → load_nonces json id (some f) ≡ ok ks
      → f.loose ≡ false
      → IsNonce m
      → append_nonce json id m (some f) ≡ (
        ok (length ks),
        some (append_text (json.dumps (length ks) (hex m) ++ (newline ∷ [])) (some f)),
      )
  unfolding append_nonce next_index write_nonce
  append_nonce-loaded id ks m f loaded tight h =
      ap outcome index
      ∙ ap (λ b. (refuse b insecure_permissions >> ok (length ks), some written)) tight
    where
      written : NonceFile
      written = append_text (json.dumps (length ks) (hex m) ++ (newline ∷ [])) (some f)

      outcome : Result ℕ → Result ℕ × Option NonceFile
      outcome r = elim r [ err e ↦ (err e, some f) | ok i ↦ write_nonce json m i (some f) ]

      index : next_index json id m (some f) ≡ ok (length ks)
      index = rw (h.0, loaded) refl

  -- A nonce file whose last row has all but its newline is loaded with that row. A nonce that is
  -- then appended joins the same line: `append_nonce` returns, and from then on `load_nonces` raises.
  pub append_nonce-torn :
      (id : Text) (ns : List Bytes) (n m : Bytes)
      → is_session_id id ≡ true
      → All IsNonce ns
      → IsNonce n
      → IsNonce m
      → (load_nonces json id (some (torn_file json ns n)) ≡ ok (ns ++ (n ∷ [])))
        × ((append_nonce json id m (some (torn_file json ns n))).0 ≡ ok (length (ns ++ (n ∷ []))))
        × (load_nonces json id (append_nonce json id m (some (torn_file json ns n))).1
            ≡ err value_error)
  unfolding load_nonces load_rows
  append_nonce-torn id ns n m valid hs hn hm =
      (before, ap (λ o. o.0) done, ap (λ o. load_nonces json id o.1) done ∙ after)
    where
      row : Text
      row = json.dumps (0 + length ns) (hex n)

      next : Text
      next = json.dumps (length (ns ++ (n ∷ []))) (hex m)

      before : load_nonces json id (some (torn_file json ns n)) ≡ ok (ns ++ (n ∷ []))
      before = rw valid (
          load_rows-front 0 ns row hs
          ∙ (ap (λ t. load_rows json (0 + length ns) t >>= λ rest. ok (ns ++ rest))
                (splitlines-end row (laws.one_line _ _) (one.some_char _ _))
              ∙ rw (load_row-dumps json laws (0 + length ns) n hn) refl))

      glued : NonceFile
      glued = append_text (next ++ (newline ∷ [])) (some (torn_file json ns n))

      done :
          append_nonce json id m (some (torn_file json ns n))
          ≡ (ok (length (ns ++ (n ∷ []))), some glued)
      done = append_nonce-loaded id (ns ++ (n ∷ [])) m (torn_file json ns n) before refl hm

      refused :
          (load_rows json (0 + length ns) ((row ++ next) ∷ splitlines []) >>= λ rest.
          ok (ns ++ rest))
          ≡ err value_error
      refused = rw (glued_row (0 + length ns) (length (ns ++ (n ∷ []))) (hex n) (hex m)) refl

      after : load_nonces json id (some glued) ≡ err value_error
      after = rw valid (
          ap (λ t. load_rows json 0 (splitlines t))
            (append_assoc (rows_text json 0 ns) row (next ++ (newline ∷ []))
              ∙ ap (λ t. rows_text json 0 ns ++ t) (sym (append_assoc row next (newline ∷ []))))
          ∙ (load_rows-front 0 ns ((row ++ next) ++ (newline ∷ [])) hs
              ∙ (ap (λ t. load_rows json (0 + length ns) t >>= λ rest. ok (ns ++ rest))
                    (splitlines-line (row ++ next) [] (
                      All-append (λ c. is_break c ≡ false) row next (laws.one_line _ _)
                        (laws.one_line _ _)))
                  ∙ refused)))
