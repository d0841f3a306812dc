-- ===== src/Examples/Torn.antt =====
-- A codec of nonce rows with an end mark, and a file whose last row has no newline.
use mybench.Base.{
  All, Result, [], ap, arith, ascii, err, false, if◌then◌else◌, ok, refl, replicate, some, suc,
  value_error, zero, ℕ, ◌++◌, ◌+◌, ◌-◌, ◌<◌, ◌==◌, ◌>>=◌, ◌∙◌, ◌∷◌, ◌≡◌,
}
use mybench.Ledger.{Text}
use mybench.Nonces.{NonceRow, NonceJson, is_break, is_session_id, load_nonces, append_nonce}
use mybench.Nonces.Stored.{IsNonceJson, IsNonce}
use mybench.Nonces.Torn.{IsOneValue, torn_file, append_nonce-torn}

abbrev marked : Text → Text
marked [] = 9999 ∷ []
marked (c ∷ cs) = (c + 10000) ∷ marked cs

abbrev at_end : Text → Result Text
at_end [] = ok []
at_end (c ∷ cs) = err value_error

abbrev unmarked : Text → Result Text
unmarked [] = err value_error
unmarked (c ∷ cs) =
    let rest = unmarked cs in if c == 9999 then at_end cs else (rest >>= λ t. ok ((c - 10000) ∷ t))

abbrev loads : Text → Result NonceRow
loads [] = err value_error
loads (c ∷ cs) = unmarked cs >>= λ t. ok (record { i = some (c - 10000); nonce = some t })

abbrev json : NonceJson
json = record { dumps = λ i text. (i + 10000) ∷ marked text; loads = loads }

unmarked-marked : (t : Text) → unmarked (marked t) ≡ ok t
unmarked-marked [] = refl
unmarked-marked (c ∷ cs) =
    rw (unmarked-marked cs, not_mark) (ap (λ n. ok (n ∷ cs)) {x = c + 10000 - 10000} (omega arith))
  where
    not_mark : (c + 10000 == 9999) ≡ false
    not_mark = ground arith

unmarked-glued : (t : Text) (x : ℕ) (ys : Text) → unmarked (marked t ++ (x ∷ ys)) ≡ err value_error
unmarked-glued [] x ys = refl
unmarked-glued (c ∷ cs) x ys = rw (unmarked-glued cs x ys, not_mark) refl
  where
    not_mark : (c + 10000 == 9999) ≡ false
    not_mark = ground arith

marked-no_break : (t : Text) → All (λ c. is_break c ≡ false) (marked t)
marked-no_break [] = (refl, tt)
marked-no_break (c ∷ cs) = (ground arith, marked-no_break cs)

json-IsNonceJson : IsNonceJson json
json-IsNonceJson = record {
  loads-dumps = λ i text.
      ap (λ m. m >>= λ t. ok (record { i = some (i + 10000 - 10000); nonce = some t }))
        (unmarked-marked text)
      ∙ ap (λ n. ok (record { i = some n; nonce = some text })) {x = i + 10000 - 10000}
          (omega arith);
  one_line = λ i text. (ground arith, marked-no_break text);
}

json-IsOneValue : IsOneValue json
json-IsOneValue = record {
  glued = λ i j t u.
      ap (λ m. m >>= λ t. ok (record { i = some (i + 10000 - 10000); nonce = some t }))
        (unmarked-glued t (j + 10000) (marked u));
  some_char = λ i t e. cc;
}

zeros-IsNonce : IsNonce (replicate 32 0)
zeros-IsNonce = (refl, bytes 32)
  where
    bytes : (n : ℕ) → All (λ b. b < 256) (replicate n 0)
    bytes zero = tt
    bytes (suc n) = (omega arith, bytes n)

append_nonce-torn_example :
    let torn = torn_file json [] (replicate 32 0) in
    (load_nonces json (ascii "s1") (some torn) ≡ ok (replicate 32 0 ∷ []))
    × ((append_nonce json (ascii "s1") (replicate 32 0) (some torn)).0 ≡ ok 1)
    × (load_nonces json (ascii "s1") (append_nonce json (ascii "s1") (replicate 32 0) (some torn)).1
        ≡ err value_error)
unfolding is_session_id
append_nonce-torn_example =
    append_nonce-torn json json-IsNonceJson json-IsOneValue (ascii "s1") [] (replicate 32 0)
      (replicate 32 0) refl tt zeros-IsNonce zeros-IsNonce
