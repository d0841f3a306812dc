-- ===== src/Examples/Codec.antt =====
-- Codecs without a newline in the code: a concrete stand-in for the JSON reader and writers.
use mybench.Base.{
  All, All-append, Bytes, List, Option, [], ap, append_assoc, arith, length, none, refl, some, suc,
  zero, ℕ, ◌++◌, ◌+◌, ◌-◌, ◌∙◌, ◌∷◌, ◌≡◌, ◌≢◌,
}

-- What is encoded is read back, whatever follows, and the code has no newline.
pub record Codec (A : Type 0) : Type 0 where
  pub enc : A → Bytes
  pub dec : Bytes → Option (A × Bytes)
  pub dec-enc : (a : A) (rest : Bytes) → dec (enc a ++ rest) ≡ some (a, rest)
  pub no_newline : (a : A) → All (λ c. c ≢ 10) (enc a)

abbrev pub then_dec {ℓ} :
    {A : Type 0} {B : Type ℓ} → Option (A × Bytes) → (A → Bytes → Option B) → Option B
then_dec none f = none
then_dec (some (a, rest)) f = f a rest

abbrev pub dec_ℕ : Bytes → Option (ℕ × Bytes)
dec_ℕ [] = none
dec_ℕ (c ∷ rest) = some (c - 11, rest)

pub number_dec-enc : (n : ℕ) (rest : Bytes) → dec_ℕ ((n + 11) ∷ rest) ≡ some (n, rest)
number_dec-enc n rest = ap (λ m. some (m, rest)) {x = n + 11 - 11} (omega arith)

abbrev pub number : Codec ℕ
number = record {
  enc = λ n. (n + 11) ∷ [];
  dec = dec_ℕ;
  dec-enc = number_dec-enc;
  no_newline = λ n. (omega arith, tt);
}

module _ {A B : Type 0} (a : Codec A) (b : Codec B) where
  abbrev pub pair_dec : Bytes → Option ((A × B) × Bytes)
  pair_dec bytes = then_dec (a.dec bytes) (λ x r. then_dec (b.dec r) (λ y s. some ((x, y), s)))

  pub pair_dec-enc :
      (p : A × B) (rest : Bytes) → pair_dec ((a.enc p.0 ++ b.enc p.1) ++ rest) ≡ some (p, rest)
  pair_dec-enc p rest =
      rw
        (
          append_assoc (a.enc p.0) (b.enc p.1) rest,
          a.dec-enc p.0 (b.enc p.1 ++ rest),
          b.dec-enc p.1 rest,
        )
        refl

  infixr 20 ◌&◌
  abbrev pub ◌&◌ : Codec (A × B)
  ◌&◌ = record {
    enc = λ p. a.enc p.0 ++ b.enc p.1;
    dec = pair_dec;
    dec-enc = pair_dec-enc;
    no_newline =
        λ p. All-append (λ c. c ≢ 10) (a.enc p.0) (b.enc p.1) (a.no_newline p.0) (b.no_newline p.1);
  }

module _ {A B : Type 0} (a : Codec A) (to : B → A) (from : A → B)
    (back : (b : B) → from (to b) ≡ b) where
  abbrev pub via_dec : Bytes → Option (B × Bytes)
  via_dec bytes = then_dec (a.dec bytes) (λ x r. some (from x, r))

  pub via_dec-enc : (b : B) (rest : Bytes) → via_dec (a.enc (to b) ++ rest) ≡ some (b, rest)
  via_dec-enc b rest = rw (a.dec-enc (to b) rest) (ap (λ z. some (z, rest)) (back b))

  -- A type that is carried by another.
  abbrev pub via : Codec B
  via = record {
    enc = λ b. a.enc (to b);
    dec = via_dec;
    dec-enc = via_dec-enc;
    no_newline = λ b. a.no_newline (to b);
  }

module _ {A : Type 0} (a : Codec A) where
  abbrev pub enc_items : List A → Bytes
  enc_items [] = []
  enc_items (x ∷ xs) = a.enc x ++ enc_items xs

  unfoldable pub dec_items : ℕ → Bytes → Option (List A × Bytes)
  dec_items zero bytes = some ([], bytes)
  dec_items (suc n) bytes =
      then_dec (a.dec bytes) (λ x r. then_dec (dec_items n r) (λ xs s. some (x ∷ xs, s)))

  dec_items-enc :
      (xs : List A) (rest : Bytes) → dec_items (length xs) (enc_items xs ++ rest) ≡ some (xs, rest)
  unfolding dec_items
  dec_items-enc [] rest = refl
  dec_items-enc (x ∷ xs) rest =
      rw
        (
          append_assoc (a.enc x) (enc_items xs) rest,
          a.dec-enc x (enc_items xs ++ rest),
          dec_items-enc xs rest,
        )
        refl

  pub enc_items-no_newline : (xs : List A) → All (λ c. c ≢ 10) (enc_items xs)
  enc_items-no_newline [] = tt
  enc_items-no_newline (x ∷ xs) =
      All-append (λ c. c ≢ 10) (a.enc x) (enc_items xs) (a.no_newline x) (enc_items-no_newline xs)

  abbrev pub dec_list : Bytes → Option (List A × Bytes)
  dec_list bytes = then_dec (dec_ℕ bytes) (λ n r. dec_items n r)

  pub list_dec-enc :
      (xs : List A) (rest : Bytes)
      → dec_list ((length xs + 11) ∷ (enc_items xs ++ rest)) ≡ some (xs, rest)
  list_dec-enc xs rest =
      ap (λ n. dec_items n (enc_items xs ++ rest)) {x = length xs + 11 - 11} (omega arith)
      ∙ dec_items-enc xs rest

  -- The number of the items, and the items.
  abbrev pub items : Codec (List A)
  items = record {
    enc = λ xs. (length xs + 11) ∷ enc_items xs;
    dec = dec_list;
    dec-enc = list_dec-enc;
    no_newline = λ xs. (omega arith, enc_items-no_newline xs);
  }

  abbrev pub to_list : Option A → List A
  to_list none = []
  to_list (some x) = x ∷ []

  abbrev pub from_list : List A → Option A
  from_list [] = none
  from_list (x ∷ xs) = some x

  pub from_list-to_list : (o : Option A) → from_list (to_list o) ≡ o
  from_list-to_list none = refl
  from_list-to_list (some x) = refl

  abbrev pub optional : Codec (Option A)
  optional = via items to_list from_list from_list-to_list

abbrev pub text : Codec Bytes
text = items number
