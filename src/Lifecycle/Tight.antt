-- ===== src/Lifecycle/Tight.antt =====
-- The lines of the queue of src/mybench/hooks/lifecycle.py, and a file that ends with one.
use mybench.Base.{
  All, Bool, Bool-cases, Bytes, List, [], ap, arith, drop, false, if◌then◌else◌, inl, inr, length,
  refl, sym, true, ℕ, ◌&&◌, ◌++◌, ◌+◌, ◌==◌, ◌||◌, ◌∙◌, ◌∷◌, ◌≡◌,
}
use mybench.Lines.{newline, cons_head}
use mybench.Nonces.{starts_newline}
use mybench.Ledger.Recover.{ends_newline, last_break}
use mybench.Lifecycle.{byte_lines}

abbrev pub is_cut : ℕ → Bool
is_cut c = (c == newline) || (c == 13)

-- One line of the queue, without its end.
abbrev pub IsEntry : Bytes → Type 0
IsEntry = All (λ c. ((c == newline) || (c == 13)) ≡ false)

-- Nothing, or lines that have their ends.
abbrev pub IsWhole : Bytes → Type 0
IsWhole [] = Unit {0}
IsWhole (c ∷ cs) = ends_newline (c ∷ cs) ≡ true

pub last_break-end : (xs : Bytes) → last_break (xs ++ (newline ∷ [])) ≡ length xs + 1
unfolding last_break
last_break-end [] = refl
last_break-end (c ∷ xs) = rw (last_break-end xs) (ground arith)

pub byte_lines-cons :
    (c : ℕ) (cs : Bytes) → (p : Bytes) × (ps : List Bytes) × (byte_lines (c ∷ cs) ≡ p ∷ ps)
unfolding byte_lines
byte_lines-cons c [] = elim (Bool-cases (is_cut c)) [
  | inl y ↦
      rw y
        (elim (Bool-cases (c == 13)) [ inl e ↦ rw e ([], [], refl) | inr n ↦ rw n ([], [], refl) ])
  | inr n ↦ rw n (c ∷ [], [], refl)
]
byte_lines-cons c (d ∷ cs) =
    let (p, ps, e) = byte_lines-cons d cs in
    go p ps (is_cut c) ((c == 13) && starts_newline (d ∷ cs)) (byte_lines (d ∷ cs)) e
  where
    go :
        (p : Bytes) (ps : List Bytes) (b joined : Bool) (rest : List Bytes)
        → rest ≡ p ∷ ps
        → (q : Bytes) × (qs : List Bytes) × ((if b
              then (if joined then rest else [] ∷ rest)
              else cons_head c rest)
            ≡ q ∷ qs)
    go p ps true true rest e = (p, ps, e)
    go p ps true false rest e = ([], rest, refl)
    go p ps false joined rest e = (c ∷ p, ps, ap (cons_head c) e)

pub byte_lines-entry : (l : Bytes) → IsEntry l → byte_lines (l ++ (newline ∷ [])) ≡ l ∷ []
unfolding byte_lines
byte_lines-entry [] h = refl
byte_lines-entry (c ∷ l) h = rw h.0 (ap (cons_head c) (byte_lines-entry l h.1))

pub byte_lines-append :
    (xs ys : Bytes) → IsWhole xs → byte_lines (xs ++ ys) ≡ byte_lines xs ++ byte_lines ys
unfolding byte_lines
byte_lines-append [] ys h = refl
byte_lines-append (c ∷ []) ys h = rw (h, not_return h) refl
  where
    not_return : (c == newline) ≡ true → (c == 13) ≡ false
    not_return h = ground arith
byte_lines-append (c ∷ d ∷ cs) ys h =
    let (p, ps, e) = byte_lines-cons d cs in
    go p ps (is_cut c) ((c == 13) && (d == newline)) (byte_lines (d ∷ cs))
      (byte_lines (d ∷ (cs ++ ys))) e (byte_lines-append (d ∷ cs) ys h)
  where
    go :
        (p : Bytes) (ps : List Bytes) (b joined : Bool) (rest all : List Bytes)
        → rest ≡ p ∷ ps
        → all ≡ rest ++ byte_lines ys
        → (if b then (if joined then all else [] ∷ all) else cons_head c all)
          ≡ (if b then (if joined then rest else [] ∷ rest) else cons_head c rest) ++ byte_lines ys
    go p ps true true rest all e h = h
    go p ps true false rest all e h = ap (λ m. [] ∷ m) h
    go p ps false joined rest all e h =
        ap (cons_head c) (h ∙ ap (λ m. m ++ byte_lines ys) e)
        ∙ sym (ap (λ m. cons_head c m ++ byte_lines ys) e)

pub All-last : {A : Type 0} (P : A → Type 0) (xs : List A) (x : A) → All P (xs ++ (x ∷ [])) → P x
All-last P [] x h = h.0
All-last P (y ∷ ys) x h = All-last P ys x h.1

pub drop-length : (xs : Bytes) → drop (length xs) xs ≡ []
drop-length [] = refl
drop-length (x ∷ xs) = drop-length xs
