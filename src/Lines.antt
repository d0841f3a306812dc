-- ===== src/Lines.antt =====
-- `data.split(b"\n")`, and what it gives for text that ends in a newline. ledger.py, archive.py and
-- daemon/capture.py cut their files this way.
use mathlib.Core.Option.{some-injective}
use mybench.Base.{
  ==_iff, All, Bool-cases, Bytes, List, Option, [], ap, append_assoc, arith, if◌then◌else◌, inl,
  inr, none, refl, some, sym, ℕ, ◌++◌, ◌==◌, ◌∙◌, ◌∷◌, ◌≡◌, ◌≢◌,
}

abbrev pub newline : ℕ
newline = 10

-- The byte in front of the first part.
abbrev pub cons_head : ℕ → List Bytes → List Bytes
cons_head c [] = (c ∷ []) ∷ []
cons_head c (part ∷ parts) = (c ∷ part) ∷ parts

unfoldable pub split_lines : Bytes → List Bytes
split_lines [] = [] ∷ []
split_lines (c ∷ cs) =
    let rest = split_lines cs in if c == newline then [] ∷ rest else cons_head c rest

-- The parts without the last one, if that is empty.
abbrev pub pop_empty : List Bytes → Option (List Bytes)
pop_empty [] = none
pop_empty ([] ∷ []) = some []
pop_empty ((c ∷ cs) ∷ []) = none
pop_empty (l ∷ m ∷ r) = elim (pop_empty (m ∷ r)) [ none ↦ none | some ls ↦ some (l ∷ ls) ]

-- All but the last part, whatever it is.
abbrev pub pop_last : List Bytes → List Bytes
pop_last [] = []
pop_last (l ∷ []) = []
pop_last (l ∷ m ∷ r) = l ∷ pop_last (m ∷ r)

-- No newline in it.
abbrev pub IsLine : Bytes → Type 0
IsLine = All (λ c. c ≢ newline)

-- Lines with a newline behind each.
unfoldable pub join_lines : List Bytes → Bytes
join_lines [] = []
join_lines (l ∷ ls) = l ++ (newline ∷ join_lines ls)

pub join_lines-append :
    (ls ms : List Bytes) → join_lines (ls ++ ms) ≡ join_lines ls ++ join_lines ms
unfolding join_lines
join_lines-append [] ms = refl
join_lines-append (l ∷ ls) ms =
    ap (λ t. l ++ (newline ∷ t)) (join_lines-append ls ms)
    ∙ sym (append_assoc l (newline ∷ join_lines ls) (join_lines ms))

split_lines-cons : (xs : Bytes) → (p : Bytes) × (ps : List Bytes) × (split_lines xs ≡ p ∷ ps)
unfolding split_lines
split_lines-cons [] = ([], [], refl)
split_lines-cons (c ∷ cs) =
    let (p, ps, e) = split_lines-cons cs in
    elim (Bool-cases (c == newline)) [
      | inl y ↦ rw y ([], split_lines cs, refl)
      | inr n ↦ rw (n, e) (c ∷ p, ps, refl)
    ]

pub split_lines-line :
    (l rest : Bytes) → IsLine l → split_lines (l ++ (newline ∷ rest)) ≡ l ∷ split_lines rest
unfolding split_lines
split_lines-line [] rest h = refl
split_lines-line (c ∷ l) rest h = rw (split_lines-line l rest h.1) (ground (arith, h.0))

pub split_lines-tail : (l : Bytes) → IsLine l → split_lines l ≡ l ∷ []
unfolding split_lines
split_lines-tail [] h = refl
split_lines-tail (c ∷ l) h = rw (split_lines-tail l h.1) (ground (arith, h.0))

pop_empty-cons :
    (l m : Bytes) (r : List Bytes) {ls : List Bytes}
    → pop_empty (l ∷ m ∷ r) ≡ some ls
    → (ks : List Bytes) × (pop_empty (m ∷ r) ≡ some ks) × (ls ≡ l ∷ ks)
pop_empty-cons l m r h = ground arith

pop_empty-cons_head :
    (c : ℕ) (p : Bytes) (ps : List Bytes) {ls : List Bytes}
    → pop_empty (cons_head c (p ∷ ps)) ≡ some ls
    → (ks : List Bytes) × (pop_empty (p ∷ ps) ≡ some (p ∷ ks)) × (ls ≡ (c ∷ p) ∷ ks)
pop_empty-cons_head c p [] h = cc
pop_empty-cons_head c p (m ∷ r) h =
    let (ks, e, same) = pop_empty-cons (c ∷ p) m r h in (ks, rw e, same)

pub pop_empty-tail :
    (c : ℕ) (xs : Bytes) (ls : List Bytes)
    → pop_empty (split_lines (c ∷ xs)) ≡ some ls
    → (ks : List Bytes) × (pop_empty (split_lines xs) ≡ some ks)
unfolding split_lines
pop_empty-tail c xs ls h =
    let (p, ps, e) = split_lines-cons xs in
    elim (Bool-cases (c == newline)) [
      | inl y ↦ let (ks, ek, same) = pop_empty-cons [] p ps (rw (y, e) at h) in (ks, rw e ek)
      | inr n ↦
          let (ks, ek, same) = pop_empty-cons_head c p ps (rw (n, e) at h) in (p ∷ ks, rw e ek)
    ]

-- Complete lines in front stay as they are.
pub split_lines-append :
    (xs ys : Bytes) (ls : List Bytes)
    → pop_empty (split_lines xs) ≡ some ls
    → split_lines (xs ++ ys) ≡ ls ++ split_lines ys
unfolding split_lines
split_lines-append [] ys ls h = ap (λ t. t ++ split_lines ys) (some-injective _ _ h)
split_lines-append (c ∷ xs) ys ls h =
    let (p, ps, e) = split_lines-cons xs in
    elim (Bool-cases (c == newline)) [
      | inl y ↦
          let (ks, ek, same) = pop_empty-cons [] p ps (rw (y, e) at h) in
          rw (y, same, split_lines-append xs ys ks (rw e ek)) refl
      | inr n ↦
          let (ks, ek, same) = pop_empty-cons_head c p ps (rw (n, e) at h) in
          rw (n, same, split_lines-append xs ys (p ∷ ks) (rw e ek)) refl
    ]

pub pop_empty-snoc : (ls : List Bytes) → pop_empty (ls ++ ([] ∷ [])) ≡ some ls
pop_empty-snoc [] = refl
pop_empty-snoc (l ∷ []) = refl
pop_empty-snoc (l ∷ m ∷ r) = rw (pop_empty-snoc (m ∷ r))

-- One more line behind complete lines.
pub pop_empty-append_line :
    (xs l : Bytes) (ls : List Bytes)
    → pop_empty (split_lines xs) ≡ some ls
    → IsLine l
    → pop_empty (split_lines (xs ++ (l ++ (newline ∷ [])))) ≡ some (ls ++ (l ∷ []))
unfolding split_lines
pop_empty-append_line xs l ls h line =
    rw (split_lines-append xs (l ++ (newline ∷ [])) ls h, split_lines-line l [] line)
      (rw (sym (append_assoc ls (l ∷ []) ([] ∷ []))) (pop_empty-snoc (ls ++ (l ∷ []))))

-- A front of a line behind complete lines.
pub pop_empty-append_torn :
    (xs torn : Bytes) (ls : List Bytes)
    → pop_empty (split_lines xs) ≡ some ls
    → IsLine torn
    → torn ≢ []
    → pop_empty (split_lines (xs ++ torn)) ≡ none
pop_empty-append_torn xs torn ls h line some_byte =
    rw (split_lines-append xs torn ls h, split_lines-tail torn line) (torn_end ls torn some_byte)
  where
    torn_end : (ls : List Bytes) (t : Bytes) → t ≢ [] → pop_empty (ls ++ (t ∷ [])) ≡ none
    torn_end [] [] n = absurd (n refl)
    torn_end [] (c ∷ t) n = refl
    torn_end (l ∷ []) t n = rw (torn_end [] t n)
    torn_end (l ∷ m ∷ r) t n = rw (torn_end (m ∷ r) t n)

-- Reading back lines that were written.
pub split_lines-join_lines :
    (ls : List Bytes) → All IsLine ls → split_lines (join_lines ls) ≡ ls ++ ([] ∷ [])
unfolding join_lines split_lines
split_lines-join_lines [] h = refl
split_lines-join_lines (l ∷ ls) h =
    split_lines-line l (join_lines ls) h.0 ∙ ap (λ t. l ∷ t) (split_lines-join_lines ls h.1)

-- A newline at the end is one more, empty part.
pub split_lines-snoc :
    (xs : Bytes) → split_lines (xs ++ (newline ∷ [])) ≡ split_lines xs ++ ([] ∷ [])
unfolding split_lines
split_lines-snoc [] = refl
split_lines-snoc (c ∷ xs) =
    let (p, ps, e) = split_lines-cons xs in
    elim (Bool-cases (c == newline)) [
      | inl y ↦ rw (split_lines-snoc xs, y) refl
      | inr n ↦ rw (split_lines-snoc xs, n, e) refl
    ]

-- The parts with a newline behind each are the text with a newline behind it.
pub join_lines-split_lines : (xs : Bytes) → join_lines (split_lines xs) ≡ xs ++ (newline ∷ [])
unfolding split_lines join_lines
join_lines-split_lines [] = refl
join_lines-split_lines (c ∷ xs) =
    let (p, ps, e) = split_lines-cons xs in
    elim (Bool-cases (c == newline)) [
      | inl y ↦
          rw (y, join_lines-split_lines xs)
            (ap (λ t. t ∷ (xs ++ (newline ∷ []))) (sym ((==_iff c newline).0 y)))
      | inr n ↦ rw (n, e) (ap (λ t. c ∷ t) (ap join_lines (sym e) ∙ join_lines-split_lines xs))
    ]

-- One line or more: their text without the last newline splits into them.
pub join_lines-init :
    (l : Bytes) (ls : List Bytes)
    → IsLine l
    → All IsLine ls
    → (xs : Bytes) × (join_lines (l ∷ ls) ≡ xs ++ (newline ∷ [])) × (split_lines xs ≡ l ∷ ls)
unfolding join_lines
join_lines-init l [] h hs = (l, refl, split_lines-tail l h)
join_lines-init l (m ∷ ls) h hs =
    let (xs, e, s) = join_lines-init m ls hs.0 hs.1 in
    (
      l ++ (newline ∷ xs),
      ap (λ t. l ++ (newline ∷ t)) e ∙ sym (append_assoc l (newline ∷ xs) (newline ∷ [])),
      split_lines-line l xs h ∙ ap (λ t. l ∷ t) s,
    )
