-- ===== src/Ledger/Recover/Boundary.antt =====
-- Where a repair cuts: never at the end, and exactly behind complete lines.
use mybench.Base.{
  Bool-cases, Bytes, List, [], arith, false, if◌then◌else◌, inl, inr, length, length-take, refl,
  some, suc, take, take-length, true, ℕ, ◌++◌, ◌-◌, ◌<◌, ◌==◌, ◌∷◌, ◌≡◌, ◌≢◌, ◌≤◌, ◌⊎◌,
}
use mybench.Lines.{newline, IsLine, split_lines, pop_empty, pop_empty-tail}
use mybench.Ledger.Recover.{ends_newline, last_break, boundary}

last_break-le : (xs : Bytes) → last_break xs ≤ length xs
unfolding last_break
last_break-le [] = omega arith
last_break-le (c ∷ xs) = ground (arith, last_break-le xs)

last_break-end :
    (c : ℕ) (xs : Bytes) → last_break (c ∷ xs) ≡ suc (length xs) → ends_newline (c ∷ xs) ≡ true
unfolding last_break
last_break-end c [] h = ground arith
last_break-end c (d ∷ xs) h = last_break-end d xs (ground (arith, last_break-le (d ∷ xs)))

take-take_le : (n : ℕ) (xs : Bytes) → length (take n xs) ≤ n
take-take_le n xs = omega (arith, length-take n xs)

-- Something is always cut off.
pub boundary-lt : (xs : Bytes) → xs ≢ [] → boundary xs < length xs
unfolding boundary
boundary-lt [] h = absurd (h refl)
boundary-lt (c ∷ xs) h = elim (Bool-cases (ends_newline (c ∷ xs))) [
  | inl y ↦
      rw (y, boundary)
        (omega (
          arith,
          last_break-le (take (length (c ∷ xs) - 1) (c ∷ xs)),
          length-take (length (c ∷ xs) - 1) (c ∷ xs),
        ))
  | inr n ↦ rw (n, boundary, take-length (c ∷ xs)) (strict n)
]
  where
    strict : ends_newline (c ∷ xs) ≡ false → last_break (c ∷ xs) < length (c ∷ xs)
    strict n = ground (arith, last_break-le (c ∷ xs), last_break-end c xs)

last_break-line : (t : Bytes) → IsLine t → last_break t ≡ 0
unfolding last_break
last_break-line [] h = refl
last_break-line (c ∷ t) h = rw (last_break-line t h.1) (ground (arith, h.0))

-- Behind a newline, or at the start, a line has no further break.
last_break-append :
    (xs t : Bytes)
    → (xs ≡ []) ⊎ (ends_newline xs ≡ true)
    → IsLine t
    → last_break (xs ++ t) ≡ length xs
unfolding last_break
last_break-append [] t h line = last_break-line t line
last_break-append (c ∷ []) t h line = rw (last_break-line t line) (only h)
  where
    only :
        ((c ∷ []) ≡ []) ⊎ (ends_newline (c ∷ []) ≡ true)
        → ◌≡◌ {A = ℕ} (if c == newline then 1 else 0) 1
    only (inl e) = cc
    only (inr e) = rw e
last_break-append (c ∷ d ∷ xs) t h line =
    rw (last_break-append (d ∷ xs) t (later h) line) (ground arith)
  where
    later :
        ((c ∷ d ∷ xs) ≡ []) ⊎ (ends_newline (c ∷ d ∷ xs) ≡ true)
        → ((d ∷ xs) ≡ []) ⊎ (ends_newline (d ∷ xs) ≡ true)
    later (inl e) = cc
    later (inr e) = inr e

ends_newline-line : (xs t : Bytes) (c : ℕ) → IsLine (c ∷ t) → ends_newline (xs ++ (c ∷ t)) ≡ false
ends_newline-line [] [] c h = ground (arith, h.0)
ends_newline-line [] (d ∷ t) c h = ends_newline-line [] t d h.1
ends_newline-line (x ∷ []) t c h = ends_newline-line [] t c h
ends_newline-line (x ∷ y ∷ xs) t c h = ends_newline-line (y ∷ xs) t c h

-- A torn line behind complete lines is cut where it begins.
pub boundary-torn :
    (xs t : Bytes)
    → (xs ≡ []) ⊎ (ends_newline xs ≡ true)
    → IsLine t
    → t ≢ []
    → boundary (xs ++ t) ≡ length xs
unfolding boundary
boundary-torn xs [] h line n = absurd (n refl)
boundary-torn xs (c ∷ t) h line n =
    rw (ends_newline-line xs t c line, boundary, take-length (xs ++ (c ∷ t)))
      (last_break-append xs (c ∷ t) h line)

-- A file that splits into complete lines is empty or ends in a newline.
pub pop_empty-ends :
    (xs : Bytes) (ls : List Bytes)
    → pop_empty (split_lines xs) ≡ some ls
    → (xs ≡ []) ⊎ (ends_newline xs ≡ true)
pop_empty-ends [] ls h = inl refl
pop_empty-ends (c ∷ []) ls h = inr (one c ls (unfold split_lines in h))
  where
    one :
        (c : ℕ) (ls : List Bytes)
        → pop_empty (if c == newline then [] ∷ [] ∷ [] else (c ∷ []) ∷ []) ≡ some ls
        → (c == newline) ≡ true
    one c ls h = elim (Bool-cases (c == newline)) [ inl y ↦ y | inr n ↦ cc (rw n at h) ]
pop_empty-ends (c ∷ d ∷ xs) ls h =
    let (ks, e) = pop_empty-tail c (d ∷ xs) ls h in behind (pop_empty-ends (d ∷ xs) ks e)
  where
    behind :
        ((d ∷ xs) ≡ []) ⊎ (ends_newline (d ∷ xs) ≡ true)
        → ((c ∷ d ∷ xs) ≡ []) ⊎ (ends_newline (d ∷ xs) ≡ true)
    behind (inl e) = cc
    behind (inr e) = inr e
