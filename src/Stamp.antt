-- ===== src/Stamp.antt =====
-- `_canonical_timestamp` of src/mybench/normalizer/claude.py, which the timing normalizer and the
-- scorer share: a UTC time of the form 2026-07-13T12:00:00.5Z, printed with six digits of fraction.
pub mod Canonical
use mybench.Base.{
  Bool, List, Option, [], drop, if◌then◌else◌, leb, length, ltb, none, not, replicate, some, take,
  ℕ, ◌%◌, ◌&&◌, ◌*◌, ◌++◌, ◌+◌, ◌-◌, ◌==◌, ◌||◌, ◌∷◌,
}
use mybench.Ledger.{Text}

abbrev pub is_digit : ℕ → Bool
is_digit c = leb b'0' c && leb c b'9'

-- One place of a pattern: any digit, or one character.
pub data Slot : Type 0 where
  digit : Slot
  char : ℕ → Slot

abbrev pub slot_takes : Slot → ℕ → Bool
slot_takes digit c = is_digit c
slot_takes (char k) c = c == k

-- What is left behind a front that fits the pattern.
abbrev pub fits : List Slot → Text → Option Text
fits [] t = some t
fits (s ∷ p) [] = none
fits (s ∷ p) (c ∷ t) = let rest = fits p t in if slot_takes s c then rest else none

-- `[0-9]{4}-[0-9]{2}-[0-9]{2}T[0-9]{2}:[0-9]{2}:[0-9]{2}`
abbrev pub stamp_slots : List Slot
stamp_slots =
    digit
    ∷ digit
    ∷ digit
    ∷ digit
    ∷ char b'-'
    ∷ digit
    ∷ digit
    ∷ char b'-'
    ∷ digit
    ∷ digit
    ∷ char b'T'
    ∷ digit
    ∷ digit
    ∷ char b':'
    ∷ digit
    ∷ digit
    ∷ char b':'
    ∷ digit
    ∷ digit
    ∷ []

-- Digits up to a final "Z".
abbrev pub digits_to_z : Text → Option Text
digits_to_z [] = none
digits_to_z (c ∷ []) = if c == b'Z' then some [] else none
digits_to_z (c ∷ d ∷ t) =
    let rest = digits_to_z (d ∷ t) in
    if is_digit c then elim rest [ none ↦ none | some ds ↦ some (c ∷ ds) ] else none

-- `(?:\.[0-9]{1,6})?Z`: the digits.
abbrev pub checked_digits : Option Text → Option Text
checked_digits none = none
checked_digits (some ds) = if leb 1 (length ds) && leb (length ds) 6 then some ds else none

abbrev pub fraction : Text → Option Text
fraction [] = none
fraction (c ∷ t) =
    if c == b'Z'
    then (if length t == 0 then some [] else none)
    else if c == b'.'
    then checked_digits (digits_to_z t)
    else none

-- The number that digits from place `i` on give.
abbrev pub number_from : ℕ → Text → ℕ
number_from n [] = n
number_from n (c ∷ t) = number_from (n * 10 + (c - b'0')) t

abbrev pub number_at : ℕ → ℕ → Text → ℕ
number_at i n t = number_from 0 (take n (drop i t))

unfoldable pub is_leap : ℕ → Bool
is_leap y = (y % 4 == 0) && (not (y % 100 == 0) || (y % 400 == 0))

unfoldable pub days_in_month : ℕ → ℕ → ℕ
days_in_month y m =
    if m == 2
    then (if is_leap y then 29 else 28)
    else if (m == 4) || ((m == 6) || ((m == 9) || (m == 11)))
    then 30
    else 31

-- What `datetime` refuses: the year 0, and a month, a day or a time of day out of range.
unfoldable pub is_civil : Text → Bool
is_civil t =
    let y = number_at 0 4 t in
    let m = number_at 5 2 t in
    let d = number_at 8 2 t in
    leb 1 y
    && ((leb 1 m && leb m 12)
        && ((leb 1 d && leb d (days_in_month y m))
            && (ltb (number_at 11 2 t) 24
                && (ltb (number_at 14 2 t) 60 && ltb (number_at 17 2 t) 60))))

-- Six digits, with zeros behind.
abbrev pub padded : Text → Text
padded ds = take 6 (ds ++ replicate 6 b'0')

abbrev pub stamp_of : Text → Option Text → Option Text
stamp_of head none = none
stamp_of head (some ds) = some (head ++ (b'.' ∷ (padded ds ++ (b'Z' ∷ []))))

abbrev pub canonical_rest : Text → Option Text → Option Text
canonical_rest t none = none
canonical_rest t (some rest) =
    if is_civil (take 19 t) then stamp_of (take 19 t) (fraction rest) else none

-- `_canonical_timestamp` of a text
unfoldable pub canonical_timestamp : Text → Option Text
canonical_timestamp t = canonical_rest t (fits stamp_slots t)
