-- ===== src/Hours/Band.antt =====
-- The duration, coverage and backfill bands of src/mybench/scorer/agent_hours.py, and their names.
use mybench.Base.{
  Bool, List, Option, Result, [], ascii, bytes_eq, err, false, if◌then◌else◌, leb, ltb, none, ok,
  refuse, scoring_error, some, ℕ, ◌&&◌, ◌*◌, ◌+◌, ◌-◌, ◌==◌, ◌>>◌, ◌||◌, ◌∷◌,
}
use mybench.Ledger.{Text}
use mybench.Stamp.{is_digit}
use mybench.Lifecycle.Record.{mem_text}

-- The text behind a front, if it has that front.
abbrev pub behind : Text → Text → Option Text
behind [] t = some t
behind (p ∷ ps) [] = none
behind (p ∷ ps) (c ∷ t) = let rest = behind ps t in if c == p then rest else none

-- The digits at the start, as a number, and what is behind them.
abbrev pub number_loop : ℕ → Text → ℕ × Text
number_loop n [] = (n, [])
number_loop n (c ∷ t) =
    let rest = number_loop (n * 10 + (c - b'0')) t in if is_digit c then rest else (n, c ∷ t)

-- `([0-9]+)` behind a front
abbrev pub number_behind : Text → Option Text → Option (ℕ × Text)
number_behind front none = none
number_behind front (some t) = elim (behind front t) [
  | none ↦ none
  | some [] ↦ none
  | some (c ∷ rest) ↦ if is_digit c then some (number_loop 0 (c ∷ rest)) else none
]

abbrev pub ended : Text → Option (ℕ × Text) → Option ℕ
ended end none = none
ended end (some (n, rest)) = if bytes_eq rest end then some n else none

abbrev pub ended_two : Text → ℕ → Option (ℕ × Text) → Option (ℕ × ℕ)
ended_two end low none = none
ended_two end low (some (high, rest)) = if bytes_eq rest end then some (low, high) else none

-- The patterns of the bands: a number between two texts, and two numbers with a text between.
unfoldable pub one_number : Text → Text → Text → Option ℕ
one_number front end band = ended end (number_behind front (some band))

unfoldable pub two_numbers : Text → Text → Text → Option (ℕ × ℕ)
two_numbers middle end band = elim (number_behind [] (some band)) [
  | none ↦ none
  | some (low, rest) ↦ ended_two end low (number_behind middle (some rest))
]

abbrev pub hour : ℕ
hour = 3600000000

abbrev pub minute : ℕ
minute = 60000000

abbrev pub matched : (ℕ → Bool) → Option ℕ → Bool
matched test none = false
matched test (some n) = test n

abbrev pub matched_two : (ℕ → ℕ → Bool) → Option (ℕ × ℕ) → Bool
matched_two test none = false
matched_two test (some (low, high)) = test low high

-- Whether a band is that of a value.
unfoldable pub in_duration_band : ℕ → Text → Bool
in_duration_band value band =
    matched (λ n. ltb value (n * hour)) (one_number (ascii "under-") (ascii "h") band)
    || (matched_two (λ low high. leb (low * hour) value && ltb value (high * hour))
          (two_numbers (ascii "h-to-under-") (ascii "h") band)
        || matched (λ n. leb (n * hour) value) (one_number [] (ascii "h-plus") band))

unfoldable pub in_coverage_band : ℕ → ℕ → Text → Bool
in_coverage_band numerator denominator band =
    matched (λ n. ltb (numerator * 100) (n * denominator))
      (one_number (ascii "under-") (ascii "-percent") band)
    || (matched_two
          (λ low high.
            leb (low * denominator) (numerator * 100) && ltb (numerator * 100) (high * denominator))
          (two_numbers (ascii "-to-under-") (ascii "-percent") band)
        || matched
            (λ n.
              leb (n * denominator) (numerator * 100) && leb (numerator * 100) (100 * denominator))
            (one_number [] (ascii "-to-100-percent") band))

unfoldable pub in_backfill_band : ℕ → Text → Bool
in_backfill_band days band =
    matched (λ n. ltb days n) (one_number (ascii "under-") (ascii "-days") band)
    || matched (λ n. leb n days) (one_number [] (ascii "-days-plus") band)

-- The first band that passes.
abbrev pub first_band : (Text → Bool) → List Text → Result Text
first_band test [] = err scoring_error
first_band test (band ∷ bands) =
    let rest = first_band test bands in if test band then ok band else rest

unfoldable pub duration_band : Option ℕ → List Text → Result Text
duration_band none bands =
    if mem_text bands (ascii "unknown") then ok (ascii "unknown") else err scoring_error
duration_band (some value) bands = first_band (in_duration_band value) bands

unfoldable pub coverage_band : ℕ → ℕ → List Text → Result Text
coverage_band numerator denominator bands = do
  refuse ((denominator == 0) || ltb denominator numerator) scoring_error
  first_band (in_coverage_band numerator denominator) bands

unfoldable pub backfill_band : ℕ → List Text → Result Text
backfill_band days bands = first_band (in_backfill_band days) bands
