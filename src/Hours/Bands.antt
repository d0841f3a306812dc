-- ===== src/Hours/Bands.antt =====
-- Bands that follow each other have one for every value.
use mybench.Base.{
  Bool, Bool-cases, List, Option, [], arith, ascii, bytes_eq, false, if◌then◌else◌, inl, inr, leb,
  leb→le, ltb, ltb_false→le, ltb→lt, none, ok, ok_injective, refl, some, sym, true, ℕ, ◌&&◌, ◌*◌,
  ◌<◌, ◌||◌, ◌∷◌, ◌≡◌, ◌≤◌, ◌⊎◌,
}
use mybench.Ledger.{Text}
use mybench.Hours.Band.{
  hour, matched, matched_two, one_number, two_numbers, in_duration_band, first_band, duration_band,
}

-- Bands from a number of hours upwards without a gap, the last one open.
abbrev pub Follows : ℕ → List Text → Type 0
Follows low [] = ⊥
Follows low (band ∷ []) = one_number [] (ascii "h-plus") band ≡ some low
Follows low (band ∷ next ∷ bands) =
    (high : ℕ) × (two_numbers (ascii "h-to-under-") (ascii "h") band ≡ some (low, high))
    × Follows high (next ∷ bands)

-- Bands that begin at nothing.
abbrev pub AreBands : List Text → Type 0
AreBands [] = ⊥
AreBands (band ∷ bands) =
    (low : ℕ) × (one_number (ascii "under-") (ascii "h") band ≡ some low) × Follows low bands

first_band-head :
    (test : Text → Bool) (band : Text) (bands : List Text)
    → test band ≡ true
    → first_band test (band ∷ bands) ≡ ok band
first_band-head test band bands h = rw h refl

-- The band that was found, or the next one.
abbrev HasBand : ℕ → List Text → Type 0
HasBand value bands =
    (band : Text) × (first_band (in_duration_band value) bands ≡ ok band)
    × (in_duration_band value band ≡ true)

HasBand-cons :
    (value : ℕ) (band : Text) (bands : List Text)
    → HasBand value bands
    → HasBand value (band ∷ bands)
HasBand-cons value band bands (b, e, h) = elim (Bool-cases (in_duration_band value band)) [
  | inl y ↦ (band, rw y refl, y)
  | inr n ↦ (b, rw n e, h)
]

HasBand-head :
    (value : ℕ) (band : Text) (bands : List Text)
    → in_duration_band value band ≡ true
    → HasBand value (band ∷ bands)
HasBand-head value band bands h = (band, first_band-head (in_duration_band value) band bands h, h)

Follows-HasBand :
    (value low : ℕ) (bands : List Text)
    → Follows low bands
    → low * hour ≤ value
    → HasBand value bands
unfolding in_duration_band
Follows-HasBand value low [] h b = absurd h
Follows-HasBand value low (band ∷ []) h b = HasBand-head value band [] (rw h (ground arith))
Follows-HasBand value low (band ∷ next ∷ bands) (high, e, rest) b =
    elim (Bool-cases (ltb value (high * hour))) [
      | inl y ↦ HasBand-head value band (next ∷ bands) (rw e (ground arith))
      | inr n ↦
          HasBand-cons value band (next ∷ bands)
            (Follows-HasBand value high (next ∷ bands) rest (ltb_false→le value (high * hour) n))
    ]

-- The value in microseconds is in the range that the name of the band spells out in hours.
pub data LiesIn (value : ℕ) (band : Text) : Type 0 where
  below :
      (high : ℕ)
      → one_number (ascii "under-") (ascii "h") band ≡ some high
      → value < high * 3600000000
      → LiesIn value band
  between :
      (low high : ℕ)
      → two_numbers (ascii "h-to-under-") (ascii "h") band ≡ some (low, high)
      → low * 3600000000 ≤ value
      → value < high * 3600000000
      → LiesIn value band
  above :
      (low : ℕ)
      → one_number [] (ascii "h-plus") band ≡ some low
      → low * 3600000000 ≤ value
      → LiesIn value band

or-cases : (a b : Bool) → (a || b) ≡ true → (a ≡ true) ⊎ (b ≡ true)
or-cases true b h = inl refl
or-cases false b h = inr h

and-both : (a b : Bool) → (a && b) ≡ true → (a ≡ true) × (b ≡ true)
and-both true b h = (refl, h)
and-both false b h = cc

in_duration_band-LiesIn :
    (value : ℕ) (band : Text) → in_duration_band value band ≡ true → LiesIn value band
unfolding in_duration_band
in_duration_band-LiesIn value band h = elim (or-cases _ _ h) [
  | inl y ↦ of_below (one_number (ascii "under-") (ascii "h") band) refl y
  | inr n ↦ elim (or-cases _ _ n) [
    | inl y ↦ of_between (two_numbers (ascii "h-to-under-") (ascii "h") band) refl y
    | inr y ↦ of_above (one_number [] (ascii "h-plus") band) refl y
  ]
]
  where
    of_below :
        (o : Option ℕ)
        → one_number (ascii "under-") (ascii "h") band ≡ o
        → matched (λ n. ltb value (n * hour)) o ≡ true
        → LiesIn value band
    of_below none e k = cc
    of_below (some high) e k = below high e (ltb→lt value (high * hour) k)

    of_between :
        (o : Option (ℕ × ℕ))
        → two_numbers (ascii "h-to-under-") (ascii "h") band ≡ o
        → matched_two (λ low high. leb (low * hour) value && ltb value (high * hour)) o ≡ true
        → LiesIn value band
    of_between none e k = cc
    of_between (some (low, high)) e k =
        let (from, to) = and-both _ _ k in
        between low high e (leb→le (low * hour) value from) (ltb→lt value (high * hour) to)

    of_above :
        (o : Option ℕ)
        → one_number [] (ascii "h-plus") band ≡ o
        → matched (λ n. leb (n * hour) value) o ≡ true
        → LiesIn value band
    of_above none e k = cc
    of_above (some low) e k = above low e (leb→le (low * hour) value k)

-- What the band that is chosen is to a duration that may be missing.
abbrev pub SaysOf : Option ℕ → Text → Type 0
SaysOf none band = band ≡ ascii "unknown"
SaysOf (some value) band = LiesIn value band

abbrev pub IsOneOf : Text → List Text → Type 0
IsOneOf band [] = ⊥
IsOneOf band (b ∷ bs) = (band ≡ b) ⊎ IsOneOf band bs

first_band-IsOneOf :
    (test : Text → Bool) (band : Text) (bands : List Text)
    → first_band test bands ≡ ok band
    → IsOneOf band bands
first_band-IsOneOf test band [] h = cc
first_band-IsOneOf test band (b ∷ bs) h = chosen (test b) h (first_band-IsOneOf test band bs)
  where
    chosen :
        (y : Bool)
        → (if y then ok b else first_band test bs) ≡ ok band
        → (first_band test bs ≡ ok band → IsOneOf band bs)
        → IsOneOf band (b ∷ bs)
    chosen true e later = inl (sym (ok_injective b band e))
    chosen false e later = inr (later e)

AreBands-HasBand : (value : ℕ) (bands : List Text) → AreBands bands → HasBand value bands
unfolding in_duration_band
AreBands-HasBand value [] h = absurd h
AreBands-HasBand value (band ∷ bands) (low, e, rest) = elim (Bool-cases (ltb value (low * hour))) [
  | inl y ↦ HasBand-head value band bands (rw e (ground arith))
  | inr n ↦
      HasBand-cons value band bands
        (Follows-HasBand value low bands rest (ltb_false→le value (low * hour) n))
]

-- Bands that name the unknown duration, and then begin with an upper bound of hours, follow each
-- other and end open: `_duration_band` returns one of them for every duration and for none. For none
-- it is the band unknown; a duration is in the range of hours that the name of its band spells out.
pub duration_band-covers :
    (value : Option ℕ) (bands : List Text)
    → AreBands bands
    → (band : Text) × (duration_band value (ascii "unknown" ∷ bands) ≡ ok band)
      × IsOneOf band (ascii "unknown" ∷ bands)
      × SaysOf value band
unfolding duration_band bytes_eq
duration_band-covers none bands h = (ascii "unknown", refl, inl refl, refl)
duration_band-covers (some value) bands h =
    let (band, e, y) =
      HasBand-cons value (ascii "unknown") bands (AreBands-HasBand value bands h) in
    (
      band,
      e,
      first_band-IsOneOf (in_duration_band value) band (ascii "unknown" ∷ bands) e,
      in_duration_band-LiesIn value band y,
    )
