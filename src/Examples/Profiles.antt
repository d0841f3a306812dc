-- ===== src/Examples/Profiles.antt =====
-- The bands of the registry, and the durations of a session that began in another millennium.
use mybench.Base.{
  Bool, Bool-cases, List, Option, Option-cases, [], ap, append_assoc, ap₂, arith, ascii, bytes_eq,
  bytes_eq_sound, err-ne-ok, false, inl, inr, none, not, ok, ok_injective, refl, refuse,
  refuse-eq-ok, scoring_error, some, subst, sym, true, ℕ, ◌++◌, ◌>>◌, ◌∙◌, ◌∷◌, ◌≡◌, ◌≤◌,
}
use mybench.Ledger.{Text}
use mybench.Ledger.Write.{text_lt}
use mybench.Stamp.Canonical.{canonical_timestamp-IsStamp}
use mybench.Stamp.{padded, is_digit, is_leap, days_in_month, is_civil, canonical_timestamp}
use mybench.Timing.{SessionTiming, complete, observed, is_canonical}
use mybench.Timing.Total.{IsTiming}
use mybench.Anchor.Receipt.{before_z}
use mybench.Hours.{
  instant_of, boundary_known, active_known, timestamp, active_duration, wall_duration, sum_of,
}
use mybench.Hours.Band.{one_number, two_numbers, duration_band}
use mybench.Hours.Total.{IsClock, agent_hours-le}
use mybench.Hours.Bands.{IsOneOf, AreBands, SaysOf, duration_band-covers}

abbrev registry_bands : List Text
registry_bands =
    ascii "under-1h"
    ∷ ascii "1h-to-under-8h"
    ∷ ascii "8h-to-under-40h"
    ∷ ascii "40h-to-under-160h"
    ∷ ascii "160h-plus"
    ∷ []

registry_bands-AreBands : AreBands registry_bands
unfolding one_number two_numbers bytes_eq
registry_bands-AreBands = (1, refl, (8, refl, (40, refl, (160, refl, refl))))

duration_band-covers_example :
    (band : Text) × (duration_band (some 3600000000) (ascii "unknown" ∷ registry_bands) ≡ ok band)
    × IsOneOf band (ascii "unknown" ∷ registry_bands)
    × SaysOf (some 3600000000) band
duration_band-covers_example =
    duration_band-covers (some 3600000000) registry_bands registry_bands-AreBands

-- A clock that reads the millennium.
abbrev millennium : Text → Option ℕ
millennium [] = none
millennium (c ∷ t) = some c

long : (c : ℕ) → is_canonical (c ∷ []) ≡ true → ⊥
unfolding canonical_timestamp
long c h = elim (Bool-cases (is_digit c)) [ inl y ↦ cc | inr n ↦ cc ]

timestamp-first : (c d : ℕ) (t : Text) (n : ℕ) → timestamp millennium (c ∷ d ∷ t) ≡ ok n → c ≡ n
unfolding timestamp
timestamp-first c d t n h =
    go (before_z (d ∷ t)) (refuse-eq-ok (not (is_canonical (c ∷ d ∷ t))) scoring_error _ h).1
  where
    go :
        (o : Option Text)
        → instant_of millennium (elim o [ none ↦ none | some front ↦ some (c ∷ front) ]) ≡ ok n
        → c ≡ n
    go none h = absurd (err-ne-ok _ _ h)
    go (some front) h = ok_injective _ _ h

before_z-end : (xs : Text) → before_z (xs ++ (b'Z' ∷ [])) ≡ some xs
before_z-end [] = refl
before_z-end (x ∷ []) = refl
before_z-end (x ∷ y ∷ xs) = rw (before_z-end (y ∷ xs)) refl

millennium-reads : (xs : Text) → (n : ℕ) × (instant_of millennium (some xs) ≡ ok n)
millennium-reads [] = (b'+', refl)
millennium-reads (x ∷ xs) = (x, refl)

timestamp-reads : (t : Text) → is_canonical t ≡ true → (n : ℕ) × (timestamp millennium t ≡ ok n)
unfolding timestamp
timestamp-reads t h = elim (Option-cases (canonical_timestamp t)) [
  | inl missing ↦ cc (rw missing at h)
  | inr (c, e) ↦
      let same : c ≡ t = bytes_eq_sound c t (rw e at h) in
      let s = canonical_timestamp-IsStamp t c e in
      let front : Text = s.head ++ (b'.' ∷ padded s.digits) in
      let whole : t ≡ front ++ (b'Z' ∷ []) =
        sym same ∙ (s.shape ∙ sym (append_assoc s.head (b'.' ∷ padded s.digits) (b'Z' ∷ []))) in
      let (n, read) = millennium-reads front in
      (
        n,
        ap (λ b. refuse (not b) scoring_error >> instant_of millennium (before_z t)) h
            ∙ (ap (λ x. instant_of millennium (before_z x)) whole
                ∙ (ap (instant_of millennium) (before_z-end front) ∙ read)),
      )
]

long_enough :
    (t : Text) (n : ℕ)
    → timestamp millennium t ≡ ok n
    → (c d : ℕ) × (rest : Text) × (t ≡ c ∷ d ∷ rest)
unfolding timestamp canonical_timestamp
long_enough [] n h = cc
long_enough (c ∷ []) n h =
    absurd (long c (not_false _ (refuse-eq-ok (not (is_canonical (c ∷ []))) scoring_error _ h).0))
  where
    not_false : (b : Bool) → not b ≡ false → b ≡ true
    not_false true k = refl
    not_false false k = cc
long_enough (c ∷ d ∷ rest) n h = (c, d, rest, refl)

timestamp-ordered :
    (a b : Text) (m n : ℕ)
    → timestamp millennium a ≡ ok m
    → timestamp millennium b ≡ ok n
    → text_lt b a ≡ false
    → m ≤ n
unfolding text_lt
timestamp-ordered a b m n ha hb h =
    let (c, d, rest, ea) = long_enough a m ha in
    let (c', d', rest', eb) = long_enough b n hb in
    first c c' d d' rest rest'
      (timestamp-first c d rest m (subst (λ t. timestamp millennium t ≡ ok m) ea ha))
      (timestamp-first c' d' rest' n (subst (λ t. timestamp millennium t ≡ ok n) eb hb))
      (ap₂ text_lt (sym eb) (sym ea) ∙ h)
  where
    first :
        (c c' d d' : ℕ) (rest rest' : Text)
        → c ≡ m
        → c' ≡ n
        → text_lt (c' ∷ d' ∷ rest') (c ∷ d ∷ rest) ≡ false
        → m ≤ n
    first c c' d d' rest rest' e e' k = ground arith

millennium-IsClock : IsClock millennium
millennium-IsClock = record { reads = timestamp-reads; ordered = timestamp-ordered }

abbrev opened : Text
opened = ascii "1999-12-31T23:59:59.000000Z"

abbrev closed : Text
closed = ascii "2000-01-01T00:00:00.000000Z"

abbrev long_timing : SessionTiming
long_timing = record {
  source = ascii "codex";
  open_status = observed;
  close_status = observed;
  observed_at_status = complete;
  opened_at = some opened;
  closed_at = some closed;
  event_observed_at = closed ∷ [];
}

long_timing-IsTiming : IsTiming long_timing
unfolding text_lt bytes_eq canonical_timestamp is_civil days_in_month is_leap
long_timing-IsTiming = record {
  increasing = (tt, tt);
  between = (record { after_open = refl; before_close = refl; stamp = refl }, tt);
  forward_ends = refl;
  opened_stamp = refl;
  closed_stamp = refl;
}

agent_hours-le_example :
    (a w : ℕ) × (sum_of millennium
        (active_duration millennium 1)
        (active_known (boundary_known (long_timing ∷ [])))
      ≡ ok a)
    × (sum_of millennium (wall_duration millennium) (boundary_known (long_timing ∷ [])) ≡ ok w)
    × (a ≤ w)
agent_hours-le_example =
    agent_hours-le millennium millennium-IsClock 1 (long_timing ∷ []) (long_timing-IsTiming, tt)
