-- ===== src/Hours.antt =====
-- src/mybench/scorer/agent_hours.py: the coarse durations of some session timings. The registry's
-- entry and its `check_claim`, and `datetime.fromisoformat` of a UTC time, in microseconds, are
-- parameters.
pub mod Total
pub mod Bands
pub mod Band
use mybench.Base.{
  Bool, List, Option, Result, [], ascii, bytes_eq, err, false, if◌then◌else◌, leb, length, ltb,
  none, not, ok, refuse, scoring_error, some, suc, true, value_error, zero, ℕ, ◌&&◌, ◌*◌, ◌++◌, ◌+◌,
  ◌-◌, ◌==◌, ◌>>=◌, ◌>>◌, ◌∷◌,
}
use mybench.Hours.Band.{
  backfill_band, behind, coverage_band, duration_band, ended, ended_two, first_band, hour,
  in_backfill_band, in_coverage_band, in_duration_band, matched, matched_two, minute, number_behind,
  number_loop, one_number, two_numbers,
}
use mybench.Json.{Json}
use mybench.Ledger.{Text}
use mybench.Anchor.Receipt.{before_z}
use mybench.Sessions.{is_none}
use mybench.Stamp.{is_digit}
use mybench.Lifecycle.Record.{mem_text}
use mybench.Timing.{SessionTiming, Coverage, complete, is_canonical}

-- A timing with both of its ends.
pub record Bounded : Type 0 where
  pub opened : Text
  pub closed : Text
  pub observed : List Text
  pub is_complete : Bool

abbrev pub has_complete : Coverage → Bool
has_complete complete = true
has_complete _ = false

abbrev pub bounded : Option Text → Option Text → SessionTiming → Option Bounded
bounded (some o) (some c) t = some (record {
  opened = o;
  closed = c;
  observed = t.event_observed_at;
  is_complete = has_complete t.observed_at_status;
})
bounded _ _ t = none

abbrev pub cons_some {ℓ} : {A : Type ℓ} → Option A → List A → List A
cons_some none xs = xs
cons_some (some x) xs = x ∷ xs

unfoldable pub boundary_known : List SessionTiming → List Bounded
boundary_known [] = []
boundary_known (t ∷ ts) = cons_some (bounded t.opened_at t.closed_at t) (boundary_known ts)

unfoldable pub active_known : List Bounded → List Bounded
active_known [] = []
active_known (b ∷ bs) = let rest = active_known bs in if b.is_complete then b ∷ rest else rest

-- `sorted` of a set of times
abbrev pub insert_time : ℕ → List ℕ → List ℕ
insert_time t [] = t ∷ []
insert_time t (u ∷ us) =
    let rest = insert_time t us in
    if ltb t u then t ∷ u ∷ us else if t == u then u ∷ us else u ∷ rest

-- The gaps between neighbours that are no longer than `idle`.
abbrev pub gaps : ℕ → ℕ → List ℕ → ℕ
gaps idle earlier [] = 0
gaps idle earlier (later ∷ rest) =
    let others = gaps idle later rest in
    if leb (later - earlier) idle then (later - earlier) + others else others

abbrev pub all_gaps : ℕ → List ℕ → ℕ
all_gaps idle [] = 0
all_gaps idle (t ∷ ts) = gaps idle t ts

pub record BandDefinition : Type 0 where
  pub field : Text
  pub bands : List Text

-- The registry's entry. `sessions` is the support contract, if it is one number of sessions; a
-- constant of the output schema may be missing.
pub record Entry : Type 0 where
  pub is_active : Bool
  pub sessions : Option ℕ
  pub band_definitions : List BandDefinition
  pub trust_tier : Option Text
  pub close_normalizer_version : Option Text
  pub active_time_definition : Option Text
  pub wall_clock_definition : Option Json
  pub caveats : Option Json

pub record Profile : Type 0 where
  pub active_time_band : Text
  pub wall_clock_time_band : Text
  pub observed_boundary_coverage_band : Text
  pub active_time_coverage_band : Text
  pub backfill_annotation : Text
  pub active_time_definition : Text
  pub wall_clock_definition : Json
  pub close_normalizer_version : Text
  pub trust_tier : Text
  pub caveats : Json

-- `_bands`, and `_const` of a constant that may be missing.
abbrev pub bands_of : Text → List BandDefinition → Result (List Text)
bands_of field [] = err scoring_error
bands_of field (d ∷ ds) =
    let rest = bands_of field ds in if bytes_eq d.field field then ok d.bands else rest

abbrev pub required {ℓ} : {A : Type ℓ} → Option A → Result A
required none = err scoring_error
required (some a) = ok a

-- The idle gap of a definition, in minutes.
unfoldable pub idle_minutes : Text → Result ℕ
idle_minutes definition =
    elim (one_number (ascii "sum-observed-gaps-no-greater-than-") (ascii "m") definition) [
      | none ↦ err scoring_error
      | some zero ↦ err scoring_error
      | some (suc n) ↦ ok (suc n)
    ]

-- `SESSION_TIMING_NORMALIZER_VERSION`, which every timing has.
abbrev pub session_timing_version : Text
session_timing_version = ascii "1.0.0"

module _ (fromisoformat : Text → Option ℕ) where
  abbrev pub instant_of : Option Text → Result ℕ
  instant_of none = err value_error
  instant_of (some front) = elim (fromisoformat (front ++ ascii "+00:00")) [
    | none ↦ err value_error
    | some t ↦ ok t
  ]

  -- `_timestamp`
  unfoldable pub timestamp : Text → Result ℕ
  timestamp value = do refuse (not (is_canonical value)) scoring_error; instant_of (before_z value)

  -- The points of a set, sorted.
  unfoldable pub points : List Text → Result (List ℕ)
  points [] = ok []
  points (t ∷ ts) = do n ← timestamp t; rest ← points ts; ok (insert_time n rest)

  unfoldable pub active_duration : ℕ → Bounded → Result ℕ
  active_duration idle b = do
    ordered ← points (b.opened ∷ b.closed ∷ b.observed)
    ok (all_gaps idle ordered)

  -- A timing has no reversed ends.
  unfoldable pub wall_duration : Bounded → Result ℕ
  wall_duration b = do
    closed ← timestamp b.closed
    opened ← timestamp b.opened
    ok (closed - opened)

  unfoldable pub sum_of : (Bounded → Result ℕ) → List Bounded → Result ℕ
  sum_of duration [] = ok 0
  sum_of duration (b ∷ bs) = do n ← duration b; rest ← sum_of duration bs; ok (n + rest)

  -- The sum, `None` where there is nothing to sum.
  abbrev pub total_of : (Bounded → Result ℕ) → List Bounded → Result (Option ℕ)
  total_of duration [] = ok none
  total_of duration (b ∷ bs) = sum_of duration (b ∷ bs) >>= λ n. ok (some n)

  -- The bands of the timings, once the contract of the entry is checked.
  unfoldable pub profile_of : Entry → List SessionTiming → ℕ → Result Profile
  profile_of entry timings anchored_span_days = do
    trust_tier ← required entry.trust_tier
    refuse (not (bytes_eq trust_tier (ascii "ANCHORED"))) scoring_error
    expected ← required entry.close_normalizer_version
    refuse (not (length timings == 0) && not (bytes_eq session_timing_version expected))
        scoring_error
    definition ← required entry.active_time_definition
    idle ← idle_minutes definition
    let known = boundary_known timings
    wall ← total_of wall_duration known
    active ← total_of (active_duration (idle * minute)) (active_known known)
    active_bands ← bands_of (ascii "active_time_band") entry.band_definitions
    active_band ← duration_band active active_bands
    wall_bands ← bands_of (ascii "wall_clock_time_band") entry.band_definitions
    wall_band ← duration_band wall wall_bands
    boundary_bands ← bands_of (ascii "observed_boundary_coverage_band") entry.band_definitions
    boundary_band ← coverage_band (length known) (length timings) boundary_bands
    complete_bands ← bands_of (ascii "active_time_coverage_band") entry.band_definitions
    complete_band ← coverage_band (length (active_known known)) (length timings) complete_bands
    span_bands ← bands_of (ascii "backfill_annotation") entry.band_definitions
    span_band ← backfill_band anchored_span_days span_bands
    wall_definition ← required entry.wall_clock_definition
    caveats ← required entry.caveats
    ok (record {
      active_time_band = active_band;
      wall_clock_time_band = wall_band;
      observed_boundary_coverage_band = boundary_band;
      active_time_coverage_band = complete_band;
      backfill_annotation = span_band;
      active_time_definition = definition;
      wall_clock_definition = wall_definition;
      close_normalizer_version = expected;
      trust_tier = trust_tier;
      caveats = caveats;
    })

  -- `check_claim` says whether the registry passes the claim.
  unfoldable pub score_agent_hours :
      Entry → (Profile → Bool) → List SessionTiming → ℕ → Result (Option Profile)
  score_agent_hours entry check_claim timings anchored_span_days = do
    refuse (not entry.is_active) scoring_error
    support ← required entry.sessions
    if ltb (length timings) support then ok none else do
      profile ← profile_of entry timings anchored_span_days
      refuse (not (check_claim profile)) scoring_error
      ok (some profile)
