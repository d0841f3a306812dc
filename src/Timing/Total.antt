-- ===== src/Timing/Total.antt =====
-- `_normalize_one` raises for no session whose recorded ends are canonical.
use mybench.Base.{
  ==_refl, All, Bool-cases, Bytes, List, Option, [], false, inl, inr, length, not, ok, refl, true,
  ◌&&◌, ◌∷◌, ◌≡◌,
}
use mybench.Json.{Members}
use mybench.Ledger.{Text}
use mybench.Ledger.Write.{sorted_set}
use mybench.Timing.Order.{
  IsIncreasing, sorted_set-IsIncreasing, sorted_set-increasing, sort_texts-increasing,
  texts_eq_refl, All-sorted_set,
}
use mybench.Timing.Checked.{
  IsBoundary, IsStamped, IsObservation, decode_records-AllStamped, open_of-IsBoundary,
  close_of-IsBoundary, forward-IsBoundary, forward-ordered, observations-IsObservation,
  eligible-AllStamped,
}
use mybench.Sessions.{VerifiedSession, is_empty, reversed}
use mybench.Timing.{
  is_supported, Decoded, SessionTiming, Boundary, is_uncovered, optional_canonical, all_canonical,
  check_timing, open_of, close_of, forward, eligible, observations, all_observed, coverage_of,
  timing_between, decode_records, normalize_one,
}

-- A timing that holds together: increasing observations, all of them between the ends, and canonical
-- times.
pub record IsTiming (t : SessionTiming) : Type 0 where
  pub increasing : IsIncreasing t.event_observed_at
  pub between : All (IsObservation t.opened_at t.closed_at) t.event_observed_at
  pub forward_ends : reversed t.opened_at t.closed_at ≡ false
  pub opened_stamp : optional_canonical t.opened_at ≡ true
  pub closed_stamp : optional_canonical t.closed_at ≡ true

all_canonical-between :
    (opened closed : Option Text) (ts : List Text)
    → All (IsObservation opened closed) ts
    → all_canonical ts ≡ true
all_canonical-between opened closed [] h = refl
all_canonical-between opened closed (t ∷ ts) h =
    rw h.0.stamp (all_canonical-between opened closed ts h.1)

-- No record, no observation.
covered :
    (opened closed : Option Text) (rs : List Decoded)
    → (is_uncovered (coverage_of opened closed rs)
        && not (is_empty (sorted_set (observations opened closed rs))))
      ≡ false
unfolding observations sorted_set
covered opened closed [] = refl
covered opened closed (r ∷ rs) = elim (Bool-cases (all_observed opened closed (r ∷ rs))) [
  | inl y ↦ rw y refl
  | inr n ↦ rw n refl
]

timing_between-checked :
    (source : Text) (decoded : List Decoded) (o c : Boundary)
    → is_supported source ≡ true
    → IsBoundary o
    → IsBoundary c
    → reversed o.time c.time ≡ false
    → All
        (IsObservation o.time c.time)
        (observations o.time c.time (eligible o.index c.index decoded))
    → (check_timing (timing_between source decoded o c) ≡ ok (timing_between source decoded o c))
      × IsTiming (timing_between source decoded o c)
unfolding check_timing timing_between
timing_between-checked source decoded o c supported ho hc ordered h =
    let rs : List Decoded = eligible o.index c.index decoded in
    let ts : List Text = sorted_set (observations o.time c.time rs) in
    let inc : IsIncreasing ts = sorted_set-IsIncreasing (observations o.time c.time rs) in
    let between : All (IsObservation o.time c.time) ts =
      All-sorted_set (IsObservation o.time c.time) (observations o.time c.time rs) h in
    (
      rw
          (
            supported,
            ho.known,
            hc.known,
            ho.stamped,
            hc.stamped,
            all_canonical-between o.time c.time ts between,
            sort_texts-increasing ts inc,
            texts_eq_refl ts,
            sorted_set-increasing ts inc,
            ==_refl (length ts),
            ordered,
            covered o.time c.time rs,
          )
          refl,
      record {
        increasing = inc;
        between = between;
        forward_ends = ordered;
        opened_stamp = ho.stamped;
        closed_stamp = hc.stamped;
      },
    )

-- A session of a supported source whose recorded ends are canonical times, if it has them, has a timing: `_normalize_one`
-- returns it and its own check does not raise, its observations increase without repetition, each
-- lies between the ends that are known, and the ends are not reversed.
pub normalize_one-IsTiming :
    (json_object : Bytes → Option Members) (s : VerifiedSession)
    → is_supported s.source ≡ true
    → IsStamped s
    → (t : SessionTiming) × (normalize_one json_object s ≡ ok t) × IsTiming t
unfolding normalize_one
normalize_one-IsTiming json_object s supported h =
    let decoded = decode_records json_object s.records in
    let stamped = decode_records-AllStamped json_object s.records in
    let o : Boundary = open_of s decoded in
    let c : Boundary = forward o (close_of s decoded) in
    let (checked, good) =
      timing_between-checked s.source decoded o c supported (open_of-IsBoundary s decoded h stamped)
        (forward-IsBoundary o (close_of s decoded) (close_of-IsBoundary s decoded h stamped))
        (forward-ordered o (close_of s decoded))
        (observations-IsObservation o.time c.time (eligible o.index c.index decoded)
          (eligible-AllStamped o.index c.index decoded stamped)) in
    (_, checked, good)
