-- ===== src/Hours/Total.antt =====
-- The active time of some timings is at most their wall-clock time.
use mybench.Base.{
  All, Bool, Bool-cases, List, Option, Result, [], ap, arith, false, if◌then◌else◌, inl, inr, leb,
  ltb, none, ok, refl, some, true, ℕ, ◌+◌, ◌-◌, ◌==◌, ◌>>=◌, ◌∷◌, ◌≡◌, ◌≤◌,
}
use mybench.Ledger.{Text}
use mybench.Ledger.Write.{text_lt}
use mybench.Sessions.{reversed}
use mybench.Timing.{SessionTiming, is_canonical, optional_canonical}
use mybench.Timing.Checked.{IsObservation}
use mybench.Timing.Total.{IsTiming}
use mybench.Hours.{
  Bounded, bounded, cons_some, boundary_known, active_known, insert_time, gaps, all_gaps, timestamp,
  points, active_duration, wall_duration, sum_of,
}

-- Times between two ends, and each above the next.
abbrev IsSorted : ℕ → ℕ → List ℕ → Type 0
IsSorted low high [] = low ≤ high
IsSorted low high (t ∷ ts) = (low ≤ t) × IsSorted t high ts

IsSorted-le : (low high : ℕ) (ts : List ℕ) → IsSorted low high ts → low ≤ high
IsSorted-le low high [] h = h
IsSorted-le low high (t ∷ ts) h = omega (arith, h.0, IsSorted-le t high ts h.1)

insert_time-IsSorted :
    (low high t : ℕ) (ts : List ℕ)
    → low ≤ t
    → t ≤ high
    → IsSorted low high ts
    → IsSorted low high (insert_time t ts)
insert_time-IsSorted low high t [] a b h = (a, b)
insert_time-IsSorted low high t (u ∷ us) a b h = elim (Bool-cases (ltb t u)) [
  | inl y ↦ rw y (a, (ground arith, h.1))
  | inr n ↦ elim (Bool-cases (t == u)) [
    | inl y ↦ rw (n, y) h
    | inr m ↦ rw (n, m) (h.0, insert_time-IsSorted u high t us (ground arith) b h.1)
  ]
]

gaps-le : (idle low high : ℕ) (ts : List ℕ) → IsSorted low high ts → gaps idle low ts ≤ high - low
gaps-le idle low high [] h = omega arith
gaps-le idle low high (t ∷ ts) h =
    let rest = gaps-le idle t high ts h.1 in
    let last = IsSorted-le t high ts h.1 in
    elim (Bool-cases (leb (t - low) idle)) [
      | inl y ↦ rw y (omega (arith, h.0, rest, last))
      | inr n ↦ rw n (omega (arith, h.0, rest, last))
    ]

all_gaps-le :
    (idle low high : ℕ) (ts : List ℕ) → IsSorted low high ts → all_gaps idle ts ≤ high - low
all_gaps-le idle low high [] h = omega arith
all_gaps-le idle low high (t ∷ ts) h =
    omega (arith, h.0, gaps-le idle t high ts h.1, IsSorted-le t high ts h.1)

-- What is relied on of `datetime`: it reads a canonical time, and orders them as texts.
pub record IsClock (fromisoformat : Text → Option ℕ) : Type 0 where
  pub reads : (t : Text) → is_canonical t ≡ true → (n : ℕ) × (timestamp fromisoformat t ≡ ok n)
  pub ordered :
      (a b : Text) (m n : ℕ)
      → timestamp fromisoformat a ≡ ok m
      → timestamp fromisoformat b ≡ ok n
      → text_lt b a ≡ false
      → m ≤ n

record IsWithin (opened closed t : Text) : Type 0 where
  stamp : is_canonical t ≡ true
  after_open : text_lt t opened ≡ false
  before_close : text_lt closed t ≡ false

record IsBounded (b : Bounded) : Type 0 where
  opened_stamp : is_canonical b.opened ≡ true
  closed_stamp : is_canonical b.closed ≡ true
  forward_ends : text_lt b.closed b.opened ≡ false
  between : All (IsWithin b.opened b.closed) b.observed

boundary_known-IsBounded :
    (ts : List SessionTiming) → All IsTiming ts → All IsBounded (boundary_known ts)
unfolding boundary_known
boundary_known-IsBounded [] h = tt
boundary_known-IsBounded (t ∷ ts) h =
    kept t.opened_at t.closed_at h.0.opened_stamp h.0.closed_stamp h.0.forward_ends h.0.between
      (boundary_known ts) (boundary_known-IsBounded ts h.1)
  where
    within :
        (o c : Text) (us : List Text)
        → All (IsObservation (some o) (some c)) us
        → All (IsWithin o c) us
    within o c [] h = tt
    within o c (u ∷ us) h = (
      record { stamp = h.0.stamp; after_open = h.0.after_open; before_close = h.0.before_close },
      within o c us h.1,
    )

    canonical : (t : Text) → optional_canonical (some t) ≡ true → is_canonical t ≡ true
    canonical t h = h

    kept :
        (o c : Option Text)
        → optional_canonical o ≡ true
        → optional_canonical c ≡ true
        → reversed o c ≡ false
        → All (IsObservation o c) t.event_observed_at
        → (bs : List Bounded) → All IsBounded bs
        → All IsBounded (cons_some (bounded o c t) bs)
    kept none c ho hc f b bs k = k
    kept (some o) none ho hc f b bs k = k
    kept (some o) (some c) ho hc f b bs k = (
      record {
        opened_stamp = ho;
        closed_stamp = hc;
        forward_ends = f;
        between = within o c t.event_observed_at b;
      },
      k,
    )

module _ (fromisoformat : Text → Option ℕ) (clock : IsClock fromisoformat) where
  points-IsSorted :
      (low high : ℕ) (ts : List Text)
      → low ≤ high
      → All (λ t. (n : ℕ) × (timestamp fromisoformat t ≡ ok n) × (low ≤ n) × (n ≤ high)) ts
      → (out : List ℕ) × (points fromisoformat ts ≡ ok out) × IsSorted low high out
  unfolding points
  points-IsSorted low high [] b h = ([], refl, b)
  points-IsSorted low high (t ∷ ts) b h =
      let (n, e, above, below) = h.0 in
      let (out, es, sorted) = points-IsSorted low high ts b h.1 in
      (insert_time n out, rw (e, es) refl, insert_time-IsSorted low high n out above below sorted)

  active_duration-le :
      (idle : ℕ) (b : Bounded)
      → IsBounded b
      → (a w : ℕ) × (active_duration fromisoformat idle b ≡ ok a)
        × (wall_duration fromisoformat b ≡ ok w)
        × (a ≤ w)
  unfolding active_duration wall_duration
  active_duration-le idle b h =
      let (o, eo) = clock.reads b.opened h.opened_stamp in
      let (c, ec) = clock.reads b.closed h.closed_stamp in
      let forward_times : o ≤ c = clock.ordered b.opened b.closed o c eo ec h.forward_ends in
      let (out, e, sorted) = points-IsSorted o c (b.opened ∷ b.closed ∷ b.observed) forward_times (
        (o, eo, omega arith, forward_times),
        ((c, ec, forward_times, omega arith), seen b.observed o c eo ec h.between),
      ) in
      (
        all_gaps idle out,
        c - o,
        ap (λ r. r >>= λ ordered. ok (all_gaps idle ordered)) e,
        rw (ec, eo) refl,
        all_gaps-le idle o c out sorted,
      )
    where
      seen :
          (ts : List Text) (o c : ℕ)
          → timestamp fromisoformat b.opened ≡ ok o
          → timestamp fromisoformat b.closed ≡ ok c
          → All (IsWithin b.opened b.closed) ts
          → All (λ t. (n : ℕ) × (timestamp fromisoformat t ≡ ok n) × (o ≤ n) × (n ≤ c)) ts
      seen [] o c eo ec h = tt
      seen (t ∷ ts) o c eo ec h =
          let (n, e) = clock.reads t h.0.stamp in
          (
            (
              n,
              e,
              clock.ordered b.opened t o n eo e h.0.after_open,
              clock.ordered t b.closed n c e ec h.0.before_close,
            ),
            seen ts o c eo ec h.1,
          )

  sum_of-le :
      (idle : ℕ) (bs : List Bounded)
      → All IsBounded bs
      → (a w : ℕ) × (sum_of fromisoformat (active_duration fromisoformat idle) (active_known bs)
          ≡ ok a)
        × (sum_of fromisoformat (wall_duration fromisoformat) bs ≡ ok w)
        × (a ≤ w)
  unfolding sum_of active_known
  sum_of-le idle [] h = (0, 0, refl, refl, omega arith)
  sum_of-le idle (b ∷ bs) h =
      let (a, w, ea, ew, le) = active_duration-le idle b h.0 in
      let (as', ws, eas, ews, les) = sum_of-le idle bs h.1 in
      go b.is_complete a w as' ws ea eas ew ews le les
    where
      active : List Bounded → Result ℕ
      active = sum_of fromisoformat (active_duration fromisoformat idle)

      go :
          (kept : Bool) (a w as' ws : ℕ)
          → active_duration fromisoformat idle b ≡ ok a
          → active (active_known bs) ≡ ok as'
          → wall_duration fromisoformat b ≡ ok w
          → sum_of fromisoformat (wall_duration fromisoformat) bs ≡ ok ws
          → a ≤ w
          → as' ≤ ws
          → (x y : ℕ) × (active (if kept then b ∷ active_known bs else active_known bs) ≡ ok x)
            × ((wall_duration fromisoformat b >>= λ n.
                  sum_of fromisoformat (wall_duration fromisoformat) bs >>= λ rest. ok (n + rest))
                ≡ ok y)
            × (x ≤ y)
      go true a w as' ws ea eas ew ews le les =
          (a + as', w + ws, rw (ea, eas) refl, rw (ew, ews) refl, omega (arith, le, les))
      go false a w as' ws ea eas ew ews le les =
          (as', w + ws, eas, rw (ew, ews) refl, omega (arith, le, les))

  -- For timings that hold together, both totals are computed without an error, and the active time,
  -- over the timings whose observations are complete, is at most the wall-clock time over the
  -- timings with both ends.
  pub agent_hours-le :
      (idle : ℕ) (timings : List SessionTiming)
      → All IsTiming timings
      → (a w : ℕ) × (sum_of fromisoformat
            (active_duration fromisoformat idle)
            (active_known (boundary_known timings))
          ≡ ok a)
        × (sum_of fromisoformat (wall_duration fromisoformat) (boundary_known timings) ≡ ok w)
        × (a ≤ w)
  agent_hours-le idle timings h =
      sum_of-le idle (boundary_known timings) (boundary_known-IsBounded timings h)
