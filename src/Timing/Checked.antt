-- ===== src/Timing/Checked.antt =====
-- The timing of a session never fails its own check, and its observations lie between its ends.
use mybench.Base.{
  All, Bool, Bool-cases, Bytes, List, Option, Option-cases, [], ascii, bytes_eq_refl, false,
  if◌then◌else◌, inl, inr, none, refl, some, subst, true, ℕ, ◌&&◌, ◌||◌, ◌∷◌, ◌≡◌,
}
use mathlib.Core.Option.{some-injective}
use mybench.Json.{Members, get, text_of}
use mybench.Ledger.{Text}
use mybench.Stamp.{canonical_timestamp}
use mybench.Stamp.Canonical.{canonical_timestamp_twice}
use mybench.Sessions.{VerifiedRecord, VerifiedSession, is_none, reversed, stamp_in}
use mybench.Timing.{
  is_codex, Status, unknown, is_unknown, is_canonical, optional_canonical, bool_eq, Decoded,
  timestamp_of, is_subject, matches, first_marker, last_marker, or_else, Boundary, end_boundary,
  inferred_status, opens, closes, open_of, close_of, forward, from_index, to_index, eligible,
  observation_in, observations, decode_records,
}

canonical-is_canonical : (t c : Text) → canonical_timestamp t ≡ some c → is_canonical c ≡ true
canonical-is_canonical t c h = rw (canonical_timestamp_twice t c h) (bytes_eq_refl c)

stamp_in-canonical : (o : Option Text) → optional_canonical (stamp_in o) ≡ true
stamp_in-canonical none = refl
stamp_in-canonical (some t) = elim (Option-cases (canonical_timestamp t)) [
  | inl n ↦ rw n refl
  | inr (c, e) ↦ rw e (canonical-is_canonical t c e)
]

-- A time of a record is canonical.
abbrev pub AllStamped : List Decoded → Type 0
AllStamped = All (λ (d : Decoded). optional_canonical d.observed_at ≡ true)

abbrev MarkerStamped : Option Decoded → Type 0
MarkerStamped none = Unit {0}
MarkerStamped (some d) = optional_canonical d.observed_at ≡ true

timestamp_of-canonical : (m : Option Members) → optional_canonical (timestamp_of m) ≡ true
timestamp_of-canonical none = refl
timestamp_of-canonical (some m) = stamp_in-canonical (text_of (get (ascii "timestamp") m))

pub decode_records-AllStamped :
    (json_object : Bytes → Option Members) (rs : List VerifiedRecord)
    → AllStamped (decode_records json_object rs)
unfolding decode_records
decode_records-AllStamped json_object [] = tt
decode_records-AllStamped json_object (r ∷ rs) = elim (Bool-cases (is_subject r.attribution)) [
  | inl y ↦
      rw y
        (timestamp_of-canonical (json_object r.raw_bytes), decode_records-AllStamped json_object rs)
  | inr n ↦ rw n (decode_records-AllStamped json_object rs)
]

first_marker-MarkerStamped :
    (p : Members → Bool) (rs : List Decoded) → AllStamped rs → MarkerStamped (first_marker p rs)
unfolding first_marker
first_marker-MarkerStamped p [] h = tt
first_marker-MarkerStamped p (r ∷ rs) h = elim (Bool-cases (matches p r.value)) [
  | inl y ↦ rw y h.0
  | inr n ↦ rw n (first_marker-MarkerStamped p rs h.1)
]

last_marker-MarkerStamped :
    (p : Members → Bool) (rs : List Decoded) → AllStamped rs → MarkerStamped (last_marker p rs)
unfolding last_marker
last_marker-MarkerStamped p [] h = tt
last_marker-MarkerStamped p (r ∷ rs) h =
    either (last_marker p rs) (last_marker-MarkerStamped p rs h.1)
  where
    either :
        (o : Option Decoded)
        → MarkerStamped o
        → MarkerStamped (or_else o (if matches p r.value then some r else none))
    either (some d) k = k
    either none k = elim (Bool-cases (matches p r.value)) [ inl y ↦ rw y h.0 | inr n ↦ rw n tt ]

-- A boundary has a time exactly if its status is known, and the time is canonical.
pub record IsBoundary (b : Boundary) : Type 0 where
  pub known : bool_eq (is_none b.time) (is_unknown b.status) ≡ true
  pub stamped : optional_canonical b.time ≡ true

end_boundary-IsBoundary :
    (st : Status) (given : Option Text) (marker : Option Decoded)
    → is_unknown st ≡ false
    → optional_canonical given ≡ true
    → MarkerStamped marker
    → IsBoundary (end_boundary st given marker)
end_boundary-IsBoundary st (some t) marker s g m = record { known = refl; stamped = g }
end_boundary-IsBoundary st none none s g m = record { known = refl; stamped = refl }
end_boundary-IsBoundary st none (some r) s g m = marked r.observed_at m
  where
    marked :
        (o : Option Text)
        → optional_canonical o ≡ true
        → IsBoundary (elim o [
          | none ↦ record { time = none; status = unknown; index = some r.index }
          | some t ↦ record { time = some t; status = st; index = some r.index }
        ])
    marked none h = record { known = refl; stamped = refl }
    marked (some t) h = record { known = rw s refl; stamped = h }

-- The ends that the capture recorded, if any, are canonical.
abbrev pub IsStamped : VerifiedSession → Type 0
IsStamped s = (optional_canonical s.started_at ≡ true) × (optional_canonical s.ended_at ≡ true)

inferred-known : (source : Text) → is_unknown (inferred_status source) ≡ false
inferred-known source = elim (Bool-cases (is_codex source)) [
  | inl y ↦ rw y refl
  | inr n ↦ rw n refl
]

pub open_of-IsBoundary :
    (s : VerifiedSession) (rs : List Decoded)
    → IsStamped s
    → AllStamped rs
    → IsBoundary (open_of s rs)
unfolding open_of
open_of-IsBoundary s rs h k =
    end_boundary-IsBoundary (inferred_status s.source) s.started_at _ (inferred-known s.source) h.0
      (first_marker-MarkerStamped (opens s.source) rs k)

pub close_of-IsBoundary :
    (s : VerifiedSession) (rs : List Decoded)
    → IsStamped s
    → AllStamped rs
    → IsBoundary (close_of s rs)
unfolding close_of
close_of-IsBoundary s rs h k =
    end_boundary-IsBoundary (inferred_status s.source) s.ended_at _ (inferred-known s.source) h.1
      (last_marker-MarkerStamped (closes s.source) rs k)

pub forward-IsBoundary : (o c : Boundary) → IsBoundary c → IsBoundary (forward o c)
forward-IsBoundary o c h = elim (Bool-cases (reversed o.time c.time)) [
  | inl y ↦ rw y (record { known = refl; stamped = refl })
  | inr n ↦ rw n h
]

no_time : (o : Option Text) → reversed o none ≡ false
no_time none = refl
no_time (some t) = refl

pub forward-ordered : (o c : Boundary) → reversed o.time (forward o c).time ≡ false
forward-ordered o c = elim (Bool-cases (reversed o.time c.time)) [
  | inl y ↦ rw y (no_time o.time)
  | inr n ↦ rw n n
]

-- A text that is no earlier than the one end and no later than the other, and canonical.
pub record IsObservation (opened closed : Option Text) (t : Text) : Type 0 where
  pub after_open : reversed opened (some t) ≡ false
  pub before_close : reversed (some t) closed ≡ false
  pub stamp : is_canonical t ≡ true

observation_in-IsObservation :
    (opened closed : Option Text) (m : Option Members) (o : Option Text) (t : Text)
    → optional_canonical o ≡ true
    → observation_in opened closed m o ≡ some t
    → IsObservation opened closed t
observation_in-IsObservation opened closed none o t h e = cc
observation_in-IsObservation opened closed (some m) none t h e = cc
observation_in-IsObservation opened closed (some m) (some u) t h e =
    elim (Bool-cases (reversed opened (some u) || reversed (some u) closed)) [
      | inl y ↦ cc (rw y at e)
      | inr n ↦
          subst (IsObservation opened closed) (some-injective _ _ (rw n at e))
            (record { after_open = (neither _ _ n).0; before_close = (neither _ _ n).1; stamp = h })
    ]
  where
    neither : (a b : Bool) → (a || b) ≡ false → (a ≡ false) × (b ≡ false)
    neither true b h = cc
    neither false b h = (refl, h)

pub observations-IsObservation :
    (opened closed : Option Text) (rs : List Decoded)
    → AllStamped rs
    → All (IsObservation opened closed) (observations opened closed rs)
unfolding observations
observations-IsObservation opened closed [] h = tt
observations-IsObservation opened closed (r ∷ rs) h =
    found (observation_in opened closed r.value r.observed_at)
      (λ t. observation_in-IsObservation opened closed r.value r.observed_at t h.0)
      (observations-IsObservation opened closed rs h.1)
  where
    found :
        (o : Option Text)
        → ((t : Text) → o ≡ some t → IsObservation opened closed t)
        → All (IsObservation opened closed) (observations opened closed rs)
        → All (IsObservation opened closed) (elim o [
          | none ↦ observations opened closed rs
          | some t ↦ t ∷ observations opened closed rs
        ])
    found none k later = later
    found (some t) k later = (k t refl, later)

pub eligible-AllStamped :
    (first last : Option ℕ) (rs : List Decoded)
    → AllStamped rs
    → AllStamped (eligible first last rs)
unfolding eligible
eligible-AllStamped first last [] h = tt
eligible-AllStamped first last (r ∷ rs) h =
    elim (Bool-cases (from_index first r.index && to_index last r.index)) [
      | inl y ↦ rw y (h.0, eligible-AllStamped first last rs h.1)
      | inr n ↦ rw n (eligible-AllStamped first last rs h.1)
    ]
