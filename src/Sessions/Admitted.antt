-- ===== src/Sessions/Admitted.antt =====
-- What the consent filter reads, and what it lets through.
use mybench.Base.{
  >>=-eq-ok, All, Bool, Bool-cases, List, Option, Option-cases, Result-cases, [], ap, bytes_eq,
  bytes_eq_iff, bytes_eq_refl, false, if◌then◌else◌, inl, inr, length, none, normalization_error,
  not, ok, ok_injective, refl, refuse-eq-ok, some, subst, suc, true, ◌>>=◌, ◌>>◌, ◌||◌, ◌∙◌, ◌∷◌,
  ◌≡◌,
}
use mathlib.Core.Option.{some-injective}
use mybench.Ledger.{Text}
use mybench.Stamp.{canonical_timestamp}
use mybench.Stamp.Canonical.{canonical_timestamp_twice}
use mybench.Sessions.{
  Attribution, subject, non_subject, unattributed, VerifiedRecord, VerifiedSession, is_empty,
  text_is, is_admitted, admitted_records, stamp_in, check_fields, admitted_view, check_session,
  insert_session, session_lt, sort_sessions, check_all, check_input_sessions,
}

-- The records that are not known to be another's.
abbrev keep_own : Attribution → VerifiedRecord → List VerifiedRecord → List VerifiedRecord
keep_own subject r rest = r ∷ rest
keep_own unattributed r rest = r ∷ rest
keep_own non_subject r rest = rest

abbrev pub own_records : List VerifiedRecord → List VerifiedRecord
own_records [] = []
own_records (r ∷ rs) = keep_own r.attribution r (own_records rs)

admitted_records-own_records :
    (rs : List VerifiedRecord) → admitted_records (own_records rs) ≡ admitted_records rs
unfolding admitted_records
admitted_records-own_records [] = refl
admitted_records-own_records (r ∷ rs) = go r.attribution refl (admitted_records-own_records rs)
  where
    kept :
        is_admitted r.attribution ≡ true
        → admitted_records (own_records rs) ≡ admitted_records rs
        → (if is_admitted r.attribution
            then r ∷ admitted_records (own_records rs)
            else admitted_records (own_records rs))
          ≡ r ∷ admitted_records rs
    kept e same =
        ap
          (λ b.
            if b then r ∷ admitted_records (own_records rs) else admitted_records (own_records rs))
          e
        ∙ ap (λ l. r ∷ l) same

    go :
        (a : Attribution)
        → r.attribution ≡ a
        → admitted_records (own_records rs) ≡ admitted_records rs
        → admitted_records (keep_own a r (own_records rs))
          ≡ (if is_admitted a then r ∷ admitted_records rs else admitted_records rs)
    go subject e same = kept (ap is_admitted e) same
    go unattributed e same = kept (ap is_admitted e) same
    go non_subject e same = same

-- A session without the records that are known to be another's.
abbrev pub without_others : VerifiedSession → VerifiedSession
without_others s = record s { records = own_records s.records }

-- The records that are dropped change nothing.
pub check_session-without_others :
    (source : Text) (s : VerifiedSession)
    → check_session source (without_others s) ≡ check_session source s
unfolding check_session check_fields
check_session-without_others source s =
    ap
      (λ rs.
        if not s.subject_owned || is_empty rs
        then ok none
        else (check_fields source s rs >> ok (some (admitted_view s rs))))
      (admitted_records-own_records s.records)

pub check_input_sessions-without_others :
    (source : Text) (s : VerifiedSession)
    → check_input_sessions source (without_others s ∷ []) ≡ check_input_sessions source (s ∷ [])
unfolding check_input_sessions check_all
check_input_sessions-without_others source s =
    ap
      (λ m. (m >>= λ found. elim found [ none ↦ ok [] | some t ↦ ok (t ∷ []) ]) >>= λ checked.
        ok (sort_sessions checked))
      (check_session-without_others source s)

-- The recorded ends of an admitted session are canonical.
abbrev pub is_stamped : Option Text → Bool
is_stamped none = true
is_stamped (some t) = text_is (canonical_timestamp t) t

pub stamp_in-is_stamped : (o : Option Text) → is_stamped (stamp_in o) ≡ true
stamp_in-is_stamped none = refl
stamp_in-is_stamped (some t) = elim (Option-cases (canonical_timestamp t)) [
  | inl n ↦ rw n refl
  | inr (c, e) ↦ rw e (ap (λ o. text_is o c) (canonical_timestamp_twice t c e) ∙ bytes_eq_refl c)
]

-- An admitted session has the source that was asked for, and canonical ends.
pub record IsAdmitted (source : Text) (t : VerifiedSession) : Type 0 where
  pub source_is : t.source ≡ source
  pub started : is_stamped t.started_at ≡ true
  pub ended : is_stamped t.ended_at ≡ true

check_fields-source :
    (source : Text) (s : VerifiedSession) (rs : List VerifiedRecord) {u : Unit {0}}
    → check_fields source s rs ≡ ok u
    → bytes_eq s.source source ≡ true
unfolding check_fields
check_fields-source source s rs h =
    both (bytes_eq s.source source)
      ((refuse-eq-ok (not (bytes_eq s.source source)) normalization_error _ h).0)
  where
    both : (b : Bool) → not b ≡ false → b ≡ true
    both true k = refl
    both false k = cc

check_session-IsAdmitted :
    (source : Text) (s t : VerifiedSession)
    → check_session source s ≡ ok (some t)
    → IsAdmitted source t
unfolding check_session
check_session-IsAdmitted source s t h =
    elim (Bool-cases (not s.subject_owned || is_empty (admitted_records s.records))) [
      | inl y ↦ cc (rw y at h)
      | inr n ↦
          let rs = admitted_records s.records in
          let (_, e, k) =
            >>=-eq-ok (check_fields source s rs) (λ _. ok (some (admitted_view s rs)))
              (rw n at h) in
          let same : admitted_view s rs ≡ t = some-injective _ _ (ok_injective _ _ k) in
          subst (IsAdmitted source) same (record {
            source_is = (bytes_eq_iff _ _).0 (check_fields-source source s rs e);
            started = stamp_in-is_stamped s.started_at;
            ended = stamp_in-is_stamped s.ended_at;
          })
    ]

pub check_input_sessions-IsAdmitted :
    (source : Text) (s t : VerifiedSession) (ts : List VerifiedSession)
    → check_input_sessions source (s ∷ []) ≡ ok (t ∷ ts)
    → IsAdmitted source t
unfolding check_input_sessions check_all sort_sessions
check_input_sessions-IsAdmitted source s t ts h = elim (Result-cases (check_session source s)) [
  | inr (x, e) ↦ cc (rw e at h)
  | inl (none, e) ↦ cc (rw e at h)
  | inl (some v, e) ↦
      let same : v ∷ [] ≡ t ∷ ts = ok_injective _ _ (rw e at h) in
      subst (IsAdmitted source) (cc) (check_session-IsAdmitted source s v e)
]

-- What holds of all sessions holds of them in any order.
pub All-sort_sessions {ℓ} :
    (P : VerifiedSession → Type ℓ) (ss : List VerifiedSession) → All P ss → All P (sort_sessions ss)
unfolding sort_sessions
All-sort_sessions P [] h = tt
All-sort_sessions P (s ∷ ss) h = inserted s (sort_sessions ss) h.0 (All-sort_sessions P ss h.1)
  where
    inserted :
        (s : VerifiedSession) (ts : List VerifiedSession)
        → P s
        → All P ts
        → All P (insert_session s ts)
    inserted s [] p h = (p, tt)
    inserted s (t ∷ ts) p h = elim (Bool-cases (session_lt t s)) [
      | inl y ↦ rw y (h.0, inserted s ts p h.1)
      | inr n ↦ rw n (p, h)
    ]

pub length-sort_sessions : (ss : List VerifiedSession) → length (sort_sessions ss) ≡ length ss
unfolding sort_sessions
length-sort_sessions [] = refl
length-sort_sessions (s ∷ ss) = inserted s (sort_sessions ss) ∙ ap suc (length-sort_sessions ss)
  where
    inserted :
        (s : VerifiedSession) (ts : List VerifiedSession)
        → length (insert_session s ts) ≡ suc (length ts)
    inserted s [] = refl
    inserted s (t ∷ ts) = elim (Bool-cases (session_lt t s)) [
      | inl y ↦ rw y (ap suc (inserted s ts))
      | inr n ↦ rw n refl
    ]
