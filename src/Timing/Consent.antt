-- ===== src/Timing/Consent.antt =====
-- Which sessions the timings depend on, and that each admitted one has a timing.
use mybench.Base.{
  >>=-eq-ok, All, All-append, Bool, Bytes, List, Option, Result, [], ap, false, if◌then◌else◌,
  length, no_evidence, normalization_error, not, ok, ok_injective, refl, refuse, refuse-eq-ok,
  subst, suc, sym, true, ◌++◌, ◌>>=◌, ◌>>◌, ◌∙◌, ◌∷◌, ◌≡◌,
}
use mathlib.Core.Path.{fun_ext}
use mybench.Json.{Members}
use mybench.Sessions.{VerifiedSession, is_empty, is_seen, sort_sessions, check_input_sessions}
use mybench.Sessions.Admitted.{
  without_others, check_input_sessions-without_others, IsAdmitted, check_input_sessions-IsAdmitted,
  All-sort_sessions, length-sort_sessions,
}
use mybench.Timing.{is_supported, SessionTiming, admit, normalize_all, normalize_session_timings}
use mybench.Timing.Total.{IsTiming, normalize_one-IsTiming}

-- The subject's own sessions, without the records that are known to be another's.
abbrev pub consented : List VerifiedSession → List VerifiedSession
consented [] = []
consented (s ∷ ss) =
    let rest = consented ss in if s.subject_owned then without_others s ∷ rest else rest

module _ (json_object : Bytes → Option Members) where
  admit-consented :
      (admitted sessions : List VerifiedSession)
      → admit json_object admitted (consented sessions) ≡ admit json_object admitted sessions
  unfolding admit
  admit-consented admitted [] = refl
  admit-consented admitted (s ∷ ss) =
      go s.subject_owned refl (fun_ext (λ ad. admit-consented ad ss))
    where
      body :
          (List VerifiedSession → Result (List VerifiedSession))
          → Result (List VerifiedSession)
          → Result (List VerifiedSession)
      body k m =
          refuse (not (is_supported s.source)) normalization_error
          >> (m >>= λ checked. elim checked [
            | [] ↦ k admitted
            | t ∷ ts ↦
                refuse (is_seen t.source t.session_id admitted) normalization_error
                >> k (admitted ++ (t ∷ []))
          ])

      later : List VerifiedSession → Result (List VerifiedSession)
      later ad = admit json_object ad ss

      earlier : List VerifiedSession → Result (List VerifiedSession)
      earlier ad = admit json_object ad (consented ss)

      go :
          (b : Bool)
          → s.subject_owned ≡ b
          → earlier ≡ later
          → admit json_object admitted (if b then without_others s ∷ consented ss else consented ss)
            ≡ (if not b
                then later admitted
                else body later (check_input_sessions s.source (s ∷ [])))
      go false e same = ap (λ k. k admitted) same
      go true e same =
          ap
            (λ c.
              if not c
              then earlier admitted
              else body earlier (check_input_sessions s.source (without_others s ∷ [])))
            e
          ∙ (ap (λ k. body k (check_input_sessions s.source (without_others s ∷ []))) same
              ∙ ap (body later) (check_input_sessions-without_others s.source s))

  -- The timings of some sessions are those of the subject's own sessions alone, each without the
  -- records known to be another's: nothing in what is left out changes the result, or an error.
  pub normalize_session_timings-consented :
      (sessions : List VerifiedSession)
      → normalize_session_timings json_object (consented sessions)
        ≡ normalize_session_timings json_object sessions
  unfolding normalize_session_timings admit
  normalize_session_timings-consented [] = refl
  normalize_session_timings-consented (s ∷ ss) =
      either (consented (s ∷ ss)) (admit-consented [] (s ∷ ss))
    where
      finish : Result (List VerifiedSession) → Result (List SessionTiming)
      finish m = m >>= λ admitted.
          refuse (is_empty admitted) no_evidence
          >> normalize_all json_object (sort_sessions admitted)

      either :
          (cs : List VerifiedSession)
          → admit json_object [] cs ≡ admit json_object [] (s ∷ ss)
          → (refuse (is_empty cs) no_evidence >> finish (admit json_object [] cs))
            ≡ finish (admit json_object [] (s ∷ ss))
      either [] e = ap finish e
      either (c ∷ cs) e = ap finish e

  -- An admitted session has a supported source and canonical ends.
  abbrev pub IsReady : VerifiedSession → Type 0
  IsReady t = (is_supported t.source ≡ true) × IsAdmitted t.source t

  admit-IsReady :
      (admitted sessions : List VerifiedSession) {out : List VerifiedSession}
      → All IsReady admitted
      → admit json_object admitted sessions ≡ ok out
      → All IsReady out
  unfolding admit
  admit-IsReady admitted [] a h = subst (All IsReady) (ok_injective _ _ h) a
  admit-IsReady admitted (s ∷ ss) {out} a h =
      go s.subject_owned (λ ad b k. admit-IsReady ad ss b k) h
    where
      found : List VerifiedSession → Result (List VerifiedSession)
      found checked = elim checked [
        | [] ↦ admit json_object admitted ss
        | t ∷ ts ↦
            refuse (is_seen t.source t.session_id admitted) normalization_error
            >> admit json_object (admitted ++ (t ∷ [])) ss
      ]

      not_false : (b : Bool) → not b ≡ false → b ≡ true
      not_false true k = refl
      not_false false k = cc

      taken :
          (cs : List VerifiedSession)
          → ((ad : List VerifiedSession)
              → All IsReady ad
              → admit json_object ad ss ≡ ok out
              → All IsReady out)
          → is_supported s.source ≡ true
          → check_input_sessions s.source (s ∷ []) ≡ ok cs
          → found cs ≡ ok out
          → All IsReady out
      taken [] later supported e k = later admitted a k
      taken (t ∷ ts) later supported e k =
          let good : IsAdmitted s.source t = check_input_sessions-IsAdmitted s.source s t ts e in
          let ready : IsReady t = (
            ap is_supported good.source_is ∙ supported,
            subst (λ x. IsAdmitted x t) (sym good.source_is) good,
          ) in
          later (admitted ++ (t ∷ [])) (All-append IsReady admitted (t ∷ []) a (ready, tt))
            (refuse-eq-ok (is_seen t.source t.session_id admitted) normalization_error _ k).1

      go :
          (b : Bool)
          → ((ad : List VerifiedSession)
              → All IsReady ad
              → admit json_object ad ss ≡ ok out
              → All IsReady out)
          → (if not b
              then admit json_object admitted ss
              else (refuse (not (is_supported s.source)) normalization_error
                  >> (check_input_sessions s.source (s ∷ []) >>= found)))
            ≡ ok out
          → All IsReady out
      go false later k = later admitted a k
      go true later k =
          let (supported, k1) =
            refuse-eq-ok (not (is_supported s.source)) normalization_error _ k in
          let (cs, e, k2) = >>=-eq-ok (check_input_sessions s.source (s ∷ [])) found k1 in
          taken cs later (not_false (is_supported s.source) supported) e k2

  normalize_all-IsTiming :
      (ss : List VerifiedSession)
      → All IsReady ss
      → (ts : List SessionTiming) × (normalize_all json_object ss ≡ ok ts)
        × (length ts ≡ length ss)
        × All IsTiming ts
  unfolding normalize_all
  normalize_all-IsTiming [] h = ([], refl, refl, tt)
  normalize_all-IsTiming (s ∷ ss) h =
      let (t, e, good) = normalize_one-IsTiming json_object s h.0.0 (h.0.1.started, h.0.1.ended) in
      let (ts, es, n, rest) = normalize_all-IsTiming ss h.1 in
      (t ∷ ts, rw (e, es) refl, ap suc n, (good, rest))

  -- Once the sessions are admitted, and there is one, the normalizer returns a timing for each: none
  -- of them fails the check of its own constructor, and each holds together.
  pub normalize_session_timings-IsTiming :
      (sessions : List VerifiedSession) (s : VerifiedSession) (ss : List VerifiedSession)
      → admit json_object [] sessions ≡ ok (s ∷ ss)
      → (ts : List SessionTiming) × (normalize_session_timings json_object sessions ≡ ok ts)
        × (length ts ≡ length (s ∷ ss))
        × All IsTiming ts
  unfolding normalize_session_timings admit
  normalize_session_timings-IsTiming sessions s ss h =
      let ready = All-sort_sessions IsReady (s ∷ ss) (admit-IsReady [] sessions tt h) in
      let (ts, e, n, good) = normalize_all-IsTiming (sort_sessions (s ∷ ss)) ready in
      (ts, started sessions h ∙ e, n ∙ length-sort_sessions (s ∷ ss), good)
    where
      started :
          (sessions : List VerifiedSession)
          → admit json_object [] sessions ≡ ok (s ∷ ss)
          → (refuse (is_empty sessions) no_evidence
              >> (admit json_object [] sessions >>= λ admitted.
                  refuse (is_empty admitted) no_evidence
                  >> normalize_all json_object (sort_sessions admitted)))
            ≡ normalize_all json_object (sort_sessions (s ∷ ss))
      started [] h = cc
      started (t ∷ ts) h =
          ap
            (λ m. m >>= λ admitted.
              refuse (is_empty admitted) no_evidence
              >> normalize_all json_object (sort_sessions admitted))
            h
