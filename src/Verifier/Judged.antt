-- ===== src/Verifier/Judged.antt =====
-- What the loop over the events of src/mybench/verify/cli.py has checked of an event it admits.
use mybench.Base.{
  ==_iff, >>=-eq-ok, Bool, List, Option, Result, [], anchor_error, bytes_eq, bytes_eq_sound, err,
  false, if◌then◌else◌, none, not, ok, refl, refuse, refuse-eq-ok, some, true, ◌&&◌, ◌+◌, ◌==◌, ◌∷◌,
  ◌≡◌,
}
use mybench.Ledger.{Text}
use mybench.Lifecycle.Record.{mem_text}
use mybench.Anchor.Event.{SignedEvent, validate_event, verify_event}
use mybench.Verifier.Paths.{EventPath, event_path}
use mybench.Verifier.Identities.{Failure, unbound_device, wrong_path, Info, File, lookup}
use mybench.Verifier.Tiling.{append-nil-both, IsRanged}
use mybench.Verifier.{
  VerifierHost, Admission, skipped, rejected, admitted, Groups, judge, judge_path, judge_event,
  judge_verified, judge_known, take_in, admit_files,
}

module _ (host : VerifierHost) where
  -- The event at a path, as the loop over the events checks it.
  pub record IsAdmitted (ids : List (Text × Info)) (p : EventPath) (e : SignedEvent) : Type 0 where
    pub verifies : verify_event host.device host.events e ≡ ok tt
    pub of_identity : e.identity_id ≡ p.iid
    pub of_day : e.date ≡ p.date
    pub info : Info
    pub known : lookup p.iid ids ≡ some info
    pub bound : mem_text info.devices e.device_pub ≡ true

  abbrev pub Judged : List (Text × Info) → File → Admission → Type 0
  Judged ids f skipped = event_path host.is_decimal f.0 ≡ none
  Judged ids f (rejected r) = Unit
  Judged ids f (admitted k e) =
      (p : EventPath) × (event_path host.is_decimal f.0 ≡ some p)
      × (k ≡ p.iid)
      × (host.read_event f.1 ≡ some e)
      × IsAdmitted ids p e

  pub judge-Judged : (ids : List (Text × Info)) (f : File) → Judged ids f (judge host ids f)
  unfolding judge
  judge-Judged ids f = at_path (event_path host.is_decimal f.0) refl
    where
      bound :
          (p : EventPath) (e : SignedEvent) (i : Info) (b : Bool)
          → event_path host.is_decimal f.0 ≡ some p
          → host.read_event f.1 ≡ some e
          → verify_event host.device host.events e ≡ ok tt
          → (e.identity_id ≡ p.iid) × (e.date ≡ p.date)
          → lookup p.iid ids ≡ some i
          → mem_text i.devices e.device_pub ≡ b
          → Judged ids f (if b then admitted p.iid e else rejected (unbound_device f.0))
      bound p e i false hp hr hv same hk hb = tt
      bound p e i true hp hr hv same hk hb = (
        p,
        hp,
        refl,
        hr,
        record {
          verifies = hv;
          of_identity = same.0;
          of_day = same.1;
          info = i;
          known = hk;
          bound = hb;
        },
      )

      known :
          (p : EventPath) (e : SignedEvent) (o : Option Info)
          → event_path host.is_decimal f.0 ≡ some p
          → host.read_event f.1 ≡ some e
          → verify_event host.device host.events e ≡ ok tt
          → (e.identity_id ≡ p.iid) × (e.date ≡ p.date)
          → lookup p.iid ids ≡ o
          → Judged ids f (judge_known f.0 p e o)
      known p e none hp hr hv same hk = tt
      known p e (some i) hp hr hv same hk = bound p e i _ hp hr hv same hk refl

      placed :
          (p : EventPath) (e : SignedEvent) (a b : Bool)
          → event_path host.is_decimal f.0 ≡ some p
          → host.read_event f.1 ≡ some e
          → verify_event host.device host.events e ≡ ok tt
          → bytes_eq e.identity_id p.iid ≡ a
          → bytes_eq e.date p.date ≡ b
          → Judged ids f (
              if not (a && b)
              then rejected (wrong_path f.0)
              else judge_known f.0 p e (lookup p.iid ids))
      placed p e false b hp hr hv ha hb = tt
      placed p e true false hp hr hv ha hb = tt
      placed p e true true hp hr hv ha hb =
          known p e (lookup p.iid ids) hp hr hv
            (bytes_eq_sound e.identity_id p.iid ha, bytes_eq_sound e.date p.date hb) refl

      verified :
          (p : EventPath) (e : SignedEvent) (r : Result (Unit {0}))
          → event_path host.is_decimal f.0 ≡ some p
          → host.read_event f.1 ≡ some e
          → verify_event host.device host.events e ≡ r
          → Judged ids f (judge_verified host ids f.0 p e r)
      verified p e (err raised) hp hr hv = tt
      verified p e (ok passed) hp hr hv = placed p e _ _ hp hr hv refl refl

      at_event :
          (p : EventPath) (o : Option SignedEvent)
          → event_path host.is_decimal f.0 ≡ some p
          → host.read_event f.1 ≡ o
          → Judged ids f (judge_event host ids f.0 p o)
      at_event p none hp hr = tt
      at_event p (some e) hp hr = verified p e _ hp hr refl

      at_path :
          (o : Option EventPath)
          → event_path host.is_decimal f.0 ≡ o
          → Judged ids f (judge_path host ids f o)
      at_path none hp = hp
      at_path (some p) hp = at_event p _ hp refl

  -- The length of a range is checked.
  pub verify_event-IsRanged :
      (e : SignedEvent) → verify_event host.device host.events e ≡ ok tt → IsRanged e
  unfolding verify_event validate_event
  verify_event-IsRanged e h =
      let (_, valid, _) = >>=-eq-ok (validate_event host.device host.events e) _ h in
      let (_, rest) = refuse-eq-ok (not (host.events.conforms e)) anchor_error _ valid in
      ranged (e.row_count + e.row_start == e.row_end) refl rest
    where
      ranged :
          (b : Bool)
          → (e.row_count + e.row_start == e.row_end) ≡ b
          → refuse (not b) anchor_error ≡ ok tt
          → IsRanged e
      ranged true g n = (==_iff (e.row_count + e.row_start) e.row_end).0 g
      ranged false g n = cc

  -- Only a file that is not rejected leaves no failure.
  pub admit_files-nil :
      (ids : List (Text × Info)) (fs : List File) (found : List Failure × Groups)
      → (admit_files host ids fs found).0 ≡ []
      → found.0 ≡ []
  unfolding admit_files
  admit_files-nil ids [] found h = h
  admit_files-nil ids (f ∷ fs) found h =
      before (judge host ids f) (admit_files-nil ids fs (take_in (judge host ids f) found) h)
    where
      before : (a : Admission) → (take_in a found).0 ≡ [] → found.0 ≡ []
      before skipped g = g
      before (rejected r) g = (append-nil-both found.0 (r ∷ []) g).0
      before (admitted k e) g = g
