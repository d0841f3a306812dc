-- ===== src/Verifier/Trust.antt =====
-- The events of a log that `verify_anchors` of src/mybench/verify/cli.py passes.
use mybench.Base.{
  >>=-eq-ok, All, Bool, Bytes, List, Option, [], none, ok, some, subst, sym, true, ◌++◌, ◌∷◌, ◌≡◌,
}
use mybench.Ledger.{Text}
use mybench.Anchor.Event.{SignedEvent, verify_event}
use mybench.Verifier.Paths.{EventPath, event_path}
use mybench.Verifier.Identities.{Failure, Info, File, load_identities}
use mybench.Verifier.Bound.{IsInfo, IsBinding, IsGenesis}
use mybench.Verifier.Loaded.{load_identities-IsInfo, lookup-IsInfo, mem_text-IsBinding}
use mybench.Verifier.Tiling.{append-nil-both}
use mybench.Verifier.Judged.{Judged, judge-Judged, admit_files-nil}
use mybench.Verifier.Sound.{check_log-admitted}
use mybench.Verifier.{
  VerifierHost, Admission, skipped, rejected, admitted, Groups, take_in, judge, admit_files,
  whitelist, unknown_paths, Log, Report, passes, verify_anchors,
}

module _ (host : VerifierHost) where
  -- The file at a path of an event: an event that verifies, of the identity and the day that the
  -- path names, by a device that the identity binds.
  pub record IsTrusted (p : EventPath) (content : Bytes) : Type 0 where
    pub event : SignedEvent
    pub parsed : host.read_event content ≡ some event
    pub verifies : verify_event host.device host.events event ≡ ok tt
    pub of_identity : event.identity_id ≡ p.iid
    pub of_day : event.date ≡ p.date
    pub identity_pub : Text
    pub genesis : IsGenesis host.identity host.loads p.iid identity_pub
    pub bound : IsBinding host.identity host.loads identity_pub event.device_pub

  abbrev pub TrustedAt : File → Option EventPath → Type 0
  TrustedAt f none = Unit
  TrustedAt f (some p) = IsTrusted p f.1

  abbrev pub Trusted : File → Type 0
  Trusted f = TrustedAt f (event_path host.is_decimal f.0)

  judge-Trusted :
      (ids : List (Text × Info)) (f : File) (found : List Failure × Groups) (a : Admission)
      → All (IsInfo host.identity host.loads) ids
      → Judged host ids f a
      → (take_in a found).0 ≡ []
      → Trusted f
  judge-Trusted ids f found skipped all j h = subst (TrustedAt f) (sym j) tt
  judge-Trusted ids f found (rejected r) all j h =
      absurd (cons-ne (append-nil-both found.0 (r ∷ []) h).1)
    where
      cons-ne : {f : Failure} → ◌≡◌ {A = List Failure} (f ∷ []) [] → ⊥
      cons-ne g = cc
  judge-Trusted ids f found (admitted k e) all (p, hp, hk, hr, good) h =
      let info = lookup-IsInfo host.identity host.loads p.iid ids good.info all good.known in
      subst (TrustedAt f) (sym hp) (record {
        event = e;
        parsed = hr;
        verifies = good.verifies;
        of_identity = good.of_identity;
        of_day = good.of_day;
        identity_pub = good.info.identity_pub;
        genesis = info.0;
        bound =
            mem_text-IsBinding host.identity host.loads good.info.identity_pub e.device_pub
              good.info.devices info.1 good.bound;
      })

  admit_files-Trusted :
      (ids : List (Text × Info)) (fs : List File) (found : List Failure × Groups)
      → All (IsInfo host.identity host.loads) ids
      → (admit_files host ids fs found).0 ≡ []
      → All Trusted fs
  unfolding admit_files
  admit_files-Trusted ids [] found all h = tt
  admit_files-Trusted ids (f ∷ fs) found all h =
      let after = take_in (judge host ids f) found in
      (
        judge-Trusted ids f found (judge host ids f) all (judge-Judged host ids f)
            (admit_files-nil host ids fs after h),
        admit_files-Trusted ids fs after all h,
      )

  -- If `verify_anchors` passes a log, every file at a path of an event holds an event that verifies,
  -- of the identity and the day in the path, by a device key that a record binds to the identity:
  -- the record verifies under a key whose fingerprint is the identity.
  pub verify_anchors-Trusted :
      (online : Bool) (log : Log) (out : Report)
      → verify_anchors host online log ≡ ok out
      → passes out ≡ true
      → All Trusted log.files
  unfolding verify_anchors
  verify_anchors-Trusted online log out h pass =
      let (ids, loaded, rest) =
        >>=-eq-ok (load_identities host.identity host.loads log.identities) _ h in
      admit_files-Trusted ids.1 log.files
        (whitelist host (unknown_paths host log.files) ++ ids.0, [])
        (load_identities-IsInfo host.identity host.loads log.identities ids loaded)
        (check_log-admitted host online log.files ids.1
          (whitelist host (unknown_paths host log.files) ++ ids.0) out rest pass)
