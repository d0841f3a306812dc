-- ===== src/Verifier/Sound.antt =====
-- `verify_anchors` of src/mybench/verify/cli.py against the files of the log.
use mybench.Base.{
  >>=-eq-ok, Bool, List, Option, [], ap, append-nil, append_assoc, ap₂, arith, bytes_eq, false,
  if◌then◌else◌, leb, le→ltb_false, ltb, none, ok, ok_injective, refl, refuse-eq-ok, some, sym,
  true, verify_failure, ℕ, ◌&&◌, ◌++◌, ◌+◌, ◌∙◌, ◌∷◌, ◌≡◌,
}
use mybench.Ledger.{Text}
use mybench.Sessions.{is_empty}
use mybench.Anchor.Event.{SignedEvent}
use mybench.Verifier.Paths.{EventPath, event_path}
use mybench.Verifier.Identities.{Failure, Info, File, lookup, load_identities}
use mybench.Verifier.Groups.{
  days_of, group_of, end_or_zero, reach, one_for, group_of-file_under, lookup-sort_groups, AllDays,
  AllDays-file_under, AllDays-sort_groups, All-sort_days,
}
use mybench.Verifier.Judged.{Judged, judge-Judged, verify_event-IsRanged, admit_files-nil}
use mybench.Verifier.Tiling.{
  in_range, one_if, covering, covering-append, covering-sort_days, append-nil-both, IsRanged,
  check_days-tile,
}
use mybench.Verifier.{
  VerifierHost, Admission, skipped, rejected, admitted, Groups, sort_groups, sort_days, judge,
  start, next, empty_report, whitelist, unknown_paths, take_in, admit_files, Report, passes,
  check_days, check_groups, check_log, Log, verify_anchors,
}

module _ (host : VerifierHost) where
  -- The file is an event of the identity that has the row.
  abbrev pub has_row : ℕ → Option SignedEvent → Bool
  has_row i none = false
  has_row i (some e) = in_range i e.event

  abbrev pub path_has_row : Text → ℕ → Option SignedEvent → Option EventPath → Bool
  path_has_row iid i e none = false
  path_has_row iid i e (some p) = bytes_eq p.iid iid && has_row i e

  abbrev pub claims : Text → ℕ → File → Bool
  claims iid i f = path_has_row iid i (host.read_event f.1) (event_path host.is_decimal f.0)

  -- How many files are.
  abbrev pub claiming : Text → ℕ → List File → ℕ
  claiming iid i [] = 0
  claiming iid i (f ∷ fs) = one_if (claims iid i f) + claiming iid i fs

  claims-admitted :
      (iid k : Text) (i : ℕ) (f : File) (p : EventPath) (e : SignedEvent)
      → event_path host.is_decimal f.0 ≡ some p
      → k ≡ p.iid
      → host.read_event f.1 ≡ some e
      → claims iid i f ≡ (bytes_eq k iid && in_range i e.event)
  claims-admitted iid k i f p e hp hk hr =
      ap₂ (path_has_row iid i) hr hp ∙ ap (λ z. bytes_eq z iid && in_range i e.event) (sym hk)

  covering-one_for :
      (i : ℕ) (b : Bool) (e : SignedEvent)
      → covering i (one_for b e) ≡ one_if (b && in_range i e.event)
  covering-one_for i true e = omega arith
  covering-one_for i false e = refl

  -- What one file adds to the events of an identity.
  covering-take_in :
      (iid : Text) (i : ℕ) (ids : List (Text × Info)) (f : File) (a : Admission)
      → Judged host ids f a
      → (found : List Failure × Groups) → (take_in a found).0 ≡ []
      → covering i (group_of iid (take_in a found).1)
        ≡ covering i (group_of iid found.1) + one_if (claims iid i f)
  covering-take_in iid i ids f skipped j found h =
      omega (arith, ap (λ o. one_if (path_has_row iid i (host.read_event f.1) o)) j)
  covering-take_in iid i ids f (rejected r) j found h =
      absurd (cons-ne (append-nil-both found.0 (r ∷ []) h).1)
    where
      cons-ne : {f : Failure} → ◌≡◌ {A = List Failure} (f ∷ []) [] → ⊥
      cons-ne g = cc
  covering-take_in iid i ids f (admitted k e) (p, hp, hk, hr, good) found h =
      ap (covering i) (group_of-file_under iid k e found.1)
      ∙ (covering-append i (group_of iid found.1) (one_for (bytes_eq k iid) e)
          ∙ ap (λ n. covering i (group_of iid found.1) + n)
              (covering-one_for i (bytes_eq k iid) e
                ∙ ap one_if (sym (claims-admitted iid k i f p e hp hk hr))))

  -- Without a failure, the events of an identity have a row as often as its files claim it.
  covering-admit_files :
      (iid : Text) (i : ℕ) (ids : List (Text × Info)) (fs : List File)
      (found : List Failure × Groups)
      → (admit_files host ids fs found).0 ≡ []
      → covering i (group_of iid (admit_files host ids fs found).1)
        ≡ covering i (group_of iid found.1) + claiming iid i fs
  unfolding admit_files
  covering-admit_files iid i ids [] found h = omega arith
  covering-admit_files iid i ids (f ∷ fs) found h =
      let next = take_in (judge host ids f) found in
      let first =
        covering-take_in iid i ids f (judge host ids f) (judge-Judged host ids f) found
          (admit_files-nil host ids fs next h) in
      let others = covering-admit_files iid i ids fs next h in omega (arith, first, others)

  -- Every event that is admitted has a range.
  admit_files-AllDays :
      (ids : List (Text × Info)) (fs : List File) (found : List Failure × Groups)
      → AllDays IsRanged found.1
      → AllDays IsRanged (admit_files host ids fs found).1
  unfolding admit_files
  admit_files-AllDays ids [] found all = all
  admit_files-AllDays ids (f ∷ fs) found all =
      admit_files-AllDays ids fs (take_in (judge host ids f) found)
        (after (judge host ids f) (judge-Judged host ids f))
    where
      after : (a : Admission) → Judged host ids f a → AllDays IsRanged (take_in a found).1
      after skipped j = all
      after (rejected r) j = all
      after (admitted k e) (p, hp, hk, hr, good) =
          AllDays-file_under IsRanged k e found.1 (verify_event-IsRanged host e good.verifies) all

  -- Of the groups: how far the rows of an identity reach.
  abbrev Reaches : Text → ℕ → Groups → Report → Report → Type 0
  Reaches iid i gs r out =
      (r.failures ≡ [])
      × (new : List (Text × ℕ)) × (out.covered ≡ r.covered ++ new)
      × (covering i (group_of iid gs) ≡ one_if (ltb i (reach iid new)))

  check_groups-Reaches :
      (online : Bool) (files : List File) (iid : Text) (i : ℕ) (gs : Groups) (r out : Report)
      → AllDays IsRanged gs
      → check_groups host online files gs r ≡ ok out
      → out.failures ≡ []
      → Reaches iid i gs r out
  unfolding check_groups
  check_groups-Reaches online files iid i [] r out all h none_left =
      let same = ok_injective r out h in
      (
        ap (λ r. r.failures) same ∙ none_left,
        [],
        sym (ap (λ r. r.covered) same) ∙ sym (append-nil r.covered),
        sym (ap one_if (le→ltb_false i 0 (omega arith))),
      )
  check_groups-Reaches online files iid i ((k, es) ∷ rest) r out all h none_left =
      let (c, days, others) =
        >>=-eq-ok (check_days host online files k (sort_days es) (start r))
          (λ c. check_groups host online files rest (next r k c)) h in
      let (left, new, covered, reached) =
        check_groups-Reaches online files iid i rest (next r k c) out all.1 others none_left in
      let (before, _, tiled) =
        check_days-tile host online files k (sort_days es) (start r) c i
          (All-sort_days IsRanged es all.0) days left in
      (
        before,
        (k, c.expected) ∷ new,
        covered ∙ append_assoc r.covered ((k, c.expected) ∷ []) new,
        of_group (bytes_eq k iid) new c.expected
            (sym (covering-sort_days i es) ∙ (tiled ∙ from_zero c.expected)) reached,
      )
    where
      from_zero : (n : ℕ) → one_if (leb 0 i && ltb i n) ≡ one_if (ltb i n)
      from_zero n = ground arith

      of_group :
          (b : Bool) (new : List (Text × ℕ)) (n : ℕ)
          → covering i es ≡ one_if (ltb i n)
          → covering i (group_of iid rest) ≡ one_if (ltb i (reach iid new))
          → covering i (days_of (if b then some es else lookup iid rest))
            ≡ one_if (ltb i (end_or_zero (if b then some n else lookup iid new)))
      of_group true new n here there = here
      of_group false new n here there = there

  is_empty-nil : (fs : List Failure) → is_empty fs ≡ true → fs ≡ []
  is_empty-nil [] h = refl
  is_empty-nil (f ∷ fs) h = cc

  -- A log that passes: its groups reach as far as it reports.
  check_log-Reaches :
      (online : Bool) (files : List File) (ids : List (Text × Info)) (found : List Failure)
      (out : Report) (iid : Text) (i : ℕ)
      → check_log host online files ids (admit_files host ids files (found, [])) ≡ ok out
      → passes out ≡ true
      → Reaches iid i
          (sort_groups (admit_files host ids files (found, [])).1)
          (empty_report ids (admit_files host ids files (found, [])).0)
          out
  check_log-Reaches online files ids found out iid i h pass =
      let (failures, groups) = admit_files host ids files (found, []) in
      let (r, checked, rest) =
        >>=-eq-ok (check_groups host online files (sort_groups groups) (empty_report ids failures))
          _ h in
      let same =
        ok_injective r out
          (refuse-eq-ok (is_empty groups && is_empty r.failures) verify_failure (ok r) rest).1 in
      check_groups-Reaches online files iid i (sort_groups groups) (empty_report ids failures) out
        (AllDays-sort_groups IsRanged groups (admit_files-AllDays ids files (found, []) tt))
        (checked ∙ ap ok same) (is_empty-nil out.failures pass)

  -- Nothing is rejected in a log that passes.
  pub check_log-admitted :
      (online : Bool) (files : List File) (ids : List (Text × Info)) (found : List Failure)
      (out : Report)
      → check_log host online files ids (admit_files host ids files (found, [])) ≡ ok out
      → passes out ≡ true
      → (admit_files host ids files (found, [])).0 ≡ []
  check_log-admitted online files ids found out h pass =
      (check_log-Reaches online files ids found out [] 0 h pass).0

  check_log-tiling :
      (online : Bool) (files : List File) (ids : List (Text × Info)) (found : List Failure)
      (out : Report) (iid : Text) (i : ℕ)
      → check_log host online files ids (admit_files host ids files (found, [])) ≡ ok out
      → passes out ≡ true
      → claiming iid i files ≡ one_if (ltb i (reach iid out.covered))
  check_log-tiling online files ids found out iid i h pass =
      let groups = (admit_files host ids files (found, [])).1 in
      let (before, new, covered, reached) =
        check_log-Reaches online files ids found out iid i h pass in
      zero-add (claiming iid i files)
      ∙ (sym (covering-admit_files iid i ids files (found, []) before)
          ∙ (sym (ap (λ o. covering i (days_of o)) (lookup-sort_groups iid groups))
              ∙ (reached ∙ ap (λ c. one_if (ltb i (reach iid c))) (sym covered))))
    where
      zero-add : (n : ℕ) → n ≡ 0 + n
      zero-add n = omega arith

  -- If `verify_anchors` passes a log, then of the event files of an identity exactly one has a row
  -- that is below the end it reports for the identity, and none has another row.
  pub verify_anchors-tiling :
      (online : Bool) (log : Log) (out : Report) (iid : Text) (i : ℕ)
      → verify_anchors host online log ≡ ok out
      → passes out ≡ true
      → claiming iid i log.files ≡ one_if (ltb i (reach iid out.covered))
  unfolding verify_anchors
  verify_anchors-tiling online log out iid i h pass =
      let (ids, _, rest) =
        >>=-eq-ok (load_identities host.identity host.loads log.identities) _ h in
      check_log-tiling online log.files ids.1
        (whitelist host (unknown_paths host log.files) ++ ids.0) out iid i rest pass
