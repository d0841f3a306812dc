-- ===== src/Verifier/Tiling.antt =====
-- The continuity check of src/mybench/verify/cli.py: the ranges of an identity tile its rows.
use mybench.Base.{
  ==_iff, >>=-eq-ok, All, Bool, Bool-cases, Bytes, List, Option, [], ap, arith, false,
  if◌then◌else◌, inl, inr, leb, ltb, none, ok, ok_injective, refl, some, subst, sym, true, ℕ, ◌&&◌,
  ◌++◌, ◌+◌, ◌==◌, ◌∙◌, ◌∷◌, ◌≡◌, ◌≤◌, ◌⊎◌,
}
use mybench.Ledger.{Text}
use mybench.Hex.{fromhex}
use mybench.Anchor.Event.{Event, SignedEvent}
use mybench.Verifier.Proofs.{Timestamp}
use mybench.Verifier.Identities.{broken_continuity, lookup, Failure, File}
use mybench.Verifier.{
  VerifierHost, proof_path, Progress, count_proof, check_timestamp, continuity, max, insert_day,
  sort_days, check_proof, check_day, check_days,
}

-- The row is in the range of the event.
abbrev pub in_range : ℕ → Event → Bool
in_range i e = leb e.row_start i && ltb i e.row_end

abbrev pub one_if : Bool → ℕ
one_if b = if b then 1 else 0

-- How many of the events have the row.
abbrev pub covering : ℕ → List SignedEvent → ℕ
covering i [] = 0
covering i (e ∷ es) = one_if (in_range i e.event) + covering i es

pub append-nil-both : {A : Type 0} (xs ys : List A) → xs ++ ys ≡ [] → (xs ≡ []) × (ys ≡ [])
append-nil-both [] ys h = (refl, h)
append-nil-both (x ∷ xs) ys h = cc

pub covering-append :
    (i : ℕ) (es fs : List SignedEvent) → covering i (es ++ fs) ≡ covering i es + covering i fs
covering-append i [] fs = omega arith
covering-append i (e ∷ es) fs = omega (arith, covering-append i es fs)

-- Sorting by date keeps the events.
covering-insert_day :
    (i : ℕ) (e : SignedEvent) (es : List SignedEvent)
    → covering i (insert_day e es) ≡ one_if (in_range i e.event) + covering i es
unfolding insert_day
covering-insert_day i e [] = refl
covering-insert_day i e (f ∷ fs) = ground (arith, covering-insert_day i e fs)

pub covering-sort_days : (i : ℕ) (es : List SignedEvent) → covering i (sort_days es) ≡ covering i es
unfolding sort_days
covering-sort_days i [] = refl
covering-sort_days i (e ∷ es) =
    covering-insert_day i e (sort_days es)
    ∙ ap (λ n. one_if (in_range i e.event) + n) (covering-sort_days i es)

-- A row below an end that the next range begins at is in one of the two stretches.
one_if-tile :
    (i start stop upto : ℕ)
    → start ≤ stop
    → stop ≤ upto
    → one_if (leb start i && ltb i stop) + one_if (leb stop i && ltb i upto)
      ≡ one_if (leb start i && ltb i upto)
one_if-tile i start stop upto h k = ground arith

-- No row is in an empty stretch.
one_if-none : (i n : ℕ) → 0 ≡ one_if (leb n i && ltb i n)
one_if-none i n = ground arith

-- Of an event that verifies: its range is as long as it says.
abbrev pub IsRanged : SignedEvent → Type 0
IsRanged e = e.row_count + e.row_start ≡ e.row_end

module _ (host : VerifierHost) (online : Bool) where
  -- A proof adds failures and does not move the rows.
  abbrev Keeps : Progress → Progress → Type 0
  Keeps c next = (next.expected ≡ c.expected) × (c.failures ≡ [])

  count_proof-Keeps :
      (path : Text) (headers : List Failure) (m k : Bool) (c : Progress)
      → (count_proof host path headers m k c).failures ≡ []
      → Keeps c (count_proof host path headers m k c)
  count_proof-Keeps path headers false k c h = (refl, (append-nil-both c.failures _ h).0)
  count_proof-Keeps path headers true false c h = (refl, h)
  count_proof-Keeps path headers true true c h = (refl, (append-nil-both c.failures _ h).0)

  check_timestamp-Keeps :
      (path : Text) (root : Bytes) (found : Option Timestamp) (c : Progress)
      → (check_timestamp host online path root found c).failures ≡ []
      → Keeps c (check_timestamp host online path root found c)
  check_timestamp-Keeps path root none c h = (refl, (append-nil-both c.failures _ h).0)
  check_timestamp-Keeps path root (some t) c h = count_proof-Keeps path _ _ _ c h

  check_proof-Keeps :
      (path root : Text) (found : Option Bytes) (c next : Progress)
      → check_proof host online path root found c ≡ ok next
      → next.failures ≡ []
      → Keeps c next
  check_proof-Keeps path root none c next h left =
      let same = ok_injective (record c { pending = c.pending + 1 }) next h in
      subst (Keeps c) same (refl, ap (λ c. c.failures) same ∙ left)
  check_proof-Keeps path root (some content) c next h left =
      let (bytes, _, made) = >>=-eq-ok (fromhex root) _ h in
      let same =
        ok_injective (check_timestamp host online path bytes (host.read_proof content) c) next
          made in
      subst (Keeps c) same (
        check_timestamp-Keeps path bytes (host.read_proof content) c
          (ap (λ c. c.failures) same ∙ left))

  continuity-nil :
      (iid : Text) (e : SignedEvent) (n : ℕ) → continuity iid e n ≡ [] → e.row_start ≡ n
  continuity-nil iid e n h = begins (Bool-cases (e.row_start == n))
    where
      cons-ne : {f : Failure} → ◌≡◌ {A = List Failure} (f ∷ []) [] → ⊥
      cons-ne g = cc

      begins : ((e.row_start == n) ≡ true) ⊎ ((e.row_start == n) ≡ false) → e.row_start ≡ n
      begins (inl same) = (==_iff e.row_start n).0 same
      begins (inr differ) = absurd (
          cons-ne
            (subst (λ b. (if b then [] else (broken_continuity iid e.date ∷ [])) ≡ []) differ h))

  -- A day without a failure begins where the days before it end, and moves the end to its own.
  check_day-ok :
      (files : List File) (iid : Text) (e : SignedEvent) (c next : Progress)
      → IsRanged e
      → check_day host online files iid e c ≡ ok next
      → next.failures ≡ []
      → (c.failures ≡ []) × (e.row_start ≡ c.expected) × (next.expected ≡ e.row_end)
  unfolding check_day
  check_day-ok files iid e c next ranged h none_left =
      let path = proof_path iid e.date in
      let begun : Progress = record c {
        expected = max c.expected e.row_end;
        failures = c.failures ++ continuity iid e c.expected;
      } in
      let (kept, before) =
        check_proof-Keeps path e.root (lookup path files) begun next h none_left in
      let (old, new) = append-nil-both c.failures (continuity iid e c.expected) before in
      let starts = continuity-nil iid e c.expected new in (old, starts, kept ∙ end_of_max starts)
    where
      end_of_max : e.row_start ≡ c.expected → max c.expected e.row_end ≡ e.row_end
      end_of_max starts = ground (arith, ranged)

  -- Days without a failure tile the rows from the expected one.
  pub check_days-tile :
      (files : List File) (iid : Text) (es : List SignedEvent) (c out : Progress) (i : ℕ)
      → All IsRanged es
      → check_days host online files iid es c ≡ ok out
      → out.failures ≡ []
      → (c.failures ≡ [])
        × (c.expected ≤ out.expected)
        × (covering i es ≡ one_if (leb c.expected i && ltb i out.expected))
  unfolding check_days
  check_days-tile files iid [] c out i all h none_left = (
    subst (λ c. c.failures ≡ []) (sym (ok_injective c out h)) none_left,
    omega (arith, ap (λ c. c.expected) (ok_injective c out h)),
    one_if-none i c.expected
        ∙ ap (λ n. one_if (leb c.expected i && ltb i n))
            (ap (λ c. c.expected) (ok_injective c out h)),
  )
  check_days-tile files iid (e ∷ es) c out i all h none_left =
      let (next, day, rest) =
        >>=-eq-ok (check_day host online files iid e c)
          (λ next. check_days host online files iid es next) h in
      let (left, on, tiled) = check_days-tile files iid es next out i all.1 rest none_left in
      let (old, starts, ends) = check_day-ok files iid e c next all.0 day left in
      (
        old,
        omega (arith, all.0),
        ap (λ n. one_if (in_range i e.event) + n) tiled
            ∙ (ap (λ m. one_if (in_range i e.event) + one_if (leb m i && ltb i out.expected)) ends
                ∙ (one_if-tile i e.row_start e.row_end out.expected (omega (arith, all.0))
                      (omega arith)
                    ∙ ap (λ m. one_if (leb m i && ltb i out.expected)) starts)),
      )
