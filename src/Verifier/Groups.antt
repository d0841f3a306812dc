-- ===== src/Verifier/Groups.antt =====
-- The groups of events of src/mybench/verify/cli.py: filing and sorting keep them.
use mybench.Base.{
  All, All-append, Bool, Bool-cases, List, Option, [], ap, append-nil, bytes_eq, bytes_eq_sound,
  false, if◌then◌else◌, inl, inr, none, refl, some, subst, sym, true, ℕ, ◌++◌, ◌∙◌, ◌∷◌, ◌≡◌,
}
use mybench.Ledger.{Text}
use mybench.Ledger.Write.{text_lt}
use mybench.Timing.Order.{text_lt-ne}
use mybench.Anchor.Event.{SignedEvent}
use mybench.Json.Lookup.{one-key}
use mybench.Verifier.Identities.{lookup}
use mybench.Verifier.{Groups, file_under, insert_group, sort_groups, sort_days, insert_day}

-- The events of an identity, and where its rows end.
abbrev pub days_of : Option (List SignedEvent) → List SignedEvent
days_of none = []
days_of (some es) = es

abbrev pub group_of : Text → Groups → List SignedEvent
group_of iid gs = days_of (lookup iid gs)

abbrev pub end_or_zero : Option ℕ → ℕ
end_or_zero none = 0
end_or_zero (some n) = n

abbrev pub reach : Text → List (Text × ℕ) → ℕ
reach iid covered = end_or_zero (lookup iid covered)

abbrev pub one_for : Bool → SignedEvent → List SignedEvent
one_for b e = if b then e ∷ [] else []

pub group_of-file_under :
    (iid k : Text) (e : SignedEvent) (gs : Groups)
    → group_of iid (file_under k e gs) ≡ group_of iid gs ++ one_for (bytes_eq k iid) e
unfolding file_under
group_of-file_under iid k e [] = elim (Bool-cases (bytes_eq k iid)) [
  | inl same ↦ rw same refl
  | inr differ ↦ rw differ refl
]
group_of-file_under iid k e ((l, es) ∷ rest) = elim (Bool-cases (bytes_eq l k)) [
  | inl found ↦ rw found (elim (Bool-cases (bytes_eq l iid)) [
    | inl same ↦ rw (same, subst (λ z. bytes_eq z iid ≡ true) (bytes_eq_sound l k found) same) refl
    | inr differ ↦
        rw (differ, subst (λ z. bytes_eq z iid ≡ false) (bytes_eq_sound l k found) differ)
          (sym (append-nil _))
  ])
  | inr other ↦ rw other (elim (Bool-cases (bytes_eq l iid)) [
    | inl same ↦ rw (same, one-key l k iid other same) (sym (append-nil es))
    | inr differ ↦ rw differ (group_of-file_under iid k e rest)
  ])
]

-- A stable sort by name keeps what a name is looked up to.
lookup-insert_group :
    (iid k : Text) (es : List SignedEvent) (gs : Groups)
    → lookup iid (insert_group k es gs) ≡ lookup iid ((k, es) ∷ gs)
unfolding insert_group
lookup-insert_group iid k es [] = refl
lookup-insert_group iid k es ((l, fs) ∷ rest) = elim (Bool-cases (text_lt l k)) [
  | inr after ↦ rw after refl
  | inl before ↦ rw before (elim (Bool-cases (bytes_eq l iid)) [
    | inl same ↦ rw (same, one-key l k iid (text_lt-ne l k before) same) refl
    | inr differ ↦ rw differ (lookup-insert_group iid k es rest)
  ])
]

pub lookup-sort_groups : (iid : Text) (gs : Groups) → lookup iid (sort_groups gs) ≡ lookup iid gs
unfolding sort_groups
lookup-sort_groups iid [] = refl
lookup-sort_groups iid ((k, es) ∷ rest) =
    lookup-insert_group iid k es (sort_groups rest)
    ∙ ap (λ later. if bytes_eq k iid then some es else later) (lookup-sort_groups iid rest)

-- What holds of every event stays true.
abbrev pub AllDays {ℓ} : (SignedEvent → Type ℓ) → Groups → Type ℓ
AllDays P = All (λ g. All P g.1)

-- What holds of both values holds of the one that is taken.
if-both {ℓ κ} :
    {A : Type ℓ} (Q : A → Type κ) (b : Bool) {x y : A} → Q x → Q y → Q (if b then x else y)
if-both Q true hx hy = hx
if-both Q false hx hy = hy

module _ {ℓ} (P : SignedEvent → Type ℓ) where
  pub AllDays-file_under :
      (k : Text) (e : SignedEvent) (gs : Groups)
      → P e
      → AllDays P gs
      → AllDays P (file_under k e gs)
  unfolding file_under
  AllDays-file_under k e [] h all = ((h, tt), tt)
  AllDays-file_under k e ((l, es) ∷ rest) h all =
      if-both (AllDays P) (bytes_eq l k) (All-append P es (e ∷ []) all.0 (h, tt), all.1)
        (all.0, AllDays-file_under k e rest h all.1)

  AllDays-insert_group :
      (k : Text) (es : List SignedEvent) (gs : Groups)
      → All P es
      → AllDays P gs
      → AllDays P (insert_group k es gs)
  unfolding insert_group
  AllDays-insert_group k es [] h all = (h, tt)
  AllDays-insert_group k es ((l, fs) ∷ rest) h all =
      if-both (AllDays P) (text_lt l k) (all.0, AllDays-insert_group k es rest h all.1) (h, all)

  pub AllDays-sort_groups : (gs : Groups) → AllDays P gs → AllDays P (sort_groups gs)
  unfolding sort_groups
  AllDays-sort_groups [] all = tt
  AllDays-sort_groups ((k, es) ∷ rest) all =
      AllDays-insert_group k es (sort_groups rest) all.0 (AllDays-sort_groups rest all.1)

  All-insert_day :
      (e : SignedEvent) (es : List SignedEvent) → P e → All P es → All P (insert_day e es)
  unfolding insert_day
  All-insert_day e [] h all = (h, tt)
  All-insert_day e (f ∷ fs) h all =
      if-both (All P) (text_lt f.date e.date) (all.0, All-insert_day e fs h all.1) (h, all)

  pub All-sort_days : (es : List SignedEvent) → All P es → All P (sort_days es)
  unfolding sort_days
  All-sort_days [] all = tt
  All-sort_days (e ∷ es) all = All-insert_day e (sort_days es) all.0 (All-sort_days es all.1)
