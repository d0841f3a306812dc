-- ===== src/Ledger/Write/Event.antt =====
-- `append_event`: its replay key makes a second call a no-op.
use mathlib.Core.Option.{some-injective}
use mybench.Base.{
  Bool, Bool-cases, List, Option, Result, [], ap, append-nil, arith, bytes_eq_iff, bytes_eq_refl,
  err, err-ne-ok, false, inl, inr, last?, none, ok, refl, some, subst, sym, true, ◌++◌, ◌∙◌, ◌∷◌,
  ◌≡◌,
}
use mybench.Effect.{continue}
use mybench.Ledger.{Text, v2, EventColumns, event, Row, Host, IsHost, Disk}
use mybench.Ledger.Write.{append_behind, any, is_replay, ensure_genesis, prepare, append_event}
use mybench.Ledger.Write.Step.{Holds}
use mybench.Ledger.Write.Prepare.{prepare-Prepares}
use mybench.Ledger.Write.Chain.{Records, prepared-Records}

any-last :
    {A : Type 0} (p : A → Bool) (xs : List A) (x : A)
    → last? xs ≡ some x
    → p x ≡ true
    → any p xs ≡ true
any-last p [] x h t = cc
any-last p (y ∷ []) x h t = rw (ap p (some-injective y x h) ∙ t)
any-last p (y ∷ z ∷ xs) x h t = rw (any-last p (z ∷ xs) x h t) (ground arith)

is_replay_self :
    (c : EventColumns) (ts : Text) (row : Row)
    → row.body ≡ event c
    → row.ts ≡ ts
    → is_replay c ts row ≡ true
unfolding is_replay
is_replay_self c ts row b t =
    rw (b, is_replay, bytes_eq_refl, bytes_eq_refl) ((bytes_eq_iff row.ts ts).1 t)

-- The row or its absence that `append_event` returns.
abbrev noted : Result Row → Result (Option Row)
noted (ok row) = ok (some row)
noted (err e) = err e

module _ (host : Host) (laws : IsHost host) where
  append_event-fresh :
      (c : EventColumns) (ts : Text) (d : Disk) (rs : List Row)
      → Holds host d rs
      → any (is_replay c ts) rs ≡ false
      → (out : Result Row × Disk) × (append_event host c ts d ≡ (noted out.0, out.1))
        × Records host rs ts (event c) d out
  unfolding append_event prepare
  append_event-fresh c ts d rs held fresh =
      let p = ensure_genesis host rs ts d in
      let out : Result Row × Disk =
        continue p.0 (λ ex. append_behind host ex v2 ts (event c)) p.1 in
      (
        out,
        rw (held.read, append_event) (rw fresh (note p)),
        prepared-Records host laws rs none v2 ts (event c) d refl refl refl p
            (prepare-Prepares host laws rs ts none d held),
      )
    where
      written :
          (w : Result Row × Disk)
          → continue w.0 (λ row. λ s. (ok (some row), s)) w.1 ≡ (noted w.0, w.1)
      written (ok row, s) = refl
      written (err e, s) = refl

      note :
          (p : Result (List Row) × Disk)
          → let out : Result Row × Disk =
              continue p.0 (λ ex. append_behind host ex v2 ts (event c)) p.1 in
            continue p.0
              (λ ex. λ s.
                let w = append_behind host ex v2 ts (event c) s in
                continue w.0 (λ row. λ s'. (ok (some row), s')) w.1)
              p.1
            ≡ (noted out.0, out.1)
      note (ok ex, s) = written (append_behind host ex v2 ts (event c) s)
      note (err e, s) = refl

  pub append_event-replay :
      (c : EventColumns) (ts : Text) (d : Disk) (rs : List Row)
      → Holds host d rs
      → any (is_replay c ts) rs ≡ true
      → append_event host c ts d ≡ (ok none, d)
  unfolding append_event
  append_event-replay c ts d rs held seen = rw (held.read, append_event) (rw seen)

  -- An event that has been appended, or was there already, is not appended again: the second call
  -- returns nothing and leaves the disk as it is. And the first call left a chain.
  pub append_event_twice :
      (c : EventColumns) (ts : Text) (d d' : Disk) (rs : List Row) (o : Option Row)
      → Holds host d rs
      → append_event host c ts d ≡ (ok o, d')
      → (append_event host c ts d' ≡ (ok none, d'))
        × (added : List Row) × Holds host d' (rs ++ added)
  append_event_twice c ts d d' rs o held first = elim (Bool-cases (any (is_replay c ts) rs)) [
    | inl seen ↦
        let same : d ≡ d' =
          ap (λ (z : Result (Option Row) × Disk). z.1)
            (sym (append_event-replay c ts d rs held seen) ∙ first) in
        (
          subst (λ z. append_event host c ts z ≡ (ok none, z)) same
              (append_event-replay c ts d rs held seen),
          [],
          subst (λ z. Holds host z (rs ++ [])) same
              (subst (Holds host d) (sym (append-nil rs)) held),
        )
    | inr fresh ↦
        let (out, e, recorded) = append_event-fresh c ts d rs held fresh in
        again out recorded (sym e ∙ first)
  ]
    where
      again :
          (out : Result Row × Disk)
          → Records host rs ts (event c) d out
          → ◌≡◌ {A = Result (Option Row) × Disk} (noted out.0, out.1) (ok o, d')
          → (append_event host c ts d' ≡ (ok none, d'))
            × (added : List Row) × Holds host d' (rs ++ added)
      again (err e, s) r h = absurd (err-ne-ok _ _ (ap (λ (z : Result (Option Row) × Disk). z.0) h))
      again (ok row, s) r h =
          let same : s ≡ d' = ap (λ (z : Result (Option Row) × Disk). z.1) h in
          let held' : Holds host d' (rs ++ r.added) =
            subst (λ z. Holds host z (rs ++ r.added)) same r.held in
          let (last, body, time) = r.returned row refl in
          (
            append_event-replay c ts d' (rs ++ r.added) held' (
                any-last (is_replay c ts) (rs ++ r.added) row last
                  (is_replay_self c ts row body time)),
            r.added,
            held',
          )

  -- What any call of `append_event` leaves: a chain that begins with the old rows, and, where it
  -- returns, an event with the replay key.
  pub record Keyed (c : EventColumns) (ts : Text) (d : Disk) (rs : List Row)
      (out : Result (Option Row) × Disk) : Type 0 where
    pub added : List Row
    pub held : Holds host out.1 (rs ++ added)
    pub quarantine : out.1.quarantine ≡ d.quarantine
    pub seen : (o : Option Row) → out.0 ≡ ok o → any (is_replay c ts) (rs ++ added) ≡ true

  pub append_event-Keyed :
      (c : EventColumns) (ts : Text) (d : Disk) (rs : List Row)
      → Holds host d rs
      → Keyed c ts d rs (append_event host c ts d)
  append_event-Keyed c ts d rs held = elim (Bool-cases (any (is_replay c ts) rs)) [
    | inl seen ↦ subst (Keyed c ts d rs) (sym (append_event-replay c ts d rs held seen)) (record {
      added = [];
      held = subst (Holds host d) (sym (append-nil rs)) held;
      quarantine = refl;
      seen = λ o h. ap (any (is_replay c ts)) (append-nil rs) ∙ seen;
    })
    | inr fresh ↦
        let (out, e, recorded) = append_event-fresh c ts d rs held fresh in
        subst (Keyed c ts d rs) (sym e) (keyed out recorded)
  ]
    where
      keyed :
          (out : Result Row × Disk)
          → Records host rs ts (event c) d out
          → Keyed c ts d rs (noted out.0, out.1)
      keyed (err e, s) r = record {
        added = r.added;
        held = r.held;
        quarantine = r.quarantine;
        seen = λ o h. absurd (err-ne-ok _ _ h);
      }
      keyed (ok row, s) r =
          let (last, body, time) = r.returned row refl in
          record {
            added = r.added;
            held = r.held;
            quarantine = r.quarantine;
            seen = λ o h.
                any-last (is_replay c ts) (rs ++ r.added) row last
                  (is_replay_self c ts row body time);
          }
