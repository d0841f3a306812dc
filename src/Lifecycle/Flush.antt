-- ===== src/Lifecycle/Flush.antt =====
-- A flush keeps the ledger a chain, and what it passes is in the ledger.
use mybench.Base.{
  All, Bool, Bool-cases, Bytes, List, Option, Result, [], append-nil, append_assoc, arith, err,
  err-ne-ok, if◌then◌else◌, inl, inr, ok, refl, subst, sym, true, ℕ, ◌++◌, ◌∙◌, ◌∷◌, ◌≡◌,
}
use mybench.Effect.{continue}
use mybench.Ledger.{Row, Host, IsHost, Disk}
use mybench.Ledger.Write.{any, is_replay, append_event}
use mybench.Ledger.Write.Step.{Holds}
use mybench.Ledger.Write.Event.{Keyed, append_event-Keyed}
use mybench.Lifecycle.{
  context_generation, event_columns, tally, is_lifecycle, flush_record, flush_lines,
}
use mybench.Lifecycle.Record.{QueueRecord, QueueHost, parse_queue_line}

-- An event with the record's session, kind and time is in the rows.
abbrev pub HasEvent : List Row → QueueRecord → Type 0
HasEvent rs r = any (is_replay (event_columns r 0) r.ts) rs ≡ true

-- A line that was passed: rejected, or in the ledger.
abbrev pub IsPassed : List Row → Result QueueRecord → Type 0
IsPassed rs (err e) = is_lifecycle e ≡ true
IsPassed rs (ok r) = HasEvent rs r

any-append-front :
    {A : Type 0} (p : A → Bool) (xs ys : List A) → any p xs ≡ true → any p (xs ++ ys) ≡ true
any-append-front p [] ys h = cc
any-append-front p (x ∷ xs) ys h = ground (arith, any-append-front p xs ys)

pub IsPassed-append :
    (rs more : List Row) (m : Result QueueRecord) → IsPassed rs m → IsPassed (rs ++ more) m
IsPassed-append rs more (err e) h = h
IsPassed-append rs more (ok r) h = any-append-front (is_replay (event_columns r 0) r.ts) rs more h

pub any-generation :
    (r : QueueRecord) (g : ℕ) (rs : List Row)
    → any (is_replay (event_columns r g) r.ts) rs ≡ any (is_replay (event_columns r 0) r.ts) rs
unfolding is_replay
any-generation r g rs = refl

module _ (codec : QueueHost) (host : Host) (laws : IsHost host) where
  -- A chain that begins with the old rows, the quarantine unchanged, and every line passed where the
  -- flush of them returns.
  pub record Flushes (rs : List Row) (lines : List Bytes) (d : Disk) (out : Result ℕ × Disk)
      : Type 0 where
    pub added : List Row
    pub held : Holds host out.1 (rs ++ added)
    pub quarantine : out.1.quarantine ≡ d.quarantine
    pub passed :
        (n : ℕ)
        → out.0 ≡ ok n
        → All (λ line. IsPassed (rs ++ added) (parse_queue_line codec line)) lines

  -- The same of one record.
  pub flush_record-Keyed :
      (r : QueueRecord) (d : Disk) (rs : List Row)
      → Holds host d rs
      → (g : ℕ) × (flush_record codec host r d ≡ append_event host (event_columns r g) r.ts d)
        × Keyed host laws (event_columns r g) r.ts d rs (flush_record codec host r d)
  unfolding flush_record
  flush_record-Keyed r d rs held =
      let g = context_generation rs r in
      let same : flush_record codec host r d ≡ append_event host (event_columns r g) r.ts d =
        rw (held.read, flush_record) refl in
      (
        g,
        same,
        subst (Keyed host laws (event_columns r g) r.ts d rs) (sym same)
            (append_event-Keyed host laws (event_columns r g) r.ts d rs held),
      )

  pub flush_lines-Flushes :
      (lines : List Bytes) (n : ℕ) (d : Disk) (rs : List Row)
      → Holds host d rs
      → Flushes rs lines d (flush_lines codec host lines n d)
  unfolding flush_lines
  flush_lines-Flushes [] n d rs held = record {
    added = [];
    held = subst (Holds host d) (sym (append-nil rs)) held;
    quarantine = refl;
    passed = λ k h. tt;
  }
  flush_lines-Flushes (line ∷ rest) n d rs held =
      go (parse_queue_line codec line) refl (λ m s ss k. flush_lines-Flushes rest m s ss k)
    where
      go :
          (m : Result QueueRecord)
          → parse_queue_line codec line ≡ m
          → ((m : ℕ) (s : Disk) (ss : List Row)
              → Holds host s ss
              → Flushes ss rest s (flush_lines codec host rest m s))
          → Flushes rs (line ∷ rest) d (elim m [
            | err e ↦ if is_lifecycle e then flush_lines codec host rest n d else (err e, d)
            | ok r ↦
                continue
                  (flush_record codec host r d).0
                  (λ row. flush_lines codec host rest (tally row n))
                  (flush_record codec host r d).1
          ])
      go (err e) same later = elim (Bool-cases (is_lifecycle e)) [
        | inl y ↦
            let f = later n d rs held in
            rw y (record {
              added = f.added;
              held = f.held;
              quarantine = f.quarantine;
              passed = λ k h. (subst (IsPassed (rs ++ f.added)) (sym same) y, f.passed k h);
            })
        | inr raised ↦ rw raised (record {
          added = [];
          held = subst (Holds host d) (sym (append-nil rs)) held;
          quarantine = refl;
          passed = λ k h. absurd (err-ne-ok _ _ h);
        })
      ]
      go (ok r) same later =
          let (g, _, keyed) = flush_record-Keyed r d rs held in
          onward g (flush_record codec host r d) keyed
        where
          onward :
              (g : ℕ) (out : Result (Option Row) × Disk)
              → Keyed host laws (event_columns r g) r.ts d rs out
              → Flushes rs
                  (line ∷ rest)
                  d
                  (continue out.0 (λ row. flush_lines codec host rest (tally row n)) out.1)
          onward g (err e, s) k = record {
            added = k.added;
            held = k.held;
            quarantine = k.quarantine;
            passed = λ m h. absurd (err-ne-ok _ _ h);
          }
          onward g (ok row, s) k =
              let f = later (tally row n) s (rs ++ k.added) k.held in
              let whole : (rs ++ k.added) ++ f.added ≡ rs ++ (k.added ++ f.added) =
                append_assoc rs k.added f.added in
              record {
                added = k.added ++ f.added;
                held = subst (Holds host _) whole f.held;
                quarantine = f.quarantine ∙ k.quarantine;
                passed = λ m h.
                    subst
                      (λ all.
                        All (λ line. IsPassed all (parse_queue_line codec line)) (line ∷ rest))
                      whole
                      (
                        subst (IsPassed ((rs ++ k.added) ++ f.added)) (sym same) (
                            IsPassed-append (rs ++ k.added) f.added (ok r)
                              (sym (any-generation r g (rs ++ k.added)) ∙ k.seen row refl)),
                        f.passed m h,
                      );
              }
