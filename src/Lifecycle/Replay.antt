-- ===== src/Lifecycle/Replay.antt =====
-- A flush that is begun again after the process died goes on where it stopped.
use mybench.Base.{
  All, Bool-cases, Bytes, List, Option, Result, [], ap, arith, err, false, if◌then◌else◌, inl, inr,
  lifecycle_error, none, ok, refl, some, subst, sym, take, ℕ, ◌++◌, ◌+◌, ◌==◌, ◌∙◌, ◌∷◌, ◌≡◌,
}
use mybench.Effect.{continue}
use mybench.Ledger.{Row, Host, IsHost, File, Disk}
use mybench.Ledger.Write.Step.{Holds}
use mybench.Ledger.Write.Event.{append_event-replay}
use mybench.Ledger.Recover.{last_break}
use mybench.Lifecycle.{
  event_columns, tally, is_lifecycle, byte_lines, flush_record, flush_lines, compact, flush_file,
  flush_queue,
}
use mybench.Lifecycle.Record.{QueueRecord, QueueHost, parse_queue_line}
use mybench.Lifecycle.Flush.{
  HasEvent, IsPassed, any-generation, flush_record-Keyed, flush_lines-Flushes,
}

-- The same outcome with `k` more rows.
abbrev pub counted {ℓ} : {S : Type ℓ} → ℕ → Result ℕ × S → Result ℕ × S
counted k (err e, s) = (err e, s)
counted k (ok n, s) = (ok (k + n), s)

tally_add : (o : Option Row) (k n : ℕ) → tally o (k + n) ≡ k + tally o n
tally_add none k n = refl
tally_add (some row) k n = omega arith

module _ (codec : QueueHost) (host : Host) where
  flush_lines-append :
      (xs ys : List Bytes) (n : ℕ) (d : Disk)
      → flush_lines codec host (xs ++ ys) n d
        ≡ continue
            (flush_lines codec host xs n d).0
            (λ k. flush_lines codec host ys k)
            (flush_lines codec host xs n d).1
  unfolding flush_lines
  flush_lines-append [] ys n d = refl
  flush_lines-append (line ∷ xs) ys n d =
      go (parse_queue_line codec line) (λ m s. flush_lines-append xs ys m s)
    where
      both : Result QueueRecord → List Bytes → Result ℕ × Disk
      both m lines = elim m [
        | err e ↦ if is_lifecycle e then flush_lines codec host lines n d else (err e, d)
        | ok r ↦
            continue (flush_record codec host r d).0
              (λ row. flush_lines codec host lines (tally row n)) (flush_record codec host r d).1
      ]

      go :
          (m : Result QueueRecord)
          → ((m : ℕ) (s : Disk)
              → flush_lines codec host (xs ++ ys) m s
                ≡ continue
                    (flush_lines codec host xs m s).0
                    (λ k. flush_lines codec host ys k)
                    (flush_lines codec host xs m s).1)
          → both m (xs ++ ys)
            ≡ continue (both m xs).0 (λ k. flush_lines codec host ys k) (both m xs).1
      go (err e) later = elim (Bool-cases (is_lifecycle e)) [
        | inl y ↦ rw y (later n d)
        | inr raised ↦ rw raised refl
      ]
      go (ok r) later = onward (flush_record codec host r d)
        where
          onward :
              (out : Result (Option Row) × Disk)
              → let rest : List Bytes → Result ℕ × Disk = λ lines.
                continue out.0 (λ row. flush_lines codec host lines (tally row n)) out.1 in
                rest (xs ++ ys)
                ≡ continue (rest xs).0 (λ k. flush_lines codec host ys k) (rest xs).1
          onward (err e, s) = refl
          onward (ok row, s) = later (tally row n) s

  flush_lines-count :
      (lines : List Bytes) (k n : ℕ) (d : Disk)
      → flush_lines codec host lines (k + n) d ≡ counted k (flush_lines codec host lines n d)
  unfolding flush_lines
  flush_lines-count [] k n d = refl
  flush_lines-count (line ∷ rest) k n d =
      go (parse_queue_line codec line) (λ m s. flush_lines-count rest k m s)
    where
      one : Result QueueRecord → ℕ → Result ℕ × Disk
      one m n = elim m [
        | err e ↦ if is_lifecycle e then flush_lines codec host rest n d else (err e, d)
        | ok r ↦
            continue (flush_record codec host r d).0
              (λ row. flush_lines codec host rest (tally row n)) (flush_record codec host r d).1
      ]

      go :
          (m : Result QueueRecord)
          → ((m : ℕ) (s : Disk)
              → flush_lines codec host rest (k + m) s ≡ counted k (flush_lines codec host rest m s))
          → one m (k + n) ≡ counted k (one m n)
      go (err e) later = elim (Bool-cases (is_lifecycle e)) [
        | inl y ↦ rw y (later n d)
        | inr raised ↦ rw raised refl
      ]
      go (ok r) later = onward (flush_record codec host r d)
        where
          onward :
              (out : Result (Option Row) × Disk)
              → let rows : ℕ → Result ℕ × Disk =
                  λ n. continue out.0 (λ row. flush_lines codec host rest (tally row n)) out.1 in
                rows (k + n) ≡ counted k (rows n)
          onward (err e, s) = refl
          onward (ok row, s) =
              ap (λ m. flush_lines codec host rest m s) (tally_add row k n) ∙ later (tally row n) s

  module _ (laws : IsHost host) where
    flush_record-passed :
        (r : QueueRecord) (d : Disk) (rs : List Row)
        → Holds host d rs
        → HasEvent rs r
        → flush_record codec host r d ≡ (ok none, d)
    flush_record-passed r d rs held h =
        let (g, same, _) = flush_record-Keyed codec host laws r d rs held in
        same
        ∙ append_event-replay host laws (event_columns r g) r.ts d rs held
            (any-generation r g rs ∙ h)

    -- Lines that were passed change nothing.
    flush_lines-passed :
        (xs ys : List Bytes) (n : ℕ) (d : Disk) (rs : List Row)
        → Holds host d rs
        → All (λ line. IsPassed rs (parse_queue_line codec line)) xs
        → flush_lines codec host (xs ++ ys) n d ≡ flush_lines codec host ys n d
    unfolding flush_lines
    flush_lines-passed [] ys n d rs held h = refl
    flush_lines-passed (line ∷ xs) ys n d rs held h =
        go (parse_queue_line codec line) h.0 (flush_lines-passed xs ys n d rs held h.1)
      where
        go :
            (m : Result QueueRecord)
            → IsPassed rs m
            → flush_lines codec host (xs ++ ys) n d ≡ flush_lines codec host ys n d
            → (elim m [
              | err e ↦ if is_lifecycle e then flush_lines codec host (xs ++ ys) n d else (err e, d)
              | ok r ↦
                  continue
                    (flush_record codec host r d).0
                    (λ row. flush_lines codec host (xs ++ ys) (tally row n))
                    (flush_record codec host r d).1
            ])
              ≡ flush_lines codec host ys n d
        go (err e) y later = rw y later
        go (ok r) y later =
            ap
              (λ (out : Result (Option Row) × Disk).
                continue out.0 (λ row. flush_lines codec host (xs ++ ys) (tally row n)) out.1)
              (flush_record-passed r d rs held y)
            ∙ later

    flush_lines-interrupted :
        (xs ys : List Bytes) (k : ℕ) (d d' : Disk) (rs : List Row)
        → Holds host d rs
        → flush_lines codec host xs 0 d ≡ (ok k, d')
        → flush_lines codec host (xs ++ ys) 0 d ≡ counted k (flush_lines codec host (xs ++ ys) 0 d')
    flush_lines-interrupted xs ys k d d' rs held h =
        let f = flush_lines-Flushes codec host laws xs 0 d rs held in
        let stopped : Holds host d' (rs ++ f.added) =
          subst (λ (s : Disk). Holds host s (rs ++ f.added)) (ap (λ (o : Result ℕ × Disk). o.1) h)
            f.held in
        let passed = f.passed k (ap (λ (o : Result ℕ × Disk). o.0) h) in
        flush_lines-append xs ys 0 d
        ∙ (ap (λ (o : Result ℕ × Disk). continue o.0 (λ n. flush_lines codec host ys n) o.1) h
            ∙ (ap (λ n. flush_lines codec host ys n d') {x = k} (omega arith)
                ∙ (flush_lines-count ys k 0 d'
                    ∙ ap (counted k)
                        (sym (flush_lines-passed xs ys 0 d' (rs ++ f.added) stopped passed)))))

    -- A process that dies in a flush of a queue, when some of its complete lines are in the ledger:
    -- the flush that is begun again on that ledger ends as the first would have ended, in the same
    -- queue and ledger, and with the rows that are missing; `k` were there already.
    pub flush_queue-interrupted :
        (f : File) (xs ys : List Bytes) (k : ℕ) (d d' : Disk) (rs : List Row)
        → f.loose ≡ false
        → (last_break f.content == 0) ≡ false
        → byte_lines (take (last_break f.content) f.content) ≡ xs ++ ys
        → Holds host d rs
        → flush_lines codec host xs 0 d ≡ (ok k, d')
        → flush_queue codec host (record { queue = some f; disk = d })
          ≡ counted k (flush_queue codec host (record { queue = some f; disk = d' }))
    unfolding flush_queue flush_file
    flush_queue-interrupted f xs ys k d d' rs tight some_line lines held h =
        complete d
        ∙ (ap (λ ls. compact codec host f (last_break f.content) (flush_lines codec host ls 0 d))
              lines
            ∙ (ap (compact codec host f (last_break f.content))
                  (flush_lines-interrupted xs ys k d d' rs held h)
                ∙ (compacted (flush_lines codec host (xs ++ ys) 0 d')
                    ∙ ap
                        (λ ls. counted k (
                          compact codec host f (last_break f.content)
                            (flush_lines codec host ls 0 d')))
                        (sym lines)
                    ∙ ap (counted k) (sym (complete d')))))
      where
        run : Disk → Result ℕ × Disk
        run = flush_lines codec host (byte_lines (take (last_break f.content) f.content)) 0

        complete :
            (s : Disk)
            → flush_queue codec host (record { queue = some f; disk = s })
              ≡ compact codec host f (last_break f.content) (run s)
        complete s =
            ap
              (λ b.
                if b
                then (err lifecycle_error, record { queue = some f; disk = s })
                else if last_break f.content == 0
                then (ok 0, record { queue = some f; disk = s })
                else compact codec host f (last_break f.content) (run s))
              tight
            ∙ ap
                (λ b.
                  if b
                  then (ok 0, record { queue = some f; disk = s })
                  else compact codec host f (last_break f.content) (run s))
                some_line

        compacted :
            (out : Result ℕ × Disk)
            → compact codec host f (last_break f.content) (counted k out)
              ≡ counted k (compact codec host f (last_break f.content) out)
        compacted (err e, s) = refl
        compacted (ok n, s) = refl
