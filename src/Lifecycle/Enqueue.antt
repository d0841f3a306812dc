-- ===== src/Lifecycle/Enqueue.antt =====
-- From `enqueue_event` to the ledger: what a flush finds in the queue.
use mybench.Base.{
  All, Bool, List, Option, Result, [], ap, append_assoc, arith, drop, err, err-ne-ok, false,
  if◌then◌else◌, length, length-append, lifecycle_error, none, ok, refl, some, subst, sym, take,
  take-length, ℕ, ◌++◌, ◌+◌, ◌==◌, ◌∙◌, ◌∷◌, ◌≡◌,
}
use mybench.Effect.{continue}
use mybench.Json.{Json, object, Members}
use mybench.Lifecycle.Reordered.{SameLookups, validate_members-same}
use mybench.Lines.{newline}
use mybench.Ledger.{Row, Host, IsHost, File, Disk}
use mybench.Ledger.Write.Step.{Holds}
use mybench.Ledger.Recover.{last_break}
use mybench.Lifecycle.{
  Queued, is_lifecycle, byte_lines, enqueue_event, tally, flush_record, flush_lines, compact,
  flush_file, flush_queue,
}
use mybench.Lifecycle.Record.{QueueRecord, QueueHost, validate_queue_record, parse_queue_line}
use mybench.Lifecycle.Flush.{HasEvent, IsPassed, Flushes, flush_lines-Flushes}
use mybench.Lifecycle.Tight.{
  IsEntry, IsWhole, last_break-end, byte_lines-entry, byte_lines-append, All-last, drop-length,
}

module _ (codec : QueueHost) where
  parse_queue_line-dumps :
      (m written : Members) (r : QueueRecord)
      → codec.loads (codec.dumps (object m)) ≡ some (object written)
      → SameLookups m written
      → validate_queue_record codec (some (object m)) ≡ ok r
      → parse_queue_line codec (codec.dumps (object m)) ≡ ok r
  unfolding parse_queue_line
  parse_queue_line-dumps m written r read same valid =
      ap (validate_queue_record codec) read ∙ (validate_members-same codec m written same ∙ valid)

  -- The queue file with one more line.
  abbrev pub with_line : Json → File → File
  with_line value f = record f { content = f.content ++ (codec.dumps value ++ (newline ∷ [])) }

  enqueue_event-tight :
      (value : Json) (r : QueueRecord) (f : File) (d : Disk)
      → validate_queue_record codec (some value) ≡ ok r
      → f.loose ≡ false
      → enqueue_event codec none value (record { queue = some f; disk = d })
        ≡ (ok tt, record { queue = some (with_line value f); disk = d })
  unfolding enqueue_event
  enqueue_event-tight value r f d valid tight = rw (valid, enqueue_event) (ap written tight)
    where
      written : Bool → Result (Unit {0}) × Queued
      written b =
          let out : Result (Unit {0}) × Option File =
            if b then (err lifecycle_error, some f) else (ok tt, some (with_line value f)) in
          (out.0, record { queue = out.1; disk = d })

  -- The queue with its new line, all of it complete.
  with_line-whole :
      (value : Json) (f : File)
      → last_break (with_line value f).content ≡ length (with_line value f).content
  with_line-whole value f =
      ap last_break (sym (append_assoc f.content (codec.dumps value) (newline ∷ [])))
      ∙ (last_break-end (f.content ++ codec.dumps value)
          ∙ (sym (length-append (f.content ++ codec.dumps value) (newline ∷ []))
              ∙ ap length (append_assoc f.content (codec.dumps value) (newline ∷ []))))

  with_line-nonempty :
      (value : Json) (f : File) → (last_break (with_line value f).content == 0) ≡ false
  with_line-nonempty value f =
      ap (λ n. n == 0)
        (with_line-whole value f ∙ length-append f.content (codec.dumps value ++ (newline ∷ [])))
      ∙ ap (λ n. (length f.content + n) == 0) (length-append (codec.dumps value) (newline ∷ []))
      ∙ ground arith

  module _ (host : Host) where
    -- A flush of a queue that is complete empties it.
    flush_queue-whole :
        (value : Json) (f : File) (d : Disk)
        → f.loose ≡ false
        → flush_queue codec host (record { queue = some (with_line value f); disk = d })
          ≡ compact codec host
              (with_line value f)
              (length (with_line value f).content)
              (flush_lines codec host (byte_lines (with_line value f).content) 0 d)
    unfolding flush_queue flush_file
    flush_queue-whole value f d tight =
        ap
          (λ b.
            if b
            then (err lifecycle_error, record { queue = some g; disk = d })
            else if last_break g.content == 0
            then (ok 0, record { queue = some g; disk = d })
            else compact codec host g (last_break g.content) (run (last_break g.content)))
          tight
        ∙ (ap
              (λ b.
                if b
                then (ok 0, record { queue = some g; disk = d })
                else compact codec host g (last_break g.content) (run (last_break g.content)))
              (with_line-nonempty value f)
            ∙ (ap (λ n. compact codec host g n (run n)) (with_line-whole value f)
                ∙ ap
                    (λ bytes.
                      compact codec host g (length g.content)
                        (flush_lines codec host (byte_lines bytes) 0 d))
                    (take-length g.content)))
      where
        g : File
        g = with_line value f

        run : ℕ → Result ℕ × Disk
        run n = flush_lines codec host (byte_lines (take n g.content)) 0 d

    -- A queue that holds a part of a line, as a short write leaves it: the next record is
    -- acknowledged, joins that line, and the flush loses it, unless the reader takes the two for a
    -- record.
    pub flush_queue-torn :
        (value : Json) (r : QueueRecord) (f : File) (d : Disk)
        → validate_queue_record codec (some value) ≡ ok r
        → codec.loads (f.content ++ codec.dumps value) ≡ none
        → IsEntry (f.content ++ codec.dumps value)
        → f.loose ≡ false
        → ((enqueue_event codec none value (record { queue = some f; disk = d })).0 ≡ ok tt)
          × (flush_queue codec host
                (enqueue_event codec none value (record { queue = some f; disk = d })).1
              ≡ (ok 0, record { queue = some (record f { content = [] }); disk = d }))
    unfolding flush_lines parse_queue_line
    flush_queue-torn value r f d valid unread entry tight =
        let accepted = enqueue_event-tight value r f d valid tight in
        (
          ap (λ (o : Result (Unit {0}) × Queued). o.0) accepted,
          ap (λ (o : Result (Unit {0}) × Queued). flush_queue codec host o.1) accepted
              ∙ (flush_queue-whole value f d tight
                  ∙ (ap
                        (λ ls.
                          compact codec host g (length g.content) (flush_lines codec host ls 0 d))
                        joined
                      ∙ (ap (λ m. compact codec host g (length g.content) (lost m)) unread
                          ∙ ap
                              (λ bytes. (
                                ok 0,
                                record { queue = some (record f { content = bytes }); disk = d },
                              ))
                              (drop-length g.content)))),
        )
      where
        g : File
        g = with_line value f

        joined : byte_lines g.content ≡ (f.content ++ codec.dumps value) ∷ []
        joined =
            ap byte_lines (sym (append_assoc f.content (codec.dumps value) (newline ∷ [])))
            ∙ byte_lines-entry (f.content ++ codec.dumps value) entry

        lost : Option Json → Result ℕ × Disk
        lost m = elim (validate_queue_record codec m) [
          | err e ↦ if is_lifecycle e then (ok 0, d) else (err e, d)
          | ok r ↦
              continue (flush_record codec host r d).0
                (λ row. flush_lines codec host [] (tally row 0)) (flush_record codec host r d).1
        ]

    module _ (laws : IsHost host) where
      -- A record that `enqueue_event` validates and writes whole, on a private queue of complete lines
      -- and a ledger that holds a chain, where the line has no line break of its own and is read back
      -- as a dictionary with the same values in any order of the keys: it is acknowledged, and a flush
      -- that then returns leaves the queue empty and the ledger a chain that goes on from the old one
      -- and has an event with the record's session, kind and time.
      pub flush_queue-enqueue_event :
          (m written : Members) (r : QueueRecord) (f : File) (d : Disk) (rs : List Row) (n : ℕ)
          (s' : Queued)
          → validate_queue_record codec (some (object m)) ≡ ok r
          → codec.loads (codec.dumps (object m)) ≡ some (object written)
          → SameLookups m written
          → IsEntry (codec.dumps (object m))
          → f.loose ≡ false
          → IsWhole f.content
          → Holds host d rs
          → flush_queue codec host
              (enqueue_event codec none (object m) (record { queue = some f; disk = d })).1
            ≡ (ok n, s')
          → ((enqueue_event codec none (object m) (record { queue = some f; disk = d })).0 ≡ ok tt)
            × (s'.queue ≡ some (record f { content = [] }))
            × (added : List Row) × Holds host s'.disk (rs ++ added)
            × HasEvent (rs ++ added) r
      flush_queue-enqueue_event m written r f d rs n s' valid read same_keys entry tight whole held
            h =
          let accepted = enqueue_event-tight (object m) r f d valid tight in
          let (gone, added, kept, noted) =
            emptied (flush_lines codec host (byte_lines g.content) 0 d)
              (flush_lines-Flushes codec host laws (byte_lines g.content) 0 d rs held)
              (sym (flush_queue-whole (object m) f d tight)
                ∙ (ap (λ (o : Result (Unit {0}) × Queued). flush_queue codec host o.1)
                      (sym accepted)
                    ∙ h)) in
          (ap (λ (o : Result (Unit {0}) × Queued). o.0) accepted, gone, added, kept, noted)
        where
          g : File
          g = with_line (object m) f

          lines : byte_lines g.content ≡ byte_lines f.content ++ (codec.dumps (object m) ∷ [])
          lines =
              byte_lines-append f.content (codec.dumps (object m) ++ (newline ∷ [])) whole
              ∙ ap (λ ls. byte_lines f.content ++ ls)
                  (byte_lines-entry (codec.dumps (object m)) entry)

          parsed_back : parse_queue_line codec (codec.dumps (object m)) ≡ ok r
          parsed_back = parse_queue_line-dumps m written r read same_keys valid

          emptied :
              (out : Result ℕ × Disk)
              → Flushes codec host laws rs (byte_lines g.content) d out
              → compact codec host g (length g.content) out ≡ (ok n, s')
              → (s'.queue ≡ some (record f { content = [] }))
                × (added : List Row) × Holds host s'.disk (rs ++ added)
                × HasEvent (rs ++ added) r
          emptied (err e, s) k h = absurd (err-ne-ok _ _ (ap (λ (o : Result ℕ × Queued). o.0) h))
          emptied (ok count, s) k h =
              let same : ◌≡◌ {A = Queued}
                  (record {
                    queue = some (record g { content = drop (length g.content) g.content });
                    disk = s;
                  })
                  s' =
                ap (λ (o : Result ℕ × Queued). o.1) h in
              (
                ap (λ (q : Queued). q.queue) (sym same)
                    ∙ ap (λ bytes. some (record f { content = bytes })) (drop-length g.content),
                k.added,
                subst (λ (q : Queued). Holds host q.disk (rs ++ k.added)) same k.held,
                subst (IsPassed (rs ++ k.added)) parsed_back (
                    All-last (λ line. IsPassed (rs ++ k.added) (parse_queue_line codec line))
                      (byte_lines f.content) (codec.dumps (object m))
                      (subst (All (λ line. IsPassed (rs ++ k.added) (parse_queue_line codec line)))
                        lines (k.passed count refl))),
              )
