-- ===== src/Ledger/Recover/Crash.antt =====
-- A process that dies in the middle of an append: `recover` brings back the ledger as it was.
use mybench.Base.{
  All, All-take, Bytes, List, Option, [], ap, ap₂, arith, drop, drop-append, err, false, length,
  length-append, length-take, none, ok, refl, some, subst, suc, sym, take, take-append, take-front,
  torn_tail_error, ℕ, ◌++◌, ◌+◌, ◌<◌, ◌∙◌, ◌∷◌, ◌≡◌, ◌≢◌, ◌≤◌,
}
use mybench.Lines.{newline, IsLine}
use mybench.Ledger.{Fields, Row, Host, IsHost, File, Disk}
use mybench.Ledger.Read.{content_rows, file_rows, rows, verify_chain}
use mybench.Ledger.Read.Chain.{verify_rows_iff}
use mybench.Ledger.Read.Append.{content_rows-torn, content_rows-eq-ok}
use mybench.Ledger.Write.{content_of, loose_of, append_bytes, line_of}
use mybench.Ledger.Write.Step.{Holds, hashed}
use mybench.Ledger.Recover.{boundary, cut, recover_loop, recover_file, recover}
use mybench.Ledger.Recover.Boundary.{boundary-torn, pop_empty-ends}

pub tight_rows :
    (host : Host) (f : File) (rs : List Row)
    → file_rows host (some f) ≡ ok rs
    → (f.loose ≡ false) × (content_rows host f.content ≡ ok rs)
unfolding file_rows
tight_rows host f rs h = ground arith

module _ (host : Host) where
  pub Holds-verify :
      (d : Disk) (rs : List Row) → Holds host d rs → verify_chain host none d ≡ ok (length rs)
  unfolding verify_chain
  Holds-verify d rs held = rw (held.read, verify_chain) ((verify_rows_iff host rs).1 held.chain)

  torn-verify :
      (f : File) (d : Disk) (torn : Bytes) (rs : List Row)
      → d.ledger ≡ some (record f { content = f.content ++ torn })
      → file_rows host (some f) ≡ ok rs
      → IsLine torn
      → torn ≢ []
      → verify_chain host none d ≡ err torn_tail_error
  unfolding verify_chain rows file_rows
  torn-verify f d torn rs at h line some_byte =
      let (tight, c) = tight_rows host f rs h in
      rw (at, verify_chain, rows)
        (rw (tight, file_rows) (rw (content_rows-torn host f.content torn rs c line some_byte)))

  loop-torn :
      (fuel : ℕ) (g : File) (d : Disk) (count : ℕ)
      → verify_chain host none d ≡ err torn_tail_error
      → recover_loop host (suc fuel) g d count
        ≡ recover_loop host fuel
            (record g { content = take (boundary g.content) g.content })
            (cut g (boundary g.content) d)
            (count + length (drop (boundary g.content) g.content))
  unfolding recover_loop
  loop-torn fuel g d count h = rw (h, recover_loop) refl

  loop-ok :
      (fuel : ℕ) (g : File) (d : Disk) (count n : ℕ)
      → verify_chain host none d ≡ ok n
      → recover_loop host (suc fuel) g d count ≡ (ok count, d)
  unfolding recover_loop
  loop-ok fuel g d count n h = rw (h, recover_loop) refl

  -- A round that cuts exactly `torn` off `f`, and a check that passes then.
  loop-restores :
      (fuel : ℕ) (f : File) (d : Disk) (torn : Bytes) (count n : ℕ)
      → boundary (f.content ++ torn) ≡ length f.content
      → verify_chain host none d ≡ err torn_tail_error
      → verify_chain host none (record { ledger = some f; quarantine = d.quarantine ++ torn })
        ≡ ok n
      → recover_loop host (suc (suc fuel)) (record f { content = f.content ++ torn }) d count
        ≡ (ok (count + length torn), record { ledger = some f; quarantine = d.quarantine ++ torn })
  unfolding cut
  loop-restores fuel f d torn count n b h k =
      loop-torn (suc fuel) (record f { content = f.content ++ torn }) d count h
      ∙ rw (b, take-append f.content torn, drop-append f.content torn)
          (loop-ok fuel f (record { ledger = some f; quarantine = d.quarantine ++ torn })
            (count + length torn) n k)

  -- The front of a line behind a ledger that is a chain: `recover` gives the count of its bytes,
  -- the ledger has the bytes it had, and the quarantine has got the front of the line.
  pub recover-torn :
      (f : File) (d : Disk) (torn : Bytes) (rs : List Row)
      → Holds host (record d { ledger = some f }) rs
      → d.ledger ≡ some (record f { content = f.content ++ torn })
      → IsLine torn
      → torn ≢ []
      → recover host d
        ≡ (ok (length torn), record { ledger = some f; quarantine = d.quarantine ++ torn })
  unfolding recover recover_file rows
  recover-torn f d [] rs held at line some_byte = absurd (some_byte refl)
  recover-torn f d (b ∷ t) rs held at line some_byte =
      let (tight, c) = tight_rows host f rs held.read in
      let (ls, complete, _) = content_rows-eq-ok host f.content c in
      ap (λ o. recover_file host o d) at
      ∙ (ap (λ k. recover_loop host (suc k) (record f { content = f.content ++ (b ∷ t) }) d 0)
            (count f.content t)
          ∙ loop-restores (length f.content + length t) f d (b ∷ t) 0 (length rs)
              (boundary-torn f.content (b ∷ t) (pop_empty-ends f.content ls complete) line
                some_byte)
              (torn-verify f d (b ∷ t) rs at held.read line some_byte)
              (Holds-verify (record { ledger = some f; quarantine = d.quarantine ++ (b ∷ t) }) rs
                (record { read = held.read; chain = held.chain }))
          ∙ ap (λ k. (ok k, record { ledger = some f; quarantine = d.quarantine ++ (b ∷ t) }))
              {x = 0 + length (b ∷ t)} (omega arith))
    where
      count : (xs t : Bytes) → length (xs ++ (b ∷ t)) ≡ suc (length xs + length t)
      count xs t = omega (arith, length-append xs (b ∷ t))

-- The write of an appended row, cut short after `k` bytes.
abbrev pub interrupted : Host → Fields → ℕ → Disk → Disk
interrupted host fields k d = append_bytes (take k (line_of host (hashed host fields))) d

module _ (host : Host) (laws : IsHost host) where
  front-IsLine : (k : ℕ) (r : Row) → k ≤ length (host.dumps r) → IsLine (take k (line_of host r))
  unfolding line_of
  front-IsLine k r h =
      subst (All (λ c. c ≢ newline)) (sym (take-front k (host.dumps r) (newline ∷ []) h))
        (All-take (λ c. c ≢ newline) k (host.dumps r) (laws.dumps-IsLine r))

  -- A process dies while it appends a row, with 1 byte of the line written or more, and not its
  -- newline: recovery restores the ledger's bytes, keeps the torn bytes in the quarantine, and
  -- counts them. The next run starts from the chain that was there before.
  pub recover-interrupted :
      (fields : Fields) (k : ℕ) (f : File) (d : Disk) (rs : List Row)
      → d.ledger ≡ some f
      → Holds host d rs
      → 0 < k
      → k ≤ length (host.dumps (hashed host fields))
      → let torn : Bytes = take k (line_of host (hashed host fields)) in
        let d' : Disk = record d { quarantine = d.quarantine ++ torn } in
        (recover host (interrupted host fields k d) ≡ (ok k, d')) × Holds host d' rs
  unfolding append_bytes rows
  recover-interrupted fields k f d rs at held some_byte front =
      let r : Row = hashed host fields in
      let torn : Bytes = take k (line_of host r) in
      let size : length torn ≡ k =
        (unfold line_of in
          omega
            (arith, length-take k (line_of host r), length-append (host.dumps r) (newline ∷ []))) in
      (
        recover-torn host f (interrupted host fields k d) torn rs
              (record { read = ap (file_rows host) (sym at) ∙ held.read; chain = held.chain })
              (ap
                (λ (o : Option File).
                  some (record { loose = loose_of o; content = content_of o ++ torn }))
                at)
              (front-IsLine k r front) (λ empty. absurd (omega (arith, ap length empty, size)))
            ∙ ap₂ (λ n o. (ok n, record { ledger = o; quarantine = d.quarantine ++ torn })) size
                (sym at),
        record { read = held.read; chain = held.chain },
      )
