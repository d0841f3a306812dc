-- ===== src/Ledger/Recover.antt =====
-- `Ledger.recover`: a torn end of the file is moved to the quarantine until the check passes. Each
-- round takes a byte or more away, so the number of bytes and one is fuel enough.
pub mod Boundary
pub mod Loop
pub mod Crash
use mybench.Base.{
  Bool, Bytes, Error, Option, Result, [], drop, err, false, if◌then◌else◌, length, no_fuel, none,
  ok, some, suc, take, torn_tail_error, true, zero, ℕ, ◌++◌, ◌+◌, ◌-◌, ◌==◌, ◌∷◌,
}
use mybench.Lines.{newline}
use mybench.Ledger.{Host, File, Disk}
use mybench.Ledger.Read.{verify_chain}

abbrev pub ends_newline : Bytes → Bool
ends_newline [] = false
ends_newline (c ∷ []) = c == newline
ends_newline (c ∷ d ∷ cs) = ends_newline (d ∷ cs)

-- `data.rfind(b"\n") + 1`: the place behind the last newline, 0 where there is none.
unfoldable pub last_break : Bytes → ℕ
last_break [] = 0
last_break (c ∷ cs) =
    let rest = last_break cs in if rest == 0 then (if c == newline then 1 else 0) else suc rest

-- Where the final row begins.
unfoldable pub boundary : Bytes → ℕ
boundary content =
    let end = if ends_newline content then length content - 1 else length content in
    last_break (take end content)

abbrev pub is_torn : Error → Bool
is_torn torn_tail_error = true
is_torn _ = false

-- One repair: the bytes behind `n` go to the quarantine, and the file is cut there.
unfoldable pub cut : File → ℕ → Disk → Disk
cut f n d = record {
  ledger = some (record f { content = take n f.content });
  quarantine = d.quarantine ++ drop n f.content;
}

module _ (host : Host) where
  unfoldable pub recover_loop : ℕ → File → Disk → ℕ → Result ℕ × Disk
  recover_loop zero f d quarantined = (err no_fuel, d)
  recover_loop (suc fuel) f d quarantined =
      let n = boundary f.content in
      let again =
        recover_loop fuel (record f { content = take n f.content }) (cut f n d)
          (quarantined + length (drop n f.content)) in
      elim (verify_chain host none d) [
        | ok count ↦ (ok quarantined, d)
        | err e ↦ if is_torn e then again else (err e, d)
      ]

  unfoldable pub recover_file : Option File → Disk → Result ℕ × Disk
  recover_file none d = (ok 0, d)
  recover_file (some f) d = recover_loop (suc (length f.content)) f d 0

  unfoldable pub recover : Disk → Result ℕ × Disk
  unfolding recover_file
  recover d = recover_file d.ledger d
