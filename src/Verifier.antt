-- ===== src/Verifier.antt =====
-- src/mybench/verify/cli.py: `verify_anchors` on the files of a log. JSON with the shape of an event,
-- Ed25519, SHA-256, the OpenTimestamps parser and the two block explorers are parameters.
pub mod Paths
pub mod Identities
pub mod Proofs
pub mod Tiling
pub mod Groups
pub mod Judged
pub mod Bound
pub mod Loaded
pub mod Sound
pub mod Trust
use mybench.Base.{
  Bool, Bytes, List, Option, Result, [], ascii, bytes_eq, err, false, if◌then◌else◌, length, ltb,
  none, not, ok, refuse, some, true, verify_failure, ℕ, ◌&&◌, ◌++◌, ◌+◌, ◌==◌, ◌>>=◌, ◌>>◌, ◌∷◌,
}
use mybench.Hex.{fromhex}
use mybench.Json.{Json}
use mybench.Ledger.{Text}
use mybench.Ledger.Write.{text_lt}
use mybench.Sessions.{is_empty}
use mybench.Lifecycle.Record.{mem_text}
use mybench.Anchor.Batch.{Device}
use mybench.Anchor.Event.{Event, SignedEvent, EventHost, verify_event}
use mybench.Identity.{IdentityHost}
use mybench.Verifier.Paths.{EventPath, event_path, is_expected, strip}
use mybench.Verifier.Identities.{
  Failure, unexpected_files, bad_event, wrong_path, unknown_identity, unbound_device,
  broken_continuity, bad_proof, unbound_proof, Info, File, IdentityDir, lookup, load_identities,
}
use mybench.Verifier.Proofs.{
  Timestamp, bitcoin_commitments, proof_info, has_entries, Explorers, check_headers,
}

pub record VerifierHost : Type 0 where
  pub identity : IdentityHost
  pub device : Device
  pub events : EventHost
  pub is_decimal : ℕ → Bool
  pub loads : Bytes → Option Json
  pub read_event : Bytes → Option SignedEvent
  pub read_proof : Bytes → Option Timestamp
  pub explorers : Explorers

-- The files of a log in the order of their paths, and the directories under identities/.
pub record Log : Type 0 where
  pub files : List File
  pub identities : List IdentityDir

-- What becomes of one path in the loop over the events.
pub data Admission : Type 0 where
  skipped : Admission
  rejected : Failure → Admission
  admitted : Text → SignedEvent → Admission

-- `events_by_id`
abbrev pub Groups : Type 0
Groups = List (Text × List SignedEvent)

-- `events_by_id.setdefault(iid, []).append(event)`
unfoldable pub file_under : Text → SignedEvent → Groups → Groups
file_under iid e [] = (iid, e ∷ []) ∷ []
file_under iid e ((k, es) ∷ rest) =
    let later = file_under iid e rest in
    if bytes_eq k iid then (k, es ++ (e ∷ [])) ∷ rest else (k, es) ∷ later

-- `sorted(events_by_id.items())`
unfoldable pub insert_group : Text → List SignedEvent → Groups → Groups
insert_group iid es [] = (iid, es) ∷ []
insert_group iid es ((k, fs) ∷ rest) =
    let later = insert_group iid es rest in
    if text_lt k iid then (k, fs) ∷ later else (iid, es) ∷ (k, fs) ∷ rest

unfoldable pub sort_groups : Groups → Groups
sort_groups [] = []
sort_groups ((iid, es) ∷ rest) = insert_group iid es (sort_groups rest)

-- `events.sort(key=lambda e: e["date"])`
unfoldable pub insert_day : SignedEvent → List SignedEvent → List SignedEvent
insert_day e [] = e ∷ []
insert_day e (f ∷ fs) =
    let later = insert_day e fs in if text_lt f.date e.date then f ∷ later else e ∷ f ∷ fs

unfoldable pub sort_days : List SignedEvent → List SignedEvent
sort_days [] = []
sort_days (e ∷ es) = insert_day e (sort_days es)

-- `date.replace('-', '/')`
unfoldable pub slashes : Text → Text
slashes [] = []
slashes (c ∷ t) = (if c == b'-' then b'/' else c) ∷ slashes t

abbrev pub proof_path : Text → Text → Text
proof_path iid date = ascii "anchors/" ++ (iid ++ (b'/' ∷ slashes date ++ ascii ".json.ots"))

abbrev pub max : ℕ → ℕ → ℕ
max a b = if ltb a b then b else a

-- The state of the loop over the days of an identity.
pub record Progress : Type 0 where
  pub expected : ℕ
  pub failures : List Failure
  pub confirmed : ℕ
  pub pending : ℕ

-- The parts of the result that decide it, and how far the rows of each identity reach.
pub record Report : Type 0 where
  pub failures : List Failure
  pub confirmed : ℕ
  pub pending : ℕ
  pub identities : ℕ
  pub covered : List (Text × ℕ)

-- `result["verdict"] == "PASS"`
abbrev pub passes : Report → Bool
passes r = is_empty r.failures

abbrev pub continuity : Text → SignedEvent → ℕ → List Failure
continuity iid e expected =
    if e.row_start == expected then [] else (broken_continuity iid e.date ∷ [])

-- An event whose path is right, with the identity that has the path's name.
abbrev pub judge_known : Text → EventPath → SignedEvent → Option Info → Admission
judge_known path p e none = rejected (unknown_identity path)
judge_known path p e (some i) =
    if mem_text i.devices e.device_pub then admitted p.iid e else rejected (unbound_device path)

abbrev pub take_in : Admission → List Failure × Groups → List Failure × Groups
take_in skipped found = found
take_in (rejected r) (failures, groups) = (failures ++ (r ∷ []), groups)
take_in (admitted iid e) (failures, groups) = (failures, file_under iid e groups)

-- The state before the days of an identity, and the result behind them.
abbrev pub start : Report → Progress
start r = record {
  expected = 0;
  failures = r.failures;
  confirmed = r.confirmed;
  pending = r.pending;
}

abbrev pub empty_report : List (Text × Info) → List Failure → Report
empty_report ids failures = record {
  failures = failures;
  confirmed = 0;
  pending = 0;
  identities = length ids;
  covered = [];
}

abbrev pub next : Report → Text → Progress → Report
next r iid c = record {
  failures = c.failures;
  confirmed = c.confirmed;
  pending = c.pending;
  identities = r.identities;
  covered = r.covered ++ ((iid, c.expected) ∷ []);
}

module _ (host : VerifierHost) where
  abbrev pub judge_verified :
      List (Text × Info) → Text → EventPath → SignedEvent → Result (Unit {0}) → Admission
  judge_verified ids path p e (err raised) = rejected (bad_event path)
  judge_verified ids path p e (ok passed) =
      if not (bytes_eq e.identity_id p.iid && bytes_eq e.date p.date)
      then rejected (wrong_path path)
      else judge_known path p e (lookup p.iid ids)

  abbrev pub judge_event : List (Text × Info) → Text → EventPath → Option SignedEvent → Admission
  judge_event ids path p none = rejected (bad_event path)
  judge_event ids path p (some e) =
      judge_verified ids path p e (verify_event host.device host.events e)

  abbrev pub judge_path : List (Text × Info) → File → Option EventPath → Admission
  judge_path ids f none = skipped
  judge_path ids f (some p) = judge_event ids f.0 p (host.read_event f.1)

  unfoldable pub judge : List (Text × Info) → File → Admission
  judge ids f = judge_path ids f (event_path host.is_decimal f.0)

  -- The loop over the paths, from the failures and the groups so far.
  unfoldable pub admit_files :
      List (Text × Info) → List File → List Failure × Groups → List Failure × Groups
  admit_files ids [] found = found
  admit_files ids (f ∷ fs) found = admit_files ids fs (take_in (judge ids f) found)

  -- The proof of a day that parses: whether it binds the root, and whether it is confirmed.
  abbrev pub count_proof : Text → List Failure → Bool → Bool → Progress → Progress
  count_proof path headers false confirmed c = record c {
    failures = c.failures ++ (unbound_proof path ∷ []);
  }
  count_proof path headers true false c = record c { pending = c.pending + 1 }
  count_proof path headers true true c = record c {
    confirmed = c.confirmed + 1;
    failures = c.failures ++ headers;
  }

  abbrev pub headers_of : Bool → Text → Timestamp → List Failure
  headers_of online path t =
      if online then check_headers host.explorers path (bitcoin_commitments t.attestations) else []

  abbrev pub check_timestamp : Bool → Text → Bytes → Option Timestamp → Progress → Progress
  check_timestamp online path root none c = record c {
    failures = c.failures ++ (bad_proof path ∷ []);
  }
  check_timestamp online path root (some t) c =
      count_proof path (headers_of online path t) (proof_info root t).digest_matches
        (proof_info root t).confirmed c

  -- The file of the proof; without one the day is pending, and the root is not read.
  abbrev pub check_proof : Bool → Text → Text → Option Bytes → Progress → Result Progress
  check_proof online path root none c = ok (record c { pending = c.pending + 1 })
  check_proof online path root (some content) c =
      fromhex root >>= λ bytes. ok (check_timestamp online path bytes (host.read_proof content) c)

  unfoldable pub check_day : Bool → List File → Text → SignedEvent → Progress → Result Progress
  check_day online files iid e c =
      let path = proof_path iid e.date in
      check_proof online path e.root (lookup path files) (record c {
        expected = max c.expected e.row_end;
        failures = c.failures ++ continuity iid e c.expected;
      })

  unfoldable pub check_days :
      Bool → List File → Text → List SignedEvent → Progress → Result Progress
  check_days online files iid [] c = ok c
  check_days online files iid (e ∷ es) c = do
    next ← check_day online files iid e c
    check_days online files iid es next

  -- The loop over the identities, in the order of their names.
  unfoldable pub check_groups : Bool → List File → Groups → Report → Result Report
  check_groups online files [] r = ok r
  check_groups online files ((iid, es) ∷ rest) r = do
    c ← check_days online files iid (sort_days es) (start r)
    check_groups online files rest (next r iid c)

  unfoldable pub unknown_paths : List File → List Text
  unknown_paths [] = []
  unknown_paths ((path, content) ∷ fs) =
      let later = unknown_paths fs in
      if is_expected host.is_decimal path then later else path ∷ later

  abbrev pub whitelist : List Text → List Failure
  whitelist [] = []
  whitelist (u ∷ us) = unexpected_files (u ∷ us) ∷ []

  -- A log with no event and no failure is refused.
  abbrev pub check_log :
      Bool → List File → List (Text × Info) → List Failure × Groups → Result Report
  check_log online files ids (failures, groups) = do
    r ← check_groups online files (sort_groups groups) (empty_report ids failures)
    refuse (is_empty groups && is_empty r.failures) verify_failure
    ok r

  unfoldable pub verify_anchors : Bool → Log → Result Report
  verify_anchors online log = do
    ids ← load_identities host.identity host.loads log.identities
    check_log online log.files ids.1
        (admit_files ids.1 log.files (whitelist (unknown_paths log.files) ++ ids.0, []))
