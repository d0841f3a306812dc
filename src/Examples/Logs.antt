-- ===== src/Examples/Logs.antt =====
-- A log of one identity, one device and one event whose proof is not published yet.
use mybench.Base.{
  All, [], ascii, bytes_eq, bytes_eq_refl, if◌then◌else◌, leb, ltb, none, ok, refl, some, true,
  ◌&&◌, ◌++◌, ◌∷◌, ◌≡◌,
}
use mybench.Hex.{hex, fromhex}
use mybench.Json.{text, object, Members, end, member, get, has_text, set_member, without}
use mybench.Ledger.{Text}
use mybench.Ledger.Write.{text_lt}
use mybench.Anchor.Event.{SignedEvent, validate_event, verify_event}
use mybench.Identity.{
  IdentityHost, identity_id_for, sign_record, verify_record, identity_record, device_binding_record,
}
use mybench.Identity.Records.{IsIdentityHost, device_binding_record-verify_record}
use mybench.Verifier.Paths.{
  event_path, places_fit, is_expected, is_proof_path, is_record_path, is_tolerated,
}
use mybench.Verifier.Identities.{
  broken_continuity, explorers_disagree, wrong_header, bind_record, load_records, load_genesis,
  load_identities,
}
use mybench.Verifier.Proofs.{fetch_merkle_root, check_headers}
use mybench.Verifier.Groups.{reach}
use mybench.Verifier.Tiling.{one_if}
use mybench.Verifier.Sound.{claiming, verify_anchors-tiling}
use mybench.Verifier.Trust.{Trusted, verify_anchors-Trusted}
use mybench.Verifier.{
  VerifierHost, start, empty_report, file_under, insert_group, sort_groups, insert_day, sort_days,
  slashes, judge, admit_files, check_day, check_days, check_groups, unknown_paths, Log, Report,
  verify_anchors,
}
use mybench.Examples.Host.{digest, digest-IsBytes}
use mybench.Examples.Anchors.{device}

abbrev identity : IdentityHost
identity = record {
  sha256 = digest;
  dumps = λ j. [];
  verify = λ key sig m. bytes_eq sig (digest m);
  public_key = digest [];
  sign = digest;
}

identity-IsIdentityHost : IsIdentityHost identity
identity-IsIdentityHost = record {
  key_bytes = digest-IsBytes [];
  key_length = refl;
  sign_bytes = λ m. digest-IsBytes m;
  signed_verifies = λ m. bytes_eq_refl (digest m);
}

abbrev day : Text
day = ascii "2026-07-13"

abbrev iid : Text
iid = hex (digest (ascii "mybench:v1:identity" ++ digest []))

abbrev genesis : Members
genesis = sign_record identity (
    identity_record (ascii "genesis") iid (
      member (ascii "identity_pub") (text (hex (digest [])))
        (member (ascii "date") (text day) end)))

abbrev binding : Members
binding = sign_record identity (
    identity_record (ascii "device-binding") iid (
      member (ascii "device_pub") (text (hex (digest [])))
        (member (ascii "scope") (text (ascii "active")) (member (ascii "date") (text day) end))))

abbrev event : SignedEvent
event = record {
  event = record {
    identity_id = iid;
    date = day;
    row_start = 0;
    row_end = 2;
    row_count = 2;
    session_count = 1;
    item_count = 1;
    root = [];
    chain_tip = [];
    client_version = [];
    device_pub = hex (digest []);
  };
  sig = hex (digest []);
}

-- The first byte of a file says what it holds.
abbrev verifier : VerifierHost
verifier = record {
  identity = identity;
  device = device;
  events = record {
    conforms = λ e. true;
    signed_bytes = λ e. [];
    identity_id = iid;
    client_version = [];
  };
  is_decimal = λ c. leb b'0' c && leb c b'9';
  loads = λ b. if bytes_eq b (ascii "g") then some (object genesis) else some (object binding);
  read_event = λ b. some event;
  read_proof = λ b. none;
  explorers = record { first = λ h. none; second = λ h. none };
}

abbrev log : Log
log = record {
  files =
      (ascii "README.md", [])
      ∷ (ascii "anchors/" ++ (iid ++ ascii "/2026/07/13.json"), ascii "e")
      ∷ [];
  identities =
      (iid, (ascii "device-00000000.json", ascii "b") ∷ (ascii "genesis.json", ascii "g") ∷ [])
      ∷ [];
}

abbrev report : Report
report = record {
  failures = [];
  confirmed = 0;
  pending = 1;
  identities = 1;
  covered = (iid, 2) ∷ [];
}

passed : verify_anchors verifier true log ≡ ok report
unfolding verify_anchors load_identities load_genesis load_records bind_record verify_record
    identity_id_for without set_member get hex fromhex bytes_eq admit_files judge event_path
    places_fit is_expected is_proof_path is_record_path is_tolerated unknown_paths verify_event
    validate_event file_under insert_group sort_groups insert_day sort_days slashes check_day
    check_days check_groups text_lt
passed = refl

verify_anchors-tiling_example :
    claiming verifier iid 1 log.files ≡ one_if (ltb 1 (reach iid report.covered))
verify_anchors-tiling_example = verify_anchors-tiling verifier true log report iid 1 passed refl

verify_anchors-Trusted_example : All (Trusted verifier) log.files
verify_anchors-Trusted_example = verify_anchors-Trusted verifier true log report passed refl

device_binding_record-verify_record_example :
    (verify_record identity binding (text (hex (digest []))) ≡ ok tt)
    × (has_text (ascii "type") (ascii "device-binding") binding ≡ true)
    × (get (ascii "device_pub") binding ≡ some (text (hex (digest []))))
unfolding device_binding_record identity_id_for set_member hex fromhex bytes_eq
device_binding_record-verify_record_example =
    device_binding_record-verify_record identity identity-IsIdentityHost (hex (digest [])) day
      (ascii "active") binding refl

-- Rows that two events have break the continuity.
overlap :
    check_days verifier true [] iid (event ∷ event ∷ []) (start (empty_report [] []))
    ≡ ok (record {
      expected = 2;
      failures = broken_continuity iid day ∷ [];
      confirmed = 0;
      pending = 2;
    })
unfolding check_days check_day fromhex slashes
overlap = refl

-- A header that the two explorers give differently, and one that the proof does not have.
headers :
    (check_headers
        (record { first = λ h. some (ascii "aa"); second = λ h. some (ascii "bb") })
        []
        ((7, []) ∷ [])
      ≡ explorers_disagree 7 ∷ [])
    × (check_headers
          (record { first = λ h. some (ascii "aa"); second = λ h. some (ascii "aa") })
          []
          ((7, 170 ∷ []) ∷ (8, 171 ∷ []) ∷ [])
        ≡ wrong_header [] 8 ∷ [])
unfolding check_headers fetch_merkle_root hex bytes_eq
headers = (refl, refl)
