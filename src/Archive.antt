-- ===== src/Archive.antt =====
-- src/mybench/archive.py: the private copy of one session, checked against its nonces and its
-- ledger row. The state is the file at the session's path; opening it for writing creates it.
pub mod Commit
pub mod Kept
pub mod Readback
pub mod Resume
use mybench.Base.{
  Bool, Bytes, List, Option, Result, [], archive_error, bytes_eq, err, false, if◌then◌else◌,
  insecure_permissions, length, ltb, none, not, ok, refuse, some, take, ℕ, ◌++◌, ◌-◌, ◌==◌, ◌>>=◌,
  ◌>>◌, ◌||◌, ◌∷◌,
}
use mybench.Effect.{Effect}
use mybench.Lines.{newline, split_lines, join_lines}
use mybench.Hex.{fromhex}
use mybench.Commitment.{leaf_commitment, session_root}

-- A file with its bytes; `loose` says that group or others have access.
pub record ArchiveFile : Type 0 where
  pub loose : Bool
  pub content : Bytes

pub record ArchiveResult : Type 0 where
  pub bytes_appended : ℕ
  pub items_verified : ℕ

-- The arguments of `archive_session` that do not name the file.
pub record ArchiveCall : Type 0 where
  pub source_items : List Bytes
  pub nonces : List Bytes
  pub expected_item_count : ℕ
  pub expected_session_root : Bytes

-- `_serialized_items`
unfoldable pub serialized_items : List Bytes → Bytes
unfolding join_lines
serialized_items items = join_lines items

abbrev pub ends_newline : Bytes → Bool
ends_newline [] = false
ends_newline (c ∷ []) = c == newline
ends_newline (c ∷ d ∷ cs) = ends_newline (d ∷ cs)

-- `_items_from_readback`
unfoldable pub items_from_readback : Bytes → Result (List Bytes)
items_from_readback [] = ok []
items_from_readback (c ∷ cs) =
    if ends_newline (c ∷ cs)
    then ok (split_lines (take (length (c ∷ cs) - 1) (c ∷ cs)))
    else err archive_error

-- What is left of `content` behind `front`, if it begins so: `startswith` and the slice.
unfoldable pub strip_front : Bytes → Bytes → Option Bytes
strip_front [] content = some content
strip_front (c ∷ front) [] = none
strip_front (c ∷ front) (d ∷ content) =
    let rest = strip_front front content in if c == d then rest else none

-- `except ValueError: raise ArchiveError`
abbrev pub as_archive_error {ℓ} : {A : Type ℓ} → Result A → Result A
as_archive_error (ok a) = ok a
as_archive_error (err e) = err archive_error

-- The expected root in bytes, 32 of them.
unfoldable pub parse_root : Bytes → Result Bytes
parse_root text = do
  root ← as_archive_error (fromhex text)
  refuse (not (length root == 32)) archive_error
  ok root

module _ (sha256 : Bytes → Bytes) where
  -- The commitments of the items with their nonces, as far as both go.
  unfoldable pub commit_items : List Bytes → List Bytes → Result (List Bytes)
  commit_items [] items = ok []
  commit_items (n ∷ nonces) [] = ok []
  commit_items (n ∷ nonces) (item ∷ items) = leaf_commitment sha256 n item >>= λ leaf.
      commit_items nonces items >>= λ leaves. ok (leaf ∷ leaves)

  -- `_root_for`
  unfoldable pub root_for : List Bytes → List Bytes → Result Bytes
  root_for items nonces =
      commit_items (take (length items) nonces) items >>= λ leaves. session_root sha256 leaves

  -- The test on the items that were read back.
  unfoldable pub check_items : List Bytes → List Bytes → ℕ → Bytes → Result (Option (List Bytes))
  check_items items nonces count root =
      if length items == count
      then (root_for items nonces >>= λ r. ok (if bytes_eq r root then some items else none))
      else ok none

  -- `_verified_items`; `items_from_readback` raises nothing but `ArchiveError`.
  unfoldable pub verified_items : Bytes → List Bytes → ℕ → Bytes → Result (Option (List Bytes))
  verified_items content nonces count root = elim (items_from_readback content) [
    | err e ↦ ok none
    | ok items ↦ check_items items nonces count root
  ]

  -- The live source must be the whole preimage of the committed root.
  unfoldable pub check_source : ArchiveCall → Bytes → Result (Unit {0})
  check_source call root = do
    refuse (not (length call.source_items == call.expected_item_count)) archive_error
    r ← root_for call.source_items call.nonces
    refuse (not (bytes_eq r root)) archive_error

  -- The guards before the file is opened, and the expected root.
  unfoldable pub check_call : ArchiveCall → Option ArchiveFile → Result Bytes
  check_call call file = do
    refuse (call.expected_item_count == 0) archive_error
    refuse (ltb (length call.nonces) call.expected_item_count) archive_error
    root ← parse_root call.expected_session_root
    elim file [ none ↦ check_source call root | some f ↦ ok tt ]
    ok root

  -- `os.open` with `O_CREAT`.
  abbrev pub opened : Option ArchiveFile → ArchiveFile
  opened none = record { loose = false; content = [] }
  opened (some f) = f

  -- A file that is there has been opened with its source not yet looked at.
  abbrev pub check_late : ArchiveCall → Bytes → Option ArchiveFile → Result (Unit {0})
  check_late call root none = ok tt
  check_late call root (some f) = check_source call root

  -- The suffix that completes `existing`.
  unfoldable pub missing_suffix : ArchiveCall → Bytes → Result Bytes
  missing_suffix call existing = elim (strip_front existing (serialized_items call.source_items)) [
    | none ↦ err archive_error
    | some suffix ↦ ok suffix
  ]

  -- The check of the bytes read back after the write.
  unfoldable pub check_readback : ArchiveCall → Bytes → ℕ → Bytes → Result ArchiveResult
  check_readback call root appended readback =
      verified_items readback call.nonces call.expected_item_count root >>= λ v. elim v [
        | none ↦ err archive_error
        | some items ↦ ok (record { bytes_appended = appended; items_verified = length items })
      ]

  -- The write and the check, on a file that is not verified yet.
  unfoldable pub extend :
      ArchiveCall → Bytes → Option ArchiveFile → Effect (Option ArchiveFile) ArchiveResult
  extend call root before file =
      let f = opened file in
      elim (check_late call root before >>= λ u. missing_suffix call f.content) [
        | err e ↦ (err e, some f)
        | ok suffix ↦
            let readback = f.content ++ suffix in
            (
              check_readback call root (length suffix) readback,
              some (record f { content = readback }),
            )
      ]

  -- With the file open: `before` is what was there.
  unfoldable pub archive_opened :
      ArchiveCall → Bytes → Option ArchiveFile → Effect (Option ArchiveFile) ArchiveResult
  archive_opened call root before file =
      let f = opened file in
      if f.loose
      then (err insecure_permissions, some f)
      else elim (verified_items f.content call.nonces call.expected_item_count root) [
        | err e ↦ (err e, some f)
        | ok (some items) ↦
            (ok (record { bytes_appended = 0; items_verified = length items }), some f)
        | ok none ↦ extend call root before (some f)
      ]

  unfoldable pub archive_session : ArchiveCall → Effect (Option ArchiveFile) ArchiveResult
  archive_session call file = elim (check_call call file) [
    | err e ↦ (err e, file)
    | ok root ↦ archive_opened call root file (some (opened file))
  ]

  -- The read of `read_verified_items`, on the file at the path. A missing file and loose permissions
  -- (`PathsError`) are both refused as `ArchiveError`.
  unfoldable pub read_file : List Bytes → ℕ → Bytes → Option ArchiveFile → Result (List Bytes)
  read_file nonces count root none = err archive_error
  read_file nonces count root (some f) = do
    refuse f.loose archive_error
    v ← verified_items f.content nonces count root
    elim v [ none ↦ err archive_error | some items ↦ ok items ]

  unfoldable pub read_verified_items :
      List Bytes → ℕ → Bytes → Option ArchiveFile → Result (List Bytes)
  read_verified_items nonces count expected_session_root file = do
    refuse (count == 0 || ltb (length nonces) count) archive_error
    root ← parse_root expected_session_root
    read_file nonces count root file
