-- ===== src/Ledger.antt =====
-- src/mybench/ledger.py: the rows of the ledger, its file, and what it takes from its surroundings.
-- The parts are below: reading and checking, recovery, and appending.
pub mod Read
pub mod Write
pub mod Recover
use mybench.Base.{
  All, Bool, Bytes, List, Option, ascii, false, replicate, true, ℕ, ◌*◌, ◌++◌, ◌≡◌, ◌≢◌,
}
use mybench.Hex.{hex}

abbrev pub Text : Type 0
Text = Bytes

-- "1", "2" and "3": the versions that the schema of a row admits.
pub data Version : Type 0 where
  v1 v2 v3 : Version

pub data Provenance : Type 0 where
  imported live : Provenance

-- The columns of `append_session`. An empty `models_seen` is the absent column.
pub record SessionColumns : Type 0 where
  pub session_id : Text
  pub session_root : Text
  pub item_count : ℕ
  pub source : Text
  pub provenance : Option Provenance
  pub models_seen : List Text
  pub provider : Option Text
  pub effort : Option Text
  pub input_tokens : Option ℕ
  pub output_tokens : Option ℕ
  pub cache_creation_input_tokens : Option ℕ
  pub cache_read_input_tokens : Option ℕ
  pub harness_version : Option Text

pub record BindingColumns : Type 0 where
  pub commit_hash : Text
  pub commit_ts : Text
  pub repo_id : Text
  pub provenance : Option Provenance

pub record EventColumns : Type 0 where
  pub event_kind : Text
  pub trigger : Text
  pub session_id : Text
  pub context_gen : ℕ
  pub harness : Text
  pub parent_session_id : Option Text
  pub harness_version : Option Text
  pub model : Option Text
  pub effort : Option Text
  pub repo_id : Option Text
  pub worktree_id : Option Text
  pub head_before : Option Text
  pub head_after : Option Text

pub record ReceiptColumns : Type 0 where
  pub anchor_row_start : ℕ
  pub anchor_row_end : ℕ
  pub anchor_root : Text
  pub anchor_chain_tip : Text
  pub receipt_ts : Text
  pub receipt_id : Text

-- The columns that depend on `type`.
pub data Body : Type 0 where
  genesis : Body
  schema_version : Provenance → Body
  session : SessionColumns → Body
  binding : BindingColumns → Body
  event : EventColumns → Body
  anchor_receipt : ReceiptColumns → Body

-- A row without its own hash.
pub record Fields : Type 0 where
  pub version : Version
  pub i : ℕ
  pub ts : Text
  pub prev : Text
  pub body : Body

pub record Row : Type 0 where
  pub fields : Fields
  pub open fields use *
  pub h : Text

-- A line: not JSON, JSON that the schema refuses, or a row.
pub data Parsed : Type 0 where
  unparseable : Parsed
  violation : Parsed
  parsed : Row → Parsed

-- What the ledger calls: SHA-256, the two JSON writers (`_canonical` and the line of
-- `_append_row`), the JSON reader with the schema validator, and the validator alone.
pub record Host : Type 0 where
  pub sha256 : Bytes → Bytes
  pub canonical : Fields → Bytes
  pub dumps : Row → Bytes
  pub read_line : Bytes → Parsed
  pub conforms : Row → Bool

-- What the ledger relies on: a row that conforms is read back from its line, and compact JSON has
-- no raw newline.
pub record IsHost (host : Host) : Type 0 where
  pub read_line-dumps :
      (r : Row) → host.conforms r ≡ true → host.read_line (host.dumps r) ≡ parsed r
  pub dumps-IsLine : (r : Row) → All (λ c. c ≢ 10) (host.dumps r)

abbrev pub domain_row : Bytes
domain_row = ascii "mybench:v1:ledgerrow"

abbrev pub genesis_prev : Text
genesis_prev = replicate 64 b'0'

-- The ledger file; `loose` says that group or others have access.
pub record File : Type 0 where
  pub loose : Bool
  pub content : Bytes

pub record Disk : Type 0 where
  pub ledger : Option File
  pub quarantine : Bytes

abbrev pub is_genesis : Body → Bool
is_genesis genesis = true
is_genesis _ = false

abbrev pub is_boundary : Body → Bool
is_boundary (schema_version _) = true
is_boundary _ = false

abbrev pub is_v3 : Version → Bool
is_v3 v3 = true
is_v3 _ = false

unfoldable pub row_hash : Host → Fields → Text
row_hash host fields = hex (host.sha256 (domain_row ++ host.canonical fields))
