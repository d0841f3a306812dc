-- ===== src/Examples/Anchors.antt =====
-- A batch over a ledger of two rows, the second a session's.
use mybench.Base.{
  [], ascii, bytes_eq, bytes_eq_refl, false, none, refl, replicate, some, true, ◌++◌, ◌∷◌, ◌≡◌, ◌⊎◌,
}
use mybench.Hex.{hex, fromhex}
use mybench.Lines.{newline, split_lines}
use mybench.Commitment.{domain_day, day_root, merkle_root, tree_root, check_hash}
use mybench.Commitment.Binding.{Collision}
use mybench.Ledger.{v2, SessionColumns, session, Row, Disk, row_hash}
use mybench.Ledger.Read.{
  rows, file_rows, content_rows, read_rows, read_row, verify_chain, verify_rows, check_rows,
  check_row, boundary_check,
}
use mybench.Ledger.Write.{text_lt, newest}
use mybench.Ledger.Write.Step.{hashed}
use mybench.Anchor.Batch.{
  Batch, Signed, Device, session_leaves, validate_batch, sign_batch, check_signature, batch_fields,
  build_batch, check_covered, verify_batch,
}
use mybench.Anchor.Batch.Verified.{IsDevice, Publishes, build_batch-Publishes, verify_batch-binding}
use mybench.Examples.Codec.{dec_items}
use mybench.Examples.Host.{digest, digest-IsBytes, host}
use mybench.Examples.Ledgers.{noon, first}

abbrev columns : SessionColumns
columns = record {
  session_id = ascii "s1";
  session_root = replicate 64 b'a';
  item_count = 1;
  source = ascii "codex";
  provenance = none;
  models_seen = [];
  provider = none;
  effort = none;
  input_tokens = none;
  output_tokens = none;
  cache_creation_input_tokens = none;
  cache_read_input_tokens = none;
  harness_version = none;
}

abbrev pub second : Row
second =
    hashed host (record { version = v2; i = 1; ts = noon; prev = first.h; body = session columns })

abbrev pub two_rows : Disk
two_rows = record {
  ledger = some (record {
    loose = false;
    content = host.dumps first ++ (newline ∷ (host.dumps second ++ (newline ∷ [])));
  });
  quarantine = [];
}

abbrev pub device : Device
device = record {
  conforms = λ b. true;
  signed_bytes = λ b. b.root;
  public_key = digest [];
  sign = digest;
  verify = λ key sig m. bytes_eq sig (digest m);
}

pub device-IsDevice : IsDevice device
device-IsDevice = record {
  signed = λ m. bytes_eq_refl (digest m);
  key_bytes = digest-IsBytes [];
  sign_bytes = digest-IsBytes;
}

abbrev fields : Batch
fields = record {
  row_start = 0;
  row_end = 2;
  row_count = 2;
  session_count = 1;
  root = hex (digest (domain_day ++ replicate 32 170));
  chain_tip = second.h;
  ts = noon;
  device_pub = hex (digest []);
}

abbrev pub batch : Signed
batch = record { batch = fields; sig = hex (digest fields.root) }

build_batch-Publishes_example : Publishes host device none two_rows batch
unfolding build_batch batch_fields sign_batch validate_batch session_leaves day_root merkle_root
    tree_root check_hash newest text_lt verify_chain verify_rows check_rows check_row boundary_check
    rows file_rows content_rows read_rows read_row split_lines row_hash hex fromhex dec_items
    bytes_eq
build_batch-Publishes_example =
    build_batch-Publishes host device device-IsDevice none none two_rows batch refl

verify_batch-binding_example :
    (session_leaves (first ∷ second ∷ []) ≡ session_leaves (first ∷ second ∷ []))
    ⊎ Collision host.sha256
unfolding verify_batch check_covered check_signature validate_batch session_leaves day_root
    merkle_root tree_root check_hash newest row_hash hex fromhex bytes_eq
verify_batch-binding_example =
    verify_batch-binding host device digest-IsBytes batch (first ∷ second ∷ [])
      (first ∷ second ∷ []) refl refl
