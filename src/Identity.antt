-- ===== src/Identity.antt =====
-- src/mybench/identity.py: the identity of a genesis key, the signed records, and the check of one.
-- Ed25519, SHA-256 and `json.dumps` with sorted keys are parameters.
pub mod Records
use mybench.Base.{
  Bool, Bytes, Option, Result, [], ascii, err, identity_error, leb, length, none, not, ok, refuse,
  some, true, type_error, ℕ, ◌&&◌, ◌++◌, ◌==◌, ◌>>=◌, ◌>>◌, ◌||◌, ◌∷◌,
}
use mybench.Hex.{hex, fromhex}
use mybench.Json.{
  Json, text, natural, array, object, Members, end, member, get, set_member, without,
}
use mybench.Ledger.{Text}
use mybench.Lifecycle.Record.{mem_text}

-- `verify` is Ed25519 on a raw key of 32 bytes; `sign` and `public_key` are the identity key's.
pub record IdentityHost : Type 0 where
  pub sha256 : Bytes → Bytes
  pub dumps : Json → Bytes
  pub verify : Bytes → Bytes → Bytes → Bool
  pub public_key : Bytes
  pub sign : Bytes → Bytes

abbrev pub domain_identity : Bytes
domain_identity = ascii "mybench:v1:identity"

-- What `bytes.fromhex` asks of its argument.
abbrev pub text_argument : Json → Result Text
text_argument (text t) = ok t
text_argument _ = err type_error

-- `all(c in "a-z0-9-")`
unfoldable pub handle_chars : Text → Bool
handle_chars [] = true
handle_chars (c ∷ t) =
    ((leb b'a' c && leb c b'z') || ((leb b'0' c && leb c b'9') || (c == b'-'))) && handle_chars t

-- `HANDLE_RE.fullmatch`
unfoldable pub is_handle : Text → Bool
is_handle t = leb 3 (length t) && (leb (length t) 32 && handle_chars t)

-- The record of a kind with the fields of that kind.
abbrev pub identity_record : Text → Text → Members → Members
identity_record kind iid fields =
    member (ascii "schema_version") (text (ascii "1"))
      (member (ascii "type") (text kind) (member (ascii "identity_id") (text iid) fields))

module _ (host : IdentityHost) where
  unfoldable pub identity_id_for : Bytes → Result Text
  identity_id_for raw = do
    refuse (not (length raw == 32)) identity_error
    ok (hex (host.sha256 (domain_identity ++ raw)))

  abbrev pub sign_record : Members → Members
  sign_record r = set_member (ascii "sig") (text (hex (host.sign (host.dumps (object r))))) r

  -- The signature of a record under a key that is parsed.
  abbrev pub check_bytes : Bytes → Members → Result Bytes → Result (Unit {0})
  check_bytes key r (err raised) = err identity_error
  check_bytes key r (ok sig) =
      refuse (not (host.verify key sig (host.dumps (object (without (ascii "sig") r)))))
        identity_error

  abbrev pub check_sig : Bytes → Members → Option Json → Result (Unit {0})
  check_sig key r none = err identity_error
  check_sig key r (some value) = text_argument value >>= λ t. check_bytes key r (fromhex t)

  -- A key that is not 32 bytes is refused before the signature is read.
  abbrev pub check_key : Members → Result Bytes → Result (Unit {0})
  check_key r (err raised) = err identity_error
  check_key r (ok key) =
      refuse (not (length key == 32)) identity_error >> check_sig key r (get (ascii "sig") r)

  unfoldable pub verify_record : Members → Json → Result (Unit {0})
  verify_record r identity_pub = text_argument identity_pub >>= λ t. check_key r (fromhex t)

  unfoldable pub genesis_record : Text → Result Members
  genesis_record date = do
    iid ← identity_id_for host.public_key
    ok (
        sign_record (
          identity_record (ascii "genesis") iid (
            member (ascii "identity_pub") (text (hex host.public_key))
              (member (ascii "date") (text date) end))))

  unfoldable pub handle_binding_record : Text → Text → ℕ → Result Members
  handle_binding_record handle date seq = do
    refuse (not (is_handle handle)) identity_error
    iid ← identity_id_for host.public_key
    ok (
        sign_record (
          identity_record (ascii "handle-binding") iid (
            member (ascii "handle") (text handle)
              (member (ascii "seq") (natural seq) (member (ascii "date") (text date) end)))))

  unfoldable pub device_binding_record : Text → Text → Text → Result Members
  device_binding_record device_pub date scope = do
    refuse (not (mem_text (ascii "active" ∷ ascii "retroactive" ∷ []) scope)) identity_error
    raw ← fromhex device_pub
    refuse (not (length raw == 32)) identity_error
    iid ← identity_id_for host.public_key
    ok (
        sign_record (
          identity_record (ascii "device-binding") iid (
            member (ascii "device_pub") (text device_pub)
              (member (ascii "scope") (text scope) (member (ascii "date") (text date) end)))))
