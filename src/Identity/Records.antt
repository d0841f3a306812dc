-- ===== src/Identity/Records.antt =====
-- Signed identity records of src/mybench/identity.py are accepted by its check.
use mybench.Base.{
  ==_iff, >>=-eq-ok, Bytes, [], ap, ascii, bytes_eq, identity_error, length, none, not, ok,
  ok_injective, refl, refuse, refuse-eq-ok, some, subst, true, ◌==◌, ◌>>◌, ◌∙◌, ◌∷◌, ◌≡◌,
}
use mybench.Hex.{IsBytes, hex, fromhex, fromhex-hex}
use mybench.Json.{text, object, Members, end, member, get, has_text, set_member}
use mybench.Json.Lookup.{get-set_member, without-set_member}
use mybench.Ledger.{Text}
use mybench.Lifecycle.Record.{mem_text}
use mybench.Identity.{
  IdentityHost, sign_record, check_bytes, check_sig, check_key, verify_record, identity_record,
  identity_id_for, device_binding_record,
}

-- What the records rely on: keys and signatures are bytes, a key has 32, and a signature by the
-- identity key verifies.
pub record IsIdentityHost (host : IdentityHost) : Type 0 where
  pub key_bytes : IsBytes host.public_key
  pub key_length : length host.public_key ≡ 32
  pub sign_bytes : (m : Bytes) → IsBytes (host.sign m)
  pub signed_verifies : (m : Bytes) → host.verify host.public_key (host.sign m) m ≡ true

module _ (host : IdentityHost) (holds : IsIdentityHost host) where
  -- A record that is signed verifies under the identity key.
  verify_record-sign_record :
      (r : Members)
      → get (ascii "sig") r ≡ none
      → verify_record host (sign_record host r) (text (hex host.public_key)) ≡ ok tt
  unfolding verify_record
  verify_record-sign_record r h =
      let sig = host.sign (host.dumps (object r)) in
      let key = host.public_key in
      ap (check_key host (sign_record host r)) (fromhex-hex key holds.key_bytes)
      ∙ (ap
            (λ b.
              refuse (not b) identity_error
              >> check_sig host key (sign_record host r) (get (ascii "sig") (sign_record host r)))
            ((==_iff (length key) 32).1 holds.key_length)
          ∙ (ap (check_sig host key (sign_record host r))
                (get-set_member (ascii "sig") (text (hex sig)) r)
              ∙ (ap (check_bytes host key (sign_record host r))
                    (fromhex-hex sig (holds.sign_bytes _))
                  ∙ (ap
                        (λ m.
                          refuse (not (host.verify key sig (host.dumps (object m)))) identity_error)
                        (without-set_member (ascii "sig") (text (hex sig)) r h)
                      ∙ ap (λ b. refuse (not b) identity_error)
                          (holds.signed_verifies (host.dumps (object r)))))))

  -- If `device_binding_record` returns a record, the record passes `verify_record` with the identity
  -- key, and is of the type device-binding with the device key it was called with.
  pub device_binding_record-verify_record :
      (device_pub date scope : Text) (r : Members)
      → device_binding_record host device_pub date scope ≡ ok r
      → (verify_record host r (text (hex host.public_key)) ≡ ok tt)
        × (has_text (ascii "type") (ascii "device-binding") r ≡ true)
        × (get (ascii "device_pub") r ≡ some (text device_pub))
  unfolding device_binding_record get set_member bytes_eq
  device_binding_record-verify_record d date scope r h =
      let (_, known) =
        refuse-eq-ok (not (mem_text (ascii "active" ∷ ascii "retroactive" ∷ []) scope))
          identity_error _ h in
      let (raw, _, sized) = >>=-eq-ok (fromhex d) _ known in
      let (_, named) = refuse-eq-ok (not (length raw == 32)) identity_error _ sized in
      let (iid, _, made) = >>=-eq-ok (identity_id_for host host.public_key) _ named in
      let fields = identity_record (ascii "device-binding") iid (
        member (ascii "device_pub") (text d)
          (member (ascii "scope") (text scope) (member (ascii "date") (text date) end))) in
      let same = ok_injective (sign_record host fields) r made in
      subst
        (λ r.
          (verify_record host r (text (hex host.public_key)) ≡ ok tt)
          × (has_text (ascii "type") (ascii "device-binding") r ≡ true)
          × (get (ascii "device_pub") r ≡ some (text d)))
        same (verify_record-sign_record fields refl, refl, refl)
