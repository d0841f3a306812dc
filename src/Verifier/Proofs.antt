-- ===== src/Verifier/Proofs.antt =====
-- `_check_headers` and `fetch_merkle_root` of src/mybench/verify/cli.py, and `proof_info` of
-- src/mybench/anchor/ots.py. The parser of OpenTimestamps and the explorers are parameters.
use mybench.Base.{
  Bool, Bytes, List, Option, Result, [], bytes_eq, err, false, if◌then◌else◌, none, ok, some, true,
  verify_failure, ℕ, ◌&&◌, ◌||◌, ◌∷◌,
}
use mybench.Hex.{hex}
use mybench.Ledger.{Text}
use mybench.Verifier.Identities.{Failure, explorers_disagree, wrong_header}

pub data Attestation : Type 0 where
  pending : Text → Attestation
  bitcoin : ℕ → Attestation
  unknown : Attestation

-- A detached timestamp with all its attestations.
pub record Timestamp : Type 0 where
  pub file_digest : Bytes
  pub is_sha256 : Bool
  pub attestations : List (Bytes × Attestation)

-- `_bitcoin_commitments`
unfoldable pub bitcoin_commitments : List (Bytes × Attestation) → List (ℕ × Bytes)
bitcoin_commitments [] = []
bitcoin_commitments ((msg, bitcoin height) ∷ rest) = (height, msg) ∷ bitcoin_commitments rest
bitcoin_commitments ((msg, pending uri) ∷ rest) = bitcoin_commitments rest
bitcoin_commitments ((msg, unknown) ∷ rest) = bitcoin_commitments rest

-- The entries of `proof_info` that the verifier reads.
pub record ProofInfo : Type 0 where
  pub digest_matches : Bool
  pub confirmed : Bool

abbrev pub has_entries {ℓ} : {A : Type ℓ} → List A → Bool
has_entries [] = false
has_entries (x ∷ xs) = true

abbrev pub proof_info : Bytes → Timestamp → ProofInfo
proof_info root t = record {
  digest_matches = bytes_eq t.file_digest root && t.is_sha256;
  confirmed = has_entries (bitcoin_commitments t.attestations);
}

-- The root of a block at the first and at the second explorer.
pub record Explorers : Type 0 where
  pub first : ℕ → Option Text
  pub second : ℕ → Option Text

-- `msg[::-1]`
abbrev pub reversed_onto : Bytes → Bytes → Bytes
reversed_onto [] acc = acc
reversed_onto (b ∷ bs) acc = reversed_onto bs (b ∷ acc)

module _ (explorers : Explorers) where
  unfoldable pub fetch_merkle_root : ℕ → Result (Option Text)
  fetch_merkle_root height = agree (explorers.first height) (explorers.second height)
    where
      agree : Option Text → Option Text → Result (Option Text)
      agree none _ = ok none
      agree (some a) none = ok none
      agree (some a) (some b) = if bytes_eq a b then ok (some a) else err verify_failure

  -- The failures of the headers of a proof.
  unfoldable pub check_headers : Text → List (ℕ × Bytes) → List Failure
  check_headers path [] = []
  check_headers path ((height, msg) ∷ rest) =
      let others = check_headers path rest in
      elim (fetch_merkle_root height) [
        | err e ↦ explorers_disagree height ∷ []
        | ok none ↦ []
        | ok (some root) ↦
            if bytes_eq (hex (reversed_onto msg [])) root || bytes_eq (hex msg) root
            then others
            else wrong_header path height ∷ []
      ]
