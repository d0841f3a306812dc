-- ===== src/Examples/Commitments.antt =====
-- Trees of a few leaves.
use mybench.Base.{
  Bytes, List, [], arith, bytes_eq, err, index_error, ok, refl, replicate, true, value_error, ℕ,
  ◌∷◌, ◌≡◌, ◌⊎◌,
}
use mybench.Commitment.{
  right, Proof, node_hash, merkle_root, session_root, inclusion_proof, verify_inclusion, split,
  check_hash, tree_root, fold, fold_loop, fold_step, audit_path,
}
use mybench.Commitment.Proof.{inclusion_proof-verified}
use mybench.Commitment.Binding.{Collision, verify_inclusion-binding}
use mybench.Commitment.Tree.{session_root-binding}
use mybench.Examples.Host.{digest, digest-length}

-- A digest that is the same for every input.
abbrev constant : Bytes → Bytes
constant b = replicate 32 7

abbrev leaf : ℕ → Bytes
leaf n = replicate 32 n

abbrev leaves : List Bytes
leaves = leaf 1 ∷ leaf 2 ∷ leaf 3 ∷ []

split_sizes : (split 2 ≡ 1) × (split 3 ≡ 2) × (split 5 ≡ 4) × (split 8 ≡ 4) × (split 9 ≡ 8)
unfolding split
split_sizes = (refl, refl, refl, refl, refl)

no_tree : merkle_root digest [] ≡ err value_error
unfolding merkle_root tree_root
no_tree = refl

outside : inclusion_proof digest leaves 3 ≡ err index_error
unfolding inclusion_proof audit_path split merkle_root tree_root check_hash node_hash
outside = refl

inclusion_proof-verified_example :
    (p : Proof) × (root : Bytes) × (inclusion_proof digest leaves 2 ≡ ok p)
    × (merkle_root digest leaves ≡ ok root)
    × (verify_inclusion digest (leaf 3) p root ≡ ok true)
inclusion_proof-verified_example =
    inclusion_proof-verified digest digest-length leaves 2 (leaf 3) (refl, (refl, (refl, tt)))
      (omega arith) refl

verify_inclusion-binding_example : (leaf 1 ≡ leaf 4) ⊎ Collision constant
unfolding verify_inclusion fold fold_loop fold_step node_hash check_hash bytes_eq
verify_inclusion-binding_example =
    verify_inclusion-binding constant (leaf 1) (leaf 4) ((right, leaf 2) ∷ [])
      ((right, leaf 5) ∷ []) (leaf 7) refl refl refl

session_root-binding_example : (leaves ≡ leaf 4 ∷ leaf 5 ∷ leaf 6 ∷ []) ⊎ Collision constant
unfolding session_root merkle_root tree_root node_hash check_hash split
session_root-binding_example =
    session_root-binding constant leaves (leaf 4 ∷ leaf 5 ∷ leaf 6 ∷ []) refl refl refl
