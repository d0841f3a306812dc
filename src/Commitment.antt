-- ===== src/Commitment.antt =====
-- src/mybench/commitment_tree.py: leaf commitments, the Merkle tree, inclusion proofs.
-- `sha256` is `hashlib.sha256(data).digest()`. A tree recurs on fuel: its root is taken with one
-- unit more than the number of leaves.
pub mod Split
pub mod Root
pub mod Proof
pub mod Binding
pub mod Tree
use mybench.Base.{
  ℕ, zero, suc, ◌-◌, ◌*◌, ◌/◌, ◌%◌, ◌^◌, Bool, not, List, [], ◌∷◌, ◌++◌, Bytes, ascii, bytes_eq,
  length, take, drop, ltb, ◌==◌, if◌then◌else◌, Result, ok, err, ◌>>=◌, ◌>>◌, refuse, value_error,
  index_error, overflow_error, no_fuel,
}

abbrev pub domain_leaf : Bytes
domain_leaf = ascii "mybench:v1:leaf"

abbrev pub domain_node : Bytes
domain_node = ascii "mybench:v1:node"

abbrev pub domain_session : Bytes
domain_session = ascii "mybench:v1:session"

abbrev pub domain_day : Bytes
domain_day = ascii "mybench:v1:day"

abbrev pub nonce_len : ℕ
nonce_len = 32

abbrev pub hash_len : ℕ
hash_len = 32

abbrev pub len_bytes : ℕ
len_bytes = 8

-- The side of a sibling: "L", "R", or any other text.
pub data Side : Type 0 where
  left right other : Side

abbrev pub Proof : Type 0
Proof = List (Side × Bytes)

-- The digits of `n` in base 256, the highest first.
unfoldable pub be_digits : ℕ → ℕ → Bytes
be_digits zero n = []
be_digits (suc w) n = (n / 256 ^ w % 256) ∷ be_digits w n

-- `n.to_bytes(width, "big")`
unfoldable pub to_bytes : ℕ → ℕ → Result Bytes
to_bytes n width = if ltb n (256 ^ width) then ok (be_digits width n) else err overflow_error

-- `while k * 2 < n: k *= 2`
unfoldable pub split_loop : ℕ → ℕ → ℕ → ℕ
split_loop zero k n = k
split_loop (suc fuel) k n =
    let rest = split_loop fuel (k * 2) n in if ltb (k * 2) n then rest else k

unfoldable pub split : ℕ → ℕ
unfolding split_loop
split n = split_loop n 1 n

unfoldable pub check_hash : Bytes → Result Bytes
check_hash h = if length h == hash_len then ok h else err value_error

module _ (sha256 : Bytes → Bytes) where
  unfoldable pub leaf_commitment : Bytes → Bytes → Result Bytes
  leaf_commitment nonce content = do
    refuse (not (length nonce == nonce_len)) value_error
    len ← to_bytes (length content) len_bytes
    ok (sha256 (domain_leaf ++ (nonce ++ (len ++ content))))

  unfoldable pub node_hash : Bytes → Bytes → Result Bytes
  node_hash l r = do l' ← check_hash l; r' ← check_hash r; ok (sha256 (domain_node ++ (l' ++ r')))

  -- The body of `merkle_root`, the recursion on fuel.
  unfoldable pub tree_root : ℕ → List Bytes → Result Bytes
  tree_root zero hashes = err no_fuel
  tree_root (suc fuel) [] = err value_error
  tree_root (suc fuel) (h ∷ []) = check_hash h
  tree_root (suc fuel) (h ∷ g ∷ hs) =
      let k = split (length (h ∷ g ∷ hs)) in
      do
        l ← tree_root fuel (take k (h ∷ g ∷ hs))
        r ← tree_root fuel (drop k (h ∷ g ∷ hs))
        node_hash l r

  unfoldable pub merkle_root : List Bytes → Result Bytes
  merkle_root hashes = tree_root (suc (length hashes)) hashes

  unfoldable pub session_root : List Bytes → Result Bytes
  session_root leaves = do root ← merkle_root leaves; ok (sha256 (domain_session ++ root))

  unfoldable pub day_root : List Bytes → Result Bytes
  day_root session_roots = do root ← merkle_root session_roots; ok (sha256 (domain_day ++ root))

  -- The body of `inclusion_proof`, the recursion on fuel.
  unfoldable pub audit_path : ℕ → List Bytes → ℕ → Result Proof
  audit_path zero hashes index = err no_fuel
  audit_path (suc fuel) hashes index =
      let k = split (length hashes) in
      let in_left = audit_path fuel (take k hashes) index in
      let in_right = audit_path fuel (drop k hashes) (index - k) in
      if not (ltb index (length hashes))
      then err index_error
      else if length hashes == 1
      then ok []
      else if ltb index k
      then (do
        p ← in_left
        sibling ← merkle_root (drop k hashes)
        ok (p ++ ((right, sibling) ∷ [])))
      else (do
        p ← in_right
        sibling ← merkle_root (take k hashes)
        ok (p ++ ((left, sibling) ∷ [])))

  unfoldable pub inclusion_proof : List Bytes → ℕ → Result Proof
  inclusion_proof hashes index = audit_path (suc (length hashes)) hashes index

  -- One round of the loop in `_fold`.
  unfoldable pub fold_step : Bytes → Side → Bytes → Result Bytes
  fold_step h right sibling = node_hash h sibling
  fold_step h left sibling = node_hash sibling h
  fold_step h other sibling = err value_error

  unfoldable pub fold_loop : Bytes → Proof → Result Bytes
  fold_loop h [] = ok h
  fold_loop h ((side, sibling) ∷ proof) = fold_step h side sibling >>= λ h'. fold_loop h' proof

  unfoldable pub fold : Bytes → Proof → Result Bytes
  fold leaf proof = do h ← check_hash leaf; fold_loop h proof

  unfoldable pub verify_inclusion : Bytes → Proof → Bytes → Result Bool
  verify_inclusion leaf proof root = do h ← fold leaf proof; ok (bytes_eq h root)

  unfoldable pub verify_session_inclusion : Bytes → Proof → Bytes → Result Bool
  verify_session_inclusion leaf proof session_root_value = do
    h ← fold leaf proof
    ok (bytes_eq (sha256 (domain_session ++ h)) session_root_value)
