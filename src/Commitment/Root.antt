-- ===== src/Commitment/Root.antt =====
-- `merkle_root` returns a 32-byte hash for every tree of 32-byte hashes with at least one leaf.
use mybench.Base.{
  ◌>>=◌, All, All-drop, All-take, Bytes, List, Result, [], arith, drop, length, length-drop,
  length-take, ok, refl, suc, take, zero, ℕ, ◌<◌, ◌∷◌, ◌≡◌,
}
use mybench.Commitment.{hash_len, check_hash, split, node_hash, tree_root, merkle_root}
use mybench.Commitment.Split.{split_lem}

abbrev pub IsHash : Bytes → Type 0
IsHash h = length h ≡ hash_len

-- A call that returns a hash.
abbrev pub Hashes : Result Bytes → Type 0
Hashes m = (h : Bytes) × (m ≡ ok h) × IsHash h

pub check_hash-ok : (h : Bytes) → IsHash h → check_hash h ≡ ok h
unfolding check_hash
check_hash-ok h e = ground arith

pub check_hash-eq-ok : (h g : Bytes) → check_hash h ≡ ok g → (h ≡ g) × IsHash h
unfolding check_hash
check_hash-eq-ok h g e = ground arith

module _ (sha256 : Bytes → Bytes) (sha256_len : (b : Bytes) → length (sha256 b) ≡ 32) where
  pub node_hash-Hashes : (l r : Bytes) → IsHash l → IsHash r → Hashes (node_hash sha256 l r)
  unfolding node_hash
  node_hash-Hashes l r hl hr = rw (check_hash-ok l hl, check_hash-ok r hr) (_, refl, sha256_len _)

  -- Enough fuel, and nothing but hashes, give a hash.
  pub tree_root-Hashes :
      (fuel : ℕ) (hashes : List Bytes)
      → length hashes < fuel
      → 0 < length hashes
      → All IsHash hashes
      → Hashes (tree_root sha256 fuel hashes)
  unfolding tree_root
  tree_root-Hashes zero hashes enough some_leaf hs = absurd (omega arith)
  tree_root-Hashes (suc fuel) [] enough some_leaf hs = absurd (omega arith)
  tree_root-Hashes (suc fuel) (h ∷ []) enough some_leaf hs = (h, check_hash-ok h hs.0, hs.0)
  tree_root-Hashes (suc fuel) (h ∷ g ∷ rest) enough some_leaf hs =
      let leaves : List Bytes = h ∷ g ∷ rest in
      let k : ℕ = split (length leaves) in
      let (x, power, below, half) = split_lem (length leaves) (omega arith) in
      let (l, el, hl) =
        tree_root-Hashes fuel (take k leaves) (omega (arith, length-take k leaves))
          (omega (arith, length-take k leaves)) (All-take IsHash k leaves hs) in
      let (r, er, hr) =
        tree_root-Hashes fuel (drop k leaves) (omega (arith, length-drop k leaves))
          (omega (arith, length-drop k leaves)) (All-drop IsHash k leaves hs) in
      rw (el, er) (node_hash-Hashes l r hl hr)

  pub merkle_root-Hashes :
      (hashes : List Bytes)
      → 0 < length hashes
      → All IsHash hashes
      → Hashes (merkle_root sha256 hashes)
  unfolding merkle_root
  merkle_root-Hashes hashes some_leaf hs =
      tree_root-Hashes (suc (length hashes)) hashes (omega arith) some_leaf hs

module _ (sha256 : Bytes → Bytes) where
  -- Any two amounts of fuel that pass the number of leaves give the same root.
  tree_root-fuel :
      (f g : ℕ) (hashes : List Bytes)
      → length hashes < f
      → length hashes < g
      → tree_root sha256 f hashes ≡ tree_root sha256 g hashes
  unfolding tree_root
  tree_root-fuel zero g hashes p q = absurd (omega arith)
  tree_root-fuel (suc f) zero hashes p q = absurd (omega arith)
  tree_root-fuel (suc f) (suc g) [] p q = refl
  tree_root-fuel (suc f) (suc g) (h ∷ []) p q = refl
  tree_root-fuel (suc f) (suc g) (h ∷ x ∷ rest) p q =
      let leaves : List Bytes = h ∷ x ∷ rest in
      let k : ℕ = split (length leaves) in
      let (e, power, below, half) = split_lem (length leaves) (omega arith) in
      rw
        (
          tree_root-fuel f g (take k leaves) (omega (arith, length-take k leaves))
              (omega (arith, length-take k leaves)),
          tree_root-fuel f g (drop k leaves) (omega (arith, length-drop k leaves))
              (omega (arith, length-drop k leaves)),
        )
        refl

  -- The root of two leaves or more is the node over the roots of the two parts.
  pub merkle_root-node :
      (h x : Bytes) (rest : List Bytes)
      → let leaves : List Bytes = h ∷ x ∷ rest in
        let k : ℕ = split (length leaves) in
        merkle_root sha256 leaves ≡ (
          merkle_root sha256 (take k leaves) >>= λ l.
          merkle_root sha256 (drop k leaves) >>= λ r. node_hash sha256 l r)
  unfolding merkle_root tree_root
  merkle_root-node h x rest =
      let leaves : List Bytes = h ∷ x ∷ rest in
      let k : ℕ = split (length leaves) in
      let (e, power, below, half) = split_lem (length leaves) (omega arith) in
      rw
        (
          tree_root-fuel (length leaves) (suc (length (take k leaves))) (take k leaves)
              (omega (arith, length-take k leaves)) (omega arith),
          tree_root-fuel (length leaves) (suc (length (drop k leaves))) (drop k leaves)
              (omega (arith, length-drop k leaves)) (omega arith),
        )
        refl
