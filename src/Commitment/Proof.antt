-- ===== src/Commitment/Proof.antt =====
-- Inclusion proofs: every leaf of a tree has one, it is verified, and its length is bounded.
use mybench.Base.{
  All, All-drop, All-take, Bool-cases, Bytes, List, Result-cases, [], ap, arith, bind-ok,
  bytes_eq_refl, drop, get_elem?, get_elem?-drop, get_elem?-take, inl, inr, length, length-drop,
  length-take, ltb, ltb_false→le, ltb→lt, ok, refl, some, suc, sym, take, true, zero, ℕ, ◌++◌, ◌-◌,
  ◌<◌, ◌>>=◌, ◌∙◌, ◌∷◌, ◌≡◌, ◌≤◌,
}
use mybench.Commitment.{
  Side, left, right, Proof, check_hash, split, merkle_root, audit_path, inclusion_proof, tree_root,
  fold_step, fold_loop, fold, verify_inclusion,
}
use mathlib.Core.Option.{some-injective}
use mybench.Commitment.Split.{split_lem}
use mybench.Commitment.Root.{IsHash, merkle_root-Hashes, merkle_root-node}

module _ (sha256 : Bytes → Bytes) where
  fold_loop-append :
      (h : Bytes) (p : Proof) (side : Side) (sibling : Bytes)
      → fold_loop sha256 h (p ++ ((side, sibling) ∷ []))
        ≡ (fold_loop sha256 h p >>= λ g. fold_step sha256 g side sibling)
  unfolding fold_loop
  fold_loop-append h [] side sibling = bind-ok (fold_step sha256 h side sibling)
  fold_loop-append h ((s, x) ∷ p) side sibling = elim (Result-cases (fold_step sha256 h s x)) [
    | inl (g, e) ↦ rw e (fold_loop-append g p side sibling)
    | inr (g, e) ↦ rw e
  ]

  fold-append :
      (leaf : Bytes) (p : Proof) (side : Side) (sibling : Bytes)
      → fold sha256 leaf (p ++ ((side, sibling) ∷ []))
        ≡ (fold sha256 leaf p >>= λ g. fold_step sha256 g side sibling)
  unfolding fold
  fold-append leaf p side sibling = elim (Result-cases (check_hash leaf)) [
    | inl (g, e) ↦ rw e (fold_loop-append g p side sibling)
    | inr (g, e) ↦ rw e
  ]

-- The proof `p` leads from the leaf at `index` to the root of `hashes`.
abbrev pub LeadsTo : (Bytes → Bytes) → List Bytes → ℕ → Proof → Type 0
LeadsTo sha256 hashes index p =
    (leaf : Bytes)
    → get_elem? hashes index ≡ some leaf
    → fold sha256 leaf p ≡ merkle_root sha256 hashes

module _ (sha256 : Bytes → Bytes) (sha256_len : (b : Bytes) → length (sha256 b) ≡ 32) where
  audit_path-left :
      (fuel : ℕ) (leaves : List Bytes) (index : ℕ) {p : Proof} {r : Bytes}
      → 2 ≤ length leaves
      → index < length leaves
      → index < split (length leaves)
      → audit_path sha256 fuel (take (split (length leaves)) leaves) index ≡ ok p
      → merkle_root sha256 (drop (split (length leaves)) leaves) ≡ ok r
      → audit_path sha256 (suc fuel) leaves index ≡ ok (p ++ ((right, r) ∷ []))
  unfolding audit_path
  audit_path-left fuel leaves index two inside below ep er = ground arith

  audit_path-right :
      (fuel : ℕ) (leaves : List Bytes) (index : ℕ) {p : Proof} {l : Bytes}
      → 2 ≤ length leaves
      → index < length leaves
      → split (length leaves) ≤ index
      → audit_path sha256 fuel (drop (split (length leaves)) leaves) (index - split (length leaves))
        ≡ ok p
      → merkle_root sha256 (take (split (length leaves)) leaves) ≡ ok l
      → audit_path sha256 (suc fuel) leaves index ≡ ok (p ++ ((left, l) ∷ []))
  unfolding audit_path
  audit_path-right fuel leaves index two inside beyond ep el = ground arith

  audit_path_lem :
      (fuel : ℕ) (hashes : List Bytes) (index : ℕ)
      → length hashes < fuel
      → index < length hashes
      → All IsHash hashes
      → (p : Proof) × (audit_path sha256 fuel hashes index ≡ ok p) × LeadsTo sha256 hashes index p
  unfolding audit_path fold_step
  audit_path_lem zero hashes index enough inside hs = absurd (omega arith)
  audit_path_lem (suc fuel) [] index enough inside hs = absurd (omega arith)
  audit_path_lem (suc fuel) (h ∷ []) (suc index) enough inside hs = absurd (omega arith)
  audit_path_lem (suc fuel) (h ∷ []) zero enough inside hs = (
    [],
    refl,
    λ leaf e.
        unfold fold fold_loop merkle_root tree_root in
        rw (bind-ok (check_hash leaf)) (ap check_hash (sym (some-injective _ _ e))),
  )
  audit_path_lem (suc fuel) (h ∷ x ∷ rest) index enough inside hs =
      let leaves : List Bytes = h ∷ x ∷ rest in
      let k : ℕ = split (length leaves) in
      let (e, power, below, half) = split_lem (length leaves) (omega arith) in
      let (l, el, hl) =
        merkle_root-Hashes sha256 sha256_len (take k leaves) (omega (arith, length-take k leaves))
          (All-take IsHash k leaves hs) in
      let (r, er, hr) =
        merkle_root-Hashes sha256 sha256_len (drop k leaves) (omega (arith, length-drop k leaves))
          (All-drop IsHash k leaves hs) in
      elim (Bool-cases (ltb index k)) [
        | inl in_left ↦
            let (p, ep, path) =
              audit_path_lem fuel (take k leaves) index (omega (arith, length-take k leaves))
                (omega (arith, length-take k leaves, ltb→lt index k in_left))
                (All-take IsHash k leaves hs) in
            (
              p ++ ((right, r) ∷ []),
              audit_path-left fuel leaves index (omega arith) inside (ltb→lt index k in_left) ep er,
              λ leaf found.
                  fold-append sha256 leaf p right r
                  ∙ rw
                      (
                        path leaf (get_elem?-take k index leaves (ltb→lt index k in_left) ∙ found),
                        merkle_root-node,
                        el,
                        er,
                      )
                      refl,
            )
        | inr in_right ↦
            let beyond : k ≤ index = ltb_false→le index k in_right in
            let (p, ep, path) =
              audit_path_lem fuel (drop k leaves) (index - k) (omega (arith, length-drop k leaves))
                (omega (arith, length-drop k leaves)) (All-drop IsHash k leaves hs) in
            (
              p ++ ((left, l) ∷ []),
              audit_path-right fuel leaves index (omega arith) inside beyond ep el,
              λ leaf found.
                  fold-append sha256 leaf p left l
                  ∙ rw
                      (
                        path leaf (
                            get_elem?-drop k (index - k) leaves
                            ∙ (ap (get_elem? leaves) (omega arith) ∙ found)),
                        merkle_root-node,
                        el,
                        er,
                      )
                      refl,
            )
      ]

  -- Every leaf of a tree of 32-byte hashes has a proof, and the proof is verified against the root.
  pub inclusion_proof-verified :
      (hashes : List Bytes) (index : ℕ) (leaf : Bytes)
      → All IsHash hashes
      → index < length hashes
      → get_elem? hashes index ≡ some leaf
      → (p : Proof) × (root : Bytes) × (inclusion_proof sha256 hashes index ≡ ok p)
        × (merkle_root sha256 hashes ≡ ok root)
        × (verify_inclusion sha256 leaf p root ≡ ok true)
  unfolding inclusion_proof verify_inclusion
  inclusion_proof-verified hashes index leaf hs inside found =
      let (p, ep, path) =
        audit_path_lem (suc (length hashes)) hashes index (omega arith) inside hs in
      let (root, er, hr) = merkle_root-Hashes sha256 sha256_len hashes (omega arith) hs in
      (p, root, ep, er, rw (path leaf found, er) (ap ok (bytes_eq_refl root)))
