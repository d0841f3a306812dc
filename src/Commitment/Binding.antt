-- ===== src/Commitment/Binding.antt =====
-- What a root binds: a second preimage of any commitment is a collision of SHA-256.
use mybench.Base.{
  >>=-eq-ok, Bool-cases, Bytes, List, Result-cases, [], ap, append_cancel, append_cancel_left,
  arith, bytes_eq, bytes_eq_iff, err-ne-ok, inl, inr, length, ok, ok_injective, refl, suc, sym,
  true, zero, ℕ, ◌++◌, ◌∙◌, ◌∷◌, ◌≡◌, ◌≢◌, ◌⊎◌,
}
use mybench.Commitment.{
  Side, left, right, other, Proof, domain_leaf, domain_node, domain_session, domain_day, nonce_len,
  len_bytes, be_digits, to_bytes, check_hash, leaf_commitment, node_hash, merkle_root, session_root,
  day_root, fold_step, fold_loop, fold, verify_inclusion,
}
use mybench.Commitment.Root.{IsHash, check_hash-eq-ok}

-- Two different inputs with one digest.
abbrev pub Collision : (Bytes → Bytes) → Type 0
Collision sha256 = (x : Bytes) × (y : Bytes) × (x ≢ y) × (sha256 x ≡ sha256 y)

module _ (sha256 : Bytes → Bytes) where
  -- One digest for two inputs: they are the same, or they collide.
  pub same_input : (x y : Bytes) → sha256 x ≡ sha256 y → (x ≡ y) ⊎ Collision sha256
  same_input x y h = elim (Bool-cases (bytes_eq x y)) [
    | inl same ↦ inl ((bytes_eq_iff x y).0 same)
    | inr differ ↦ inr (x, y, (λ e. cc ((bytes_eq_iff x y).1 e)), h)
  ]

  node_hash-eq-ok :
      (l r : Bytes) {h : Bytes}
      → node_hash sha256 l r ≡ ok h
      → IsHash l × IsHash r × (sha256 (domain_node ++ (l ++ r)) ≡ h)
  unfolding node_hash check_hash
  node_hash-eq-ok l r h = ground arith

  -- A node binds both children.
  pub node_hash-binding :
      (l r l' r' : Bytes) {h : Bytes}
      → node_hash sha256 l r ≡ ok h
      → node_hash sha256 l' r' ≡ ok h
      → ((l ≡ l') × (r ≡ r')) ⊎ Collision sha256
  node_hash-binding l r l' r' e e' =
      let (hl, hr, d) = node_hash-eq-ok l r e in
      let (hl', hr', d') = node_hash-eq-ok l' r' e' in
      elim (same_input _ _ (d ∙ sym d')) [
        | inl same ↦ inl (append_cancel l l' (hl ∙ sym hl') (append_cancel_left domain_node same))
        | inr collision ↦ inr collision
      ]

  be_digits-length : (w n : ℕ) → length (be_digits w n) ≡ w
  unfolding be_digits
  be_digits-length zero n = refl
  be_digits-length (suc w) n = ap suc (be_digits-length w n)

  -- What a leaf commitment is the digest of.
  leaf_commitment-eq-ok :
      (nonce content : Bytes) {h : Bytes}
      → leaf_commitment sha256 nonce content ≡ ok h
      → (length nonce ≡ nonce_len)
        × (sha256 (domain_leaf ++ (nonce ++ (be_digits len_bytes (length content) ++ content))) ≡ h)
  unfolding leaf_commitment to_bytes
  leaf_commitment-eq-ok nonce content h = ground arith

  -- A leaf commitment binds the nonce and the content: another pair with the same commitment
  -- is a collision of SHA-256.
  pub leaf_commitment-binding :
      (nonce content nonce' content' : Bytes) {h : Bytes}
      → leaf_commitment sha256 nonce content ≡ ok h
      → leaf_commitment sha256 nonce' content' ≡ ok h
      → ((nonce ≡ nonce') × (content ≡ content')) ⊎ Collision sha256
  leaf_commitment-binding nonce content nonce' content' e e' =
      let (n, d) = leaf_commitment-eq-ok nonce content e in
      let (n', d') = leaf_commitment-eq-ok nonce' content' e' in
      elim (same_input _ _ (d ∙ sym d')) [
        | inl same ↦
            let (nonces, after) =
              append_cancel nonce nonce' (n ∙ sym n') (append_cancel_left domain_leaf same) in
            let (lens, contents) =
              append_cancel (be_digits len_bytes (length content))
                (be_digits len_bytes (length content'))
                (be_digits-length len_bytes (length content)
                  ∙ sym (be_digits-length len_bytes (length content')))
                after in
            inl (nonces, contents)
        | inr collision ↦ inr collision
      ]

  -- A leaf commitment that is also an inner node is a collision: the domain tags keep them apart.
  pub leaf_commitment-ne-node_hash :
      (nonce content l r : Bytes) {h : Bytes}
      → leaf_commitment sha256 nonce content ≡ ok h
      → node_hash sha256 l r ≡ ok h
      → Collision sha256
  leaf_commitment-ne-node_hash nonce content l r e e' =
      let (n, d) = leaf_commitment-eq-ok nonce content e in
      let (hl, hr, d') = node_hash-eq-ok l r e' in (_, _, (λ same. ground arith), d ∙ sym d')

  pub session_root-eq-ok :
      (leaves : List Bytes) {h : Bytes}
      → session_root sha256 leaves ≡ ok h
      → (root : Bytes) × (merkle_root sha256 leaves ≡ ok root)
        × (sha256 (domain_session ++ root) ≡ h)
  unfolding session_root
  session_root-eq-ok leaves h = elim (Result-cases (merkle_root sha256 leaves)) [
    | inl (root, e) ↦ (root, e, ok_injective _ _ (rw e at h))
    | inr (x, e) ↦ absurd (err-ne-ok _ _ (rw e at h))
  ]

  pub day_root-eq-ok :
      (leaves : List Bytes) {h : Bytes}
      → day_root sha256 leaves ≡ ok h
      → (root : Bytes) × (merkle_root sha256 leaves ≡ ok root) × (sha256 (domain_day ++ root) ≡ h)
  unfolding day_root
  day_root-eq-ok leaves h = elim (Result-cases (merkle_root sha256 leaves)) [
    | inl (root, e) ↦ (root, e, ok_injective _ _ (rw e at h))
    | inr (x, e) ↦ absurd (err-ne-ok _ _ (rw e at h))
  ]

  -- A root of a session that is also a root of a day is a collision.
  pub session_root-ne-day_root :
      (leaves roots : List Bytes) {h : Bytes}
      → session_root sha256 leaves ≡ ok h
      → day_root sha256 roots ≡ ok h
      → Collision sha256
  session_root-ne-day_root leaves roots e e' =
      let (x, ex, d) = session_root-eq-ok leaves e in
      let (y, ey, d') = day_root-eq-ok roots e' in
      (domain_session ++ x, domain_day ++ y, (λ same. ground arith), d ∙ sym d')

-- The sides of a proof's siblings, from the leaf up.
abbrev pub sides : Proof → List Side
sides [] = []
sides ((side, sibling) ∷ p) = side ∷ sides p

module _ (sha256 : Bytes → Bytes) where
  -- One round of the fold binds the hash that went in.
  fold_step-binding :
      (side : Side) (g g' x x' : Bytes) {h : Bytes}
      → fold_step sha256 g side x ≡ ok h
      → fold_step sha256 g' side x' ≡ ok h
      → (g ≡ g') ⊎ Collision sha256
  unfolding fold_step
  fold_step-binding left g g' x x' e e' = elim (node_hash-binding sha256 x g x' g' e e') [
    | inl (_, same) ↦ inl same
    | inr collision ↦ inr collision
  ]
  fold_step-binding right g g' x x' e e' = elim (node_hash-binding sha256 g x g' x' e e') [
    | inl (same, _) ↦ inl same
    | inr collision ↦ inr collision
  ]
  fold_step-binding other g g' x x' e e' = absurd (err-ne-ok _ _ e)

  fold_loop-binding :
      (g g' : Bytes) (p q : Proof) {h : Bytes}
      → sides p ≡ sides q
      → fold_loop sha256 g p ≡ ok h
      → fold_loop sha256 g' q ≡ ok h
      → (g ≡ g') ⊎ Collision sha256
  unfolding fold_loop
  fold_loop-binding g g' [] [] s e e' = inl (ok_injective _ _ (e ∙ sym e'))
  fold_loop-binding g g' [] (x ∷ q) s e e' = cc
  fold_loop-binding g g' (x ∷ p) [] s e e' = cc
  fold_loop-binding g g' ((side, x) ∷ p) ((side', x') ∷ q) s e e' =
      let same_side : side ≡ side' = cc in
      let (a, ea, ra) = >>=-eq-ok (fold_step sha256 g side x) _ e in
      let (b, eb, rb) = >>=-eq-ok (fold_step sha256 g' side' x') _ e' in
      elim (fold_loop-binding a b p q (cc) ra rb) [
        | inl same ↦ fold_step-binding side g g' x x' (ea ∙ ap ok same) (rw same_side eb)
        | inr collision ↦ inr collision
      ]

  -- Two leaves verified at one place of a tree, by proofs with the same sides against the same
  -- root, are the same leaf or show a collision.
  pub verify_inclusion-binding :
      (leaf leaf' : Bytes) (p q : Proof) (root : Bytes)
      → sides p ≡ sides q
      → verify_inclusion sha256 leaf p root ≡ ok true
      → verify_inclusion sha256 leaf' q root ≡ ok true
      → (leaf ≡ leaf') ⊎ Collision sha256
  unfolding verify_inclusion fold
  verify_inclusion-binding leaf leaf' p q root s e e' =
      let (h, folded, eq) = >>=-eq-ok _ _ e in
      let (h', folded', eq') = >>=-eq-ok _ _ e' in
      let (g, eg, loop) = >>=-eq-ok (check_hash leaf) _ folded in
      let (g', eg', loop') = >>=-eq-ok (check_hash leaf') _ folded' in
      let at : h ≡ h' =
        (bytes_eq_iff h root).0 (ok_injective _ _ eq)
        ∙ sym ((bytes_eq_iff h' root).0 (ok_injective _ _ eq')) in
      elim (fold_loop-binding g g' p q s (loop ∙ ap ok at) loop') [
        | inl same ↦
            inl ((check_hash-eq-ok leaf g eg).0 ∙ (same ∙ sym (check_hash-eq-ok leaf' g' eg').0))
        | inr collision ↦ inr collision
      ]
