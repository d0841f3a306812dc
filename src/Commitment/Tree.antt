-- ===== src/Commitment/Tree.antt =====
-- A root binds the whole sequence of its leaves, once their number is known.
use mybench.Base.{
  >>=-eq-ok, Bytes, List, [], ap, append_cancel_left, ap₂, arith, drop, err-ne-ok, inl, inr, length,
  length-drop, length-take, ok, refl, suc, sym, take, take-append-drop, zero, ℕ, ◌++◌, ◌<◌, ◌>>=◌,
  ◌∙◌, ◌∷◌, ◌≡◌, ◌⊎◌,
}
use mybench.Commitment.{
  domain_session, domain_day, split, node_hash, tree_root, merkle_root, session_root, day_root,
}
use mybench.Commitment.Split.{split_lem}
use mybench.Commitment.Root.{merkle_root-node, check_hash-eq-ok}
use mybench.Commitment.Binding.{
  Collision, same_input, node_hash-binding, session_root-eq-ok, day_root-eq-ok,
}

module _ (sha256 : Bytes → Bytes) where
  merkle_root-one : (h : Bytes) {root : Bytes} → merkle_root sha256 (h ∷ []) ≡ ok root → h ≡ root
  unfolding merkle_root tree_root
  merkle_root-one h {root} e = (check_hash-eq-ok h root e).0

  merkle_root-nil : {root : Bytes} → merkle_root sha256 [] ≡ ok root → ⊥
  unfolding merkle_root tree_root
  merkle_root-nil e = err-ne-ok _ _ e

  -- The two parts under a root.
  merkle_root-parts :
      (h x : Bytes) (rest : List Bytes) (k : ℕ) {root : Bytes}
      → k ≡ split (length (h ∷ x ∷ rest))
      → merkle_root sha256 (h ∷ x ∷ rest) ≡ ok root
      → (l : Bytes) × (r : Bytes) × (merkle_root sha256 (take k (h ∷ x ∷ rest)) ≡ ok l)
        × (merkle_root sha256 (drop k (h ∷ x ∷ rest)) ≡ ok r)
        × (node_hash sha256 l r ≡ ok root)
  merkle_root-parts h x rest k at e =
      let us : List Bytes = h ∷ x ∷ rest in
      let j : ℕ = split (length us) in
      let whole : (merkle_root sha256 (take j us) >>= λ l.
      merkle_root sha256 (drop j us) >>= λ r. node_hash sha256 l r)
          ≡ ok _ =
        sym (merkle_root-node sha256 h x rest) ∙ e in
      let (l, el, tail) =
        >>=-eq-ok (merkle_root sha256 (take j us))
          (λ l. merkle_root sha256 (drop j us) >>= λ r. node_hash sha256 l r) whole in
      let (r, er, node) =
        >>=-eq-ok (merkle_root sha256 (drop j us)) (λ r. node_hash sha256 l r) tail in
      (
        l,
        r,
        ap (λ n. merkle_root sha256 (take n us)) at ∙ el,
        ap (λ n. merkle_root sha256 (drop n us)) at ∙ er,
        node,
      )

  merkle_root-binding_fuel :
      (fuel : ℕ) (hs gs : List Bytes) {root : Bytes}
      → length hs < fuel
      → length hs ≡ length gs
      → merkle_root sha256 hs ≡ ok root
      → merkle_root sha256 gs ≡ ok root
      → (hs ≡ gs) ⊎ Collision sha256
  merkle_root-binding_fuel zero hs gs enough same e e' = absurd (omega arith)
  merkle_root-binding_fuel (suc fuel) [] gs enough same e e' = absurd (merkle_root-nil e)
  merkle_root-binding_fuel (suc fuel) (h ∷ []) [] enough same e e' = absurd (merkle_root-nil e')
  merkle_root-binding_fuel (suc fuel) (h ∷ []) (g ∷ []) enough same e e' =
      inl (ap (λ t. t ∷ []) (merkle_root-one h e ∙ sym (merkle_root-one g e')))
  merkle_root-binding_fuel (suc fuel) (h ∷ []) (g ∷ y ∷ gs) enough same e e' = absurd (omega arith)
  merkle_root-binding_fuel (suc fuel) (h ∷ x ∷ hs) [] enough same e e' = absurd (omega arith)
  merkle_root-binding_fuel (suc fuel) (h ∷ x ∷ hs) (g ∷ []) enough same e e' = absurd (omega arith)
  merkle_root-binding_fuel (suc fuel) (h ∷ x ∷ hs) (g ∷ y ∷ gs) enough same e e' =
      let us : List Bytes = h ∷ x ∷ hs in
      let vs : List Bytes = g ∷ y ∷ gs in
      let k : ℕ = split (length us) in
      let (_, _, below, half) = split_lem (length us) (omega arith) in
      let (l, r, el, er, node) = merkle_root-parts h x hs k refl e in
      let (l', r', el', er', node') = merkle_root-parts g y gs k (ap split same) e' in
      elim (node_hash-binding sha256 l r l' r' node node') [
        | inr collision ↦ inr collision
        | inl (same_l, same_r) ↦
            both us vs k
              (merkle_root-binding_fuel fuel (take k us) (take k vs)
                (omega (arith, length-take k us))
                (omega (arith, length-take k us, length-take k vs)) el (el' ∙ ap ok (sym same_l)))
              (merkle_root-binding_fuel fuel (drop k us) (drop k vs)
                (omega (arith, length-drop k us))
                (omega (arith, length-drop k us, length-drop k vs)) er (er' ∙ ap ok (sym same_r)))
      ]
    where
      both :
          (us vs : List Bytes) (k : ℕ)
          → (take k us ≡ take k vs) ⊎ Collision sha256
          → (drop k us ≡ drop k vs) ⊎ Collision sha256
          → (us ≡ vs) ⊎ Collision sha256
      both us vs k (inl a) (inl b) =
          inl (sym (take-append-drop k us) ∙ (ap₂ ◌++◌ a b ∙ take-append-drop k vs))
      both us vs k (inr c) b = inr c
      both us vs k (inl a) (inr c) = inr c

  -- Two sequences of as many leaves with one session root are the same sequence, or show a
  -- collision of SHA-256.
  pub session_root-binding :
      (hs gs : List Bytes) {root : Bytes}
      → length hs ≡ length gs
      → session_root sha256 hs ≡ ok root
      → session_root sha256 gs ≡ ok root
      → (hs ≡ gs) ⊎ Collision sha256
  session_root-binding hs gs same e e' =
      let (x, ex, d) = session_root-eq-ok sha256 hs e in
      let (y, ey, d') = session_root-eq-ok sha256 gs e' in
      elim (same_input sha256 (domain_session ++ x) (domain_session ++ y) (d ∙ sym d')) [
        | inr collision ↦ inr collision
        | inl inputs ↦
            merkle_root-binding_fuel (suc (length hs)) hs gs (omega arith) same ex
              (ey ∙ ap ok (sym (append_cancel_left domain_session inputs)))
      ]

  -- The same of a day root.
  pub day_root-binding :
      (hs gs : List Bytes) {root : Bytes}
      → length hs ≡ length gs
      → day_root sha256 hs ≡ ok root
      → day_root sha256 gs ≡ ok root
      → (hs ≡ gs) ⊎ Collision sha256
  day_root-binding hs gs same e e' =
      let (x, ex, d) = day_root-eq-ok sha256 hs e in
      let (y, ey, d') = day_root-eq-ok sha256 gs e' in
      elim (same_input sha256 (domain_day ++ x) (domain_day ++ y) (d ∙ sym d')) [
        | inr collision ↦ inr collision
        | inl inputs ↦
            merkle_root-binding_fuel (suc (length hs)) hs gs (omega arith) same ex
              (ey ∙ ap ok (sym (append_cancel_left domain_day inputs)))
      ]
