-- ===== src/Ledger/Read/Tip.antt =====
-- The tip of a chain binds the whole chain: what `verify_chain(expect_tip=...)` is for.
use mybench.Base.{
  >>=-eq-ok, Bytes, List, Option, [], ap, append-nil, append_cancel_left, ap₂, arith, bytes_eq,
  bytes_eq_iff, false, inl, inr, last?, ledger_error, length, none, not, ok, refl, refuse,
  refuse-eq-ok, some, subst, sym, ℕ, ◌++◌, ◌>>◌, ◌∙◌, ◌∷◌, ◌≡◌, ◌⊎◌,
}
use mathlib.Core.Option.{some-injective}
use mybench.Hex.{IsBytes, hex_injective}
use mybench.Commitment.Binding.{Collision, same_input}
use mybench.Ledger.{Text, Fields, Row, Host, Disk, genesis_prev, domain_row, row_hash}
use mybench.Ledger.Read.{tip_matches, check_rows, verify_rows, verify_chain, rows}
use mybench.Ledger.Read.Chain.{tip, IsLinked, IsChain, onto, verify_rows_iff}

-- SHA-256 gives bytes, and the canonical text of a row determines it.
pub record IsFaithful (host : Host) : Type 0 where
  pub sha256_bytes : (b : Bytes) → IsBytes (host.sha256 b)
  pub canonical_injective : (f g : Fields) → host.canonical f ≡ host.canonical g → f ≡ g

pub onto-onto : (rs us vs : List Row) → onto (onto rs us) vs ≡ onto us (rs ++ vs)
onto-onto [] us vs = refl
onto-onto (r ∷ rs) us vs = onto-onto rs (r ∷ us) vs

pub onto_injective : (rs ss : List Row) → onto rs [] ≡ onto ss [] → rs ≡ ss
onto_injective rs ss e =
    sym (append-nil rs)
    ∙ (sym (onto-onto rs [] []) ∙ (ap (λ t. onto t []) e ∙ (onto-onto ss [] [] ∙ append-nil ss)))

pub last?-onto :
    (rs us : List Row) (row : Row)
    → last? rs ≡ some row
    → (older : List Row) × (onto rs us ≡ row ∷ older)
last?-onto [] us row h = cc
last?-onto (r ∷ []) us row h = (us, ap (λ t. t ∷ us) (some-injective _ _ h))
last?-onto (r ∷ s ∷ rs) us row h = last?-onto (s ∷ rs) (r ∷ us) row h

tip_matches-some :
    (t : Text) (rs : List Row)
    → not (tip_matches (some t) rs) ≡ false
    → (r : Row) × (last? rs ≡ some r) × (r.h ≡ t)
tip_matches-some t rs h = go (last? rs) h
  where
    go :
        (o : Option Row)
        → not (elim o [ none ↦ false | some row ↦ bytes_eq row.h t ]) ≡ false
        → (r : Row) × (o ≡ some r) × (r.h ≡ t)
    go none e = cc
    go (some r) e = (r, refl, (bytes_eq_iff r.h t).0 (ground arith))

module _ (host : Host) (faithful : IsFaithful host) where
  row_hash-binding :
      (f g : Fields) → row_hash host f ≡ row_hash host g → (f ≡ g) ⊎ Collision host.sha256
  unfolding row_hash
  row_hash-binding f g h =
      let digests = hex_injective _ _ (faithful.sha256_bytes _) (faithful.sha256_bytes _) h in
      elim (same_input host.sha256 (domain_row ++ host.canonical f) (domain_row ++ host.canonical g)
        digests) [
          | inl same ↦ inl (faithful.canonical_injective f g (append_cancel_left domain_row same))
          | inr collision ↦ inr collision
        ]

  -- Two linked rows with one hash.
  IsLinked-binding :
      (r r' : Row) (older older' : List Row)
      → IsLinked host r older
      → IsLinked host r' older'
      → r.h ≡ r'.h
      → ((r ≡ r') × (length older ≡ length older') × (tip older ≡ tip older'))
        ⊎ Collision host.sha256
  IsLinked-binding r r' older older' l l' same =
      elim (row_hash-binding r.fields r'.fields (l.hash ∙ (same ∙ sym l'.hash))) [
        | inr collision ↦ inr collision
        | inl e ↦ inl (
          (λ k. record { fields = e k; h = same k }),
          sym l.index ∙ (ap (λ (f : Fields). f.i) e ∙ l'.index),
          sym l.prev ∙ (ap (λ (f : Fields). f.prev) e ∙ l'.prev),
        )
      ]

  IsChain-binding :
      (us vs : List Row)
      → IsChain host us
      → IsChain host vs
      → length us ≡ length vs
      → tip us ≡ tip vs
      → (us ≡ vs) ⊎ Collision host.sha256
  IsChain-binding [] [] c c' n h = inl refl
  IsChain-binding [] (r' ∷ vs) c c' n h = absurd (omega arith)
  IsChain-binding (r ∷ us) [] c c' n h = absurd (omega arith)
  IsChain-binding (r ∷ us) (r' ∷ vs) (l, c) (l', c') n h =
      together (IsLinked-binding r r' us vs l l' h) (λ m t. IsChain-binding us vs c c' m t)
    where
      together :
          ((r ≡ r') × (length us ≡ length vs) × (tip us ≡ tip vs)) ⊎ Collision host.sha256
          → (length us ≡ length vs → tip us ≡ tip vs → (us ≡ vs) ⊎ Collision host.sha256)
          → (◌≡◌ {A = List Row} (r ∷ us) (r' ∷ vs)) ⊎ Collision host.sha256
      together (inr collision) ih = inr collision
      together (inl (e, m, t)) ih = elim (ih m t) [
        | inl same ↦ inl (ap₂ ◌∷◌ e same)
        | inr collision ↦ inr collision
      ]

  -- What a check against an expected tip tells about the rows.
  verify_rows_tip :
      (t : Text) (rs : List Row) {n : ℕ}
      → verify_rows host (some t) rs ≡ ok n
      → (r : Row) × (older : List Row) × (onto rs [] ≡ r ∷ older)
        × IsChain host (r ∷ older)
        × (r.h ≡ t)
  unfolding verify_rows
  verify_rows_tip t rs {n} h =
      let (u, e, k) =
        >>=-eq-ok (check_rows host 0 genesis_prev false rs)
          (λ _. refuse (not (tip_matches (some t) rs)) ledger_error >> ok (length rs)) h in
      let (matched, _) =
        refuse-eq-ok (not (tip_matches (some t) rs)) ledger_error (ok (length rs)) k in
      let (r, last, at) = tip_matches-some t rs matched in
      let (older, same) = last?-onto rs [] r last in
      (
        r,
        older,
        same,
        subst (IsChain host) same ((verify_rows_iff host rs).0 (unfold verify_rows in rw e)),
        at,
      )

  -- Two sets of rows that pass the check against one expected tip are the same rows, or show a
  -- collision of SHA-256.
  pub verify_rows-binding :
      (t : Text) (rs ss : List Row) {n m : ℕ}
      → verify_rows host (some t) rs ≡ ok n
      → verify_rows host (some t) ss ≡ ok m
      → (rs ≡ ss) ⊎ Collision host.sha256
  verify_rows-binding t rs ss h k =
      let (r, older, er, c, at) = verify_rows_tip t rs h in
      let (s, older', es, c', at') = verify_rows_tip t ss k in
      chains r s older older' c c' (at ∙ sym at') er es
    where
      chains :
          (r s : Row) (us vs : List Row)
          → IsChain host (r ∷ us)
          → IsChain host (s ∷ vs)
          → r.h ≡ s.h
          → onto rs [] ≡ r ∷ us
          → onto ss [] ≡ s ∷ vs
          → (rs ≡ ss) ⊎ Collision host.sha256
      chains r s us vs (l, c) (l', c') h er es = elim (IsLinked-binding r s us vs l l' h) [
        | inr collision ↦ inr collision
        | inl (e, n, t) ↦ elim (IsChain-binding us vs c c' n t) [
          | inr collision ↦ inr collision
          | inl same ↦ inl (onto_injective rs ss (er ∙ (ap₂ ◌∷◌ e same ∙ sym es)))
        ]
      ]

  -- Two ledgers that pass `verify_chain` against the same anchored tip hold the same rows, or
  -- show a collision of SHA-256.
  pub verify_chain-binding :
      (t : Text) (d d' : Disk) {n m : ℕ}
      → verify_chain host (some t) d ≡ ok n
      → verify_chain host (some t) d' ≡ ok m
      → (rows host d ≡ rows host d') ⊎ Collision host.sha256
  unfolding verify_chain
  verify_chain-binding t d d' h k =
      let (rs, er, vr) = >>=-eq-ok (rows host d) (verify_rows host (some t)) h in
      let (ss, es, vs) = >>=-eq-ok (rows host d') (verify_rows host (some t)) k in
      elim (verify_rows-binding t rs ss vr vs) [
        | inl same ↦ inl (er ∙ (ap ok same ∙ sym es))
        | inr collision ↦ inr collision
      ]
