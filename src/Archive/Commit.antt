-- ===== src/Archive/Commit.antt =====
-- The root over items and nonces binds the items, so a verified archive cannot be another one.
use mathlib.Core.Option.{some-injective}
use mybench.Base.{
  ==_iff, >>=-eq-ok, Bool-cases, Bytes, List, Option, Result-cases, [], ap, ap₂, archive_error,
  arith, bytes_eq, bytes_eq_iff, err, err-ne-ok, false, if◌then◌else◌, inl, inr, length,
  length-take, ltb, none, ok, ok_injective, refl, refuse-eq-ok, some, suc, sym, take, ℕ, ◌==◌,
  ◌>>=◌, ◌||◌, ◌∙◌, ◌∷◌, ◌≡◌, ◌≤◌, ◌⊎◌,
}
use mybench.Commitment.{leaf_commitment, session_root}
use mybench.Commitment.Binding.{Collision, leaf_commitment-binding}
use mybench.Commitment.Tree.{session_root-binding}
use mybench.Archive.{
  ArchiveFile, parse_root, items_from_readback, commit_items, root_for, check_items, verified_items,
  read_file, read_verified_items,
}

module _ (sha256 : Bytes → Bytes) where
  commit_items-cons :
      (n : Bytes) (ns : List Bytes) (item : Bytes) (items ls : List Bytes)
      → commit_items sha256 (n ∷ ns) (item ∷ items) ≡ ok ls
      → (leaf : Bytes) × (leaves : List Bytes) × (leaf_commitment sha256 n item ≡ ok leaf)
        × (commit_items sha256 ns items ≡ ok leaves)
        × (ls ≡ leaf ∷ leaves)
  unfolding commit_items
  commit_items-cons n ns item items ls h =
      let (leaf, e, k) =
        >>=-eq-ok (leaf_commitment sha256 n item)
          (λ leaf. commit_items sha256 ns items >>= λ leaves. ok (leaf ∷ leaves)) h in
      let (leaves, e', same) =
        >>=-eq-ok (commit_items sha256 ns items) (λ leaves. ok (leaf ∷ leaves)) k in
      (leaf, leaves, e, e', sym (ok_injective _ _ same))

  commit_items-length :
      (ns items : List Bytes) (ls : List Bytes)
      → length ns ≡ length items
      → commit_items sha256 ns items ≡ ok ls
      → length ls ≡ length items
  unfolding commit_items
  commit_items-length [] [] ls n h = ap length (sym (ok_injective _ _ h))
  commit_items-length [] (i ∷ items) ls n h = absurd (omega arith)
  commit_items-length (x ∷ ns) [] ls n h = absurd (omega arith)
  commit_items-length (x ∷ ns) (i ∷ items) ls n h =
      let (leaf, leaves, _, e, same) = commit_items-cons x ns i items ls h in
      ap length same ∙ ap suc (commit_items-length ns items leaves (omega arith) e)

  commit_items-binding :
      (ns items items' : List Bytes) (ls : List Bytes)
      → length ns ≡ length items
      → length ns ≡ length items'
      → commit_items sha256 ns items ≡ ok ls
      → commit_items sha256 ns items' ≡ ok ls
      → (items ≡ items') ⊎ Collision sha256
  commit_items-binding [] [] [] ls n n' h h' = inl refl
  commit_items-binding [] [] (j ∷ js) ls n n' h h' = absurd (omega arith)
  commit_items-binding [] (i ∷ is) js ls n n' h h' = absurd (omega arith)
  commit_items-binding (x ∷ ns) [] js ls n n' h h' = absurd (omega arith)
  commit_items-binding (x ∷ ns) (i ∷ is) [] ls n n' h h' = absurd (omega arith)
  commit_items-binding (x ∷ ns) (i ∷ is) (j ∷ js) ls n n' h h' =
      let (a, as', ea, eas, sa) = commit_items-cons x ns i is ls h in
      let (b, bs, eb, ebs, sb) = commit_items-cons x ns j js ls h' in
      heads a as' b bs ea eb eas ebs (sym sa ∙ sb) (λ same.
        commit_items-binding ns is js bs (omega arith) (omega arith) (eas ∙ ap ok same) ebs)
    where
      heads :
          (a : Bytes) (as' : List Bytes) (b : Bytes) (bs : List Bytes)
          → leaf_commitment sha256 x i ≡ ok a
          → leaf_commitment sha256 x j ≡ ok b
          → commit_items sha256 ns is ≡ ok as'
          → commit_items sha256 ns js ≡ ok bs
          → a ∷ as' ≡ b ∷ bs
          → (as' ≡ bs → (is ≡ js) ⊎ Collision sha256)
          → (i ∷ is ≡ j ∷ js) ⊎ Collision sha256
      heads a as' b bs ea eb eas ebs same rest =
          let head : a ≡ b = cc in
          let tail : as' ≡ bs = cc in
          elim (leaf_commitment-binding sha256 x i x j ea (eb ∙ ap ok (sym head))) [
            | inr collision ↦ inr collision
            | inl (_, item) ↦ elim (rest tail) [
              | inr collision ↦ inr collision
              | inl items ↦ inl (ap₂ ◌∷◌ item items)
            ]
          ]

  root_for-parts :
      (items nonces : List Bytes) {root : Bytes}
      → root_for sha256 items nonces ≡ ok root
      → (ls : List Bytes) × (commit_items sha256 (take (length items) nonces) items ≡ ok ls)
        × (session_root sha256 ls ≡ ok root)
  unfolding root_for
  root_for-parts items nonces h =
      >>=-eq-ok (commit_items sha256 (take (length items) nonces) items) (session_root sha256) h

  -- As many items with one root under the same nonces are the same items.
  pub root_for-binding :
      (items items' nonces : List Bytes) {root : Bytes}
      → length items ≡ length items'
      → length items ≤ length nonces
      → root_for sha256 items nonces ≡ ok root
      → root_for sha256 items' nonces ≡ ok root
      → (items ≡ items') ⊎ Collision sha256
  root_for-binding items items' nonces n enough h h' =
      let ns : List Bytes = take (length items) nonces in
      let (ls, e, r) = root_for-parts items nonces h in
      let (ls', e', r') = root_for-parts items' nonces h' in
      let e'' : commit_items sha256 ns items' ≡ ok ls' =
        ap (λ k. commit_items sha256 (take k nonces) items') n ∙ e' in
      let size : length ns ≡ length items = omega (arith, length-take (length items) nonces) in
      elim (session_root-binding sha256 ls ls'
        (commit_items-length ns items ls size e
          ∙ (n ∙ sym (commit_items-length ns items' ls' (size ∙ n) e'')))
        r r') [
          | inr collision ↦ inr collision
          | inl same ↦ commit_items-binding ns items items' ls' size (size ∙ n) (e ∙ ap ok same) e''
        ]

  pub check_items-parts :
      (found nonces : List Bytes) (count : ℕ) (root : Bytes) (items : List Bytes)
      → check_items sha256 found nonces count root ≡ ok (some items)
      → (found ≡ items) × (length items ≡ count) × (root_for sha256 items nonces ≡ ok root)
  unfolding check_items
  check_items-parts found nonces count root items h = elim (Bool-cases (length found == count)) [
    | inr n ↦ cc (rw n at h)
    | inl y ↦
        let (r, e, k) =
          >>=-eq-ok (root_for sha256 found nonces)
            (λ r. ok (if bytes_eq r root then some found else none)) (rw y at h) in
        elim (Bool-cases (bytes_eq r root)) [
          | inr n ↦ cc (rw n at k)
          | inl z ↦
              let same : found ≡ items = some-injective _ _ (ok_injective _ _ (rw z at k)) in
              (
                same,
                ap length (sym same) ∙ (==_iff _ _).0 y,
                ap (λ t. root_for sha256 t nonces) (sym same)
                    ∙ (e ∙ ap ok ((bytes_eq_iff r root).0 z)),
              )
        ]
  ]

  -- What the verification of some bytes establishes.
  pub verified_items-parts :
      (content : Bytes) (nonces : List Bytes) (count : ℕ) (root : Bytes) (items : List Bytes)
      → verified_items sha256 content nonces count root ≡ ok (some items)
      → (items_from_readback content ≡ ok items)
        × (length items ≡ count)
        × (root_for sha256 items nonces ≡ ok root)
  unfolding verified_items
  verified_items-parts content nonces count root items h =
      elim (Result-cases (items_from_readback content)) [
        | inr (x, e) ↦ cc (rw (e, verified_items) at h)
        | inl (found, e) ↦
            let (same, n, r) =
              check_items-parts found nonces count root items (rw (e, verified_items) at h) in
            (e ∙ ap ok same, n, r)
      ]

  read_file-parts :
      (nonces : List Bytes) (count : ℕ) (root : Bytes) (file : Option ArchiveFile)
      (items : List Bytes)
      → read_file sha256 nonces count root file ≡ ok items
      → (content : Bytes) × (verified_items sha256 content nonces count root ≡ ok (some items))
  unfolding read_file
  read_file-parts nonces count root none items h = absurd (err-ne-ok _ _ h)
  read_file-parts nonces count root (some f) items h =
      let (_, k) = refuse-eq-ok f.loose archive_error _ h in
      let (v, e, r) =
        >>=-eq-ok (verified_items sha256 f.content nonces count root)
          (λ v. elim v [ none ↦ err archive_error | some xs ↦ ok xs ]) k in
      (f.content, e ∙ ap ok (found v r))
    where
      found :
          (v : Option (List Bytes))
          → elim v [ none ↦ err archive_error | some xs ↦ ok xs ] ≡ ok items
          → v ≡ some items
      found none r = absurd (err-ne-ok _ _ r)
      found (some xs) r = ap some (ok_injective _ _ r)

  -- Two files that are read and verified against one row of the ledger, with the same nonces, have
  -- the same items, or show a collision of the digest.
  pub read_verified_items-binding :
      (nonces : List Bytes) (count : ℕ) (text : Bytes) (file file' : Option ArchiveFile)
      (items items' : List Bytes)
      → read_verified_items sha256 nonces count text file ≡ ok items
      → read_verified_items sha256 nonces count text file' ≡ ok items'
      → (items ≡ items') ⊎ Collision sha256
  unfolding read_verified_items
  read_verified_items-binding nonces count text file file' items items' h h' =
      let (guard, k) = refuse-eq-ok (count == 0 || ltb (length nonces) count) archive_error _ h in
      let (_, k') = refuse-eq-ok (count == 0 || ltb (length nonces) count) archive_error _ h' in
      let (root, p, r) =
        >>=-eq-ok (parse_root text) (λ root. read_file sha256 nonces count root file) k in
      let (root', p', r') =
        >>=-eq-ok (parse_root text) (λ root. read_file sha256 nonces count root file') k' in
      let same : root' ≡ root = ok_injective _ _ (sym p' ∙ p) in
      let (c, v) = read_file-parts nonces count root file items r in
      let (c', v') =
        read_file-parts nonces count root file' items'
          (ap (λ t. read_file sha256 nonces count t file') (sym same) ∙ r') in
      let (_, n, e) = verified_items-parts c nonces count root items v in
      let (_, n', e') = verified_items-parts c' nonces count root items' v' in
      root_for-binding items items' nonces (n ∙ sym n') (enough guard n) e e'
    where
      enough :
          (count == 0 || ltb (length nonces) count) ≡ false
          → length items ≡ count
          → length items ≤ length nonces
      enough g n = ground arith
