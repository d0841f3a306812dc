-- ===== src/Anchor/Batch/Verified.antt =====
-- A batch that was built is one that verifies, and what a batch binds.
use mybench.Base.{
  ==_iff, ==_refl, >>=-eq-ok, Bytes, List, Option, Result, [], anchor_error, ap, ap₂, arith,
  bytes_eq, bytes_eq_iff, bytes_eq_refl, drop, false, inl, inr, ledger_error, length, length-drop,
  length-take, ltb, ltb_false→le, none, not, ok, ok_injective, refl, refuse, refuse-eq-ok, some,
  subst, sym, true, ℕ, ◌-◌, ◌==◌, ◌>>=◌, ◌>>◌, ◌∙◌, ◌≡◌, ◌≤◌, ◌⊎◌,
}
use mybench.Hex.{hex, fromhex, IsBytes, fromhex-hex, hex_injective}
use mybench.Commitment.{day_root}
use mybench.Commitment.Binding.{Collision, day_root-eq-ok}
use mybench.Commitment.Tree.{day_root-binding}
use mybench.Ledger.{Row, Host, Disk, genesis_prev}
use mybench.Ledger.Read.{rows, tip_matches, check_rows, verify_rows, verify_chain}
use mybench.Ledger.Write.{newest}
use mybench.Anchor.Batch.{
  Batch, Signed, Device, session_leaves, max_ts, covered_rows, start_of, end_of, validate_batch,
  sign_batch, check_signature, batch_fields, build_batch, check_covered, verify_batch,
}

-- What is relied on: a signature of the device verifies under its key, and both are bytes.
pub record IsDevice (device : Device) : Type 0 where
  pub signed : (m : Bytes) → device.verify device.public_key (device.sign m) m ≡ true
  pub key_bytes : IsBytes device.public_key
  pub sign_bytes : (m : Bytes) → IsBytes (device.sign m)

module _ (host : Host) (device : Device) where
  -- What the fields over some rows are made of.
  pub record Fields (start end : ℕ) (covered : List Row) (b : Batch) : Type 0 where
    pub leaves : List Bytes
    pub root : Bytes
    pub last : Row
    pub some_row : (length covered == 0) ≡ false
    pub leaves_of : session_leaves covered ≡ ok leaves
    pub root_of : day_root host.sha256 leaves ≡ ok root
    pub last_of : newest covered ≡ ok last
    pub made : b ≡ record {
      row_start = start;
      row_end = end;
      row_count = end - start;
      session_count = length leaves;
      root = hex root;
      chain_tip = last.h;
      ts = max_ts [] covered;
      device_pub = hex device.public_key;
    }

  batch_fields-Fields :
      (start end : ℕ) (covered : List Row) (b : Batch)
      → batch_fields host device start end covered ≡ ok b
      → Fields start end covered b
  unfolding batch_fields
  batch_fields-Fields start end covered b h =
      let (some_row, h1) = refuse-eq-ok (length covered == 0) anchor_error _ h in
      let (leaves, leaves_of, h2) =
        >>=-eq-ok (session_leaves covered)
          (λ leaves.
            refuse (length leaves == 0) anchor_error
            >> (day_root host.sha256 leaves >>= λ root.
                newest covered >>= λ last. ok (made leaves root last)))
          h1 in
      let (_, h3) = refuse-eq-ok (length leaves == 0) anchor_error _ h2 in
      let (root, root_of, h4) =
        >>=-eq-ok (day_root host.sha256 leaves)
          (λ root. newest covered >>= λ last. ok (made leaves root last)) h3 in
      let (last, last_of, h5) =
        >>=-eq-ok (newest covered) (λ last. ok (made leaves root last)) h4 in
      record {
        leaves = leaves;
        root = root;
        last = last;
        some_row = some_row;
        leaves_of = leaves_of;
        root_of = root_of;
        last_of = last_of;
        made = sym (ok_injective _ _ h5);
      }
    where
      made : List Bytes → Bytes → Row → Batch
      made leaves root last = record {
        row_start = start;
        row_end = end;
        row_count = end - start;
        session_count = length leaves;
        root = hex root;
        chain_tip = last.h;
        ts = max_ts [] covered;
        device_pub = hex device.public_key;
      }

  Fields-check_covered :
      (start end : ℕ) (covered : List Row) (b : Batch)
      → length covered ≡ end - start
      → Fields start end covered b
      → check_covered host device b covered ≡ ok tt
  unfolding check_covered
  Fields-check_covered start end covered b size f =
      subst (λ b'. check_covered host device b' covered ≡ ok tt) (sym f.made)
        (rw
          (
            size,
            ==_refl (end - start),
            f.leaves_of,
            ==_refl (length f.leaves),
            f.root_of,
            bytes_eq_refl (hex f.root),
            f.last_of,
            bytes_eq_refl f.last.h,
          )
          refl)

  -- The signature of the device on its own batch.
  sign_batch-check_signature :
      IsDevice device
      → (b : Batch) → b.device_pub ≡ hex device.public_key
      → check_signature device (sign_batch device b) ≡ ok tt
  unfolding check_signature sign_batch fromhex
  sign_batch-check_signature laws b key =
      rw
        (
          ap fromhex key ∙ fromhex-hex device.public_key laws.key_bytes,
          fromhex-hex (device.sign (device.signed_bytes b)) (laws.sign_bytes _),
          laws.signed (device.signed_bytes b),
        )
        refl

  verify_rows-length : (rs : List Row) (n : ℕ) → verify_rows host none rs ≡ ok n → n ≡ length rs
  unfolding verify_rows
  verify_rows-length rs n h =
      let (_, _, h1) =
        >>=-eq-ok (check_rows host 0 genesis_prev false rs)
          (λ _. refuse (not (tip_matches none rs)) ledger_error >> ok (length rs)) h in
      let (_, h2) = refuse-eq-ok (not (tip_matches none rs)) ledger_error _ h1 in
      sym (ok_injective _ _ h2)

  verify_chain-length :
      (d : Disk) (rs : List Row) (n : ℕ)
      → rows host d ≡ ok rs
      → verify_chain host none d ≡ ok n
      → n ≡ length rs
  unfolding verify_chain
  verify_chain-length d rs n e h =
      verify_rows-length rs n (sym (ap (λ m. m >>= λ rs. verify_rows host none rs) e) ∙ h)

  length-covered_rows :
      (start end : ℕ) (rs : List Row)
      → end ≤ length rs
      → length (covered_rows start end rs) ≡ end - start
  length-covered_rows start end rs h =
      omega (arith, length-take (end - start) (drop start rs), length-drop start rs)

  accepted :
      (x : Batch) (covered : List Row)
      → {u : Unit {0}} → validate_batch device (sign_batch device x) ≡ ok u
      → check_signature device (sign_batch device x) ≡ ok tt
      → check_covered host device x covered ≡ ok tt
      → verify_batch host device (sign_batch device x) (some covered) ≡ ok tt
  unfolding verify_batch sign_batch
  accepted x covered valid signature c = rw (valid, signature) c

  -- The batch is one over the rows of the ledger in its range, from where the last one ended, and
  -- `verify_batch` accepts it with them.
  pub record Publishes (previous : Option Signed) (d : Disk) (b : Signed) : Type 0 where
    pub all_rows : List Row
    pub read : rows host d ≡ ok all_rows
    pub contiguous : b.row_start ≡ start_of previous
    pub in_range : b.row_end ≤ length all_rows
    pub verified :
        verify_batch host device b (some (covered_rows b.row_start b.row_end all_rows)) ≡ ok tt

  -- A batch that `build_batch` returns starts where the previous one ended, ends within the ledger,
  -- and is accepted by `verify_batch` with the rows of its range; the device's signatures are taken
  -- to verify under its key, and both to be bytes.
  pub build_batch-Publishes :
      IsDevice device
      → (previous : Option Signed) (row_end : Option ℕ) (d : Disk) (b : Signed)
      → build_batch host device previous row_end d ≡ ok b
      → Publishes previous d b
  unfolding build_batch verify_batch sign_batch
  build_batch-Publishes laws previous row_end d b h =
      let start : ℕ = start_of previous in
      let (total, chain, h1) =
        >>=-eq-ok (verify_chain host none d)
          (λ total.
            refuse (ltb total (end_of row_end total)) anchor_error
            >> (rows host d >>= λ rs. built total rs))
          h in
      let (within, h2) = refuse-eq-ok (ltb total (end_of row_end total)) anchor_error _ h1 in
      let (rs, read, h3) = >>=-eq-ok (rows host d) (λ rs. built total rs) h2 in
      let end : ℕ = end_of row_end total in
      let (x, fields_of, h4) =
        >>=-eq-ok (batch_fields host device start end (covered_rows start end rs))
          (λ x. signed_of x) h3 in
      let (_, valid, h5) =
        >>=-eq-ok (validate_batch device (sign_batch device x)) (λ _. ok (sign_batch device x))
          h4 in
      let same : sign_batch device x ≡ b = ok_injective _ _ h5 in
      let f : Fields start end (covered_rows start end rs) x =
        batch_fields-Fields start end (covered_rows start end rs) x fields_of in
      let inside : end ≤ length rs =
        subst (λ n. end ≤ n) (verify_chain-length d rs total read chain)
          (ltb_false→le _ _ within) in
      subst (Publishes previous d) same (record {
        all_rows = rs;
        read = read;
        contiguous = ap (λ (y : Batch). y.row_start) f.made;
        in_range = subst (λ n. n ≤ length rs) (sym (ap (λ (y : Batch). y.row_end) f.made)) inside;
        verified =
            ap₂ (λ p q. verify_batch host device (sign_batch device x) (some (covered_rows p q rs)))
              (ap (λ (y : Batch). y.row_start) f.made) (ap (λ (y : Batch). y.row_end) f.made)
            ∙ accepted x (covered_rows start end rs) valid
                (sign_batch-check_signature laws x (ap (λ (y : Batch). y.device_pub) f.made))
                (Fields-check_covered start end (covered_rows start end rs) x
                  (length-covered_rows start end rs inside) f);
      })
    where
      signed_of : Batch → Result Signed
      signed_of x = validate_batch device (sign_batch device x) >> ok (sign_batch device x)

      built : ℕ → List Row → Result Signed
      built total rs =
          batch_fields host device (start_of previous) (end_of row_end total)
            (covered_rows (start_of previous) (end_of row_end total) rs)
          >>= λ x. signed_of x

  check_covered-parts :
      (b : Batch) (rs : List Row)
      → check_covered host device b rs ≡ ok tt
      → (leaves : List Bytes) × (root : Bytes) × (session_leaves rs ≡ ok leaves)
        × (length leaves ≡ b.session_count)
        × (day_root host.sha256 leaves ≡ ok root)
        × (hex root ≡ b.root)
  unfolding check_covered
  check_covered-parts b rs h =
      let (_, h1) = refuse-eq-ok (not (length rs == b.row_count)) anchor_error _ h in
      let (leaves, e, h2) =
        >>=-eq-ok (session_leaves rs)
          (λ leaves.
            refuse (not (length leaves == b.session_count)) anchor_error
            >> (day_root host.sha256 leaves >>= λ root. tail root))
          h1 in
      let (count, h3) = refuse-eq-ok (not (length leaves == b.session_count)) anchor_error _ h2 in
      let (root, r, h4) = >>=-eq-ok (day_root host.sha256 leaves) (λ root. tail root) h3 in
      let (match, _) = refuse-eq-ok (not (bytes_eq (hex root) b.root)) anchor_error _ h4 in
      (leaves, root, e, (==_iff _ _).0 (ground arith), r, (bytes_eq_iff _ _).0 (ground arith))
    where
      tail : Bytes → Result (Unit {0})
      tail root =
          refuse (not (bytes_eq (hex root) b.root)) anchor_error
          >> (newest rs >>= λ last. refuse (not (bytes_eq last.h b.chain_tip)) anchor_error)

  pub verify_batch-check_covered :
      (b : Signed) (rs : List Row)
      → verify_batch host device b (some rs) ≡ ok tt
      → check_covered host device b.batch rs ≡ ok tt
  unfolding verify_batch
  verify_batch-check_covered b rs h =
      let (_, _, h1) =
        >>=-eq-ok (validate_batch device b)
          (λ _. check_signature device b >> check_covered host device b.batch rs) h in
      let (_, _, h2) =
        >>=-eq-ok (check_signature device b) (λ _. check_covered host device b.batch rs) h1 in
      h2

  -- Two lists of rows that `verify_batch` accepts under one batch have the same session roots, or
  -- exhibit a collision of the digest; digests are taken to be bytes.
  pub verify_batch-binding :
      ((m : Bytes) → IsBytes (host.sha256 m))
      → (b : Signed) (rs rs' : List Row) → verify_batch host device b (some rs) ≡ ok tt
      → verify_batch host device b (some rs') ≡ ok tt
      → (session_leaves rs ≡ session_leaves rs') ⊎ Collision host.sha256
  verify_batch-binding bytes b rs rs' h h' =
      let (ls, r, e, n, d, x) =
        check_covered-parts b.batch rs (verify_batch-check_covered b rs h) in
      let (ls', r', e', n', d', x') =
        check_covered-parts b.batch rs' (verify_batch-check_covered b rs' h') in
      let same : r ≡ r' =
        hex_injective r r' (root_bytes ls r d) (root_bytes ls' r' d') (x ∙ sym x') in
      elim (day_root-binding host.sha256 ls ls' (n ∙ sym n') d (d' ∙ ap ok (sym same))) [
        | inl leaves ↦ inl (e ∙ (ap ok leaves ∙ sym e'))
        | inr collision ↦ inr collision
      ]
    where
      root_bytes :
          (leaves : List Bytes) (root : Bytes)
          → day_root host.sha256 leaves ≡ ok root
          → IsBytes root
      root_bytes leaves root d =
          let (m, _, digest) = day_root-eq-ok host.sha256 leaves d in subst IsBytes digest (bytes _)
