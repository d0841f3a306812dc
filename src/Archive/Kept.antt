-- ===== src/Archive/Kept.antt =====
-- `archive_session` only ever adds bytes at the end, and what it reports has been verified.
use mybench.Base.{
  >>=-eq-ok, Bool, Bytes, Error, List, Option, Result, [], ap, append-nil, archive_error, err,
  err-ne-ok, false, if◌then◌else◌, insecure_permissions, length, ltb, none, ok, ok_injective, refl,
  refuse-eq-ok, some, sym, true, ℕ, ◌++◌, ◌==◌, ◌>>=◌, ◌>>◌, ◌∙◌, ◌≡◌,
}
use mybench.Archive.Commit.{verified_items-parts}
use mybench.Archive.{
  ArchiveFile, ArchiveResult, ArchiveCall, parse_root, verified_items, check_source, check_call,
  opened, check_late, missing_suffix, check_readback, extend, archive_opened, archive_session,
}

abbrev pub bytes_of : Option ArchiveFile → Bytes
bytes_of none = []
bytes_of (some f) = f.content

module _ (sha256 : Bytes → Bytes) where
  -- The content is a whole preimage of the committed root: its items, in the number committed.
  abbrev pub Verified : ArchiveCall → Bytes → Bytes → ℕ → Type 0
  Verified call root content count =
      (items : List Bytes) × (verified_items sha256 content call.nonces call.expected_item_count
          root
        ≡ ok (some items))
      × (length items ≡ count)
      × (count ≡ call.expected_item_count)

  -- Bytes were added at the end, and a result counts them and the items verified.
  pub record Extends (call : ArchiveCall) (file : Option ArchiveFile)
      (out : Result ArchiveResult × Option ArchiveFile) : Type 0 where
    pub suffix : Bytes
    pub content : bytes_of out.1 ≡ bytes_of file ++ suffix
    pub verified :
        (r : ArchiveResult)
        → out.0 ≡ ok r
        → (r.bytes_appended ≡ length suffix)
          × (root : Bytes) × (parse_root call.expected_session_root ≡ ok root)
          × Verified call root (bytes_of out.1) r.items_verified

  pub verified_items-count :
      (content : Bytes) (nonces : List Bytes) (count : ℕ) (root : Bytes) (items : List Bytes)
      → verified_items sha256 content nonces count root ≡ ok (some items)
      → length items ≡ count
  verified_items-count content nonces count root items h =
      (verified_items-parts sha256 content nonces count root items h).1

  check_call-root :
      (call : ArchiveCall) (file : Option ArchiveFile) {root : Bytes}
      → check_call sha256 call file ≡ ok root
      → parse_root call.expected_session_root ≡ ok root
  unfolding check_call
  check_call-root call file h =
      let (_, h1) = refuse-eq-ok (call.expected_item_count == 0) archive_error _ h in
      let (_, h2) =
        refuse-eq-ok (ltb (length call.nonces) call.expected_item_count) archive_error _ h1 in
      let (r, e, h3) =
        >>=-eq-ok (parse_root call.expected_session_root)
          (λ root. (elim file [ none ↦ check_source sha256 call root | some f ↦ ok tt ]) >> ok root)
          h2 in
      let (_, _, h4) =
        >>=-eq-ok (elim file [ none ↦ check_source sha256 call r | some f ↦ ok tt ]) (λ _. ok r)
          h3 in
      e ∙ h4

  -- Raising with the bytes as they were.
  raise-Extends :
      (call : ArchiveCall) (file file' : Option ArchiveFile) (e : Error)
      → bytes_of file' ≡ bytes_of file
      → Extends call file (err e, file')
  raise-Extends call file file' e same = record {
    suffix = [];
    content = same ∙ sym (append-nil (bytes_of file));
    verified = λ r h. absurd (err-ne-ok _ _ h);
  }

  check_readback-Verified :
      (call : ArchiveCall) (root : Bytes) (appended : ℕ) (content : Bytes) (r : ArchiveResult)
      → check_readback sha256 call root appended content ≡ ok r
      → (r.bytes_appended ≡ appended) × Verified call root content r.items_verified
  unfolding check_readback
  check_readback-Verified call root appended content r h =
      let (v, e, k) =
        >>=-eq-ok (verified_items sha256 content call.nonces call.expected_item_count root)
          (λ v. elim v [
            | none ↦ err archive_error
            | some items ↦ ok (record { bytes_appended = appended; items_verified = length items })
          ])
          h in
      found v e k
    where
      found :
          (v : Option (List Bytes))
          → verified_items sha256 content call.nonces call.expected_item_count root ≡ ok v
          → elim v [
            | none ↦ err archive_error
            | some items ↦ ok (record { bytes_appended = appended; items_verified = length items })
          ]
            ≡ ok r
          → (r.bytes_appended ≡ appended) × Verified call root content r.items_verified
      found none e k = absurd (err-ne-ok _ _ k)
      found (some items) e k =
          let same : record { bytes_appended = appended; items_verified = length items } ≡ r =
            ok_injective _ _ k in
          let n : length items ≡ r.items_verified =
            ap (λ (x : ArchiveResult). x.items_verified) same in
          (
            ap (λ (x : ArchiveResult). x.bytes_appended) (sym same),
            (
              items,
              e,
              n,
              sym n
                  ∙ verified_items-count content call.nonces call.expected_item_count root items e,
            ),
          )

  extend-Extends :
      (call : ArchiveCall) (root : Bytes) (before : Option ArchiveFile) (f : ArchiveFile)
      → parse_root call.expected_session_root ≡ ok root
      → Extends call (some f) (extend sha256 call root before (some f))
  unfolding extend
  extend-Extends call root before f parsed =
      go (check_late sha256 call root before >>= λ u. missing_suffix sha256 call f.content)
    where
      go :
          (m : Result Bytes)
          → Extends call (some f) (elim m [
            | err e ↦ (err e, some f)
            | ok suffix ↦ (
              check_readback sha256 call root (length suffix) (f.content ++ suffix),
              some (record f { content = f.content ++ suffix }),
            )
          ])
      go (err e) = raise-Extends call (some f) (some f) e refl
      go (ok suffix) = record {
        suffix = suffix;
        content = refl;
        verified = λ r h.
            let (n, v) =
              check_readback-Verified call root (length suffix) (f.content ++ suffix) r h in
            (n, root, parsed, v);
      }

  archive_opened-Extends :
      (call : ArchiveCall) (root : Bytes) (before : Option ArchiveFile) (f : ArchiveFile)
      → parse_root call.expected_session_root ≡ ok root
      → Extends call (some f) (archive_opened sha256 call root before (some f))
  unfolding archive_opened
  archive_opened-Extends call root before f parsed =
      gate f.loose _
        (go (verified_items sha256 f.content call.nonces call.expected_item_count root) refl)
    where
      gate :
          (b : Bool) (out : Result ArchiveResult × Option ArchiveFile)
          → Extends call (some f) out
          → Extends call (some f) (if b then (err insecure_permissions, some f) else out)
      gate true out x = raise-Extends call (some f) (some f) insecure_permissions refl
      gate false out x = x

      go :
          (m : Result (Option (List Bytes)))
          → verified_items sha256 f.content call.nonces call.expected_item_count root ≡ m
          → Extends call (some f) (elim m [
            | err e ↦ (err e, some f)
            | ok (some items) ↦
                (ok (record { bytes_appended = 0; items_verified = length items }), some f)
            | ok none ↦ extend sha256 call root before (some f)
          ])
      go (err e) h = raise-Extends call (some f) (some f) e refl
      go (ok none) h = extend-Extends call root before f parsed
      go (ok (some items)) h = record {
        suffix = [];
        content = sym (append-nil f.content);
        verified = λ r k.
            let same : record { bytes_appended = 0; items_verified = length items } ≡ r =
              ok_injective _ _ k in
            let n : length items ≡ r.items_verified =
              ap (λ (x : ArchiveResult). x.items_verified) same in
            (
              ap (λ (x : ArchiveResult). x.bytes_appended) (sym same),
              root,
              parsed,
              (
                items,
                h,
                n,
                sym n
                    ∙ verified_items-count f.content call.nonces call.expected_item_count root items
                        h,
              ),
            );
      }

  -- On every outcome the bytes at the path are the old ones with a suffix behind them. A result
  -- counts that suffix, and the file is then a verified preimage of the expected root, with the
  -- number of items that was expected and is reported.
  pub archive_session-Extends :
      (call : ArchiveCall) (file : Option ArchiveFile)
      → Extends call file (archive_session sha256 call file)
  unfolding archive_session
  archive_session-Extends call file = go (check_call sha256 call file) refl
    where
      from_opened :
          (file : Option ArchiveFile) (out : Result ArchiveResult × Option ArchiveFile)
          → Extends call (some (opened sha256 file)) out
          → Extends call file out
      from_opened none out x = record {
        suffix = x.suffix;
        content = x.content;
        verified = x.verified;
      }
      from_opened (some f) out x = x

      go :
          (m : Result Bytes)
          → check_call sha256 call file ≡ m
          → Extends call file (elim m [
            | err e ↦ (err e, file)
            | ok root ↦ archive_opened sha256 call root file (some (opened sha256 file))
          ])
      go (err e) h = raise-Extends call file file e refl
      go (ok root) h =
          from_opened file _ (
            archive_opened-Extends call root file (opened sha256 file)
              (check_call-root call file h))
