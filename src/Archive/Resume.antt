-- ===== src/Archive/Resume.antt =====
-- Whatever part of a session an earlier run has written, the next run completes it.
use mybench.Base.{
  ==_iff, All, Bool-cases, Bytes, List, Option, Result, Result-cases, ap, archive_error, arith,
  bytes_eq_refl, err, false, if◌then◌else◌, inl, inr, insecure_permissions, length, le→ltb_false,
  ltb, none, ok, refl, some, subst, sym, ◌++◌, ◌<◌, ◌==◌, ◌>>=◌, ◌>>◌, ◌∙◌, ◌≡◌, ◌≤◌, ◌⊎◌,
}
use mybench.Lines.{IsLine}
use mybench.Hex.{hex, IsBytes}
use mybench.Archive.{
  ArchiveFile, ArchiveResult, ArchiveCall, serialized_items, items_from_readback, strip_front,
  parse_root, root_for, check_items, verified_items, check_source, check_call, opened, check_late,
  missing_suffix, check_readback, extend, archive_opened, archive_session,
}
use mybench.Archive.Kept.{bytes_of}
use mybench.Archive.Readback.{
  readback-serialized, serialized-readback, readback-front, strip_front-append, parse_root-hex,
}

-- A call whose source is the whole preimage of the root that it names.
pub record IsPreimage (sha256 : Bytes → Bytes) (call : ArchiveCall) (root : Bytes) : Type 0 where
  pub named : call.expected_session_root ≡ hex root
  pub root_bytes : IsBytes root
  pub root_length : length root ≡ 32
  pub some_item : 0 < length call.source_items
  pub count : length call.source_items ≡ call.expected_item_count
  pub enough : call.expected_item_count ≤ length call.nonces
  pub lines : All IsLine call.source_items
  pub committed : root_for sha256 call.source_items call.nonces ≡ ok root

-- The run succeeds and the path holds the whole source.
abbrev pub Completes : ArchiveCall → Result ArchiveResult × Option ArchiveFile → Type 0
Completes call out =
    (r : ArchiveResult) × (out.0 ≡ ok r) × (bytes_of out.1 ≡ serialized_items call.source_items)

module _ (sha256 : Bytes → Bytes) (call : ArchiveCall) (root : Bytes)
    (pre : IsPreimage sha256 call root) where
  source-checks : check_source sha256 call root ≡ ok tt
  unfolding check_source
  source-checks = rw ((==_iff _ _).1 pre.count, pre.committed, bytes_eq_refl root)

  call-checks : (file : Option ArchiveFile) → check_call sha256 call file ≡ ok root
  unfolding check_call
  call-checks file =
      rw
        (
          counted,
          enough,
          ap parse_root pre.named ∙ parse_root-hex root pre.root_bytes pre.root_length,
        )
        (go file)
    where
      counted : (call.expected_item_count == 0) ≡ false
      counted =
          let some_item : 0 < length call.source_items = pre.some_item in
          let count : length call.source_items ≡ call.expected_item_count = pre.count in
          ground arith

      enough : ltb (length call.nonces) call.expected_item_count ≡ false
      enough = le→ltb_false _ _ pre.enough

      go :
          (file : Option ArchiveFile)
          → (elim file [ none ↦ check_source sha256 call root | some f ↦ ok tt ] >> ok root)
            ≡ ok root
      go none = ap (λ m. m >> ok root) source-checks
      go (some f) = refl

  -- The whole source is a verified file.
  source-verified :
      verified_items sha256
        (serialized_items call.source_items)
        call.nonces
        call.expected_item_count
        root
      ≡ ok (some call.source_items)
  unfolding verified_items check_items
  source-verified =
      ap
        (λ m. elim m [
          | err e ↦ ok none
          | ok items ↦ check_items sha256 items call.nonces call.expected_item_count root
        ])
        (readback-serialized call.source_items pre.some_item pre.lines)
      ∙ rw ((==_iff _ _).1 pre.count, pre.committed, bytes_eq_refl root) refl

  -- A front of the source is not verified, unless it is all of it.
  front-verified :
      (content rest : Bytes)
      → content ++ rest ≡ serialized_items call.source_items
      → (verified_items sha256 content call.nonces call.expected_item_count root ≡ ok none)
        ⊎ (content ≡ serialized_items call.source_items)
  unfolding verified_items check_items
  front-verified content rest e = elim (Result-cases (items_from_readback content)) [
    | inr (x, bad) ↦ inl (ap judge bad)
    | inl (items, read) ↦ elim (Bool-cases (length items == call.expected_item_count)) [
      | inr n ↦ inl (ap judge read ∙ rw n refl)
      | inl y ↦
          let size : length items ≡ length call.source_items = (==_iff _ _).0 y ∙ sym pre.count in
          let some_item : 0 < length items = subst (λ k. 0 < k) (sym size) pre.some_item in
          inr (
            serialized-readback content items read some_item
            ∙ ap serialized_items (
                readback-front content rest items call.source_items read some_item pre.lines size
                  e))
    ]
  ]
    where
      judge : Result (List Bytes) → Result (Option (List Bytes))
      judge m = elim m [
        | err x ↦ ok none
        | ok items ↦ check_items sha256 items call.nonces call.expected_item_count root
      ]

  -- The write behind a front of the source.
  extend-Completes :
      (before : Option ArchiveFile) (f : ArchiveFile) (rest : Bytes)
      → f.content ++ rest ≡ serialized_items call.source_items
      → Completes call (extend sha256 call root before (some f))
  unfolding extend check_readback missing_suffix
  extend-Completes before f rest e =
      subst (λ m. Completes call (written m)) (sym found)
        (
          record { bytes_appended = length rest; items_verified = length call.source_items },
          ap (λ v. read_back v)
              (ap (λ t. verified_items sha256 t call.nonces call.expected_item_count root) e
                ∙ source-verified),
          e,
        )
    where
      read_back : Result (Option (List Bytes)) → Result ArchiveResult
      read_back m = m >>= λ v. elim v [
        | none ↦ err archive_error
        | some items ↦ ok (record { bytes_appended = length rest; items_verified = length items })
      ]

      written : Result Bytes → Result ArchiveResult × Option ArchiveFile
      written m = elim m [
        | err x ↦ (err x, some f)
        | ok suffix ↦ (
          check_readback sha256 call root (length suffix) (f.content ++ suffix),
          some (record f { content = f.content ++ suffix }),
        )
      ]

      late : (before : Option ArchiveFile) → check_late sha256 call root before ≡ ok tt
      late none = refl
      late (some g) = source-checks

      suffix : missing_suffix sha256 call f.content ≡ ok rest
      suffix =
          ap (λ o. elim o [ none ↦ err archive_error | some r ↦ ok r ])
            (ap (strip_front f.content) (sym e) ∙ strip_front-append f.content rest)

      found :
          (check_late sha256 call root before >>= λ u. missing_suffix sha256 call f.content)
          ≡ ok rest
      found = ap (λ m. m >>= λ u. missing_suffix sha256 call f.content) (late before) ∙ suffix

  archive_opened-Completes :
      (before : Option ArchiveFile) (f : ArchiveFile) (rest : Bytes)
      → f.loose ≡ false
      → f.content ++ rest ≡ serialized_items call.source_items
      → Completes call (archive_opened sha256 call root before (some f))
  unfolding archive_opened
  archive_opened-Completes before f rest private e =
      subst
        (λ b.
          Completes call
            (if b then (err insecure_permissions, some f) else judged (verified f.content)))
        (sym private)
        (elim (front-verified f.content rest e) [
          | inl n ↦
              subst (λ m. Completes call (judged m)) (sym n) (extend-Completes before f rest e)
          | inr whole ↦
              subst (λ m. Completes call (judged m)) (sym (ap verified whole ∙ source-verified))
                (
                  record { bytes_appended = 0; items_verified = length call.source_items },
                  refl,
                  whole,
                )
        ])
    where
      verified : Bytes → Result (Option (List Bytes))
      verified content = verified_items sha256 content call.nonces call.expected_item_count root

      judged : Result (Option (List Bytes)) → Result ArchiveResult × Option ArchiveFile
      judged m = elim m [
        | err x ↦ (err x, some f)
        | ok (some items) ↦
            (ok (record { bytes_appended = 0; items_verified = length items }), some f)
        | ok none ↦ extend sha256 call root before (some f)
      ]

  -- Nobody else has access to the file, if there is one, and its bytes are a front of the source.
  abbrev pub IsFront : Option ArchiveFile → Type 0
  IsFront file =
      ((opened sha256 file).loose ≡ false)
      × (rest : Bytes) × (bytes_of file ++ rest ≡ serialized_items call.source_items)

  -- With the whole source of a committed root as lines, and at the path no file, or a private file
  -- that has any front of the serialized source, such as a crash leaves: `archive_session` returns,
  -- and the file then has exactly the serialized source.
  pub archive_session-Completes :
      (file : Option ArchiveFile) → IsFront file → Completes call (archive_session sha256 call file)
  unfolding archive_session
  archive_session-Completes file front =
      let (private, rest, e) = front in
      subst (λ m. Completes call (started m)) (sym (call-checks file))
        (archive_opened-Completes file (opened sha256 file) rest private (same_bytes file rest e))
    where
      started : Result Bytes → Result ArchiveResult × Option ArchiveFile
      started m = elim m [
        | err e ↦ (err e, file)
        | ok r ↦ archive_opened sha256 call r file (some (opened sha256 file))
      ]

      same_bytes :
          (file : Option ArchiveFile) (rest : Bytes)
          → bytes_of file ++ rest ≡ serialized_items call.source_items
          → (opened sha256 file).content ++ rest ≡ serialized_items call.source_items
      same_bytes none rest h = h
      same_bytes (some f) rest h = h
