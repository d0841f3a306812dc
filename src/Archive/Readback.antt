-- ===== src/Archive/Readback.antt =====
-- What is written for items and what is read back from bytes.
use mybench.Base.{
  ==_iff, ==_refl, All, Bool-cases, Bytes, List, [], ap, ap₂, arith, inl, inr, length,
  length-append, ok, ok_injective, refl, some, suc, sym, take, take-append, true, ◌++◌, ◌-◌, ◌<◌,
  ◌∙◌, ◌∷◌, ◌≡◌,
}
use mybench.Lines.{
  newline, IsLine, split_lines, join_lines, join_lines-init, join_lines-split_lines, pop_empty,
  pop_empty-snoc, split_lines-snoc, split_lines-append, split_lines-join_lines,
}
use mybench.Hex.{hex, IsBytes, fromhex-hex}
use mybench.Archive.{serialized_items, ends_newline, items_from_readback, strip_front, parse_root}

ends_newline-snoc : (xs : Bytes) → ends_newline (xs ++ (newline ∷ [])) ≡ true
ends_newline-snoc [] = refl
ends_newline-snoc (c ∷ []) = refl
ends_newline-snoc (c ∷ d ∷ xs) = ends_newline-snoc (d ∷ xs)

readback-snoc : (xs : Bytes) → items_from_readback (xs ++ (newline ∷ [])) ≡ ok (split_lines xs)
unfolding items_from_readback
readback-snoc [] = refl
readback-snoc (c ∷ xs) =
    let size : length ((c ∷ xs) ++ (newline ∷ [])) - 1 ≡ length (c ∷ xs) =
      omega (arith, length-append (c ∷ xs) (newline ∷ [])) in
    rw (ends_newline-snoc (c ∷ xs)) (
      ap (λ k. ok (split_lines (take k ((c ∷ xs) ++ (newline ∷ []))))) size
      ∙ ap (λ t. ok (split_lines t)) (take-append (c ∷ xs) (newline ∷ [])))

-- What was written for one item or more is read back.
pub readback-serialized :
    (items : List Bytes)
    → 0 < length items
    → All IsLine items
    → items_from_readback (serialized_items items) ≡ ok items
unfolding serialized_items
readback-serialized [] some_item h = absurd (omega arith)
readback-serialized (l ∷ ls) some_item h =
    let (xs, e, s) = join_lines-init l ls h.0 h.1 in
    rw (e, serialized_items) (readback-snoc xs ∙ ap ok s)

ends_newline-init :
    (xs : Bytes) → ends_newline xs ≡ true → take (length xs - 1) xs ++ (newline ∷ []) ≡ xs
ends_newline-init [] h = cc
ends_newline-init (c ∷ []) h = ap (λ t. t ∷ []) (sym ((==_iff c newline).0 h))
ends_newline-init (c ∷ d ∷ xs) h =
    ap (λ k. take k (c ∷ d ∷ xs) ++ (newline ∷ [])) {y = suc (length (d ∷ xs) - 1)} (omega arith)
    ∙ ap (λ t. c ∷ t) (ends_newline-init (d ∷ xs) h)

-- And bytes that are read back as one item or more are what is written for them.
pub serialized-readback :
    (content : Bytes) (items : List Bytes)
    → items_from_readback content ≡ ok items
    → 0 < length items
    → content ≡ serialized_items items
unfolding items_from_readback serialized_items
serialized-readback [] items h some_item = absurd (omega (arith, ap length (ok_injective _ _ h)))
serialized-readback (c ∷ cs) items h some_item = elim (Bool-cases (ends_newline (c ∷ cs))) [
  | inr n ↦ cc (rw n at h)
  | inl y ↦
      sym (ends_newline-init (c ∷ cs) y)
      ∙ (sym (join_lines-split_lines (take (length (c ∷ cs) - 1) (c ∷ cs)))
          ∙ ap join_lines (ok_injective _ _ (rw y at h)))
]

-- The front of some lines, read back as equally many items, is those lines.
pub readback-front :
    (content rest : Bytes) (items source : List Bytes)
    → items_from_readback content ≡ ok items
    → 0 < length items
    → All IsLine source
    → length items ≡ length source
    → content ++ rest ≡ serialized_items source
    → items ≡ source
unfolding items_from_readback serialized_items
readback-front [] rest items source read some_item lines size e =
    absurd (omega (arith, ap length (ok_injective _ _ read)))
readback-front (c ∷ cs) rest items source read some_item lines size e =
    elim (Bool-cases (ends_newline (c ∷ cs))) [
      | inr n ↦ cc (rw n at read)
      | inl y ↦
          let front : Bytes = take (length (c ∷ cs) - 1) (c ∷ cs) in
          let split : split_lines front ≡ items = ok_injective _ _ (rw y at read) in
          let ends : pop_empty (split_lines (c ∷ cs)) ≡ some items =
            ap (λ t. pop_empty (split_lines t)) (sym (ends_newline-init (c ∷ cs) y))
            ∙ (ap pop_empty (split_lines-snoc front ∙ ap (λ t. t ++ ([] ∷ [])) split)
                ∙ pop_empty-snoc items) in
          let whole : items ++ split_lines rest ≡ source ++ ([] ∷ []) =
            sym (split_lines-append (c ∷ cs) rest items ends)
            ∙ (ap split_lines e ∙ split_lines-join_lines source lines) in
          sym (take-append items (split_lines rest))
          ∙ (ap₂ take size whole ∙ take-append source ([] ∷ []))
    ]

pub strip_front-append : (xs ys : Bytes) → strip_front xs (xs ++ ys) ≡ some ys
unfolding strip_front
strip_front-append [] ys = refl
strip_front-append (c ∷ xs) ys = rw (==_refl c) (strip_front-append xs ys)

-- A root in hexadecimal is parsed.
pub parse_root-hex :
    (root : Bytes) → IsBytes root → length root ≡ 32 → parse_root (hex root) ≡ ok root
unfolding parse_root
parse_root-hex root h n = rw (fromhex-hex root h) (rw n)
