-- ===== src/Stamp/Canonical.antt =====
-- A canonical time is its own canonical form.
use mybench.Base.{
  All, All-append, All-take, Bool-cases, List, Option, Option-cases, [], ap, arith, if◌then◌else◌,
  inl, inr, leb, length, length-append, length-replicate, length-take, none, refl, replicate, some,
  subst, suc, sym, take, take-append, true, ℕ, ◌&&◌, ◌++◌, ◌==◌, ◌∙◌, ◌∷◌, ◌≡◌,
}
use mybench.Ledger.{Text}
use mybench.Stamp.{
  Slot, slot_takes, fits, stamp_slots, is_digit, digits_to_z, checked_digits, fraction, padded,
  stamp_of, canonical_rest, canonical_timestamp, is_civil,
}
use mathlib.Core.Option.{some-injective}

abbrev pub IsDigits : Text → Type 0
IsDigits = All (λ c. is_digit c ≡ true)

-- A front that fits does so before anything else, and is as long as the pattern.
fits-front :
    (p : List Slot) (t rest other : Text)
    → fits p t ≡ some rest
    → (fits p (take (length p) t ++ other) ≡ some other) × (length (take (length p) t) ≡ length p)
fits-front [] t rest other h = (refl, refl)
fits-front (s ∷ p) [] rest other h = cc
fits-front (s ∷ p) (c ∷ t) rest other h = elim (Bool-cases (slot_takes s c)) [
  | inr n ↦ cc (rw n at h)
  | inl y ↦ let (a, b) = fits-front p t rest other (rw y at h) in (rw y a, ap suc b)
]

digits_to_z-IsDigits : (t ds : Text) → digits_to_z t ≡ some ds → IsDigits ds
digits_to_z-IsDigits [] ds h = cc
digits_to_z-IsDigits (c ∷ []) ds h = elim (Bool-cases (c == b'Z')) [
  | inr n ↦ cc (rw n at h)
  | inl y ↦ subst IsDigits (some-injective _ _ (rw y at h)) tt
]
digits_to_z-IsDigits (c ∷ d ∷ t) ds h = elim (Bool-cases (is_digit c)) [
  | inr n ↦ cc (rw n at h)
  | inl y ↦ elim (Option-cases (digits_to_z (d ∷ t))) [
    | inl n ↦ cc (rw (y, n) at h)
    | inr (es, e) ↦
        subst IsDigits (some-injective _ _ (rw (y, e) at h)) (y, digits_to_z-IsDigits (d ∷ t) es e)
  ]
]

digits_to_z-append : (ds : Text) → IsDigits ds → digits_to_z (ds ++ (b'Z' ∷ [])) ≡ some ds
digits_to_z-append [] h = refl
digits_to_z-append (c ∷ []) h = rw h.0 refl
digits_to_z-append (c ∷ d ∷ ds) h = rw (h.0, digits_to_z-append (d ∷ ds) h.1) refl

padded-IsDigits : (ds : Text) → IsDigits ds → IsDigits (padded ds)
padded-IsDigits ds h =
    All-take (λ c. is_digit c ≡ true) 6 _
      (All-append (λ c. is_digit c ≡ true) ds _ h
        (refl, (refl, (refl, (refl, (refl, (refl, tt)))))))

length-padded : (ds : Text) → length (padded ds) ≡ 6
length-padded ds = omega (
  arith,
  length-take 6 (ds ++ replicate 6 b'0'),
  length-append ds (replicate 6 b'0'),
  length-replicate {A = ℕ} 6 b'0',
)

padded_twice : (ds : Text) → padded (padded ds) ≡ padded ds
padded_twice ds =
    ap (λ n. take n (padded ds ++ replicate 6 b'0')) (sym (length-padded ds))
    ∙ take-append (padded ds) (replicate 6 b'0')

checked_digits-parts : (o : Option Text) (ds : Text) → checked_digits o ≡ some ds → o ≡ some ds
checked_digits-parts none ds h = cc
checked_digits-parts (some es) ds h = elim (Bool-cases (leb 1 (length es) && leb (length es) 6)) [
  | inr n ↦ cc (rw n at h)
  | inl y ↦ rw y at h
]

fraction-IsDigits : (t ds : Text) → fraction t ≡ some ds → IsDigits ds
fraction-IsDigits [] ds h = cc
fraction-IsDigits (c ∷ t) ds h = elim (Bool-cases (c == b'Z')) [
  | inl y ↦ elim (Bool-cases (length t == 0)) [
    | inl e ↦ subst IsDigits (some-injective _ _ (rw (y, e) at h)) tt
    | inr e ↦ cc (rw (y, e) at h)
  ]
  | inr n ↦ elim (Bool-cases (c == b'.')) [
    | inl y ↦ digits_to_z-IsDigits t ds (checked_digits-parts (digits_to_z t) ds (rw (n, y) at h))
    | inr m ↦ cc (rw (n, m) at h)
  ]
]

fraction-padded :
    (ds : Text) → IsDigits ds → fraction (b'.' ∷ (padded ds ++ (b'Z' ∷ []))) ≡ some (padded ds)
fraction-padded ds h =
    ap checked_digits (digits_to_z-append (padded ds) (padded-IsDigits ds h))
    ∙ ap (λ n. if leb 1 n && leb n 6 then some (padded ds) else none) (length-padded ds)

-- What a canonical time looks like.
pub record IsStamp (t : Text) : Type 0 where
  pub head : Text
  pub digits : Text
  pub shape : t ≡ head ++ (b'.' ∷ (padded digits ++ (b'Z' ∷ [])))
  pub head_length : length head ≡ 19
  pub head_fits : (other : Text) → fits stamp_slots (head ++ other) ≡ some other
  pub civil : is_civil head ≡ true
  pub all_digits : IsDigits digits

pub canonical_timestamp-IsStamp : (t c : Text) → canonical_timestamp t ≡ some c → IsStamp c
unfolding canonical_timestamp
canonical_timestamp-IsStamp t c h = elim (Option-cases (fits stamp_slots t)) [
  | inl n ↦ cc (rw n at h)
  | inr (rest, f) ↦ elim (Bool-cases (is_civil (take 19 t))) [
    | inr n ↦ cc (rw (f, n) at h)
    | inl y ↦ elim (Option-cases (fraction rest)) [
      | inl n ↦ cc (rw (f, y, n) at h)
      | inr (ds, d) ↦ record {
        head = take 19 t;
        digits = ds;
        shape = sym (some-injective _ _ (rw (f, y, d) at h));
        head_length = (fits-front stamp_slots t rest [] f).1;
        head_fits = λ other. (fits-front stamp_slots t rest other f).0;
        civil = y;
        all_digits = fraction-IsDigits rest ds d;
      }
    ]
  ]
]

IsStamp-canonical : (t : Text) → IsStamp t → canonical_timestamp t ≡ some t
unfolding canonical_timestamp
IsStamp-canonical t s =
    let tail : Text = b'.' ∷ (padded s.digits ++ (b'Z' ∷ [])) in
    let front : take 19 t ≡ s.head =
      ap (take 19) s.shape
      ∙ (ap (λ n. take n (s.head ++ tail)) (sym s.head_length) ∙ take-append s.head tail) in
    let fit : fits stamp_slots t ≡ some tail = ap (fits stamp_slots) s.shape ∙ s.head_fits tail in
    ap (canonical_rest t) fit
    ∙ (ap (λ x. if is_civil x then stamp_of x (fraction tail) else none) front
        ∙ (ap (λ b. if b then stamp_of s.head (fraction tail) else none) s.civil
            ∙ (ap (stamp_of s.head) (fraction-padded s.digits s.all_digits)
                ∙ ap some (
                    ap (λ d. s.head ++ (b'.' ∷ (d ++ (b'Z' ∷ [])))) (padded_twice s.digits)
                    ∙ sym s.shape))))

-- What `_canonical_timestamp` returns, it returns again when it is given that.
pub canonical_timestamp_twice :
    (t c : Text) → canonical_timestamp t ≡ some c → canonical_timestamp c ≡ some c
canonical_timestamp_twice t c h = IsStamp-canonical c (canonical_timestamp-IsStamp t c h)
