-- ===== src/Timing/Order.antt =====
-- Texts in their order: `sorted(set(ts))` is increasing, and an increasing list is its own
-- `sorted` and its own set.
use mybench.Base.{
  All, Bool-cases, List, [], arith, bytes_eq, bytes_eq_refl, false, inl, inr, refl, true, ◌∷◌, ◌≡◌,
}
use mybench.Ledger.{Text}
use mybench.Ledger.Write.{text_lt, insert_text, sorted_set}
use mybench.Timing.{sort_texts, texts_eq}

pub text_lt-ne : (a b : Text) → text_lt a b ≡ true → bytes_eq a b ≡ false
unfolding text_lt bytes_eq
text_lt-ne [] [] h = cc
text_lt-ne [] (y ∷ ys) h = refl
text_lt-ne (x ∷ xs) [] h = cc
text_lt-ne (x ∷ xs) (y ∷ ys) h = elim (Bool-cases (text_lt xs ys)) [
  | inl lt ↦ let rest = text_lt-ne xs ys lt in ground arith
  | inr nl ↦ ground arith
]

pub text_lt_asym : (a b : Text) → text_lt a b ≡ true → text_lt b a ≡ false
unfolding text_lt
text_lt_asym [] [] h = cc
text_lt_asym [] (y ∷ ys) h = refl
text_lt_asym (x ∷ xs) [] h = cc
text_lt_asym (x ∷ xs) (y ∷ ys) h = elim (Bool-cases (text_lt xs ys)) [
  | inl lt ↦ let rest = text_lt_asym xs ys lt in ground arith
  | inr nl ↦ ground arith
]

pub text_lt_total : (a b : Text) → text_lt a b ≡ false → bytes_eq a b ≡ false → text_lt b a ≡ true
unfolding text_lt bytes_eq
text_lt_total [] [] h k = cc
text_lt_total [] (y ∷ ys) h k = cc
text_lt_total (x ∷ xs) [] h k = refl
text_lt_total (x ∷ xs) (y ∷ ys) h k = ground (arith, text_lt_total xs ys)

-- Each text below the next.
abbrev pub IsBelowFirst : Text → List Text → Type 0
IsBelowFirst t [] = Unit {0}
IsBelowFirst t (u ∷ us) = text_lt t u ≡ true

abbrev pub IsIncreasing : List Text → Type 0
IsIncreasing [] = Unit {0}
IsIncreasing (t ∷ ts) = IsBelowFirst t ts × IsIncreasing ts

insert_text-below :
    (t u : Text) (us : List Text)
    → text_lt u t ≡ true
    → IsBelowFirst u us
    → IsBelowFirst u (insert_text t us)
unfolding insert_text
insert_text-below t u [] h b = h
insert_text-below t u (v ∷ us) h b = elim (Bool-cases (text_lt t v)) [
  | inl y ↦ rw y h
  | inr n ↦ elim (Bool-cases (bytes_eq t v)) [ inl y ↦ rw (n, y) b | inr m ↦ rw (n, m) b ]
]

pub insert_text-IsIncreasing :
    (t : Text) (us : List Text) → IsIncreasing us → IsIncreasing (insert_text t us)
unfolding insert_text
insert_text-IsIncreasing t [] h = (tt, tt)
insert_text-IsIncreasing t (u ∷ us) h = elim (Bool-cases (text_lt t u)) [
  | inl y ↦ rw y (y, h)
  | inr n ↦ elim (Bool-cases (bytes_eq t u)) [
    | inl y ↦ rw (n, y) h
    | inr m ↦
        rw (n, m)
          (insert_text-below t u us (text_lt_total t u n m) h.0, insert_text-IsIncreasing t us h.1)
  ]
]

pub sorted_set-IsIncreasing : (ts : List Text) → IsIncreasing (sorted_set ts)
unfolding sorted_set
sorted_set-IsIncreasing [] = tt
sorted_set-IsIncreasing (t ∷ ts) =
    insert_text-IsIncreasing t (sorted_set ts) (sorted_set-IsIncreasing ts)

pub sorted_set-increasing : (ts : List Text) → IsIncreasing ts → sorted_set ts ≡ ts
unfolding sorted_set insert_text
sorted_set-increasing [] h = refl
sorted_set-increasing (t ∷ []) h = refl
sorted_set-increasing (t ∷ u ∷ us) h = rw (sorted_set-increasing (u ∷ us) h.1, h.0) refl

pub sort_texts-increasing : (ts : List Text) → IsIncreasing ts → sort_texts ts ≡ ts
unfolding sort_texts
sort_texts-increasing [] h = refl
sort_texts-increasing (t ∷ []) h = refl
sort_texts-increasing (t ∷ u ∷ us) h =
    rw (sort_texts-increasing (u ∷ us) h.1, text_lt_asym t u h.0) refl

pub texts_eq_refl : (ts : List Text) → texts_eq ts ts ≡ true
texts_eq_refl [] = refl
texts_eq_refl (t ∷ ts) = rw (bytes_eq_refl t) (texts_eq_refl ts)

-- What holds of each text holds of each one in the sorted set.
pub All-sorted_set {ℓ} : (P : Text → Type ℓ) (ts : List Text) → All P ts → All P (sorted_set ts)
unfolding sorted_set insert_text
All-sorted_set P [] h = tt
All-sorted_set P (t ∷ ts) h = inserted t (sorted_set ts) h.0 (All-sorted_set P ts h.1)
  where
    inserted : (t : Text) (us : List Text) → P t → All P us → All P (insert_text t us)
    inserted t [] p h = (p, tt)
    inserted t (u ∷ us) p h = elim (Bool-cases (text_lt t u)) [
      | inl y ↦ rw y (p, h)
      | inr n ↦ elim (Bool-cases (bytes_eq t u)) [
        | inl y ↦ rw (n, y) h
        | inr m ↦ rw (n, m) (h.0, inserted t us p h.1)
      ]
    ]
