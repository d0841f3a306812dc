-- ===== src/Json/Lookup.antt =====
-- Dictionaries: what a key is looked up to behind an assignment or a removal.
use mybench.Base.{
  Bool, Bool-cases, ap, bytes_eq, bytes_eq_ne, bytes_eq_refl, bytes_eq_sound, false, if◌then◌else◌,
  inl, inr, none, refl, some, subst, sym, true, ◌∙◌, ◌≡◌,
}
use mybench.Ledger.{Text}
use mybench.Json.{Json, Members, end, member, get, set_member, without}

pub get-set_member : (key : Text) (v : Json) (m : Members) → get key (set_member key v m) ≡ some v
unfolding get set_member
get-set_member key v end = rw (bytes_eq_refl key) refl
get-set_member key v (member k w rest) = elim (Bool-cases (bytes_eq k key)) [
  | inl same ↦ rw (same, same) refl
  | inr differ ↦ rw (differ, differ) (get-set_member key v rest)
]

-- Another key is not touched.
pub get-set_member-other :
    (key other : Text) (v : Json) (m : Members)
    → bytes_eq key other ≡ false
    → get other (set_member key v m) ≡ get other m
unfolding get set_member
get-set_member-other key other v end h = rw h refl
get-set_member-other key other v (member k w rest) h = elim (Bool-cases (bytes_eq k key)) [
  | inl same ↦
      rw (same, subst (λ z. bytes_eq z other ≡ false) (sym (bytes_eq_sound k key same)) h) refl
  | inr differ ↦
      rw differ
        (ap (λ o. if bytes_eq k other then some w else o) (get-set_member-other key other v rest h))
]

pub set_member-same :
    (key : Text) (v : Json) (m : Members) → get key m ≡ some v → set_member key v m ≡ m
unfolding get set_member
set_member-same key v end h = cc
set_member-same key v (member k w rest) h = here (bytes_eq k key) h (set_member-same key v rest)
  where
    here :
        (b : Bool)
        → (if b then some w else get key rest) ≡ some v
        → (get key rest ≡ some v → set_member key v rest ≡ rest)
        → (if b then member k v rest else member k w (set_member key v rest)) ≡ member k w rest
    here true g later = cc
    here false g later = ap (member k w) (later g)

pub get-without : (key : Text) (m : Members) → get key (without key m) ≡ none
unfolding get without
get-without key end = refl
get-without key (member k w rest) = elim (Bool-cases (bytes_eq k key)) [
  | inl same ↦ rw same (get-without key rest)
  | inr differ ↦ rw (differ, differ) (get-without key rest)
]

pub get-without-other :
    (key other : Text) (m : Members)
    → bytes_eq key other ≡ false
    → get other (without key m) ≡ get other m
unfolding get without
get-without-other key other end h = refl
get-without-other key other (member k w rest) h = elim (Bool-cases (bytes_eq k key)) [
  | inl same ↦
      rw (same, subst (λ z. bytes_eq z other ≡ false) (sym (bytes_eq_sound k key same)) h)
        (get-without-other key other rest h)
  | inr differ ↦
      rw differ
        (ap (λ o. if bytes_eq k other then some w else o) (get-without-other key other rest h))
]

-- A key that is not there is not the first one.
get-none :
    (key k : Text) (v : Json) (rest : Members)
    → get key (member k v rest) ≡ none
    → (bytes_eq k key ≡ false) × (get key rest ≡ none)
unfolding get
get-none key k v rest h = here (bytes_eq k key) h
  where
    here :
        (same : Bool)
        → (if same then some v else get key rest) ≡ none
        → (same ≡ false) × (get key rest ≡ none)
    here true h = cc
    here false h = (refl, h)

-- A member of a new key is all that is taken away with its key.
pub without-set_member :
    (key : Text) (v : Json) (m : Members) → get key m ≡ none → without key (set_member key v m) ≡ m
unfolding get set_member without
without-set_member key v end h = rw (bytes_eq_refl key) refl
without-set_member key v (member k w rest) h =
    let (differ, absent) = get-none key k w rest h in
    rw (differ, differ, without-set_member key v rest absent) refl

-- Of different keys one at most is a third.
pub one-key :
    (l k key : Text) → bytes_eq l k ≡ false → bytes_eq l key ≡ true → bytes_eq k key ≡ false
one-key l k key differ same = bytes_eq_ne k key λ e.
    ne (
      sym differ ∙ (ap (λ z. bytes_eq l z) (e ∙ sym (bytes_eq_sound l key same)) ∙ bytes_eq_refl l))
  where
    ne : false ≡ true → ⊥
    ne h = cc
