-- ===== src/Base/Errors.antt =====
-- Python's exceptions as values. A body that may raise returns a `Result`.
use mathlib.Core.Path.{◌≡◌, refl}
use mathlib.Core.Logic.{◌⊎◌, inl, inr}
use mathlib.Core.Bool.{Bool, true, false}

-- The exception classes of the modelled files. `no_fuel` stands for none of them: a loop whose
-- rounds are counted returns it when the count is used up.
pub data Error : Type 0 where
  value_error : Error
  overflow_error : Error
  index_error : Error
  ledger_error : Error
  torn_tail_error : Error
  insecure_permissions : Error
  archive_error : Error
  nonce_store_error : Error
  capture_integrity_error : Error
  anchor_error : Error
  key_error : Error
  normalization_error : Error
  no_evidence : Error
  scoring_error : Error
  lifecycle_error : Error
  type_error : Error
  receipt_error : Error
  identity_error : Error
  attribute_error : Error
  verify_failure : Error
  canonical_error : Error
  no_fuel : Error

pub data Result {ℓ} (T : Type ℓ) : Type ℓ where
  -- an exception was raised
  err : Error → Result T
  -- the body returned
  ok : T → Result T

-- `if bad: raise e`
abbrev pub refuse : Bool → Error → Result (Unit {0})
refuse true e = err e
refuse false e = ok tt

infixl 5 ◌>>=◌ ◌>>◌
abbrev pub ◌>>=◌ {κ ℓ} : {S : Type κ} {T : Type ℓ} → Result S → (S → Result T) → Result T
◌>>=◌ (err raised) rest = err raised
◌>>=◌ (ok value) rest = rest value

-- A check in front of a body.
abbrev pub ◌>>◌ {ℓ} : {T : Type ℓ} → Result (Unit {0}) → Result T → Result T
check >> body = check >>= λ passed. body

pub refuse-eq-ok {ℓ} :
    {T : Type ℓ} (bad : Bool) (e : Error) (body : Result T) {t : T}
    → (refuse bad e >> body) ≡ ok t
    → (bad ≡ false) × (body ≡ ok t)
refuse-eq-ok true e body h = cc
refuse-eq-ok false e body h = (refl, h)

-- What a body returned went through its first step.
pub >>=-eq-ok {κ ℓ} :
    {S : Type κ} {T : Type ℓ} (first : Result S) (rest : S → Result T) {t : T}
    → (first >>= rest) ≡ ok t
    → (s : S) × (first ≡ ok s) × (rest s ≡ ok t)
>>=-eq-ok (err raised) rest h = cc
>>=-eq-ok (ok value) rest h = (value, refl, h)

pub bind-ok {ℓ} : {A : Type ℓ} (m : Result A) → (m >>= λ a. ok a) ≡ m
bind-ok (ok a) = refl
bind-ok (err e) = refl

pub Result-cases {ℓ} :
    {A : Type ℓ} (m : Result A) → ((a : A) × (m ≡ ok a)) ⊎ ((e : Error) × (m ≡ err e))
Result-cases (ok a) = inl (a, refl)
Result-cases (err e) = inr (e, refl)

pub ok_injective {ℓ} : {A : Type ℓ} (a b : A) → ◌≡◌ {A = Result A} (ok a) (ok b) → a ≡ b
ok_injective a b h = cc

pub err-ne-ok {ℓ} : {A : Type ℓ} (e : Error) (a : A) → ◌≡◌ {A = Result A} (err e) (ok a) → ⊥
err-ne-ok e a h = cc
