-- ===== src/Effect.antt =====
-- Code that changes state and may raise. What was written before a raise stays written, so the
-- state comes back beside the exception too.
use mybench.Base.{Result, ok, err, Error}

abbrev pub Effect {ℓ} : Type ℓ → Type ℓ → Type ℓ
Effect S A = S → Result A × S

module _ {ℓ} {S A : Type ℓ} where
  abbrev pub pure : A → Effect S A
  pure a s = (ok a, s)

  abbrev pub raise : Error → Effect S A
  raise e s = (err e, s)

  -- A computation that reads the state and does not change it.
  abbrev pub reads : (S → Result A) → Effect S A
  reads f s = (f s, s)

  abbrev pub lift : Result A → Effect S A
  lift r s = (r, s)

module _ {ℓ} {S A B : Type ℓ} where
  abbrev pub continue : Result A → (A → Effect S B) → Effect S B
  continue (ok a) f s = f a s
  continue (err e) f s = (err e, s)

  infixl 5 ◌>>=◌ ◌>>◌
  abbrev pub ◌>>=◌ : Effect S A → (A → Effect S B) → Effect S B
  ◌>>=◌ m f s = continue (m s).0 f (m s).1

  abbrev pub ◌>>◌ : Effect S A → Effect S B → Effect S B
  m >> n = m >>= λ _. n
