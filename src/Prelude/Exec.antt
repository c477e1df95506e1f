-- ===== src/Prelude/Exec.antt =====
-- Code that changes a world and may return an error early. What was done before the error stays.
use mathlib.Core.Path.{◌≡◌, refl}
use multi_fuzz_benchmarks.Prelude.Outcome.{Result, ok, err}

abbrev pub Exec {ℓ} : Type ℓ → Type ℓ → Type ℓ → Type ℓ
Exec W E A = W → Result E A × W

module _ {ℓ} {E A : Type ℓ} where
  abbrev pub relabel : (E → E) → Result E A → Result E A
  relabel f (ok a) = ok a
  relabel f (err e) = err (f e)

module _ {ℓ} {W E A : Type ℓ} where
  abbrev pub pure : A → Exec W E A
  pure a w = (ok a, w)

  -- `bail!`.
  abbrev pub raise : E → Exec W E A
  raise e w = (err e, w)

  abbrev pub lift : Result E A → Exec W E A
  lift r w = (r, w)

  -- The result as a value, for a `match` on it.
  abbrev pub attempt : Exec W E A → Exec W E (Result E A)
  attempt m w = let (r, w') = m w in (ok r, w')

  -- `with_context`.
  abbrev pub with_context : (E → E) → Exec W E A → Exec W E A
  with_context f m w = let (r, w') = m w in (relabel f r, w')

module _ {ℓ} {W E A B : Type ℓ} where
  abbrev pub continue : Result E A → (A → Exec W E B) → Exec W E B
  continue (ok a) f w = f a w
  continue (err e) f w = (err e, w)

  infixl 5 ◌>>=◌ ◌>>◌
  abbrev pub ◌>>=◌ : Exec W E A → (A → Exec W E B) → Exec W E B
  ◌>>=◌ m f w = let (r, w') = m w in continue r f w'

  abbrev pub ◌>>◌ : Exec W E A → Exec W E B → Exec W E B
  m >> k = m >>= λ _. k

module _ {W E B : Type 0} where
  -- A sequence that succeeds has succeeded in its first part.
  pub continue-eq-ok :
      (r : Result E (Unit {0})) (f : Unit {0} → Exec W E B) (w : W) {b : B}
      → (continue r f w).0 ≡ ok b
      → r ≡ ok tt
  continue-eq-ok (ok tt) f w h = refl
  continue-eq-ok (err e) f w h = absurd (cc)
