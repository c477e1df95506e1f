-- ===== src/Prelude/Returns.antt =====
-- What holds of the value and of the world of a computation that succeeds.
use mathlib.Core.Path.{◌≡◌, refl, sym, subst}
use mathlib.Core.Bool.{Bool, true, false}
use multi_fuzz_benchmarks.Prelude.Outcome.{Result, ok, err}
use multi_fuzz_benchmarks.Prelude.Exec.{Exec, relabel, pure, raise, continue, with_context, ◌>>=◌}

pub ok_injective : {E A : Type 0} {a b : A} → ◌≡◌ {A = Result E A} (ok a) (ok b) → a ≡ b
ok_injective h = cc

module _ {W E A : Type 0} where
  abbrev pub Returns : (A → W → Type 0) → Exec W E A → Type 0
  Returns P m = (w : W) (a : A) → (m w).0 ≡ ok a → P a (m w).1

  pub any-Returns : (m : Exec W E A) → Returns (λ _ _. Unit) m
  any-Returns m w a h = tt

  pub pure-Returns : (P : A → W → Type 0) (a : A) → ((w : W) → P a w) → Returns P (pure a)
  pure-Returns P a p w b h = subst (λ x. P x w) (ok_injective h) (p w)

  pub raise-Returns : (P : A → W → Type 0) (e : E) → Returns P (raise e)
  raise-Returns P e w a h = absurd (cc)

  pub context-Returns :
      (P : A → W → Type 0) (f : E → E) (m : Exec W E A) → Returns P m → Returns P (with_context f m)
  context-Returns P f m p w a h = go (m w).0 (p w a) h
    where
      go : (r : Result E A) → (r ≡ ok a → P a (m w).1) → relabel f r ≡ ok a → P a (m w).1
      go (ok b) k e = k e
      go (err b) k e = absurd (cc)

  -- A choice by a test.
  pub choose-Returns :
      (P : A → W → Type 0) (test : Bool) (m n : Exec W E A)
      → ((w : W) (a : A) → test ≡ true → (m w).0 ≡ ok a → P a (m w).1)
      → ((w : W) (a : A) → test ≡ false → (n w).0 ≡ ok a → P a (n w).1)
      → Returns P (elim test [ true ↦ m | false ↦ n ])
  choose-Returns P true m n p q w a h = p w a refl h
  choose-Returns P false m n p q w a h = q w a refl h

module _ {W E A B : Type 0} where
  pub bind-Returns :
      (P : A → W → Type 0) (Q : B → W → Type 0) (m : Exec W E A) (f : A → Exec W E B)
      → Returns P m
      → ((a : A) (v : W) → P a v → (b : B) → (f a v).0 ≡ ok b → Q b (f a v).1)
      → Returns Q (m >>= f)
  bind-Returns P Q m f p q w b h = go (m w).0 (m w).1 (p w) h
    where
      go :
          (r : Result E A) (v : W)
          → ((a : A) → r ≡ ok a → P a v)
          → (continue r f v).0 ≡ ok b
          → Q b (continue r f v).1
      go (ok a) v k e = q a v (k a refl) b e
      go (err e) v k h = absurd (cc)

  pub then-Returns :
      (Q : B → W → Type 0) (m : Exec W E A) (f : A → Exec W E B)
      → ((a : A) → Returns Q (f a))
      → Returns Q (m >>= f)
  then-Returns Q m f q = bind-Returns (λ _ _. Unit) Q m f (any-Returns m) (λ a v _ b h. q a v b h)

  -- A sequence does not succeed where its first part does not.
  pub stop-Returns :
      (Q : B → W → Type 0) (m : Exec W E A) (f : A → Exec W E B)
      → Returns (λ _ _. ⊥) m
      → Returns Q (m >>= f)
  stop-Returns Q m f p = bind-Returns (λ _ _. ⊥) Q m f p (λ a v no b h. absurd no)

  -- Where a sequence succeeds, both parts do.
  pub bind-ok :
      (m : Exec W E A) (f : A → Exec W E B) (w : W) {b : B}
      → ((m >>= f) w).0 ≡ ok b
      → (a : A) × ((m w).0 ≡ ok a) × ((f a (m w).1).0 ≡ ok b)
  bind-ok m f w {b} h = go (m w).0 h
    where
      go :
          (r : Result E A)
          → (continue r f (m w).1).0 ≡ ok b
          → (a : A) × (r ≡ ok a) × ((f a (m w).1).0 ≡ ok b)
      go (ok a) q = (a, refl, q)
      go (err e) q = absurd (cc)

  -- A value that is given back behind a computation.
  pub then_pure :
      (m : Exec W E A) (b : B) (w : W) (c : B)
      → ((m >>= λ _. pure b) w).0 ≡ ok c
      → (c ≡ b) × (((m >>= λ _. pure b) w).1 ≡ (m w).1)
  then_pure m b w c h = go (m w).0 h
    where
      go :
          (r : Result E A)
          → (continue r (λ _. pure b) (m w).1).0 ≡ ok c
          → (c ≡ b) × ((continue r (λ _. pure b) (m w).1).1 ≡ (m w).1)
      go (ok a) e = (sym (ok_injective e), refl)
      go (err e') e = absurd (cc)

-- What holds of the world behind a computation that fails.
module _ {W E A : Type 0} where
  abbrev pub Raises : (W → Type 0) → Exec W E A → Type 0
  Raises P m = (w : W) (e : E) → (m w).0 ≡ err e → P (m w).1

  pub pure-Raises : (P : W → Type 0) (a : A) → Raises P (pure a)
  pure-Raises P a w e h = absurd (cc)

  pub context-Raises :
      (P : W → Type 0) (f : E → E) (m : Exec W E A) → Raises P m → Raises P (with_context f m)
  context-Raises P f m p w e h = go (m w).0 (p w) h
    where
      go : (r : Result E A) → ((e : E) → r ≡ err e → P (m w).1) → relabel f r ≡ err e → P (m w).1
      go (ok b) k q = absurd (cc)
      go (err b) k q = k b refl

module _ {W E A B : Type 0} where
  -- From one world.
  pub bind-raised :
      (P : W → Type 0) (m : Exec W E A) (f : A → Exec W E B) (w : W)
      → ((e : E) → (m w).0 ≡ err e → P (m w).1)
      → ((a : A) → Raises P (f a))
      → (e : E) → ((m >>= f) w).0 ≡ err e
      → P ((m >>= f) w).1
  bind-raised P m f w p q e h = go (m w).0 (m w).1 p h
    where
      go :
          (r : Result E A) (v : W)
          → ((e : E) → r ≡ err e → P v)
          → (continue r f v).0 ≡ err e
          → P (continue r f v).1
      go (ok a) v k h = q a v e h
      go (err e') v k h = k e' refl

  pub bind-Raises :
      (P : W → Type 0) (m : Exec W E A) (f : A → Exec W E B)
      → Raises P m
      → ((a : A) → Raises P (f a))
      → Raises P (m >>= f)
  bind-Raises P m f p q w = bind-raised P m f w (p w) q
