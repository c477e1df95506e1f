-- ===== src/Prelude/Does.antt =====
-- What a computation that succeeds has done: a relation of the worlds before and behind it.
use mathlib.Core.Path.{◌≡◌, refl}
use multi_fuzz_benchmarks.Prelude.Outcome.{Result, ok, err}
use multi_fuzz_benchmarks.Prelude.Exec.{Exec, relabel, continue, with_context, ◌>>=◌}

-- A call that has succeeded, from a world to another.
abbrev pub Runs : {World E A : Type 0} → Exec World E A → World → A → World → Type 0
Runs m w a v = ((m w).0 ≡ ok a) × (v ≡ (m w).1)

-- Where a call succeeds, its worlds and its value are related.
abbrev pub Does : {World E A : Type 0} → (World → A → World → Type 0) → Exec World E A → Type 0
Does {World} {E} {A} R m = (w : World) (a : A) → (m w).0 ≡ ok a → R w a (m w).1

module _ {World E A : Type 0} where
  pub run-Does : (m : Exec World E A) → Does (Runs m) m
  run-Does m w a h = (h, refl)

  pub context-Does :
      (R : World → A → World → Type 0) (f : E → E) (m : Exec World E A)
      → Does R m
      → Does R (with_context f m)
  context-Does R f m does w a h = go (m w).0 (does w a) h
    where
      go : (r : Result E A) → (r ≡ ok a → R w a (m w).1) → relabel f r ≡ ok a → R w a (m w).1
      go (ok b) k q = k q
      go (err e) k q = absurd (cc)

module _ {World E A B : Type 0} where
  -- Both parts of a sequence that succeeds have succeeded, one behind the other.
  pub bind-Does :
      (R : World → A → World → Type 0) (S : A → World → B → World → Type 0) (m : Exec World E A)
      (f : A → Exec World E B)
      → Does R m
      → ((a : A) → Does (S a) (f a))
      → Does (λ w b v. (a : A) × (u : World) × R w a u × S a u b v) (m >>= f)
  bind-Does R S m f first second w b h = go (m w).0 (first w) h
    where
      go :
          (r : Result E A)
          → ((a : A) → r ≡ ok a → R w a (m w).1)
          → (continue r f (m w).1).0 ≡ ok b
          → (a : A) × (u : World) × R w a u × S a u b (continue r f (m w).1).1
      go (ok a) k q = (a, (m w).1, k a refl, second a (m w).1 b q)
      go (err e) k q = absurd (cc)
