-- ===== src/Client/Retry.antt =====
-- A connection is tried a bounded number of times.
use multi_fuzz_benchmarks.Prelude.{ℕ, zero, suc, ◌+◌, ◌≤◌, ◌<◌, ◌≡◌, refl, ◌⊎◌, inl, inr, arith}
use native.Mathlib.Decide.{dec_lt}
use multi_fuzz_benchmarks.Prelude.Outcome.{Result, ok, err}
use multi_fuzz_benchmarks.Client.{Attempt, retry_loop, retry}

module _ {ℓ κ} {E : Type κ} {T : Type ℓ} where
  -- An attempt that is made again: its inner result is an error.
  abbrev pub SoftFails : Attempt E T → Type 0
  SoftFails (ok (err e)) = Unit
  SoftFails _ = ⊥

  -- What an attempt gives if it is the last one.
  abbrev pub outcome : Attempt E T → Result E T
  outcome (err e) = err e
  outcome (ok r) = r

  pub record Settles (f : ℕ → Attempt E T) (first last i : ℕ) : Type 0 where
    pub lower : first ≤ i
    pub upper : i ≤ last
    pub before : (j : ℕ) → first ≤ j → j < i → SoftFails (f j)
    pub settled : (¬ SoftFails (f i)) ⊎ (i ≡ last)

  attempt_cases :
      (a : Attempt E T)
      → ((e : E) × (a ≡ ok (err e))) ⊎ ((e : E) × (a ≡ err e)) ⊎ ((x : T) × (a ≡ ok (ok x)))
  attempt_cases (err e) = inr (inl (e, refl))
  attempt_cases (ok (err e)) = inl (e, refl)
  attempt_cases (ok (ok x)) = inr (inr (x, refl))

  here-Settles :
      (f : ℕ → Attempt E T) (first last : ℕ)
      → first ≤ last
      → (¬ SoftFails (f first)) ⊎ (first ≡ last)
      → Settles f first last first
  here-Settles f first last h d = record {
    lower = omega arith;
    upper = h;
    before = λ j a b. absurd (omega arith);
    settled = d;
  }

  retry_loop-Settles :
      (f : ℕ → Attempt E T) (first left last : ℕ)
      → first + left ≡ last
      → (i : ℕ) × Settles f first last i × (retry_loop f first left ≡ (outcome (f i), suc i))
  unfolding retry_loop
  retry_loop-Settles f first zero last h = (
    first,
    here-Settles f first last (omega arith) (inr (omega arith)),
    elim (attempt_cases (f first)) [
      | inl (e, p) ↦ rw (p, retry_loop)
      | inr (inl (e, p)) ↦ rw (p, retry_loop)
      | inr (inr (x, p)) ↦ rw (p, retry_loop)
    ],
  )
  retry_loop-Settles f first (suc left) last h = elim (attempt_cases (f first)) [
    | inr (inl (e, p)) ↦
        (first, here-Settles f first last (omega arith) (inl (rw p (λ z. z))), rw (p, retry_loop))
    | inr (inr (x, p)) ↦
        (first, here-Settles f first last (omega arith) (inl (rw p (λ z. z))), rw (p, retry_loop))
    | inl (e, p) ↦
        let (i, s, run) = retry_loop-Settles f (suc first) left last (omega arith) in
        (
          i,
          record {
            lower = omega (arith, s.lower);
            upper = s.upper;
            before = λ j a b. soft_from j s.before (rw p tt) a b;
            settled = s.settled;
          },
          rw (p, retry_loop) run,
        )
  ]
    where
      soft_from :
          {i : ℕ} (j : ℕ)
          → ((k : ℕ) → suc first ≤ k → k < i → SoftFails (f k))
          → SoftFails (f first)
          → first ≤ j
          → j < i
          → SoftFails (f j)
      soft_from j later here a b = elim (dec_lt first j) [
        | yes q ↦ later j q b
        | no q ↦ let same : j ≡ first = omega arith in rw same here
      ]

  -- `retry` stops at the first call that succeeds or fails for good, or at call number
  -- `max_retries + 1`; it returns what that call gave, and has made exactly the calls up to it.
  pub retry-Settles :
      (f : ℕ → Attempt E T) (max_retries : ℕ)
      → (i : ℕ) × Settles f 0 max_retries i × (retry f max_retries ≡ (outcome (f i), suc i))
  unfolding retry
  retry-Settles f max_retries = retry_loop-Settles f 0 max_retries max_retries (omega arith)
