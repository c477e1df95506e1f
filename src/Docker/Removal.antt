-- ===== src/Docker/Removal.antt =====
-- docker.rs, Container: how a container is stopped and removed.
use multi_fuzz_benchmarks.Prelude.{
  ℕ, zero, suc, ◌≡◌, refl, ap, ◌∙◌, ◌+◌, ◌<◌, ◌⊎◌, arith, Bool, true, false, Option, none, some, [],
  ◌∷◌, Text, length, Bool-cases, inl, inr,
}
use multi_fuzz_benchmarks.Prelude.Outcome.{Result, ok}
use multi_fuzz_benchmarks.Docker.{
  Container, Call, stop, rm, Calls, running_container, run_rm, run_stop, remove, remove_all,
}
use multi_fuzz_benchmarks.Docker.Answers.{AreAnswers, remove_all-AreAnswers}

-- A container as docker sees it after some calls.
pub data Life : Type 0 where
  running stopped gone : Life

-- `None` for a call that makes no sense: a stop of a container that does not run, or a removal of
-- one that runs or is gone.
unfoldable pub after : Calls → Option Life
after [] = some running
after ((call, succeeded) ∷ calls) = call_on call succeeded (after calls)
  where
    call_on : Call → Bool → Option Life → Option Life
    call_on stop true (some running) = some stopped
    call_on stop false (some running) = some running
    call_on rm true (some stopped) = some gone
    call_on rm false (some stopped) = some stopped
    call_on _ _ _ = none

-- The life that the flags of a container stand for.
unfoldable pub life_of : Bool → Bool → Life
life_of active true = gone
life_of true false = running
life_of false false = stopped

-- How many of the calls failed.
unfoldable pub failures : Calls → ℕ
failures [] = 0
failures ((call, true) ∷ calls) = failures calls
failures ((call, false) ∷ calls) = suc (failures calls)

-- Behind `n` removals, the container is gone and fewer than `n` more calls have failed, or each
-- removal has ended with a call that failed.
abbrev pub Ends : ℕ → ℕ → Container → Calls → Type 0
Ends before n self calls =
    ((self.removed ≡ true) × (failures calls < before + n))
    ⊎ ((self.removed ≡ false) × (failures calls ≡ before + n))

-- The flags are those that the calls have led to.
abbrev Follows : Result Text (Unit {0}) × Container × Calls → Type 0
Follows (result, self, calls) = after calls ≡ some (life_of self.active self.removed)

module _ (answers : ℕ → Bool) where
  run_rm-Follows :
      (name : Text) (calls : Calls)
      → after calls ≡ some stopped
      → Follows (run_rm answers (record { name = name; active = false; removed = false }) calls)
  unfolding run_rm after life_of
  run_rm-Follows name calls h = elim (Bool-cases (answers (length calls))) [
    | inl b ↦ rw (b, run_rm) (rw (h, after) refl)
    | inr b ↦ rw (b, run_rm) (rw (h, after) refl)
  ]

  run_stop-Follows :
      (name : Text) (calls : Calls)
      → after calls ≡ some running
      → Follows (run_stop answers (record { name = name; active = true; removed = false }) calls)
  unfolding run_stop after life_of
  run_stop-Follows name calls h = elim (Bool-cases (answers (length calls))) [
    | inl b ↦ rw (b, run_stop) (run_rm-Follows name ((stop, true) ∷ calls) (rw (h, after) refl))
    | inr b ↦ rw (b, run_stop) (rw (h, after) refl)
  ]

  remove-Follows :
      (name : Text) (active removed : Bool) (calls : Calls)
      → after calls ≡ some (life_of active removed)
      → Follows (remove answers (record { name = name; active = active; removed = removed }) calls)
  unfolding remove life_of
  remove-Follows name active true calls h = h
  remove-Follows name true false calls h = run_stop-Follows name calls h
  remove-Follows name false false calls h = run_rm-Follows name calls h

  remove_all-life :
      (n : ℕ) (self : Container) (calls : Calls)
      → after calls ≡ some (life_of self.active self.removed)
      → after (remove_all answers n self calls).1
        ≡ some (
            life_of
              (remove_all answers n self calls).0.active
              (remove_all answers n self calls).0.removed)
  unfolding remove_all
  remove_all-life zero self calls h = h
  remove_all-life (suc n) self calls h =
      let once = remove answers self calls in
      remove_all-life n once.1 once.2 (remove-Follows self.name self.active self.removed calls h)

  remove-failures :
      (name : Text) (active : Bool) (calls : Calls)
      → Ends
          (failures calls)
          1
          (remove answers (record { name = name; active = active; removed = false }) calls).1
          (remove answers (record { name = name; active = active; removed = false }) calls).2
  unfolding remove run_stop run_rm failures
  remove-failures name false calls = elim (Bool-cases (answers (length calls))) [
    | inl b ↦ rw (b, remove, run_rm) (inl (refl, omega arith))
    | inr b ↦ rw (b, remove, run_rm) (inr (refl, omega arith))
  ]
  remove-failures name true calls = elim (Bool-cases (answers (length calls))) [
    | inl b ↦
        rw (b, remove, run_stop)
          (elim (Bool-cases (answers (suc (length calls)))) [
            | inl c ↦ rw (c, run_rm) (inl (refl, omega arith))
            | inr c ↦ rw (c, run_rm) (inr (refl, omega arith))
          ])
    | inr b ↦ rw (b, remove, run_stop) (inr (refl, omega arith))
  ]

  remove-Ends :
      (name : Text) (active removed : Bool) (calls : Calls)
      → removed ≡ false
      → Ends
          (failures calls)
          1
          (remove answers (record { name = name; active = active; removed = removed }) calls).1
          (remove answers (record { name = name; active = active; removed = removed }) calls).2
  remove-Ends name active true calls h = absurd (cc)
  remove-Ends name active false calls h = remove-failures name active calls

  remove-removed :
      (name : Text) (active removed : Bool) (calls : Calls)
      → removed ≡ true
      → remove answers (record { name = name; active = active; removed = removed }) calls
        ≡ (ok tt, record { name = name; active = active; removed = removed }, calls)
  unfolding remove
  remove-removed name active true calls h = refl
  remove-removed name active false calls h = absurd (cc)

  -- A container that is gone is left alone.
  remove_all-removed :
      (n : ℕ) (self : Container) (calls : Calls)
      → self.removed ≡ true
      → remove_all answers n self calls ≡ (self, calls)
  unfolding remove_all
  remove_all-removed zero self calls h = refl
  remove_all-removed (suc n) self calls h =
      ap (λ r. remove_all answers n r.1 r.2)
        (remove-removed self.name self.active self.removed calls h)
      ∙ remove_all-removed n self calls h

  Ends-more :
      (before between n : ℕ) (self : Container) (calls : Calls)
      → between ≡ before + 1
      → Ends between n self calls
      → Ends before (suc n) self calls
  Ends-more before between n self calls h (inl (removed, few)) = inl (removed, omega arith)
  Ends-more before between n self calls h (inr (there, all)) = inr (there, omega arith)

  remove_all-Ends :
      (n : ℕ) (self : Container) (calls : Calls)
      → self.removed ≡ false
      → Ends
          (failures calls)
          n
          (remove_all answers n self calls).0
          (remove_all answers n self calls).1
  unfolding remove_all
  remove_all-Ends zero self calls h = inr (h, omega arith)
  remove_all-Ends (suc n) self calls h =
      let once = remove answers self calls in
      elim (remove-Ends self.name self.active self.removed calls h) [
        | inl (removed, few) ↦
            rw (remove_all-removed n once.1 once.2 removed) (inl (removed, omega arith))
        | inr (there, all) ↦
            Ends-more (failures calls) (failures once.2) n (remove_all answers n once.1 once.2).0
              (remove_all answers n once.1 once.2).1 all (remove_all-Ends n once.1 once.2 there)
      ]

  -- A container that was started and is then removed `n` times, by its owner and when it is
  -- dropped, whichever calls of docker fail: the calls are stops up to the first that succeeds,
  -- and behind it removals up to the first that succeeds, each with the answer of docker; the
  -- flags of the container say how far that is. Either each of the `n` times has ended with one
  -- call that failed, or the container is gone and fewer than `n` calls have failed.
  pub remove_all-after :
      (n : ℕ) (name : Text)
      → (after (remove_all answers n (running_container name) []).1
          ≡ some (
              life_of
                (remove_all answers n (running_container name) []).0.active
                (remove_all answers n (running_container name) []).0.removed))
        × AreAnswers answers (remove_all answers n (running_container name) []).1
        × Ends 0 n
            (remove_all answers n (running_container name) []).0
            (remove_all answers n (running_container name) []).1
  unfolding running_container after life_of failures
  remove_all-after n name = (
    remove_all-life n (running_container name) [] refl,
    remove_all-AreAnswers answers n (running_container name) [] tt,
    remove_all-Ends n (running_container name) [] refl,
  )
