-- ===== src/Docker/Answers.antt =====
-- docker.rs, Container: the calls of docker that a removal makes, and their answers.
use multi_fuzz_benchmarks.Prelude.{
  ℕ, zero, suc, ◌≡◌, sym, Bool, true, false, [], ◌∷◌, Text, length, Bool-cases, inl, inr,
}
use multi_fuzz_benchmarks.Docker.{Container, stop, Calls, run_rm, run_stop, remove, remove_all}

-- Each call has the answer of docker to it.
abbrev pub AreAnswers : (ℕ → Bool) → Calls → Type 0
AreAnswers answers [] = Unit
AreAnswers answers ((call, succeeded) ∷ calls) =
    (succeeded ≡ answers (length calls)) × AreAnswers answers calls

module _ (answers : ℕ → Bool) where
  run_rm-AreAnswers :
      (self : Container) (calls : Calls)
      → AreAnswers answers calls
      → AreAnswers answers (run_rm answers self calls).2
  unfolding run_rm
  run_rm-AreAnswers self calls h = elim (Bool-cases (answers (length calls))) [
    | inl b ↦ rw (b, run_rm) (sym b, h)
    | inr b ↦ rw (b, run_rm) (sym b, h)
  ]

  run_stop-AreAnswers :
      (self : Container) (calls : Calls)
      → AreAnswers answers calls
      → AreAnswers answers (run_stop answers self calls).2
  unfolding run_stop
  run_stop-AreAnswers self calls h = elim (Bool-cases (answers (length calls))) [
    | inl b ↦
        rw (b, run_stop)
          (run_rm-AreAnswers (record self { active = false }) ((stop, true) ∷ calls) (sym b, h))
    | inr b ↦ rw (b, run_stop) (sym b, h)
  ]

  remove-AreAnswers :
      (name : Text) (active removed : Bool) (calls : Calls)
      → AreAnswers answers calls
      → AreAnswers answers
          (remove answers (record { name = name; active = active; removed = removed }) calls).2
  unfolding remove
  remove-AreAnswers name active true calls h = h
  remove-AreAnswers name true false calls h = run_stop-AreAnswers _ calls h
  remove-AreAnswers name false false calls h = run_rm-AreAnswers _ calls h

  pub remove_all-AreAnswers :
      (n : ℕ) (self : Container) (calls : Calls)
      → AreAnswers answers calls
      → AreAnswers answers (remove_all answers n self calls).1
  unfolding remove_all
  remove_all-AreAnswers zero self calls h = h
  remove_all-AreAnswers (suc n) self calls h =
      let once = remove answers self calls in
      remove_all-AreAnswers n once.1 once.2
        (remove-AreAnswers self.name self.active self.removed calls h)
