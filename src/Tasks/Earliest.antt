-- ===== src/Tasks/Earliest.antt =====
-- tasks.rs: the map of `resolve_bug_ids` has the earliest time of each bug.
use multi_fuzz_benchmarks.Prelude.{
  ℕ, min, false, Option, none, some, List, [], ◌∷◌, ◌≡◌, refl, Text, text_beq, text_beq_iff, ap,
  ◌∙◌, if◌then◌else◌, Bool-cases, Option-cases, inl, inr,
}
use mathlib.Core.Path.{subst}
use multi_fuzz_benchmarks.Prelude.Exec.{Exec}
use multi_fuzz_benchmarks.Prelude.Outcome.{ok}
use multi_fuzz_benchmarks.Prelude.Tree
use multi_fuzz_benchmarks.Prelude.Tree.{Tree, text_ord, get-insert_text}
use multi_fuzz_benchmarks.Rpc.{DirEntry}
use multi_fuzz_benchmarks.Afl.{get_relative_time}
use multi_fuzz_benchmarks.Env.{Env, Failure}
use multi_fuzz_benchmarks.Tasks.Bugs.{note_bug, note_bugs, resolve_entries}

unfoldable pub earlier : Option ℕ → ℕ → Option ℕ
earlier none time = some time
earlier (some t) time = some (min t time)

-- A bug's time after a report of some bugs that were found at a time.
unfoldable pub reported : Text → List Text → ℕ → Option ℕ → Option ℕ
unfolding earlier
reported j [] time t = t
reported j (id ∷ ids) time t = reported j ids time (if text_beq id j then earlier t time else t)

note_bug-new :
    (id : Text) (time : ℕ) (bugs : Tree Text ℕ)
    → Tree.get id bugs ≡ none
    → note_bug id time bugs ≡ Tree.insert id time bugs
unfolding note_bug
note_bug-new id time bugs e = rw (e, note_bug) refl

note_bug-known :
    (id : Text) (time t : ℕ) (bugs : Tree Text ℕ)
    → Tree.get id bugs ≡ some t
    → note_bug id time bugs ≡ Tree.insert id (min t time) bugs
unfolding note_bug
note_bug-known id time t bugs e = rw (e, note_bug) refl

note_bug-earlier :
    (id : Text) (time : ℕ) (bugs : Tree Text ℕ) (j : Text)
    → Tree.get j (note_bug id time bugs)
      ≡ (if text_beq id j then earlier (Tree.get j bugs) time else Tree.get j bugs)
unfolding earlier
note_bug-earlier id time bugs j = elim (Option-cases (Tree.get id bugs)) [
  | inl e ↦
      rw (note_bug-new id time bugs e, get-insert_text id j time bugs)
        (elim (Bool-cases (text_beq id j)) [
          | inl s ↦
              let same : id ≡ j = (text_beq_iff id j).0 s in
              rw (s, subst (λ k. Tree.get k bugs ≡ none) same e) refl
          | inr s ↦ rw s refl
        ])
  | inr (t, e) ↦
      rw (note_bug-known id time t bugs e, get-insert_text id j (min t time) bugs)
        (elim (Bool-cases (text_beq id j)) [
          | inl s ↦
              let same : id ≡ j = (text_beq_iff id j).0 s in
              rw (s, subst (λ k. Tree.get k bugs ≡ some t) same e) refl
          | inr s ↦ rw s refl
        ])
]

note_bugs-reported :
    (ids : List Text) (time : ℕ) (bugs : Tree Text ℕ) (j : Text)
    → Tree.get j (note_bugs ids time bugs) ≡ reported j ids time (Tree.get j bugs)
unfolding note_bugs reported
note_bugs-reported [] time bugs j = refl
note_bugs-reported (id ∷ ids) time bugs j =
    rw (note_bugs-reported ids time (note_bug id time bugs) j, note_bug-earlier id time bugs j) refl

module _ (env : Env) where
  open env use {World, file_name, is_numeric, should_stop}

  -- A bug's time after the reports of all entries, where `ids_of` gives the bugs of an entry.
  unfoldable pub earliest : (DirEntry → List Text) → ℕ → Text → List DirEntry → Option ℕ → Option ℕ
  earliest ids_of start_time j [] t = t
  earliest ids_of start_time j (entry ∷ entries) t = earliest ids_of start_time j entries (
      reported j (ids_of entry)
        (get_relative_time is_numeric (file_name entry.path) entry start_time) t)

  -- If no stop is requested and every crash can be read, then resolving the crashes succeeds, and
  -- its map has each bug at the earliest time of the crashes that show it, and no other bug.
  pub resolve_entries-earliest :
      (resolve_input : DirEntry → Exec World Failure (List Text)) (ids_of : DirEntry → List Text)
      (go_on : (w : World) → (should_stop w).0 ≡ false)
      (readable : (entry : DirEntry) (w : World) → (resolve_input entry w).0 ≡ ok (ids_of entry))
      (start_time : ℕ) (entries : List DirEntry) (bugs : Tree Text ℕ) (w : World)
      → (m : Tree Text ℕ) × ((resolve_entries env resolve_input start_time entries bugs w).0 ≡ ok m)
        × ((j : Text) → Tree.get j m ≡ earliest ids_of start_time j entries (Tree.get j bugs))
  unfolding resolve_entries earliest
  resolve_entries-earliest resolve_input ids_of go_on readable start_time [] bugs w =
      (bugs, refl, λ j. refl)
  resolve_entries-earliest resolve_input ids_of go_on readable start_time (entry ∷ entries) bugs w =
      let w' = (should_stop w).1 in
      let w'' = (resolve_input entry w').1 in
      let time = get_relative_time is_numeric (file_name entry.path) entry start_time in
      let (m, resolved, earliest') =
        resolve_entries-earliest resolve_input ids_of go_on readable start_time entries
          (note_bugs (ids_of entry) time bugs) w'' in
      rw (go_on w, readable entry w')
        (
          m,
          resolved,
          λ j.
              earliest' j
              ∙ ap (earliest ids_of start_time j entries)
                  (note_bugs-reported (ids_of entry) time bugs j),
        )
