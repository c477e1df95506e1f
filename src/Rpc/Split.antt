-- ===== src/Rpc/Split.antt =====
-- Taking a command line apart.
use multi_fuzz_benchmarks.Prelude.{
  ◌≡◌, refl, sym, ap, inl, inr, false, Option, none, some, List, [], ◌∷◌, ◌++◌, map, Text, find,
  contains, find-contains, find-split, drop-drop, take, drop, Option-cases,
}
use multi_fuzz_benchmarks.Prelude.Maybe.{◌>>=◌}
use native.Mathlib.Numerals.{add-one}
use multi_fuzz_benchmarks.Rpc.{split_vars, split_command}

-- `key=value`.
abbrev pub assignment : Text × Text → Text
assignment kv = kv.0 ++ b'=' ∷ kv.1

abbrev pub AllKeys : List (Text × Text) → Type 0
AllKeys [] = Unit
AllKeys (kv ∷ vars) = (contains b'=' kv.0 ≡ false) × AllKeys vars

-- The words are the assignments and then the rest, which does not begin with an assignment.
abbrev pub NotAssignment : List Text → Type 0
NotAssignment [] = Unit
NotAssignment (word ∷ words) = contains b'=' word ≡ false

split_vars-words :
    (words : List Text)
    → (map assignment (split_vars words).0 ++ (split_vars words).1 ≡ words)
      × AllKeys (split_vars words).0
      × NotAssignment (split_vars words).1
unfolding split_vars
split_vars-words [] = (refl, tt, tt)
split_vars-words (word ∷ words) = elim (Option-cases (find b'=' word)) [
  | inl n ↦ rw (n, split_vars) (refl, tt, find-contains b'=' word n)
  | inr (i, e) ↦
      let (same, keys, rest) = split_vars-words words in
      let (parts, key, _) = find-split b'=' word i e in
      let whole : assignment (take i word, drop 1 (drop i word)) ≡ word =
        rw (drop-drop 1 i word, add-one) (sym parts) in
      rw (e, split_vars) (rw (whole) (ap (λ l. word ∷ l) same), (key, keys), rest)
]

split_of_parts :
    (words : List Text) (vs vars : List (Text × Text)) (rest : List Text) (bin : Text)
    (args : List Text)
    → map assignment vs ++ rest ≡ words
    → AllKeys vs
    → NotAssignment rest
    → ◌≡◌ {A = Option (List (Text × Text) × Text × List Text)}
        (elim rest [ [] ↦ none | b ∷ r ↦ some (vs, b, r) ])
        (some (vars, bin, args))
    → (map assignment vars ++ bin ∷ args ≡ words) × AllKeys vars × (contains b'=' bin ≡ false)
split_of_parts words vs vars [] bin args e k n h = absurd (cc)
split_of_parts words vs vars (b ∷ r) bin args e k n h =
    let same_vars : vs ≡ vars = cc h in
    let same_bin : b ≡ bin = cc h in
    let same_args : r ≡ args = cc h in rw (← same_vars, ← same_bin, ← same_args) (e, k, n)

-- A command line that is accepted consists of the assignments in front, with no `=` in their
-- names, of a program with none in it, and of the arguments, in the order of the words.
pub split_command-words :
    (shlex : Text → Option (List Text)) (input : Text) (words : List Text)
    (vars : List (Text × Text)) (bin : Text) (args : List Text)
    → shlex input ≡ some words
    → split_command shlex input ≡ some (vars, bin, args)
    → (map assignment vars ++ bin ∷ args ≡ words) × AllKeys vars × (contains b'=' bin ≡ false)
unfolding split_command
split_command-words shlex input words vars bin args e h =
    let (same, keys, rest) = split_vars-words words in
    split_of_parts words (split_vars words).0 vars (split_vars words).1 bin args same keys rest
      (rw (e, ◌>>=◌) at h)
