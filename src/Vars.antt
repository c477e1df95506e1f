-- ===== src/Vars.antt =====
-- bench-harness/bench-harness/src/utils.rs: the variables of a task and their expansion in
-- templates. The proofs are in the modules below.
pub mod Expand
pub mod Scope
use multi_fuzz_benchmarks.Prelude.{
  ℕ, zero, suc, ◌+◌, ◌-◌, Bool, true, false, not, Option, none, some, List, [], ◌∷◌, ◌++◌,
  if◌then◌else◌, Eq, text_eq, Text, find, contains, length, take, drop,
}
use multi_fuzz_benchmarks.Prelude.Dict
use multi_fuzz_benchmarks.Prelude.Dict.{Dict}
use multi_fuzz_benchmarks.Prelude.Maybe.{◌>>=◌}

pub record Variables : Type 0 where
  pub vars : Dict Text Text

abbrev pub default : Variables
default = record { vars = [] }

-- The text before the first `{`, the key up to the next `}`, and the rest.
unfoldable pub split_template : Text → Option (Text × Text × Text)
split_template input = do
  var_start ← find b'{' input
  let before = take var_start input
  let rest = drop var_start input
  var_end ← find b'}' rest
  some (before, drop 1 (take var_end rest), drop (suc var_end) rest)

-- What stands for a key: its value, or the key in its braces.
unfoldable pub substitute : Variables → Text → Text
substitute self key = elim (Dict.lookup key self.vars) [
  | some value ↦ value
  | none ↦ b'{' ∷ (key ++ b'}' ∷ [])
]

-- The `while` loop on fuel: each round drops at least the braces from the input.
unfoldable pub expand_loop : ℕ → Variables → Text → Text → Text
unfolding substitute
expand_loop zero self expanded input = expanded
expand_loop (suc fuel) self expanded [] = expanded
expand_loop (suc fuel) self expanded (c ∷ cs) = elim (split_template (c ∷ cs)) [
  | none ↦ expanded ++ c ∷ cs
  | some (before, key, after) ↦
      expand_loop fuel self ((expanded ++ before) ++ substitute self key) after
]

unfoldable pub expand_vars : Variables → Text → Text
unfolding expand_loop
expand_vars self input = expand_loop (suc (length input)) self [] input

unfoldable pub insert : Variables → Text → Text → Variables
insert self key value =
    if not (contains b'{' value)
    then record { vars = Dict.insert key value self.vars }
    else record { vars = Dict.insert key (expand_vars self value) self.vars }

unfoldable pub insert_all : Variables → List (Text × Text) → Variables
insert_all self [] = self
insert_all self ((key, value) ∷ entries) = insert_all (insert self key value) entries

unfoldable pub get : Variables → Text → Option Text
get self key = Dict.lookup key self.vars
