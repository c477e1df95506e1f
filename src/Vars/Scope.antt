-- ===== src/Vars/Scope.antt =====
-- What a task's variables hold: each value is expanded by the variables that stand before it.
use multi_fuzz_benchmarks.Prelude.{
  ℕ, zero, suc, ◌<◌, ◌≡◌, refl, ap, ◌∙◌, Bool, true, false, none, some, List, [], ◌∷◌, ◌++◌,
  append_assoc, arith, if◌then◌else◌, Bool-cases, inl, inr, Text, text_eq, ◌==◌, contains, length,
  length-append,
}
use multi_fuzz_benchmarks.Prelude.Dict
use multi_fuzz_benchmarks.Prelude.Dict.{Dict}
use multi_fuzz_benchmarks.Vars.{Variables, substitute, expand_vars, insert, insert_all, get}
use multi_fuzz_benchmarks.Vars.Expand.{
  split_template-cases, expand_vars-template, expand_vars-plain, expand_vars-of_no_brace,
}

-- The test for an opening brace only saves work: a value is always stored expanded.
pub insert-expand_vars :
    (self : Variables) (key value : Text)
    → insert self key value ≡ record { vars = Dict.insert key (expand_vars self value) self.vars }
unfolding insert
insert-expand_vars self key value = elim (Bool-cases (contains b'{' value)) [
  | inl h ↦ rw h
  | inr h ↦ rw (h, expand_vars-of_no_brace self value h)
]

-- After an insertion the key has the expanded value, and every other key what it had.
pub get-insert :
    (self : Variables) (key j value : Text)
    → get (insert self key value) j
      ≡ (if key == j then some (expand_vars self value) else get self j)
unfolding get
get-insert self key j value =
    rw insert-expand_vars (Dict.lookup-insert key j (expand_vars self value) self.vars)

abbrev pub binds : Text → List (Text × Text) → Bool
binds k [] = false
binds k ((j, v) ∷ r) = if j == k then true else binds k r

pub insert_all-append :
    (self : Variables) (xs ys : List (Text × Text))
    → insert_all self (xs ++ ys) ≡ insert_all (insert_all self xs) ys
unfolding insert_all
insert_all-append self [] ys = refl
insert_all-append self ((k, v) ∷ xs) ys = insert_all-append (insert self k v) xs ys

get-insert_all_ne :
    (self : Variables) (k : Text) (es : List (Text × Text))
    → binds k es ≡ false
    → get (insert_all self es) k ≡ get self k
unfolding insert_all
get-insert_all_ne self k [] h = refl
get-insert_all_ne self k ((j, v) ∷ es) h = elim (Bool-cases (j == k)) [
  | inl e ↦ absurd (ground (arith))
  | inr e ↦ get-insert_all_ne (insert self j v) k es (rw e at h) ∙ (get-insert self j k v ∙ rw e)
]

-- An entry whose key none of the later entries has sets that key, and its value is expanded by the variables and
-- entries before it: those behind it have no part in it.
pub get-insert_all :
    (self : Variables) (before after : List (Text × Text)) (k v : Text)
    → binds k after ≡ false
    → get (insert_all self (before ++ (k, v) ∷ after)) k
      ≡ some (expand_vars (insert_all self before) v)
unfolding insert_all
get-insert_all self before after k v h = rw (insert_all-append) (
    get-insert_all_ne (insert (insert_all self before) k v) k after h
    ∙ (get-insert (insert_all self before) k k v ∙ rw (Dict.beq_refl {K = Text} k)))

substitute_unbound :
    (self : Variables) (key : Text)
    → get self key ≡ none
    → substitute self key ≡ b'{' ∷ (key ++ b'}' ∷ [])
unfolding substitute get
substitute_unbound self key h = rw (h, substitute)

expand_vars-unbound_of_length :
    (n : ℕ) (self : Variables) (input : Text)
    → ((key : Text) → get self key ≡ none)
    → length input < n
    → expand_vars self input ≡ input
expand_vars-unbound_of_length zero self input u h = absurd (omega arith)
expand_vars-unbound_of_length (suc n) self input u h = elim (split_template-cases input) [
  | inl e ↦ expand_vars-plain self input e
  | inr (b, k, a, p, cb, ck) ↦
      let shorter : length a < n = omega (
        arith,
        ap (length {A = ℕ}) p,
        length-append b (b'{' ∷ (k ++ (b'}' ∷ a))),
        length-append k (b'}' ∷ a),
      ) in
      rw (p, expand_vars-template self b k a cb ck)
        (rw (expand_vars-unbound_of_length n self a u shorter)
          (rw (substitute_unbound self k (u k)) (simp append_assoc)))
]

-- With no variable bound, expansion gives back the text, unknown keys in their braces included.
pub expand_vars-unbound :
    (self : Variables) (input : Text)
    → ((key : Text) → get self key ≡ none)
    → expand_vars self input ≡ input
expand_vars-unbound self input u =
    expand_vars-unbound_of_length (suc (length input)) self input u (omega arith)
