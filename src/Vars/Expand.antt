-- ===== src/Vars/Expand.antt =====
-- The expansion of templates, against its specification.
use multi_fuzz_benchmarks.Prelude.{
  ℕ, zero, suc, ◌<◌, ◌≡◌, refl, ap, ◌∙◌, ◌⊎◌, false, none, some, [], ◌∷◌, ◌++◌, append-nil,
  append_assoc, arith, Option-cases, inl, inr, Text, find, contains, find_of_contains, find-append,
  find_decompose, length, length-append, take-length_append, drop-length_append,
  drop-suc-length-append,
}
use multi_fuzz_benchmarks.Prelude.Maybe.{◌>>=◌}
use multi_fuzz_benchmarks.Vars.{Variables, split_template, substitute, expand_loop, expand_vars}

-- A key in braces between two texts.
abbrev pub template : Text → Text → Text → Text
template before key after = before ++ (b'{' ∷ (key ++ (b'}' ∷ after)))

pub split_template-append :
    (before key after : Text)
    → contains b'{' before ≡ false
    → contains b'}' key ≡ false
    → split_template (template before key after) ≡ some (before, key, after)
unfolding split_template
split_template-append before key after h k =
    rw (find-append b'{' before (key ++ (b'}' ∷ after)) h, ◌>>=◌)
      (rw
        (
          drop-length_append before (b'{' ∷ (key ++ (b'}' ∷ after))),
          take-length_append before (b'{' ∷ (key ++ (b'}' ∷ after))),
        )
        (rw (find-append b'}' key after k)
          (rw (take-length_append key (b'}' ∷ after), drop-suc-length-append key b'}' after))))

-- A text is a template around its first key, or has nothing to expand.
pub split_template-cases :
    (input : Text)
    → (split_template input ≡ none)
      ⊎ ((before : Text) × (key : Text) × (after : Text) × (input ≡ template before key after)
          × (contains b'{' before ≡ false)
          × (contains b'}' key ≡ false))
unfolding split_template
split_template-cases input = elim (Option-cases (find b'{' input)) [
  | inl e ↦ inl (rw (e, ◌>>=◌))
  | inr (i, e) ↦
      let (s, r, p, cs) = find_decompose b'{' input i e in
      elim (Option-cases (find b'}' r)) [
        | inl n ↦ inl (
            rw p (
              rw (find-append b'{' s r cs, ◌>>=◌)
                (rw (drop-length_append s (b'{' ∷ r)) (rw (n, ◌>>=◌)))))
        | inr (j, m) ↦
            let (k, a, q, ck) = find_decompose b'}' r j m in
            inr (s, k, a, p ∙ ap (λ l. s ++ b'{' ∷ l) q, cs, ck)
      ]
]

-- What follows a key is shorter than the whole.
pub length-after :
    (input before key after : Text)
    → split_template input ≡ some (before, key, after)
    → length after < length input
length-after input before key after h = elim (split_template-cases input) [
  | inl n ↦ absurd (cc)
  | inr (b, k, a, p, cb, ck) ↦
      let same : after ≡ a = cc (h, ap split_template p, split_template-append b k a cb ck) in
      rw (p, same)
        (omega (arith, length-append b (b'{' ∷ (k ++ (b'}' ∷ a))), length-append k (b'}' ∷ a)))
]

-- What the loop has expanded stands before what it expands.
expand_loop-append :
    (fuel : ℕ) (self : Variables) (acc input : Text)
    → expand_loop fuel self acc input ≡ acc ++ expand_loop fuel self [] input
unfolding expand_loop
expand_loop-append zero self acc input = rw append-nil
expand_loop-append (suc fuel) self acc [] = rw append-nil
expand_loop-append (suc fuel) self acc (c ∷ cs) = elim (Option-cases (split_template (c ∷ cs))) [
  | inl n ↦ rw (n, expand_loop)
  | inr ((b, k, a), e) ↦
      rw (e, expand_loop)
        (rw (expand_loop-append fuel self ((acc ++ b) ++ substitute self k) a)
          (rw (expand_loop-append fuel self (b ++ substitute self k) a) (simp append_assoc)))
]

-- More fuel than the input is long changes nothing.
expand_loop_fuel :
    (f g : ℕ) (self : Variables) (acc input : Text)
    → length input < f
    → length input < g
    → expand_loop f self acc input ≡ expand_loop g self acc input
unfolding expand_loop
expand_loop_fuel zero g self acc input h k = absurd (omega arith)
expand_loop_fuel (suc f) zero self acc input h k = absurd (omega arith)
expand_loop_fuel (suc f) (suc g) self acc [] h k = refl
expand_loop_fuel (suc f) (suc g) self acc (c ∷ cs) h k =
    elim (Option-cases (split_template (c ∷ cs))) [
      | inl n ↦ rw (n, expand_loop)
      | inr ((b, key, a), e) ↦
          rw (e, expand_loop)
            (expand_loop_fuel f g self ((acc ++ b) ++ substitute self key) a
              (omega (arith, length-after (c ∷ cs) b key a e))
              (omega (arith, length-after (c ∷ cs) b key a e)))
    ]

-- A text with nothing to split is its own expansion.
pub expand_vars-plain :
    (self : Variables) (input : Text) → split_template input ≡ none → expand_vars self input ≡ input
unfolding expand_vars
expand_vars-plain self [] h = refl
expand_vars-plain self (c ∷ cs) h = rw (h, expand_loop)

expand_vars-step :
    (self : Variables) (input before key after : Text)
    → split_template input ≡ some (before, key, after)
    → expand_vars self input ≡ before ++ (substitute self key ++ expand_vars self after)
unfolding expand_vars
expand_vars-step self [] b k a h = absurd (unfold split_template in cc h)
expand_vars-step self (c ∷ cs) b k a h =
    rw (h, expand_loop)
      (rw (expand_loop-append (suc (length cs)) self (b ++ substitute self k) a) (
        rw
          (expand_loop_fuel (suc (length cs)) (suc (length a)) self [] a
            (omega (arith, length-after (c ∷ cs) b k a h)) (omega arith))
          (append_assoc b (substitute self k) (expand_vars self a))))

-- When no brace stands in the text before the first key and none closes in the key, then the key is
-- replaced by what it stands for, what stands before it is kept, and the rest is expanded by the same
-- variables. What is put in is not expanded again.
pub expand_vars-template :
    (self : Variables) (before key after : Text)
    → contains b'{' before ≡ false
    → contains b'}' key ≡ false
    → expand_vars self (template before key after)
      ≡ before ++ (substitute self key ++ expand_vars self after)
expand_vars-template self before key after h k =
    expand_vars-step self (template before key after) before key after
      (split_template-append before key after h k)

-- A text with no opening brace is its own expansion.
pub expand_vars-of_no_brace :
    (self : Variables) (input : Text) → contains b'{' input ≡ false → expand_vars self input ≡ input
expand_vars-of_no_brace self input h =
    expand_vars-plain self input
      (unfold split_template in rw (find_of_contains b'{' input h, ◌>>=◌))
