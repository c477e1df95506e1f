-- ===== src/Coverage/Names/Exploits.antt =====
-- lib.rs: the binaries with bug exploits, and where they stand in the order.
use mathlib.Core.Path.{subst}
use multi_fuzz_benchmarks.Prelude.{
  ℕ, ◌+◌, ◌≡◌, refl, ap, ◌∙◌, inl, inr, arith, Bool, true, false, ◌&&◌, Bool-cases, none, some,
  Option-cases, List, [], ◌∷◌, Text, text_eq, text_beq, text_beq_iff, leb,
}
use multi_fuzz_benchmarks.Coverage.Names.{
  position, ordered_names, binary_order, one_of, exploited, has_bug_exploit,
}

-- From "Gateway" to "RF_Door_Lock".
abbrev between : ℕ → Bool
between i = leb 15 i && leb i 20

-- Every name of the list, from the given position on, is of the exploits exactly in that range.
abbrev Agrees : ℕ → List Text → Type 0
Agrees k [] = Unit
Agrees k (x ∷ names) = (has_bug_exploit x ≡ between k) × Agrees (k + 1) names

ordered_names-Agrees : Agrees 0 ordered_names
unfolding has_bug_exploit one_of
ordered_names-Agrees = (
  refl,
  (
    refl,
    (
      refl,
      (
        refl,
        (
          refl,
          (
            refl,
            (
              refl,
              (
                refl,
                (
                  refl,
                  (
                    refl,
                    (
                      refl,
                      (
                        refl,
                        (
                          refl,
                          (
                            refl,
                            (
                              refl,
                              (
                                refl,
                                (
                                  refl,
                                  (
                                    refl,
                                    (refl, (refl, (refl, (refl, (refl, (refl, (refl, tt))))))),
                                  ),
                                ),
                              ),
                            ),
                          ),
                        ),
                      ),
                    ),
                  ),
                ),
              ),
            ),
          ),
        ),
      ),
    ),
  ),
)

position-Agrees :
    (k : ℕ) (names : List Text) (name : Text) (i : ℕ)
    → Agrees k names
    → position name names ≡ some i
    → has_bug_exploit name ≡ between (k + i)
unfolding position
position-Agrees k [] name i a h = absurd (cc)
position-Agrees k (x ∷ names) name i a h = elim (Bool-cases (text_beq x name)) [
  | inl e ↦
      let here : k ≡ k + i = ground arith in
      subst (λ n. has_bug_exploit n ≡ between (k + i)) ((text_beq_iff x name).0 e)
        (a.0 ∙ ap between here)
  | inr n ↦ elim (Option-cases (position name names)) [
    | inl q ↦ absurd (ground arith)
    | inr (j, q) ↦
        let there : k + 1 + j ≡ k + i = ground arith in
        position-Agrees (k + 1) names name j a.1 q ∙ ap between there
  ]
]

position-one_of :
    (names : List Text) (name : Text) → position name names ≡ none → one_of name names ≡ false
unfolding position one_of
position-one_of [] name h = refl
position-one_of (x ∷ names) name h = ground (arith, position-one_of names name)

one_of-one_of :
    (few all : List Text) (name : Text)
    → ((x : Text) → one_of x few ≡ true → one_of x all ≡ true)
    → one_of name all ≡ false
    → one_of name few ≡ false
one_of-one_of few all name h k = ground (arith, h name)

-- Every name of the one list is one of the other.
abbrev AreOf : List Text → List Text → Type 0
AreOf [] all = Unit
AreOf (x ∷ few) all = (one_of x all ≡ true) × AreOf few all

one_of-AreOf :
    (few all : List Text) (name : Text)
    → AreOf few all
    → one_of name few ≡ true
    → one_of name all ≡ true
unfolding one_of
one_of-AreOf [] all name a h = absurd (cc)
one_of-AreOf (x ∷ few) all name a h = elim (Bool-cases (text_beq x name)) [
  | inl e ↦ subst (λ n. one_of n all ≡ true) ((text_beq_iff x name).0 e) a.0
  | inr n ↦ one_of-AreOf few all name a.1 (ground arith)
]

exploited-ordered : AreOf exploited ordered_names
unfolding one_of
exploited-ordered = (refl, (refl, (refl, (refl, (refl, (refl, tt))))))

-- A name has a bug exploit exactly if the order of the plots puts it into the part of the list that
-- is marked as that of the binaries with bug exploits.
pub has_bug_exploit-binary_order :
    (name : Text)
    → has_bug_exploit name ≡ (leb 15 (binary_order name) && leb (binary_order name) 20)
unfolding binary_order has_bug_exploit
has_bug_exploit-binary_order name = elim (Option-cases (position name ordered_names)) [
  | inr (i, q) ↦
      let here : 0 + i ≡ i = omega arith in
      rw q (position-Agrees 0 ordered_names name i ordered_names-Agrees q ∙ ap between here)
  | inl q ↦ rw q (
      one_of-one_of exploited ordered_names name
        (λ x. one_of-AreOf exploited ordered_names x exploited-ordered)
        (position-one_of ordered_names name q))
]
