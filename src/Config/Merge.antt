-- ===== src/Config/Merge.antt =====
-- Merging refuses what is defined already, and loses nothing.
use multi_fuzz_benchmarks.Prelude.{
  ◌≡◌, refl, sym, ◌∙◌, true, false, Option, none, some, [], ◌∷◌, ◌==◌, text_eq, text_beq_iff, Text,
  Bool-cases, inl, inr, arith,
}
use multi_fuzz_benchmarks.Prelude.Dict
use multi_fuzz_benchmarks.Prelude.Dict.{Dict}
use multi_fuzz_benchmarks.Prelude.Outcome.{Result, ok, err}
use multi_fuzz_benchmarks.Prelude.Exec.{continue-eq-ok}
use multi_fuzz_benchmarks.Config.{
  Section, image, instance', task, docker', MergeError, redefinition, checked_insert, ConfigData,
  merge,
}

abbrev pub or_else {ℓ} : {A : Type ℓ} → Option A → Option A → Option A
or_else none b = b
or_else (some a) b = some a

pub or_else-none {ℓ} : {A : Type ℓ} (a : Option A) → or_else a none ≡ a
or_else-none none = refl
or_else-none (some a) = refl

module _ {V : Type 0} where
  contains_key-lookup :
      (k : Text) (m : Dict Text V) → Dict.contains_key k m ≡ false → Dict.lookup k m ≡ none
  unfolding Dict.contains_key Dict.lookup
  contains_key-lookup k [] h = refl
  contains_key-lookup k ((j, v) ∷ m) h = ground (arith, contains_key-lookup k m)

  lookup-contains_key :
      (k : Text) (m : Dict Text V)
      → Dict.contains_key k m ≡ true
      → (v : V) × (Dict.lookup k m ≡ some v)
  unfolding Dict.contains_key Dict.lookup
  lookup-contains_key k [] h = absurd (cc)
  lookup-contains_key k ((j, v) ∷ m) h = elim (Bool-cases (j == k)) [
    | inl e ↦ (v, rw e)
    | inr e ↦ let (w, q) = lookup-contains_key k m (rw e at h) in (w, rw e q)
  ]

  -- When no key was there before, each key has the value of the one table or of the other.
  lookup-checked_insert :
      (name : Section) (src dst : Dict Text V) (k : Text)
      → (checked_insert name src dst).0 ≡ ok tt
      → Dict.lookup k (checked_insert name src dst).1
        ≡ or_else (Dict.lookup k dst) (Dict.lookup k src)
  unfolding checked_insert Dict.lookup
  lookup-checked_insert name [] dst k h = sym (or_else-none (Dict.lookup k dst))
  lookup-checked_insert name ((key, v) ∷ src) dst k h =
      elim (Bool-cases (Dict.contains_key key dst)) [
        | inl c ↦
            absurd (
              let bad : err (redefinition name key) ≡ ok tt = rw (c, checked_insert) at h in cc bad)
        | inr c ↦
            let ih =
              lookup-checked_insert name src (Dict.insert key v dst) k
                (rw (c, checked_insert) at h) in
            rw (c, checked_insert)
              (ih
                ∙ rw (Dict.lookup-insert key k v dst) (elim (Bool-cases (key == k)) [
                  | inl e ↦
                      let same : key ≡ k = (text_beq_iff key k).0 e in
                      let fresh : Dict.lookup k dst ≡ none =
                        rw (← same) (contains_key-lookup key dst c) in
                      rw (e, fresh)
                  | inr e ↦ rw e
                ]))
      ]

  -- A refusal names a key that the table had, or that the incoming list holds twice.
  checked_insert-eq-err :
      (name n : Section) (k : Text) (src dst : Dict Text V)
      → (checked_insert name src dst).0 ≡ err (redefinition n k)
      → (n ≡ name) × (v : V) × (Dict.lookup k (checked_insert name src dst).1 ≡ some v)
  unfolding checked_insert
  checked_insert-eq-err name n k [] dst h = absurd (cc)
  checked_insert-eq-err name n k ((key, v) ∷ src) dst h =
      elim (Bool-cases (Dict.contains_key key dst)) [
        | inl c ↦
            let e : err (redefinition name key) ≡ err (redefinition n k) =
              rw (c, checked_insert) at h in
            let same : key ≡ k = cc e in
            let (w, q) = lookup-contains_key key dst c in
            (cc e, w, rw (c, checked_insert) (rw (← same) q))
        | inr c ↦
            let (p, w, q) =
              checked_insert-eq-err name n k src (Dict.insert key v dst)
                (rw (c, checked_insert) at h) in
            (p, w, rw (c, checked_insert) q)
      ]

-- Each name has what one of two tables has for it, the first of them first.
abbrev pub IsUnion : {V : Type 0} → Dict Text V → Dict Text V → Dict Text V → Type 0
IsUnion a b c = (k : Text) → Dict.lookup k c ≡ or_else (Dict.lookup k a) (Dict.lookup k b)

module _ {Image Instance Task Docker : Type 0} where
  pub record Unites (a b c : ConfigData Image Instance Task Docker) : Type 0 where
    pub images : IsUnion a.images b.images c.images
    pub instances : IsUnion a.instances b.instances c.instances
    pub tasks : IsUnion a.tasks b.tasks c.tasks
    pub docker : IsUnion a.docker b.docker c.docker

  -- A merge that succeeds keeps every definition of both configurations, in each of the four
  -- tables, and adds none.
  pub merge-Unites :
      (self other : ConfigData Image Instance Task Docker)
      → (merge other self).0 ≡ ok tt
      → Unites self other (merge other self).1
  unfolding merge
  merge-Unites self other h =
      let e1 : first.0 ≡ ok tt = continue-eq-ok first.0 _ _ h in
      let h1 = rw e1 at h in
      let e2 : second.0 ≡ ok tt = continue-eq-ok second.0 _ _ h1 in
      let h2 = rw e2 at h1 in
      let e3 : third.0 ≡ ok tt = continue-eq-ok third.0 _ _ h2 in
      let e4 : fourth.0 ≡ ok tt = rw e3 at h2 in
      rw (e1, e2, e3)
        (record {
          images = λ k. lookup-checked_insert image other.images self.images k e1;
          instances = λ k. lookup-checked_insert instance' other.instances self.instances k e2;
          tasks = λ k. lookup-checked_insert task other.tasks self.tasks k e3;
          docker = λ k. lookup-checked_insert docker' other.docker self.docker k e4;
        })
    where
      first : Result MergeError (Unit {0}) × Dict Text Image
      first = checked_insert image other.images self.images

      second : Result MergeError (Unit {0}) × Dict Text Instance
      second = checked_insert instance' other.instances self.instances

      third : Result MergeError (Unit {0}) × Dict Text Task
      third = checked_insert task other.tasks self.tasks

      fourth : Result MergeError (Unit {0}) × Dict Text Docker
      fourth = checked_insert docker' other.docker self.docker
