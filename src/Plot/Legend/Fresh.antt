-- ===== src/Plot/Legend/Fresh.antt =====
-- utils.rs, Legend: different names look different.
use multi_fuzz_benchmarks.Prelude.{
  ℕ, ◌+◌, ◌≡◌, ◌≢◌, ◌≤◌, ◌<◌, ◌⊎◌, inl, inr, refl, sym, arith, none, some, Option-cases, List, [],
  ◌∷◌, ◌++◌, foldl, Text, text_eq, text_beq_iff,
}
use mathlib.Core.Path.{subst}
use multi_fuzz_benchmarks.Prelude.Dict.{Dict, lookup}
use multi_fuzz_benchmarks.Plot.Legend.{
  Entry, Legend, new_with_mapping, position, id_of, entry_of, get_or_insert, max_value,
}

-- The ids of a legend can be read off its entries if they stand for the colors.
abbrev insert_id : Legend ℕ → Text → Legend ℕ
insert_id self name = (get_or_insert (λ id. id) name self).0

abbrev AllEntries : (Entry ℕ → Type 0) → List (Entry ℕ) → Type 0
AllEntries P [] = Unit
AllEntries P (entry ∷ entries) = P entry × AllEntries P entries

-- An entry with another name and another id than the given ones.
abbrev IsUnlike : Text → ℕ → Entry ℕ → Type 0
IsUnlike name id entry = (entry.name ≢ name) × (entry.color ≢ id)

abbrev pub IsApart : List (Entry ℕ) → Type 0
IsApart [] = Unit
IsApart (entry ∷ entries) = AllEntries (IsUnlike entry.name entry.color) entries × IsApart entries

abbrev pub IsInjective : Dict Text ℕ → Type 0
IsInjective mapping =
    (a b : Text) (id : ℕ) → lookup a mapping ≡ some id → lookup b mapping ≡ some id → a ≡ b

-- An entry has its id from the mapping or from the counter.
abbrev IsKnown : Dict Text ℕ → ℕ → ℕ → Entry ℕ → Type 0
IsKnown mapping base next_id entry =
    (lookup entry.name mapping ≡ some entry.color)
    ⊎ ((base ≤ entry.color) × (entry.color < next_id))

-- Above all ids of a mapping.
unfoldable bound : Dict Text ℕ → ℕ
unfolding max_value
bound mapping = elim (max_value mapping) [ none ↦ 0 | some id ↦ id + 1 ]

lookup-lt :
    (name : Text) (mapping : Dict Text ℕ) (id : ℕ)
    → lookup name mapping ≡ some id
    → id < bound mapping
unfolding bound lookup max_value
lookup-lt name [] id h = absurd (cc)
lookup-lt name ((key, other) ∷ mapping) id h = ground (arith, lookup-lt name mapping id)

AllEntries-append :
    (P : Entry ℕ → Type 0) (entries : List (Entry ℕ)) (entry : Entry ℕ)
    → AllEntries P entries
    → P entry
    → AllEntries P (entries ++ entry ∷ [])
AllEntries-append P [] entry all p = (p, tt)
AllEntries-append P (e ∷ entries) entry all p = (all.0, AllEntries-append P entries entry all.1 p)

AllEntries-map :
    (P Q : Entry ℕ → Type 0) (entries : List (Entry ℕ))
    → ((entry : Entry ℕ) → P entry → Q entry)
    → AllEntries P entries
    → AllEntries Q entries
AllEntries-map P Q [] f all = tt
AllEntries-map P Q (entry ∷ entries) f all = (f entry all.0, AllEntries-map P Q entries f all.1)

IsApart-append :
    (entries : List (Entry ℕ)) (entry : Entry ℕ)
    → IsApart entries
    → AllEntries (IsUnlike entry.name entry.color) entries
    → IsApart (entries ++ entry ∷ [])
IsApart-append [] entry h all = (tt, tt)
IsApart-append (e ∷ entries) entry h all = (
  AllEntries-append (IsUnlike e.name e.color) entries entry h.0
      ((λ p. all.0.0 (sym p)), (λ p. all.0.1 (sym p))),
  IsApart-append entries entry h.1 all.1,
)

-- A name without a position is that of no entry.
position-IsUnlike :
    (P : Entry ℕ → Type 0) (name : Text) (id : ℕ) (entries : List (Entry ℕ))
    → position name entries ≡ none
    → ((entry : Entry ℕ) → P entry → entry.name ≢ name → entry.color ≢ id)
    → AllEntries P entries
    → AllEntries (IsUnlike name id) entries
unfolding position
position-IsUnlike P name id [] h f all = tt
position-IsUnlike P name id (entry ∷ entries) h f all =
    let other : entry.name ≢ name = λ p. ground (arith, text_beq_iff entry.name name) in
    let later : position name entries ≡ none = ground arith in
    ((other, f entry all.0 other), position-IsUnlike P name id entries later f all.1)

-- What holds of a legend over a mapping.
abbrev IsFresh : Dict Text ℕ → Legend ℕ → Type 0
IsFresh mapping self =
    (self.mapping ≡ mapping)
    × (bound mapping ≤ self.next_id)
    × AllEntries (IsKnown mapping (bound mapping) self.next_id) self.entries
    × IsApart self.entries

append-IsFresh :
    (mapping : Dict Text ℕ) (self : Legend ℕ) (name : Text) (id next_id : ℕ)
    → position name self.entries ≡ none
    → IsFresh mapping self
    → self.next_id ≤ next_id
    → IsKnown mapping (bound mapping) next_id (entry_of (λ id. id) name id)
    → ((entry : Entry ℕ)
        → IsKnown mapping (bound mapping) self.next_id entry
        → entry.name ≢ name
        → entry.color ≢ id)
    → IsFresh mapping (record self {
      entries = self.entries ++ entry_of (λ id. id) name id ∷ [];
      next_id = next_id;
    })
unfolding entry_of
append-IsFresh mapping self name id next_id p h le known other =
    let all =
      AllEntries-map (IsKnown mapping (bound mapping) self.next_id)
        (IsKnown mapping (bound mapping) next_id) self.entries
        (λ entry k. elim k [ inl m ↦ inl m | inr (lo, hi) ↦ inr (lo, omega arith) ]) h.2 in
    (
      h.0,
      omega arith,
      AllEntries-append _ self.entries (entry_of (λ id. id) name id) all known,
      IsApart-append self.entries (entry_of (λ id. id) name id) h.3 (
          position-IsUnlike (IsKnown mapping (bound mapping) self.next_id) name id self.entries p
            other h.2),
    )

abbrev with_entry : Legend ℕ → Text → ℕ → ℕ → Legend ℕ
with_entry self name id next_id = record self {
  entries = self.entries ++ entry_of (λ id. id) name id ∷ [];
  next_id = next_id;
}

insert_id-present :
    (self : Legend ℕ) (name : Text) (i : ℕ)
    → position name self.entries ≡ some i
    → insert_id self name ≡ self
unfolding get_or_insert
insert_id-present self name i p = ground arith

insert_id-mapped :
    (self : Legend ℕ) (name : Text) (id : ℕ)
    → position name self.entries ≡ none
    → lookup name self.mapping ≡ some id
    → insert_id self name ≡ with_entry self name id self.next_id
unfolding get_or_insert id_of
insert_id-mapped self name id p q = ground arith

insert_id-fresh :
    (self : Legend ℕ) (name : Text)
    → position name self.entries ≡ none
    → lookup name self.mapping ≡ none
    → insert_id self name ≡ with_entry self name self.next_id (self.next_id + 1)
unfolding get_or_insert id_of
insert_id-fresh self name p q = ground arith

insert_id-IsFresh :
    (mapping : Dict Text ℕ) (self : Legend ℕ) (name : Text)
    → IsInjective mapping
    → IsFresh mapping self
    → IsFresh mapping (insert_id self name)
unfolding entry_of
insert_id-IsFresh mapping self name inj h = elim (Option-cases (position name self.entries)) [
  | inr (i, p) ↦ subst (IsFresh mapping) (sym (insert_id-present self name i p)) h
  | inl p ↦ elim (Option-cases (lookup name self.mapping)) [
    | inr (id, q) ↦
        let m : lookup name mapping ≡ some id = subst (λ d. lookup name d ≡ some id) h.0 q in
        let lt = lookup-lt name mapping id m in
        subst (IsFresh mapping) (sym (insert_id-mapped self name id p q)) (
          append-IsFresh mapping self name id self.next_id p h (omega arith) (inl m) (λ entry k n c.
            elim k [
              | inl o ↦
                  n (inj entry.name name id (subst (λ x. lookup entry.name mapping ≡ some x) c o) m)
              | inr (lo, hi) ↦ omega arith
            ]))
    | inl q ↦ subst (IsFresh mapping) (sym (insert_id-fresh self name p q)) (
        append-IsFresh mapping self name self.next_id (self.next_id + 1) p h (omega arith)
          (inr (h.1, omega arith))
          (λ entry k n c. elim k [
            | inl o ↦ let lt = lookup-lt entry.name mapping entry.color o in omega arith
            | inr (lo, hi) ↦ omega arith
          ]))
  ]
]

insert_all-IsFresh :
    (mapping : Dict Text ℕ) (names : List Text) (self : Legend ℕ)
    → IsInjective mapping
    → IsFresh mapping self
    → IsFresh mapping (foldl insert_id self names)
insert_all-IsFresh mapping [] self inj h = h
insert_all-IsFresh mapping (name ∷ names) self inj h =
    insert_all-IsFresh mapping names (insert_id self name) inj
      (insert_id-IsFresh mapping self name inj h)

-- However often and in whatever order names are looked up in a new legend whose mapping gives no id
-- to two names, its entries have different names and different ids.
pub get_or_insert-IsApart :
    (mapping : Dict Text ℕ) (names : List Text)
    → IsInjective mapping
    → IsApart (foldl insert_id (new_with_mapping mapping) names).entries
unfolding new_with_mapping bound
get_or_insert-IsApart mapping names inj =
    (insert_all-IsFresh mapping names (new_with_mapping mapping) inj (refl, omega arith, tt, tt)).3
