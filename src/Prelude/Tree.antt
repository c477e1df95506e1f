-- ===== src/Prelude/Tree.antt =====
-- `BTreeMap` as the list of its entries in the order of the keys.
use Prim.Native.Nat.{ℕ, ◌≤◌, ◌<◌}
use mathlib.Core.Path.{◌≡◌, refl, sym, ◌∙◌}
use mathlib.Core.Bool.{Bool, true, false, ◌&&◌, ◌||◌}
use mathlib.Core.Option.{Option, none, some}
use mathlib.Core.List.{List, [], ◌∷◌, ◌++◌, append-nil, append_assoc}
use mathlib.Core.Logic.{inl, inr}
use native.Mathlib.Omega.{arith}
use multi_fuzz_benchmarks.Prelude.Tests.{
  ◌==◌, nat_eq, text_beq, text_beq_iff, if◌then◌else◌, leb, ltb, ltb→lt, Bool-cases,
}

-- The order of the keys, and their equality.
pub record Ord {ℓ} (K : Type ℓ) : Type ℓ where
  pub blt : K → K → Bool
  pub same : K → K → Bool

instance abbrev pub nat_ord : Ord ℕ
nat_ord = record { blt = ltb; same = λ a b. a == b }

-- Pairs are ordered by their first components, then by the second.
instance abbrev pub pair_ord : Ord (ℕ × ℕ)
pair_ord = record {
  blt = λ p q. ltb p.0 q.0 || (p.0 == q.0 && ltb p.1 q.1);
  same = λ p q. p.0 == q.0 && p.1 == q.1;
}

-- Texts are ordered like their UTF-8 bytes, which is by their code points.
abbrev pub text_lt : List ℕ → List ℕ → Bool
text_lt [] [] = false
text_lt [] (_ ∷ _) = true
text_lt (_ ∷ _) [] = false
text_lt (a ∷ r) (b ∷ s) = ltb a b || (a == b && text_lt r s)

instance abbrev pub text_ord : Ord (List ℕ)
text_ord = record { blt = text_lt; same = text_beq }

abbrev pub Tree {ℓ κ} : Type ℓ → Type κ → Type (ℓ ⊔ κ)
Tree K V = List (K × V)

module _ {ℓ κ} {K : Type ℓ} {V : Type κ} ⦃o : Ord K⦄ where
  unfoldable pub insert : K → V → Tree K V → Tree K V
  insert k v [] = (k, v) ∷ []
  insert k v ((j, w) ∷ m) =
      if o.blt k j
      then (k, v) ∷ (j, w) ∷ m
      else if o.same k j
      then (j, v) ∷ m
      else (j, w) ∷ insert k v m

  unfoldable pub get : K → Tree K V → Option V
  get k [] = none
  get k ((j, w) ∷ m) = if o.same j k then some w else get k m

  -- `collect` into a map: the entries are inserted one after the other.
  unfoldable pub insert_all : List (K × V) → Tree K V → Tree K V
  insert_all [] m = m
  insert_all ((k, v) ∷ es) m = insert_all es (insert k v m)

  unfoldable pub collect : List (K × V) → Tree K V
  unfolding insert_all
  collect es = insert_all es []

module _ {κ} {V : Type κ} where
  -- `range(..=k).rev().next()`: the entry of the greatest key up to `k`.
  unfoldable pub last_le : ℕ → Tree ℕ V → Option (ℕ × V)
  last_le k [] = none
  last_le k ((j, w) ∷ m) =
      let rest = last_le k m in
      if leb j k then elim rest [ some p ↦ some p | none ↦ some (j, w) ] else none

  -- All keys are above `k`; the keys rise.
  abbrev pub AllAbove : ℕ → Tree ℕ V → Type 0
  AllAbove k [] = Unit
  AllAbove k ((j, w) ∷ m) = (k < j) × AllAbove k m

  abbrev pub IsSorted : Tree ℕ V → Type 0
  IsSorted [] = Unit
  IsSorted ((j, w) ∷ m) = AllAbove j m × IsSorted m

module _ {κ} {V : Type κ} where
  pub AllAbove-trans : (i k : ℕ) (m : Tree ℕ V) → i ≤ k → AllAbove k m → AllAbove i m
  AllAbove-trans i k [] h a = tt
  AllAbove-trans i k ((j, w) ∷ m) h a = (omega arith, AllAbove-trans i k m h a.1)

  pub insert-AllAbove :
      (i k : ℕ) (v : V) (m : Tree ℕ V) → i < k → AllAbove i m → AllAbove i (insert k v m)
  unfolding insert
  insert-AllAbove i k v [] h a = (h, tt)
  insert-AllAbove i k v ((j, w) ∷ m) h a = ground (arith, insert-AllAbove i k v m)

  -- Insertion keeps the keys in order.
  pub insert-IsSorted : (k : ℕ) (v : V) (m : Tree ℕ V) → IsSorted m → IsSorted (insert k v m)
  unfolding insert
  insert-IsSorted k v [] s = (tt, tt)
  insert-IsSorted k v ((j, w) ∷ m) s = elim (Bool-cases (ltb k j)) [
    | inl l ↦ let h : k < j = ltb→lt k j l in rw l ((h, AllAbove-trans k j m (omega arith) s.0), s)
    | inr l ↦ rw l (elim (Bool-cases (k == j)) [
      | inl e ↦ rw e s
      | inr e ↦ rw e (insert-AllAbove j k v m (ground arith) s.0, insert-IsSorted k v m s.1)
    ])
  ]

  pub insert_all-IsSorted :
      (es : List (ℕ × V)) (m : Tree ℕ V) → IsSorted m → IsSorted (insert_all es m)
  unfolding insert_all
  insert_all-IsSorted [] m s = s
  insert_all-IsSorted ((k, v) ∷ es) m s =
      insert_all-IsSorted es (insert k v m) (insert-IsSorted k v m s)

  pub collect-IsSorted : (es : List (ℕ × V)) → IsSorted (collect es)
  unfolding collect
  collect-IsSorted es = insert_all-IsSorted es [] tt

  AllBelow : Tree ℕ V → ℕ → Type 0
  AllBelow [] k = Unit
  AllBelow ((j, w) ∷ m) k = (j < k) × AllBelow m k

  insert_last : (k : ℕ) (v : V) (m : Tree ℕ V) → AllBelow m k → insert k v m ≡ m ++ (k, v) ∷ []
  unfolding insert AllBelow
  insert_last k v [] b = refl
  insert_last k v ((j, w) ∷ m) b = ground (arith, insert_last k v m b.1)

  AllBelow-append :
      (m : Tree ℕ V) (i : ℕ) (w : V) (k : ℕ) → AllBelow m i → i < k → AllBelow (m ++ (i, w) ∷ []) k
  unfolding AllBelow
  AllBelow-append [] i w k b h = (h, tt)
  AllBelow-append ((j, v) ∷ m) i w k b h = (omega arith, AllBelow-append m i w k b.1 h)

  -- All of one map's keys are below all of another's.
  Precedes : Tree ℕ V → Tree ℕ V → Type 0
  Precedes m [] = Unit
  Precedes m ((k, v) ∷ es) = AllBelow m k

  insert_all-append : (m es : Tree ℕ V) → IsSorted es → Precedes m es → insert_all es m ≡ m ++ es
  unfolding insert_all Precedes
  insert_all-append m [] s b = sym (append-nil m)
  insert_all-append m ((k, v) ∷ []) s b = insert_last k v m b
  insert_all-append m ((k, v) ∷ (j, w) ∷ es) s b = rw (insert_last k v m b) (
      insert_all-append (m ++ (k, v) ∷ []) ((j, w) ∷ es) s.1 (AllBelow-append m k v j b s.0.0)
      ∙ append_assoc m ((k, v) ∷ []) ((j, w) ∷ es))

  -- Entries that are in order already are collected as they are.
  pub collect_sorted : (es : Tree ℕ V) → IsSorted es → collect es ≡ es
  unfolding collect Precedes AllBelow
  collect_sorted [] s = insert_all-append [] [] s tt
  collect_sorted ((k, v) ∷ es) s = insert_all-append [] ((k, v) ∷ es) s tt

  pub get-insert :
      (k j : ℕ) (v : V) (m : Tree ℕ V) → get j (insert k v m) ≡ (if k == j then some v else get j m)
  unfolding get insert
  get-insert k j v [] = refl
  get-insert k j v ((i, w) ∷ m) = ground (arith, get-insert k j v m)

module _ {V : Type 0} where
  -- The same for texts as keys.
  pub get-insert_text :
      (k j : List ℕ) (v : V) (m : Tree (List ℕ) V)
      → get j (insert k v m) ≡ (if text_beq k j then some v else get j m)
  unfolding get insert
  get-insert_text k j v [] = refl
  get-insert_text k j v ((i, w) ∷ m) = elim (Bool-cases (text_lt k i)) [
    | inl l ↦ rw l refl
    | inr l ↦ elim (Bool-cases (text_beq k i)) [
      | inl e ↦ let same : k ≡ i = (text_beq_iff k i).0 e in rw (l, e, same) (ground arith)
      | inr e ↦
          rw (l, e)
            (ground (
              arith,
              text_beq_iff k i,
              text_beq_iff i j,
              text_beq_iff k j,
              get-insert_text k j v m,
            ))
    ]
  ]
