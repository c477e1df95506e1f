-- ===== src/Coverage/Metadata/Shared.antt =====
-- metadata.rs, Metadata: the sharing of block maps is not seen.
use mathlib.Core.Path.{subst}
use multi_fuzz_benchmarks.Prelude.{
  ℕ, zero, suc, ◌≡◌, refl, sym, ap, ◌∙◌, arith, Bool, none, some, Option-cases, Bool-cases, inl,
  inr, text_beq, List, [], ◌∷◌, ◌++◌, append_assoc, append-nil, Text, text_eq, text_beq_iff, length,
  get_elem?,
}
use multi_fuzz_benchmarks.Prelude.Dict.{Dict, lookup}
use multi_fuzz_benchmarks.Prelude.Outcome.{Result, ok, err, ◌>>=◌}
use multi_fuzz_benchmarks.Coverage.Metadata.{
  Metadata, Source, get_block_map_for, parse_block_map, block_map_id, load_all, from_source,
}

bind-ok {ℓ κ μ} :
    {E : Type μ} {A : Type ℓ} {B : Type κ} (r : Result E A) (f : A → Result E B) (b : B)
    → (r >>= f) ≡ ok b
    → (a : A) × (r ≡ ok a) × (f a ≡ ok b)
bind-ok (ok a) f b h = (a, refl, h)
bind-ok (err e) f b h = absurd (cc)

ok_injective {ℓ κ} :
    {E : Type κ} {A : Type ℓ} {a b : A} → ◌≡◌ {A = Result E A} (ok a) (ok b) → a ≡ b
ok_injective h = cc

get_elem?-append {ℓ} :
    {A : Type ℓ} (xs ys : List A) (i : ℕ) (a : A)
    → get_elem? xs i ≡ some a
    → get_elem? (xs ++ ys) i ≡ some a
get_elem?-append [] ys i a h = absurd (cc)
get_elem?-append (x ∷ xs) ys zero a h = h
get_elem?-append (x ∷ xs) ys (suc i) a h = get_elem?-append xs ys i a h

get_elem?-length {ℓ} :
    {A : Type ℓ} (xs : List A) (a : A) → get_elem? (xs ++ a ∷ []) (length xs) ≡ some a
get_elem?-length [] a = refl
get_elem?-length (x ∷ xs) a = get_elem?-length xs a

module _ {BlockMap : Type 0} (exists_file : Text → Bool) (join : Text → Text → Text)
    (parse_from_path : Text → Result Text BlockMap) where
  abbrev parse : Text → Text → Result Text BlockMap
  parse = parse_block_map exists_file join parse_from_path

  -- At this index stands what the file at this path holds.
  abbrev IsLoaded : Text → List BlockMap → Text → ℕ → Type 0
  IsLoaded root block_maps path id =
      (block_map : BlockMap) × (get_elem? block_maps id ≡ some block_map)
      × (parse root path ≡ ok block_map)

  abbrev AreLoaded : Text → Dict Text ℕ × List BlockMap → Type 0
  AreLoaded root (mapping, block_maps) =
      (path : Text) (id : ℕ) → lookup path mapping ≡ some id → IsLoaded root block_maps path id

  abbrev Extends : List BlockMap → List BlockMap → Type 0
  Extends old block_maps = (more : List BlockMap) × (block_maps ≡ old ++ more)

  IsLoaded-Extends :
      (root : Text) (old block_maps : List BlockMap) (path : Text) (id : ℕ)
      → Extends old block_maps
      → IsLoaded root old path id
      → IsLoaded root block_maps path id
  IsLoaded-Extends root old block_maps path id e l = (
    l.0,
    subst (λ m. get_elem? m id ≡ some l.0) (sym e.1) (get_elem?-append old e.0 id l.0 l.1),
    l.2,
  )

  abbrev Shares :
      Text → Text → Dict Text ℕ × List BlockMap → ℕ × (Dict Text ℕ × List BlockMap) → Type 0
  Shares root path loaded found =
      AreLoaded root found.1 × Extends loaded.1 found.1.1 × IsLoaded root found.1.1 path found.0

  AreLoaded-append :
      (root path : Text) (mapping : Dict Text ℕ) (block_maps : List BlockMap) (block_map : BlockMap)
      → parse root path ≡ ok block_map
      → AreLoaded root (mapping, block_maps)
      → AreLoaded root ((path, length block_maps) ∷ mapping, block_maps ++ block_map ∷ [])
  unfolding lookup
  AreLoaded-append root path mapping block_maps block_map p all other id q =
      elim (Bool-cases (text_beq path other)) [
        | inl e ↦
            let here : length block_maps ≡ id = ground arith in
            subst (λ o. IsLoaded root (block_maps ++ block_map ∷ []) o id)
              ((text_beq_iff path other).0 e)
              (subst (λ i. IsLoaded root (block_maps ++ block_map ∷ []) path i) here
                (block_map, get_elem?-length block_maps block_map, p))
        | inr n ↦
            IsLoaded-Extends root block_maps (block_maps ++ block_map ∷ []) other id
              (block_map ∷ [], refl) (all other id (ground arith))
      ]

  block_map_id-vacant :
      (root path : Text) (mapping : Dict Text ℕ) (block_maps : List BlockMap)
      → lookup path mapping ≡ none
      → block_map_id exists_file join parse_from_path root path (mapping, block_maps) ≡ (
          parse root path >>= λ block_map.
          ok (
            length block_maps,
            ((path, length block_maps) ∷ mapping, block_maps ++ block_map ∷ []),
          ))
  unfolding block_map_id
  block_map_id-vacant root path mapping block_maps q = rw (q, block_map_id) refl

  block_map_id-occupied :
      (root path : Text) (mapping : Dict Text ℕ) (block_maps : List BlockMap) (id : ℕ)
      → lookup path mapping ≡ some id
      → block_map_id exists_file join parse_from_path root path (mapping, block_maps)
        ≡ ok (id, (mapping, block_maps))
  unfolding block_map_id
  block_map_id-occupied root path mapping block_maps id q = rw (q, block_map_id) refl

  block_map_id_lem :
      (root path : Text) (loaded : Dict Text ℕ × List BlockMap)
      (found : ℕ × (Dict Text ℕ × List BlockMap))
      → block_map_id exists_file join parse_from_path root path loaded ≡ ok found
      → AreLoaded root loaded
      → Shares root path loaded found
  block_map_id_lem root path (mapping, block_maps) found h all =
      elim (Option-cases (lookup path mapping)) [
        | inr (id, q) ↦
            let e =
              ok_injective (sym (block_map_id-occupied root path mapping block_maps id q) ∙ h) in
            subst (Shares root path (mapping, block_maps)) e
              (all, ([], sym (append-nil block_maps)), all path id q)
        | inl q ↦
            let b =
              bind-ok _ _ found (sym (block_map_id-vacant root path mapping block_maps q) ∙ h) in
            subst (Shares root path (mapping, block_maps)) (ok_injective b.2) (
              AreLoaded-append root path mapping block_maps b.0 b.1 all,
              (b.0 ∷ [], refl),
              (b.0, get_elem?-length block_maps b.0, b.1),
            )
      ]

  abbrev HasEntries : Text → Source → List BlockMap → Metadata BlockMap → Type 0
  HasEntries root entries block_maps metadata =
      Extends block_maps metadata.block_maps
      × ((binary path : Text)
          → lookup binary entries ≡ some path
          → (id : ℕ) × (lookup binary metadata.binary_mapping ≡ some id)
            × IsLoaded root metadata.block_maps path id)

  HasEntries-cons :
      (root key path : Text) (entries : Source) (old block_maps : List BlockMap) (id : ℕ)
      (rest : Metadata BlockMap)
      → Extends old block_maps
      → IsLoaded root block_maps path id
      → HasEntries root entries block_maps rest
      → HasEntries root
          ((key, path) ∷ entries)
          old
          (record rest { binary_mapping = (key, id) ∷ rest.binary_mapping })
  unfolding lookup
  HasEntries-cons root key path entries old block_maps id rest e l h = (
    (e.0 ++ h.0.0, h.0.1 ∙ ap (λ m. m ++ h.0.0) e.1 ∙ append_assoc old e.0 h.0.0),
    λ binary other q. elim (Bool-cases (text_beq key binary)) [
      | inl b ↦
          let same : path ≡ other = ground arith in
          (
            id,
            rw b refl,
            subst (λ o. IsLoaded root rest.block_maps o id) same
                (IsLoaded-Extends root block_maps rest.block_maps path id h.0 l),
          )
      | inr n ↦ let found = h.1 binary other (ground arith) in (found.0, rw n found.1, found.2)
    ],
  )

  load_all_lem :
      (root : Text) (entries : Source) (loaded : Dict Text ℕ × List BlockMap)
      (metadata : Metadata BlockMap)
      → load_all exists_file join parse_from_path root entries loaded ≡ ok metadata
      → AreLoaded root loaded
      → HasEntries root entries loaded.1 metadata
  unfolding load_all lookup
  load_all_lem root [] (mapping, block_maps) metadata h all =
      subst (HasEntries root [] block_maps) (ok_injective h)
        (([], sym (append-nil block_maps)), λ binary path q. absurd (cc))
  load_all_lem root ((key, path) ∷ entries) loaded metadata h all =
      let found =
        bind-ok (block_map_id exists_file join parse_from_path root path loaded) _ metadata h in
      let step = block_map_id_lem root path loaded found.0 found.1 all in
      let rest =
        bind-ok (load_all exists_file join parse_from_path root entries found.0.1) _ metadata
          found.2 in
      let ih = load_all_lem root entries found.0.1 rest.0 rest.1 step.0 in
      subst (HasEntries root ((key, path) ∷ entries) loaded.1) (ok_injective rest.2) (
        HasEntries-cons root key path entries loaded.1 found.0.1.1 found.0.0 rest.0 step.1 step.2
          ih)

  -- After a configuration has been loaded, the block map of each of its binaries is what its own
  -- file holds, although a file that several binaries name is loaded once.
  pub get_block_map_for-from_source :
      (root : Text) (config : Source) (metadata : Metadata BlockMap) (binary path : Text)
      → from_source exists_file join parse_from_path root config ≡ ok metadata
      → lookup binary config ≡ some path
      → (block_map : BlockMap) × (get_block_map_for binary metadata ≡ some block_map)
        × (parse_block_map exists_file join parse_from_path root path ≡ ok block_map)
  unfolding from_source get_block_map_for lookup
  get_block_map_for-from_source root config metadata binary path h k =
      let all =
        (load_all_lem root config ([], []) metadata h (λ p id q. absurd (cc))).1 binary path k in
      (all.2.0, rw (all.1, get_block_map_for) all.2.1, all.2.2)
