-- ===== src/Launch/Included.antt =====
-- main.rs, run: the configuration file and the files that it includes.
use mathlib.Core.Path.{subst}
use multi_fuzz_benchmarks.Prelude.{
  ◌≡◌, refl, sym, ap, ◌∙◌, inl, inr, Option, none, some, List, [], ◌∷◌, map, Text, text_eq,
}
use multi_fuzz_benchmarks.Prelude.Dict.{Dict, lookup}
use multi_fuzz_benchmarks.Prelude.Outcome.{Result, ok, err, ok_or, ◌>>=◌, Result-cases}
use multi_fuzz_benchmarks.Prelude.Returns.{ok_injective}
use multi_fuzz_benchmarks.Rpc.{FilePath}
use multi_fuzz_benchmarks.Config.{ConfigData, MergeError, merge}
use multi_fuzz_benchmarks.Config.Merge.{or_else, or_else-none, IsUnion, Unites, merge-Unites}

pub data LoadError : Type 0 where
  not_read : FilePath → LoadError
  not_parsed : FilePath → LoadError
  not_merged : FilePath → MergeError → LoadError

-- What a list of tables has for a name, the first of them first.
abbrev pub first_found : {V : Type 0} → Text → List (Dict Text V) → Option V
first_found k [] = none
first_found k (table ∷ tables) = or_else (lookup k table) (first_found k tables)

abbrev AreFrom : {V : Type 0} → Dict Text V → List (Dict Text V) → Type 0
AreFrom loaded tables = (k : Text) → lookup k loaded ≡ first_found k tables

or_else_assoc : {V : Type 0} (a b c : Option V) → or_else (or_else a b) c ≡ or_else a (or_else b c)
or_else_assoc none b c = refl
or_else_assoc (some a) b c = refl

module _ {Image Instance Task Docker : Type 0} where
  -- A name stands for what the first file that has it says.
  pub record IsLoaded (loaded : ConfigData Image Instance Task Docker)
      (files : List (ConfigData Image Instance Task Docker)) : Type 0 where
    pub images : AreFrom loaded.images (map (λ f. f.images) files)
    pub instances : AreFrom loaded.instances (map (λ f. f.instances) files)
    pub tasks : AreFrom loaded.tasks (map (λ f. f.tasks) files)
    pub docker : AreFrom loaded.docker (map (λ f. f.docker) files)

  module _ (read_to_string : FilePath → Option Text)
      (from_str : Text → Option (ConfigData Image Instance Task Docker)) (parent : Option FilePath)
      (join : FilePath → FilePath → FilePath) where
    -- config.rs.
    unfoldable pub toml_from_path :
        FilePath → Result LoadError (ConfigData Image Instance Task Docker)
    toml_from_path path = do
      bytes ← ok_or (read_to_string path) (not_read path)
      ok_or (from_str bytes) (not_parsed path)

    -- An entry is taken from the directory of the configuration file.
    unfoldable pub include_path : FilePath → FilePath
    include_path entry = elim parent [ some dir ↦ join dir entry | none ↦ entry ]

    abbrev merged :
        FilePath
        → Result MergeError (Unit {0}) × ConfigData Image Instance Task Docker
        → Result LoadError (ConfigData Image Instance Task Docker)
    merged path (ok _, both) = ok both
    merged path (err e, both) = err (not_merged path e)

    -- The loop of `run` over `config.include`: each file is merged into the data.
    unfoldable pub load_includes :
        List FilePath
        → ConfigData Image Instance Task Docker
        → Result LoadError (ConfigData Image Instance Task Docker)
    load_includes [] self = ok self
    load_includes (entry ∷ entries) self = do
      other ← toml_from_path (include_path entry)
      both ← merged (include_path entry) (merge other self)
      load_includes entries both

    -- The files are read in the order of the entries.
    abbrev pub AreRead : List FilePath → List (ConfigData Image Instance Task Docker) → Type 0
    AreRead [] [] = Unit
    AreRead (entry ∷ entries) (file ∷ files) =
        (toml_from_path (include_path entry) ≡ ok file) × AreRead entries files
    AreRead _ _ = ⊥

    IsUnion-AreFrom :
        {V : Type 0} (a b c loaded : Dict Text V) (tables : List (Dict Text V))
        → IsUnion a b c
        → AreFrom loaded (c ∷ tables)
        → AreFrom loaded (a ∷ b ∷ tables)
    IsUnion-AreFrom a b c loaded tables union from k =
        from k
        ∙ ap (λ o. or_else o (first_found k tables)) (union k)
        ∙ or_else_assoc (lookup k a) (lookup k b) (first_found k tables)

    Unites-IsLoaded :
        {self other both loaded : ConfigData Image Instance Task Docker}
        {files : List (ConfigData Image Instance Task Docker)}
        → Unites self other both
        → IsLoaded loaded (both ∷ files)
        → IsLoaded loaded (self ∷ other ∷ files)
    Unites-IsLoaded u l = record {
      images = IsUnion-AreFrom _ _ _ _ _ u.images l.images;
      instances = IsUnion-AreFrom _ _ _ _ _ u.instances l.instances;
      tasks = IsUnion-AreFrom _ _ _ _ _ u.tasks l.tasks;
      docker = IsUnion-AreFrom _ _ _ _ _ u.docker l.docker;
    }

    merged-ok :
        (path : FilePath)
        (result : Result MergeError (Unit {0}) × ConfigData Image Instance Task Docker)
        (both : ConfigData Image Instance Task Docker)
        → merged path result ≡ ok both
        → (result.0 ≡ ok tt) × (result.1 ≡ both)
    merged-ok path (ok _, data') both h = (refl, cc)
    merged-ok path (err e, data') both h = absurd (cc)

    self-IsLoaded : (self : ConfigData Image Instance Task Docker) → IsLoaded self (self ∷ [])
    self-IsLoaded self = record {
      images = λ k. sym (or_else-none (lookup k self.images));
      instances = λ k. sym (or_else-none (lookup k self.instances));
      tasks = λ k. sym (or_else-none (lookup k self.tasks));
      docker = λ k. sym (or_else-none (lookup k self.docker));
    }

    -- If the includes are loaded, every file was read, and each name stands in the configuration
    -- for what the configuration file or the first of its includes that has the name says, in each of
    -- the four tables; no other name is there.
    pub load_includes-IsLoaded :
        (entries : List FilePath) (self loaded : ConfigData Image Instance Task Docker)
        → load_includes entries self ≡ ok loaded
        → (files : List (ConfigData Image Instance Task Docker)) × AreRead entries files
          × IsLoaded loaded (self ∷ files)
    unfolding load_includes
    load_includes-IsLoaded [] self loaded h =
        ([], tt, subst (λ d. IsLoaded d (self ∷ [])) (ok_injective h) (self-IsLoaded self))
    load_includes-IsLoaded (entry ∷ entries) self loaded h =
        elim (Result-cases (toml_from_path (include_path entry))) [
          | inr (e, q) ↦ let bad : err e ≡ ok loaded = rw (q, load_includes) at h in absurd (cc bad)
          | inl (other, q) ↦
              let h1 = rw (q, load_includes) at h in
              elim (Result-cases (merged (include_path entry) (merge other self))) [
                | inr (e, m) ↦ let bad : err e ≡ ok loaded = rw m at h1 in absurd (cc bad)
                | inl (both, m) ↦
                    let (done, same) = merged-ok (include_path entry) (merge other self) both m in
                    let (files, read, from) =
                      load_includes-IsLoaded entries both loaded (rw m at h1) in
                    (
                      other ∷ files,
                      (q, read),
                      Unites-IsLoaded
                          (subst (Unites self other) same (merge-Unites self other done)) from,
                    )
              ]
        ]
