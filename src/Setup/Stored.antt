-- ===== src/Setup/Stored.antt =====
-- setup.rs, download_and_extract: what has been done when it succeeds.
use multi_fuzz_benchmarks.Prelude.{
  ℕ, zero, suc, ◌+◌, ◌≡◌, refl, arith, inl, inr, Bool, true, false, Bool-cases, Option, none, some,
  List, [], ◌∷◌, ◌++◌, get_elem?, Text, codes, text_eq,
}
use mathlib.Core.Path.{subst}
use multi_fuzz_benchmarks.Prelude.Outcome.{Result, ok, err}
use multi_fuzz_benchmarks.Prelude.Exec.{with_context, ◌>>=◌, ◌>>◌}
use multi_fuzz_benchmarks.Rpc.{FilePath}
use multi_fuzz_benchmarks.Env.{Failure, within}
use multi_fuzz_benchmarks.Setup.{
  Hasher, Host, ends_with, is_archive, is_compressed, extension_of, download_url, extract_entries,
  extract_from, ignoring, place,
}
use multi_fuzz_benchmarks.Setup.Cached.{store}
use multi_fuzz_benchmarks.Prelude.Does.{Runs, Does, run-Does, context-Does, bind-Does}
use multi_fuzz_benchmarks.Setup.Written.{IsTransferred, download_url-Does}

module _ {World : Type 0} (hasher : Hasher) (host : Host World) where
  -- The file itself has been moved, or an entry of the archive that ends like the target unpacked.
  abbrev pub IsPlaced : Bool → FilePath → FilePath → Text → World → World → Type 0
  IsPlaced false tmp path target w v = Runs (host.rename tmp path) w tt v
  IsPlaced true tmp path target w v =
      (found : List (Result Failure (Option FilePath))) × (u : World) × (position : ℕ)
      × (file : FilePath) × (extracted : World) × Runs (host.entries tmp) w found u
      × (get_elem? found position ≡ some (ok (some file)))
      × (ends_with file target ≡ true)
      × Runs (host.unpack tmp position path) u tt extracted
      × (v ≡ (host.remove_file tmp extracted).1)

  abbrev pub IsStored : Text → Text → FilePath → FilePath → World → World → Type 0
  IsStored url target tmp path w v =
      (u : World) × (downloaded : World) × Runs (host.create tmp) w tt u
      × IsTransferred hasher host url (is_compressed (extension_of url)) tmp u downloaded
      × IsPlaced (is_archive (extension_of url)) tmp path target downloaded v

  abbrev IsExtracted :
      FilePath
      → FilePath
      → Text
      → ℕ
      → List (Result Failure (Option FilePath))
      → World
      → World
      → Type 0
  IsExtracted archive dst target first found w v =
      (position : ℕ) × (file : FilePath) × (get_elem? found position ≡ some (ok (some file)))
      × (ends_with file target ≡ true)
      × Runs (host.unpack archive (first + position) dst) w tt v

  later :
      (archive dst : FilePath) (first k : ℕ) (w v : World)
      → Runs (host.unpack archive (suc first + k) dst) w tt v
      → Runs (host.unpack archive (first + suc k) dst) w tt v
  later archive dst first k w v = subst (λ n. Runs (host.unpack archive n dst) w tt v) (omega arith)

  extract_entries-Does :
      (archive dst : FilePath) (target : Text) (first : ℕ)
      (found : List (Result Failure (Option FilePath)))
      → Does
          (λ w _ v. IsExtracted archive dst target first found w v)
          (extract_entries hasher host archive dst target first found)
  unfolding extract_entries
  extract_entries-Does archive dst target first [] w a h = absurd (cc)
  extract_entries-Does archive dst target first (err e ∷ rest) w a h = absurd (cc)
  extract_entries-Does archive dst target first (ok none ∷ rest) w a h =
      let (k, file, at_k, ends, run) =
        extract_entries-Does archive dst target (suc first) rest w a h in
      (suc k, file, at_k, ends, later archive dst first k w _ run)
  extract_entries-Does archive dst target first (ok (some path) ∷ rest) w a h =
      elim (Bool-cases (ends_with path target)) [
        | inl b ↦
            let done = rw (b, extract_entries) at h in
            rw (b, extract_entries)
              (
                zero,
                path,
                refl,
                b,
                subst
                    (λ k. Runs (host.unpack archive k dst) w tt (host.unpack archive first dst w).1)
                    (omega arith) (done, refl),
              )
        | inr b ↦
            let (k, file, at_k, ends, run) =
              extract_entries-Does archive dst target (suc first) rest w a
                (rw (b, extract_entries) at h) in
            rw (b, extract_entries) (suc k, file, at_k, ends, later archive dst first k w _ run)
      ]

  place-Does :
      (archive : Bool) (tmp path : FilePath) (target name : Text)
      → Does
          (λ w _ v. IsPlaced archive tmp path target w v)
          (place hasher host archive tmp path target name)
  unfolding place extract_from
  place-Does false tmp path target name w a h =
      context-Does (λ w _ v. Runs (host.rename tmp path) w tt v)
        (within (codes "error moving binary to " ++ path)) (host.rename tmp path)
        (run-Does (host.rename tmp path)) w a h
  place-Does true tmp path target name w a h =
      let reading =
        with_context (within (codes "error reading downloaded archive")) (host.entries tmp) in
      let (_, extracted, (found, u, listed, (position, file, there, ends, run)), last) =
        bind-Does
          (λ w _ v.
            (found : List (Result Failure (Option FilePath))) × (u : World) × Runs
              (host.entries tmp) w found u
            × IsExtracted tmp path target 0 found u v)
          (λ _ u _ v. v ≡ (host.remove_file tmp u).1)
          (with_context (within (codes "error extracting " ++ (name ++ codes " from archive")))
            (reading >>= extract_entries hasher host tmp path target 0))
          (λ _. ignoring hasher host (host.remove_file tmp))
          (context-Does
            (λ w _ v.
              (found : List (Result Failure (Option FilePath))) × (u : World) × Runs
                (host.entries tmp) w found u
              × IsExtracted tmp path target 0 found u v)
            (within (codes "error extracting " ++ (name ++ codes " from archive")))
            (reading >>= extract_entries hasher host tmp path target 0)
            (bind-Does (Runs (host.entries tmp))
              (λ found u _ v. IsExtracted tmp path target 0 found u v) reading
              (extract_entries hasher host tmp path target 0)
              (context-Does (Runs (host.entries tmp))
                (within (codes "error reading downloaded archive")) (host.entries tmp)
                (run-Does (host.entries tmp)))
              (extract_entries-Does tmp path target 0)))
          (λ _ u b q. refl) w a h in
      (
        found,
        u,
        position,
        file,
        extracted,
        listed,
        there,
        ends,
        subst (λ k. Runs (host.unpack tmp k path) u tt extracted) (omega arith) run,
        last,
      )

  pub store-Does :
      (url target : Text) (tmp path : FilePath) (name : Text)
      → Does
          (λ w _ v. IsStored url target tmp path w v)
          (store hasher host url target tmp path name)
  unfolding store
  store-Does url target tmp path name w a h =
      let message = within (codes "error creating " ++ tmp) in
      let gz = is_compressed (extension_of url) in
      let archive = is_archive (extension_of url) in
      let (_, u, created, (_, downloaded, transferred, placed)) =
        bind-Does (λ w _ v. Runs (host.create tmp) w tt v)
          (λ _ w _ v.
            (a : Unit {0}) × (u : World) × IsTransferred hasher host url gz tmp w u
            × IsPlaced archive tmp path target u v)
          (with_context message (host.create tmp))
          (λ _.
            download_url hasher host url gz tmp >> place hasher host archive tmp path target name)
          (context-Does (λ w _ v. Runs (host.create tmp) w tt v) message (host.create tmp)
            (run-Does (host.create tmp)))
          (λ _.
            bind-Does (λ w _ v. IsTransferred hasher host url gz tmp w v)
              (λ _ w _ v. IsPlaced archive tmp path target w v)
              (download_url hasher host url gz tmp)
              (λ _. place hasher host archive tmp path target name)
              (download_url-Does hasher host url gz tmp)
              (λ _. place-Does archive tmp path target name))
          w a h in
      (u, downloaded, created, transferred, placed)
