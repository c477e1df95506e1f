-- ===== src/Setup/Origin.antt =====
-- setup.rs, get_path_to_cached_binary: where a binary that is used comes from.
use mathlib.Core.Path.{subst}
use multi_fuzz_benchmarks.Prelude.{
  ◌≡◌, refl, sym, ap, ◌∙◌, ◌⊎◌, inl, inr, true, false, Option, none, some, ◌++◌, Text, codes,
  text_eq, Bool-cases,
}
use multi_fuzz_benchmarks.Prelude.Outcome.{ok, err}
use multi_fuzz_benchmarks.Prelude.Exec.{pure, with_context, ◌>>=◌}
use multi_fuzz_benchmarks.Prelude.Returns.{then_pure, ok_injective}
use multi_fuzz_benchmarks.Rpc.{FilePath}
use multi_fuzz_benchmarks.Env.{cause, within}
use multi_fuzz_benchmarks.Setup.{CacheConfig, Hasher, Host, check_digest, split_target, deleting}
use multi_fuzz_benchmarks.Prelude.Does.{Runs, Does, run-Does, context-Does, bind-Does}
use multi_fuzz_benchmarks.Setup.Stored.{IsStored, store-Does}
use multi_fuzz_benchmarks.Setup.Checked.{IsChecked, check_digest-Does}
use multi_fuzz_benchmarks.Setup.Cached.{
  store, fetch, download_and_extract, make_executable, download_binary, get_path_to_cached_binary,
}

module _ {World : Type 0} (hasher : Hasher) (host : Host World) where
  abbrev tmp_of : FilePath → FilePath
  tmp_of dir = host.join dir (codes ".harness-download.tmp")

  -- The file was downloaded and checked, the temporary file was removed, and the file was made
  -- executable.
  abbrev pub IsDownloaded : FilePath → Text → Text → Option Text → World → World → Type 0
  IsDownloaded path name url sha256 w v =
      (dir : FilePath) × (here : World) × (stored : World) × (checked : World) × Runs
        host.current_dir w dir here
      × IsStored hasher host (split_target url name).0 (split_target url name).1 (tmp_of dir) path
          here stored
      × IsChecked hasher host path sha256 stored checked
      × (v ≡ (make_executable hasher host path (host.remove_file (tmp_of dir) checked).1).1)

  fetch-Does :
      (url target : Text) (tmp path : FilePath) (name : Text) (sha256 : Option Text)
      → Does
          (λ w p v.
            (p ≡ path)
            × ((stored : World) × IsStored hasher host url target tmp path w stored
                × IsChecked hasher host path sha256 stored v))
          (fetch hasher host url target tmp path name sha256)
  unfolding fetch
  fetch-Does url target tmp path name sha256 w p h =
      let checking = check_digest hasher host path sha256 in
      let (_, stored, is_stored, (_, checked, is_checked, (same, end))) =
        bind-Does (λ w _ v. IsStored hasher host url target tmp path w v)
          (λ _ w p v.
            (a : Unit {0}) × (u : World) × IsChecked hasher host path sha256 w u
            × ((p ≡ path) × (v ≡ u)))
          (store hasher host url target tmp path name) (λ _. checking >>= λ _. pure path)
          (store-Does hasher host url target tmp path name)
          (λ _.
            bind-Does (λ w _ v. IsChecked hasher host path sha256 w v)
              (λ _ u p v. (p ≡ path) × (v ≡ u)) checking (λ _. pure path)
              (check_digest-Does hasher host path sha256) (λ _ u p q. (sym (ok_injective q), refl)))
          w p h in
      (
        same,
        (stored, is_stored, subst (IsChecked hasher host path sha256 stored) (sym end) is_checked),
      )

  abbrev IsClean : FilePath → Text → Text → Option Text → World → FilePath → World → Type 0
  IsClean path name url sha256 w p v =
      (p ≡ path)
      × ((dir : FilePath) × (here : World) × (stored : World) × (checked : World) × Runs
            host.current_dir w dir here
          × IsStored hasher host (split_target url name).0 (split_target url name).1 (tmp_of dir)
              path here stored
          × IsChecked hasher host path sha256 stored checked
          × (v ≡ (host.remove_file (tmp_of dir) checked).1))

  download-Does :
      (cache : CacheConfig) (url name : Text) (sha256 : Option Text)
      → Does
          (IsClean (host.join cache.dir name) name url sha256)
          (download_and_extract hasher host cache url name sha256)
  unfolding download_and_extract
  download-Does cache url name sha256 w p h =
      let path = host.join cache.dir name in
      let message = within (codes "unable to get working directory") in
      let link = (split_target url name).0 in
      let target = (split_target url name).1 in
      let (dir, here, run, (same, (stored, is_stored, checked, is_checked, last))) =
        bind-Does (Runs host.current_dir)
          (λ dir w p v.
            (p ≡ path)
            × ((stored : World) × IsStored hasher host link target (tmp_of dir) path w stored
                × (checked : World) × IsChecked hasher host path sha256 stored checked
                × (v ≡ (host.remove_file (tmp_of dir) checked).1)))
          (with_context message host.current_dir)
          (λ dir.
            deleting hasher host (tmp_of dir)
              (fetch hasher host link target (tmp_of dir) path name sha256))
          (context-Does (Runs host.current_dir) message host.current_dir
            (run-Does host.current_dir))
          (λ dir u p q.
            let (same, (stored, is_stored, is_checked)) =
              fetch-Does link target (tmp_of dir) path name sha256 u p q in
            (same, (stored, is_stored, _, is_checked, refl)))
          w p h in
      (same, (dir, here, stored, checked, run, is_stored, is_checked, last))

  download_binary-Does :
      (cache : CacheConfig) (name url : Text) (sha256 : Option Text)
      → Does
          (λ w p v.
            (p ≡ host.join cache.dir name)
            × IsDownloaded (host.join cache.dir name) name url sha256 w v)
          (download_binary hasher host cache name url sha256)
  unfolding download_binary
  download_binary-Does cache name url sha256 w p h =
      let path = host.join cache.dir name in
      let message = within (codes "failed to download " ++ (name ++ (codes " from: " ++ url))) in
      let (
        q,
        u,
        (same, (dir, here, stored, checked, run, is_stored, is_checked, last)),
        (end, after),
      ) =
        bind-Does (IsClean path name url sha256)
          (λ q u p v. (p ≡ q) × (v ≡ (make_executable hasher host q u).1))
          (with_context message (download_and_extract hasher host cache url name sha256))
          (λ q. make_executable hasher host q >>= λ _. pure q)
          (context-Does (IsClean path name url sha256) message
            (download_and_extract hasher host cache url name sha256)
            (download-Does cache url name sha256))
          (λ q u p k. then_pure (make_executable hasher host q) q u p k) w p h in
      (
        end ∙ same,
        (
          dir,
          here,
          stored,
          checked,
          run,
          is_stored,
          is_checked,
          after
              ∙ ap (λ x. (make_executable hasher host x u).1) same
              ∙ ap (λ x. (make_executable hasher host path x).1) last,
        ),
      )

  -- The configured path, what stands in the cache, or a download.
  abbrev pub IsFrom :
      CacheConfig
      → Text
      → Option FilePath
      → Option Text
      → Option Text
      → World
      → FilePath
      → World
      → Type 0
  IsFrom cache name configured url sha256 w p v =
      ((configured ≡ some p) × (host.exists_path p w ≡ true) × (v ≡ w))
      ⊎ (((configured ≡ none)
            × (p ≡ host.join cache.dir name)
            × (host.exists_path p w ≡ true)
            × (v ≡ w))
          ⊎ ((configured ≡ none)
              × (p ≡ host.join cache.dir name)
              × (host.exists_path p w ≡ false)
              × ((link : Text) × (url ≡ some link) × IsDownloaded p name link sha256 w v)))

  -- A path that is given is the configured one, of a file that exists; or, when none is
  -- configured, that of the cache, of a file that stood there before, or of one that was
  -- downloaded: curl gave the whole of the URL before the target, every piece was written to the
  -- temporary file, which then was moved to the path, or an entry of that archive that ends like
  -- the target was unpacked there; if a digest is configured, it is that of the file; and from
  -- then on only the temporary file was removed and the file made executable.
  pub get_path_to_cached_binary-IsFrom :
      (cache : CacheConfig) (name : Text) (path : Option FilePath) (url sha256 : Option Text)
      (w : World) (p : FilePath)
      → (get_path_to_cached_binary hasher host cache name path url sha256 w).0 ≡ ok p
      → IsFrom cache name path url sha256 w p
          (get_path_to_cached_binary hasher host cache name path url sha256 w).1
  unfolding get_path_to_cached_binary
  get_path_to_cached_binary-IsFrom cache name (some path) url sha256 w p h =
      elim (Bool-cases (host.exists_path path w)) [
        | inl b ↦
            let same = ok_injective (rw (b, get_path_to_cached_binary) at h) in
            rw (b, get_path_to_cached_binary)
              (subst (λ q. IsFrom cache name (some path) url sha256 w q w) same
                (inl (refl, b, refl)))
        | inr b ↦
            let bad : err (cause (path ++ codes " does not exist")) ≡ ok p =
              rw (b, get_path_to_cached_binary) at h in
            absurd (cc bad)
      ]
  get_path_to_cached_binary-IsFrom cache name none none sha256 w p h = absurd (cc)
  get_path_to_cached_binary-IsFrom cache name none (some url) sha256 w p h =
      elim (Bool-cases (host.exists_path (host.join cache.dir name) w)) [
        | inl b ↦
            let same = ok_injective (rw (b, get_path_to_cached_binary) at h) in
            rw (b, get_path_to_cached_binary)
              (subst (λ q. IsFrom cache name none (some url) sha256 w q w) same
                (inr (inl (refl, refl, b, refl))))
        | inr b ↦
            let done =
              download_binary-Does cache name url sha256 w p
                (rw (b, get_path_to_cached_binary) at h) in
            rw (b, get_path_to_cached_binary)
              (subst
                (λ q.
                  IsFrom cache name none (some url) sha256 w q
                    (download_binary hasher host cache name url sha256 w).1)
                (sym done.0) (inr (inr (refl, refl, b, (url, refl, done.1)))))
      ]
