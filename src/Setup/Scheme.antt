-- ===== src/Setup/Scheme.antt =====
-- setup.rs, download_and_extract: which part of the configured URL is asked for.
use mathlib.Core.Path.{subst}
use multi_fuzz_benchmarks.Prelude.{
  ◌≡◌, refl, sym, Bool, false, Option, none, some, List, [], ◌∷◌, ◌++◌, Text, codes, contains,
  rsplit_once_on-append, inl, inr,
}
use multi_fuzz_benchmarks.Prelude.Outcome.{Result, ok, err, Result-cases}
use multi_fuzz_benchmarks.Prelude.Exec.{Exec, with_context}
use multi_fuzz_benchmarks.Prelude.Returns.{
  Returns, context-Returns, then-Returns, stop-Returns, bind-Returns,
}
use multi_fuzz_benchmarks.Rpc.{Bytes, FilePath}
use multi_fuzz_benchmarks.Env.{Failure, cause, within}
use multi_fuzz_benchmarks.Setup.{
  CacheConfig, Hasher, Host, split_target, write_buffers, download_url, deleting, report,
}
use multi_fuzz_benchmarks.Setup.Cached.{
  store, fetch, download_and_extract, download_binary, get_path_to_cached_binary,
}

-- The text behind the last colon is the target.
split_target-append :
    (url target name : Text)
    → contains b':' target ≡ false
    → split_target (url ++ b':' ∷ target) name ≡ (url, target)
unfolding split_target
split_target-append url target name h =
    rw (rsplit_once_on-append b':' url target h, split_target) refl

module _ {World : Type 0} (hasher : Hasher) (host : Host World) where
  -- Every transfer of a URL ends with an error.
  abbrev pub Fails : Text → Type 0
  Fails url =
      Returns {E = Failure} (λ given _. (e : Failure) × (given.1 ≡ err e)) (host.transfer url)

  write_buffers-failed :
      (gz : Bool) (path : FilePath) (e : Failure) (bufs : List Bytes) (error : Option Text)
      (w : World)
      → (e' : Failure) × ((write_buffers hasher host gz path (err e) bufs error w).0.0 ≡ err e')
  unfolding write_buffers
  write_buffers-failed gz path e [] error w = (e, refl)
  write_buffers-failed gz path e ([] ∷ bufs) error w =
      elim (Result-cases (host.write_all gz path [] w).0) [
        | inl (a, h) ↦
            rw (h, write_buffers)
              (write_buffers-failed gz path e bufs error (host.write_all gz path [] w).1)
        | inr (e', h) ↦
            rw (h, write_buffers)
              (write_buffers-failed gz path e bufs (some e') (host.write_all gz path [] w).1)
      ]
  write_buffers-failed gz path e ((b ∷ bs) ∷ bufs) error w =
      elim (Result-cases (host.write_all gz path (b ∷ bs) w).0) [
        | inl (a, h) ↦
            rw (h, write_buffers)
              (write_buffers-failed gz path e bufs error (host.write_all gz path (b ∷ bs) w).1)
        | inr (e', h) ↦ rw (h, write_buffers) (cause (codes "write error"), refl)
      ]

  report-Fails :
      (result : Result Failure (Unit {0})) (error : Option Text) (e : Failure)
      → result ≡ err e
      → Returns (λ _ _. ⊥) (report hasher host result error)
  report-Fails (ok a) error e q w b h = absurd (cc)
  report-Fails (err e') none e q w b h = absurd (cc)
  report-Fails (err e') (some inner) e q w b h = absurd (cc)

  download_url-Fails :
      (url : Text) (gz : Bool) (path : FilePath)
      → Fails url
      → Returns (λ _ _. ⊥) (download_url hasher host url gz path)
  unfolding download_url
  download_url-Fails url gz path fails =
      bind-Returns (λ given _. (e : Failure) × (given.1 ≡ err e)) (λ _ _. ⊥) (host.transfer url) _
        fails
        (λ given v failed b h.
          let done = write_buffers hasher host gz path given.1 given.0 none v in
          let written = write_buffers-failed gz path failed.0 given.0 none v in
          let end : done.0.0 ≡ err written.0 = rw failed.1 written.1 in
          report-Fails done.0.0 done.0.1 written.0 end done.1 b h)

  store-Fails :
      (url target : Text) (tmp path : FilePath) (name : Text)
      → Fails url
      → Returns (λ _ _. ⊥) (store hasher host url target tmp path name)
  unfolding store
  store-Fails url target tmp path name fails =
      then-Returns (λ _ _. ⊥) _ _
        (λ _.
          stop-Returns (λ _ _. ⊥) (download_url hasher host url _ tmp) _
            (download_url-Fails url _ tmp fails))

  fetch-Fails :
      (url target : Text) (tmp path : FilePath) (name : Text) (sha256 : Option Text)
      → Fails url
      → Returns (λ _ _. ⊥) (fetch hasher host url target tmp path name sha256)
  unfolding fetch
  fetch-Fails url target tmp path name sha256 fails =
      stop-Returns (λ _ _. ⊥) (store hasher host url target tmp path name) _
        (store-Fails url target tmp path name fails)

  deleting-Fails :
      {A : Type 0} (path : FilePath) (m : Exec World Failure A)
      → Returns (λ _ _. ⊥) m
      → Returns (λ _ _. ⊥) (deleting hasher host path m)
  deleting-Fails path m never w a h = never w a h

  download-Fails :
      (cache : CacheConfig) (scheme rest name : Text) (sha256 : Option Text)
      → contains b':' rest ≡ false
      → Fails scheme
      → Returns
          (λ _ _. ⊥)
          (download_and_extract hasher host cache (scheme ++ b':' ∷ rest) name sha256)
  unfolding download_and_extract
  download-Fails cache scheme rest name sha256 h fails =
      let asked : Fails (split_target (scheme ++ b':' ∷ rest) name).0 =
        subst (λ parts. Fails parts.0) (sym (split_target-append scheme rest name h)) fails in
      then-Returns (λ _ _. ⊥) _ _
        (λ dir.
          deleting-Fails (host.join dir (codes ".harness-download.tmp"))
            (fetch hasher host (split_target (scheme ++ b':' ∷ rest) name).0
              (split_target (scheme ++ b':' ∷ rest) name).1
              (host.join dir (codes ".harness-download.tmp")) (host.join cache.dir name) name
              sha256)
            (fetch-Fails (split_target (scheme ++ b':' ∷ rest) name).0
              (split_target (scheme ++ b':' ∷ rest) name).1
              (host.join dir (codes ".harness-download.tmp")) (host.join cache.dir name) name sha256
              asked))

  download_binary-Fails :
      (cache : CacheConfig) (scheme rest name : Text) (sha256 : Option Text)
      → contains b':' rest ≡ false
      → Fails scheme
      → Returns (λ _ _. ⊥) (download_binary hasher host cache name (scheme ++ b':' ∷ rest) sha256)
  unfolding download_binary
  download_binary-Fails cache scheme rest name sha256 h fails =
      let url = scheme ++ b':' ∷ rest in
      let message = within (codes "failed to download " ++ (name ++ (codes " from: " ++ url))) in
      stop-Returns (λ _ _. ⊥)
        (with_context message (download_and_extract hasher host cache url name sha256)) _
        (context-Returns (λ _ _. ⊥) message (download_and_extract hasher host cache url name sha256)
          (download-Fails cache scheme rest name sha256 h fails))

  -- If curl can not get the scheme alone, a binary whose configured URL has no colon but that of its
  -- scheme, so that no file of an archive is named, is never downloaded: without a path and without
  -- a cached file, the result is an error.
  pub get_path_to_cached_binary-scheme :
      (cache : CacheConfig) (name scheme rest : Text) (sha256 : Option Text) (w : World)
      → contains b':' rest ≡ false
      → Fails scheme
      → host.exists_path (host.join cache.dir name) w ≡ false
      → (e : Failure) × ((get_path_to_cached_binary hasher host cache name none
            (some (scheme ++ b':' ∷ rest))
            sha256
            w).0
          ≡ err e)
  unfolding get_path_to_cached_binary
  get_path_to_cached_binary-scheme cache name scheme rest sha256 w h fails missing =
      rw (missing, get_path_to_cached_binary)
        (failing (download_binary hasher host cache name (scheme ++ b':' ∷ rest) sha256)
          (download_binary-Fails cache scheme rest name sha256 h fails))
    where
      failing :
          (m : Exec World Failure FilePath)
          → Returns (λ _ _. ⊥) m
          → (e : Failure) × ((m w).0 ≡ err e)
      failing m never = elim (Result-cases (m w).0) [
        | inl (a, q) ↦ absurd (never w a q)
        | inr found ↦ found
      ]
