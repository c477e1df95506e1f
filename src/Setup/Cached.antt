-- ===== src/Setup/Cached.antt =====
-- bench-harness/bench-harness/src/setup.rs, download_and_extract and get_path_to_cached_binary.
use multi_fuzz_benchmarks.Prelude.{
  ◌+◌, ◌/◌, ◌%◌, true, false, Option, none, some, ◌++◌, Text, codes, ◌==◌, nat_eq, text_eq,
}
use multi_fuzz_benchmarks.Prelude.Outcome.{ok, err}
use multi_fuzz_benchmarks.Prelude.Exec.{Exec, pure, with_context, ◌>>=◌, ◌>>◌}
use multi_fuzz_benchmarks.Rpc.{FilePath}
use multi_fuzz_benchmarks.Env.{Failure, cause, within}
use multi_fuzz_benchmarks.Setup.{
  CacheConfig, split_target, extension_of, is_archive, is_compressed, Hasher, Host, download_url,
  deleting, place, check_digest,
}

module _ {World : Type 0} (hasher : Hasher) (host : Host World) where
  open host use {
    join, with_extension, exists_path, current_dir, create, transfer, write_all, rename,
    remove_file, entries, unpack, open_reads, mode, set_mode,
  }

  -- Download to a temporary file, and put the binary into its place.
  unfoldable pub store : Text → Text → FilePath → FilePath → Text → Exec World Failure (Unit {0})
  unfolding download_url place extension_of is_archive is_compressed
  store url target tmp path name = do
    with_context (within (codes "error creating " ++ tmp)) (create tmp)
    download_url hasher host url (is_compressed (extension_of url)) tmp
    place hasher host (is_archive (extension_of url)) tmp path target name

  -- The part behind the name of the temporary file.
  unfoldable pub fetch :
      Text → Text → FilePath → FilePath → Text → Option Text → Exec World Failure FilePath
  unfolding store check_digest
  fetch url target tmp path name sha256 = do
    store url target tmp path name
    check_digest hasher host path sha256
    pure path

  unfoldable pub download_and_extract :
      CacheConfig → Text → Text → Option Text → Exec World Failure FilePath
  unfolding fetch split_target
  download_and_extract cache url name sha256 = do
    dir ← with_context (within (codes "unable to get working directory")) current_dir
    deleting hasher host (join dir (codes ".harness-download.tmp")) (
        fetch (split_target url name).0 (split_target url name).1
          (join dir (codes ".harness-download.tmp")) (join cache.dir name) name sha256)

  -- The bit 0o100 is set if it is not.
  unfoldable pub make_executable : FilePath → Exec World Failure (Unit {0})
  make_executable path = do
    perms ← mode path
    elim (perms / 64 % 2 == 0) [
      | true ↦
          with_context (within (codes "error enabling execute permission for " ++ path))
            (set_mode path (perms + 64))
      | false ↦ pure tt
    ]

  -- The rest of `get_path_to_cached_binary`, for a binary that is not in the cache.
  unfoldable pub download_binary :
      CacheConfig → Text → Text → Option Text → Exec World Failure FilePath
  unfolding download_and_extract make_executable
  download_binary cache name url sha256 = do
    path ←
        with_context (within (codes "failed to download " ++ (name ++ (codes " from: " ++ url))))
          (download_and_extract cache url name sha256)
    make_executable path
    pure path

  unfoldable pub get_path_to_cached_binary :
      CacheConfig → Text → Option FilePath → Option Text → Option Text → Exec World Failure FilePath
  unfolding download_binary
  get_path_to_cached_binary cache name (some path) url sha256 w = elim (exists_path path w) [
    | true ↦ (ok path, w)
    | false ↦ (err (cause (path ++ codes " does not exist")), w)
  ]
  get_path_to_cached_binary cache name none none sha256 w =
      (err (cause (name ++ codes " path not configured")), w)
  get_path_to_cached_binary cache name none (some url) sha256 w =
      elim (exists_path (join cache.dir name) w) [
        | true ↦ (ok (join cache.dir name), w)
        | false ↦ download_binary cache name url sha256 w
      ]
