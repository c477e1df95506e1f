-- ===== src/Images/Mounts.antt =====
-- docker.rs, prepare_instances and copy_to_cache_dir: the directories that the containers of workers
-- get from the cache.
use multi_fuzz_benchmarks.Prelude.{
  ◌≡◌, refl, true, false, none, some, List, [], ◌∷◌, ◌++◌, Text, codes, text_eq,
}
use multi_fuzz_benchmarks.Prelude.Dict.{Dict, lookup, insert}
use multi_fuzz_benchmarks.Prelude.Outcome.{Result, ok, err}
use multi_fuzz_benchmarks.Prelude.Exec.{Exec, pure, lift, continue, ◌>>=◌, ◌>>◌}
use multi_fuzz_benchmarks.Rpc.{FilePath}
use multi_fuzz_benchmarks.Env.{Failure, cause}
use multi_fuzz_benchmarks.Setup.{CacheConfig}
use multi_fuzz_benchmarks.Firecracker.Instances.{Mount}
use multi_fuzz_benchmarks.Images.Sources.{
  Host, PathToCopy, docker, host, copy_into, docker_build, mkdir, cp,
}
use multi_fuzz_benchmarks.Images.{ImageSource}

-- config.rs, and the configuration of a worker that is made from it.
pub record DockerInstance : Type 0 where
  pub build_path : FilePath
  pub mount : List Mount

pub record DockerConfig : Type 0 where
  pub image : Text
  pub workdir : FilePath
  pub mounts : List (FilePath × FilePath)

module _ {World : Type 0} (env : Host World) where
  open env use {join, exists_path, run}

  unfoldable pub copy_entries : List PathToCopy → FilePath → Exec World Failure (Unit {0})
  unfolding copy_into
  copy_entries [] path = pure tt
  copy_entries (entry ∷ paths) path = do
    copy_into env entry.src (join path entry.dst)
    copy_entries paths path

  -- The paths that the host's image of a mount consists of.
  unfoldable pub host_paths : Dict Text ImageSource → Text → Result Failure (List PathToCopy)
  host_paths images image = elim (lookup image images) [
    | none ↦ err (cause (codes "unknown image: " ++ image))
    | some source ↦ elim source.kind [
      | docker _ ↦ err (cause (codes "docker image not supported for docker mounts"))
      | host paths ↦ ok paths
    ]
  ]

  unfoldable pub copy_to_cache_dir :
      CacheConfig → Dict Text ImageSource → Mount → Exec World Failure FilePath
  unfolding host_paths copy_entries
  copy_to_cache_dir cache images mount w = elim (exists_path (join cache.dir mount.image) w) [
    | true ↦ (ok (join cache.dir mount.image), w)
    | false ↦
        (do
          paths ← lift (host_paths images mount.image)
          copy_entries paths (join cache.dir mount.image)
          pure (join cache.dir mount.image))
          w
  ]

  unfoldable pub copy_mounts :
      CacheConfig
      → Dict Text ImageSource
      → List Mount
      → List (FilePath × FilePath)
      → Exec World Failure (List (FilePath × FilePath))
  unfolding copy_to_cache_dir
  copy_mounts cache images [] mounts = pure mounts
  copy_mounts cache images (mount ∷ more) mounts = do
    path ← copy_to_cache_dir cache images mount
    copy_mounts cache images more (mounts ++ (path, mount.name) ∷ [])

  unfoldable pub prepare_instances :
      CacheConfig
      → Dict Text ImageSource
      → List (Text × DockerInstance)
      → Dict Text DockerConfig
      → Exec World Failure (Dict Text DockerConfig)
  unfolding copy_mounts docker_build
  prepare_instances cache images [] instances = pure instances
  prepare_instances cache images ((name, config) ∷ more) instances = do
    docker_build env name config.build_path false
    mounts ← copy_mounts cache images config.mount []
    prepare_instances cache images more (
        insert name
          (record {
            image = name;
            workdir = join cache.dir (name ++ codes "-workdir");
            mounts = mounts;
          })
          instances)

  -- Making a directory and copying a file remove no directory.
  abbrev pub IsKept : FilePath → Type 0
  IsKept path =
      (src dst : FilePath) (w : World)
      → exists_path path w ≡ true
      → (exists_path path (run (mkdir dst) w).1 ≡ true)
        × (exists_path path (run (cp src dst) w).1 ≡ true)

  bind-keeps :
      {A B : Type 0} (path : FilePath) (m : Exec World Failure A) (f : A → Exec World Failure B)
      (w : World)
      → exists_path path (m w).1 ≡ true
      → ((a : A) (v : World) → exists_path path v ≡ true → exists_path path (f a v).1 ≡ true)
      → exists_path path ((m >>= f) w).1 ≡ true
  bind-keeps {A} {B} path m f w there kept = go (m w).0
    where
      go : (r : Result Failure A) → exists_path path (continue r f (m w).1).1 ≡ true
      go (ok a) = kept a (m w).1 there
      go (err e) = there

  copy_entries-keeps :
      (path root : FilePath) (paths : List PathToCopy) (w : World)
      → IsKept path
      → exists_path path w ≡ true
      → exists_path path (copy_entries paths root w).1 ≡ true
  unfolding copy_entries copy_into
  copy_entries-keeps path root [] w kept there = there
  copy_entries-keeps path root (entry ∷ paths) w kept there =
      bind-keeps path (copy_into env entry.src (join root entry.dst)) (λ _. copy_entries paths root)
        w
        (bind-keeps path (run (mkdir (join root entry.dst)))
          (λ _. run (cp entry.src (join root entry.dst))) w
          (kept entry.src (join root entry.dst) w there).0
          (λ _ v h. (kept entry.src (join root entry.dst) v h).1))
        (λ _ v h. copy_entries-keeps path root paths v kept h)

  copy_entries-makes :
      (path : FilePath) (entry : PathToCopy) (paths : List PathToCopy) (w : World)
      → IsKept path
      → exists_path path (run (mkdir (join path entry.dst)) w).1 ≡ true
      → exists_path path (copy_entries (entry ∷ paths) path w).1 ≡ true
  unfolding copy_entries copy_into
  copy_entries-makes path entry paths w kept made =
      bind-keeps path (copy_into env entry.src (join path entry.dst)) (λ _. copy_entries paths path)
        w
        (bind-keeps path (run (mkdir (join path entry.dst)))
          (λ _. run (cp entry.src (join path entry.dst))) w made
          (λ _ v h. (kept entry.src (join path entry.dst) v h).1))
        (λ _ v h. copy_entries-keeps path path paths v kept h)

  copy_to_cache_dir-present :
      (cache : CacheConfig) (images : Dict Text ImageSource) (mount : Mount) (w : World)
      → exists_path (join cache.dir mount.image) w ≡ true
      → copy_to_cache_dir cache images mount w ≡ (ok (join cache.dir mount.image), w)
  unfolding copy_to_cache_dir
  copy_to_cache_dir-present cache images mount w there = rw (there, copy_to_cache_dir) refl

  -- If neither making a directory nor copying a file removes a directory, a call that makes the
  -- directory of the first path of an image leaves the directory, even if it fails after that; so
  -- the next call takes it for complete: it succeeds and copies nothing.
  pub copy_to_cache_dir-again :
      (cache : CacheConfig) (images : Dict Text ImageSource) (mount : Mount) (entry : PathToCopy)
      (paths : List PathToCopy) (w : World)
      → IsKept (join cache.dir mount.image)
      → exists_path (join cache.dir mount.image) w ≡ false
      → host_paths images mount.image ≡ ok (entry ∷ paths)
      → exists_path
          (join cache.dir mount.image)
          (run (mkdir (join (join cache.dir mount.image) entry.dst)) w).1
        ≡ true
      → copy_to_cache_dir cache images mount (copy_to_cache_dir cache images mount w).1
        ≡ (ok (join cache.dir mount.image), (copy_to_cache_dir cache images mount w).1)
  unfolding copy_to_cache_dir
  copy_to_cache_dir-again cache images mount entry paths w kept missing known made =
      copy_to_cache_dir-present cache images mount (copy_to_cache_dir cache images mount w).1 (
        rw (missing, copy_to_cache_dir)
          (rw known (
            bind-keeps (join cache.dir mount.image)
              (copy_entries (entry ∷ paths) (join cache.dir mount.image))
              (λ _. pure (join cache.dir mount.image)) w
              (copy_entries-makes (join cache.dir mount.image) entry paths w kept made)
              (λ _ v h. h))))
