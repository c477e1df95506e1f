-- ===== src/Images.antt =====
-- bench-harness/bench-harness/src/image_builder: the disk images of the machines, over the file
-- system and the commands of the host. Images/Sources is docker.rs as far as an image comes from a
-- container, Images/Sizes the sizes, Images/Mounts the directories that containers get.
pub mod Sizes
pub mod Sources
pub mod Built
pub mod Mounts
use multi_fuzz_benchmarks.Prelude.{
  ℕ, zero, suc, ◌+◌, ◌-◌, min, Bool, true, false, not, ◌&&◌, ◌||◌, Option, none, some, List, [],
  ◌∷◌, ◌++◌, Text, codes, ◌==◌, nat_eq, ltb, if◌then◌else◌,
}
use mathlib.Core.Option
use multi_fuzz_benchmarks.Prelude.Outcome.{Result, ok, err, to_option}
use multi_fuzz_benchmarks.Prelude.Exec.{Exec, pure, raise, lift, with_context, ◌>>=◌, ◌>>◌}
use multi_fuzz_benchmarks.Rpc.{Bytes, FilePath}
use multi_fuzz_benchmarks.Env.{Failure, cause, within}
use multi_fuzz_benchmarks.Setup.{CacheConfig}
use multi_fuzz_benchmarks.Images.Sizes.{get_size}
use multi_fuzz_benchmarks.Images.Sources.{
  Host, Metadata, SourceKind, build, get_total_size_and_modified_time, copy, deleting_on_error,
}

pub record ImageSource : Type 0 where
  pub kind : SourceKind
  pub size : Option ℕ

-- `ZeroFile`: the number of bytes that are left. A read of at most `len` bytes.
unfoldable pub read_zeros : ℕ → ℕ → ℕ × ℕ
read_zeros len left = (min len left, left - min len left)

-- The reads of `std::io::copy`, until one gives nothing.
unfoldable pub copy_zeros : ℕ → ℕ → ℕ → Option ℕ
unfolding read_zeros
copy_zeros zero len left = none
copy_zeros (suc rounds) len left =
    let (n, left') = read_zeros len left in
    let rest = copy_zeros rounds len left' in
    if n == 0 then some 0 else Option.map (λ total. n + total) rest

-- The image's time, unless it is not to be used.
unfoldable pub image_time : CacheConfig → Result Failure Metadata → Option ℕ
image_time cache (err e) = none
image_time cache (ok m) = if cache.disable_image_cache then none else to_option m.modified

unfoldable pub existing_size : Result Failure Metadata → ℕ
existing_size (err e) = 0
existing_size (ok m) = m.len

unfoldable pub is_up_to_date : Option ℕ → ℕ → ℕ → ℕ → Bool
is_up_to_date none source_time existing size = false
is_up_to_date (some time) source_time existing size = not (ltb time source_time) && existing == size

abbrev pub is_ok : {A : Type 0} → Result Failure A → Bool
is_ok (ok a) = true
is_ok (err e) = false

module _ {World : Type 0} (env : Host World) where
  open env use {join, temp_dir, exists_path, metadata, create, fill_zeros, run, create_dir_all}

  unfoldable pub get_image_path : Text → CacheConfig → World → Result Failure FilePath
  get_image_path name cache w = elim (metadata (join cache.dir (name ++ codes ".ext4")) w) [
    | ok m ↦ ok (join cache.dir (name ++ codes ".ext4"))
    | err e ↦ err (within (codes "failed to find image for " ++ name) e)
  ]

  unfoldable pub init_fs : FilePath → ℕ → Exec World Failure (Unit {0})
  init_fs path size = do
    with_context (within (codes "failed to create: " ++ path)) (create path)
    fill_zeros path size
    run (
        codes "mkfs.ext4"
        ∷ codes "-F"
        ∷ codes "-q"
        ∷ codes "-E"
        ∷ codes "lazy_itable_init=1"
        ∷ path
        ∷ [])

  unfoldable pub mount_file_system : FilePath → FilePath → Exec World Failure (Unit {0})
  mount_file_system file mount_path = do
    with_context (within (codes "failed to create mount point: " ++ mount_path))
        (create_dir_all mount_path)
    run (codes "mount" ∷ file ∷ mount_path ∷ [])

  -- `MountHandle::unmount`, at the end of the handle, where its error is ignored.
  unfoldable pub unmount : FilePath → World → World
  unmount path w = if exists_path path w then (run (codes "umount" ∷ path ∷ []) w).1 else w

  unfoldable pub unmounting :
      FilePath → Exec World Failure (Unit {0}) → Exec World Failure (Unit {0})
  unfolding unmount
  unmounting path body w = let (r, w') = body w in (r, unmount path w')

  -- The part of `build_image` that rebuilds: the mount is gone before the image is deleted.
  unfoldable pub rebuild : FilePath → Text → ImageSource → ℕ → Exec World Failure (Unit {0})
  unfolding init_fs mount_file_system unmounting
  rebuild path name source size = do
    with_context (within (codes "failed to initialize file system")) (init_fs path size)
    deleting_on_error env path (do
      mount_file_system path (join temp_dir (codes "bench-harness-image_builder-" ++ name))
      unmounting (join temp_dir (codes "bench-harness-image_builder-" ++ name))
          (copy env source.kind (join temp_dir (codes "bench-harness-image_builder-" ++ name))))

  -- The source is built and measured: the size of the image and the time of the source.
  unfoldable pub measure : ImageSource → CacheConfig → Exec World Failure (ℕ × ℕ)
  measure source cache = do
    build env source.kind cache.disable_image_cache
    measured ←
        with_context (within (codes "error computing metadata"))
          (get_total_size_and_modified_time env source.kind)
    size ← lift (get_size source.size measured.0)
    pure (size, measured.1)

  unfoldable pub rebuild_unless :
      Bool → FilePath → Text → ImageSource → ℕ → Exec World Failure FilePath
  unfolding rebuild
  rebuild_unless true path name source size = pure path
  rebuild_unless false path name source size = do rebuild path name source size; pure path

  -- The part behind the look at the image that is there.
  unfoldable pub validate :
      Text
      → ImageSource
      → CacheConfig
      → FilePath
      → Result Failure Metadata
      → Exec World Failure FilePath
  unfolding measure rebuild_unless image_time existing_size is_up_to_date
  validate name source cache path found = do
    measured ← measure source cache
    rebuild_unless
        (is_up_to_date (image_time cache found) measured.1 (existing_size found) measured.0) path
        name source measured.0

  unfoldable pub build_image : Text → ImageSource → CacheConfig → Exec World Failure FilePath
  unfolding validate
  build_image name source cache w =
      let path = join cache.dir (name ++ codes ".ext4") in
      let found = metadata path w in
      elim (is_ok found && cache.skip_validation) [
        | true ↦ (ok path, w)
        | false ↦ validate name source cache path found w
      ]

  -- firecracker.rs, build_images.
  unfoldable pub build_images :
      CacheConfig → List (Text × ImageSource) → Exec World Failure (Unit {0})
  unfolding build_image
  build_images cache [] = pure tt
  build_images cache ((name, source) ∷ images) = do
    with_context (within (codes "failed to build: " ++ name)) (build_image name source cache)
    build_images cache images
