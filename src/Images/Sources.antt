-- ===== src/Images/Sources.antt =====
-- image_builder/mod.rs, SourceKind, and docker.rs, copy_image: what an image is made from.
use multi_fuzz_benchmarks.Prelude.{
  ℕ, ◌+◌, ◌*◌, ◌%◌, ◌^◌, max, Bool, true, false, Option, none, some, List, [], ◌∷◌, ◌++◌, Text,
  codes, trim,
}
use multi_fuzz_benchmarks.Prelude.Outcome.{Result, ok, err, ok_or}
use multi_fuzz_benchmarks.Prelude.Exec.{Exec, pure, lift, with_context, ◌>>=◌, ◌>>◌}
use multi_fuzz_benchmarks.Rpc.{FilePath}
use multi_fuzz_benchmarks.Env.{Failure, cause, within}
use multi_fuzz_benchmarks.Docker.{create_args, get_image_size}

pub record DockerSource : Type 0 where
  pub tag : Text
  pub build_path : FilePath
  pub copy : List FilePath
  pub create_dirs : List FilePath

pub record PathToCopy : Type 0 where
  pub dst : FilePath
  pub src : FilePath

pub data SourceKind : Type 0 where
  docker : DockerSource → SourceKind
  host : List PathToCopy → SourceKind

-- `std::fs::Metadata`, as far as it is read. A time is a number of nanoseconds behind `UNIX_EPOCH`.
pub record Metadata : Type 0 where
  pub len : ℕ
  pub modified : Result Failure ℕ
  pub blksize : ℕ
  pub blocks : ℕ

-- A command that came to its end: its success, its output if that is a text, its errors.
pub record Output : Type 0 where
  pub success : Bool
  pub stdout : Option Text
  pub stderr : Text

-- What the code calls of the host: files, walkdir, archives, and commands by their words.
pub record Host (World : Type 0) : Type 0 where
  pub join : FilePath → FilePath → FilePath
  pub temp_dir : FilePath
  pub exists_path : FilePath → World → Bool
  pub metadata : FilePath → World → Result Failure Metadata
  pub walk_dir : FilePath → World → List (Result Failure Metadata)
  pub create : FilePath → Exec World Failure (Unit {0})
  -- Write a number of zeros to a new file.
  pub fill_zeros : FilePath → ℕ → Exec World Failure (Unit {0})
  pub create_dir_all : FilePath → Exec World Failure (Unit {0})
  pub remove_file : FilePath → Exec World Failure (Unit {0})
  pub unpack_archive : FilePath → FilePath → Exec World Failure (Unit {0})
  -- A command that has to be successful.
  pub run : List Text → Exec World Failure (Unit {0})
  pub output : List Text → Exec World Failure Output
  -- A command with its output in a file.
  pub output_to : FilePath → List Text → Exec World Failure Output
  -- `OffsetDateTime::parse`.
  pub parse_time : Text → Option ℕ

-- The commands of `copy_into`.
abbrev pub mkdir : FilePath → List Text
mkdir to = codes "mkdir" ∷ codes "-p" ∷ to ∷ []

abbrev pub cp : FilePath → FilePath → List Text
cp from to = codes "cp" ∷ codes "-RL" ∷ codes "--preserve=all" ∷ from ∷ to ∷ []

module _ {World : Type 0} (env : Host World) where
  open env use {
    join, temp_dir, exists_path, walk_dir, create, remove_file, unpack_archive, run, output,
    output_to, parse_time,
  }

  abbrev pub on_error :
      {A : Type 0} → FilePath → Result Failure A → World → Result Failure A × World
  on_error path (ok a) w = (ok a, w)
  on_error path (err e) w = (err e, (remove_file path w).1)

  -- `DeleteOnDrop`: with an error, and always.
  unfoldable pub deleting_on_error :
      {A : Type 0} → FilePath → Exec World Failure A → Exec World Failure A
  deleting_on_error path body w = on_error path (body w).0 (body w).1

  abbrev deleting : {A : Type 0} → FilePath → Exec World Failure A → Exec World Failure A
  deleting path body w = let (r, w') = body w in (r, (remove_file path w').1)

  -- docker.rs, build_image.
  unfoldable pub docker_build : Text → FilePath → Bool → Exec World Failure (Unit {0})
  docker_build tag root no_cache = run (
      (codes "docker" ∷ codes "build" ∷ codes "-t" ∷ tag ∷ root ∷ [])
      ++ (elim no_cache [ true ↦ codes "--no-cache" ∷ [] | false ↦ [] ]))

  unfoldable pub build : SourceKind → Bool → Exec World Failure (Unit {0})
  unfolding docker_build
  build (docker inner) disable_image_cache =
      docker_build inner.tag inner.build_path disable_image_cache
  build (host paths) disable_image_cache = pure tt

  abbrev inspect : Text → Text → List Text
  inspect tag format =
      codes "docker" ∷ codes "image" ∷ codes "inspect" ∷ tag ∷ (codes "--format=" ++ format) ∷ []

  abbrev relabel_size : Result Text ℕ → Result Failure ℕ
  relabel_size (ok size) = ok size
  relabel_size (err e) = err (cause e)

  unfoldable pub image_size : Text → Exec World Failure ℕ
  image_size tag = do
    out ← output (inspect tag (codes "{{.Size}}"))
    lift (relabel_size (get_image_size out.success out.stdout out.stderr))

  abbrev creation_time : Output → Result Failure ℕ
  creation_time out = elim out.success [
    | false ↦ err (cause (codes "error inspecting creation date of docker image: " ++ out.stderr))
    | true ↦ elim out.stdout [
      | none ↦ err (cause (codes "error parsing image creation date"))
      | some text ↦
          ok_or (parse_time (trim text)) (cause (codes "error parsing image creation date"))
    ]
  ]

  unfoldable pub get_creation_time : Text → Exec World Failure ℕ
  get_creation_time tag = do
    out ← output (inspect tag (codes "{{.Created}}"))
    lift (creation_time out)

  abbrev on_disk_size : Metadata → ℕ
  on_disk_size m = m.blksize * m.blocks % 2 ^ 64

  -- The sum of the sizes and the latest time of the entries of a directory.
  unfoldable pub add_entries : List (Result Failure Metadata) → ℕ → ℕ → Result Failure (ℕ × ℕ)
  add_entries [] total newest = ok (total, newest)
  add_entries (err e ∷ entries) total newest = err e
  add_entries (ok m ∷ entries) total newest = elim m.modified [
    | err e ↦ err e
    | ok time ↦ add_entries entries ((total + on_disk_size m) % 2 ^ 64) (max newest time)
  ]

  abbrev add_entry : Result Failure (ℕ × ℕ) → ℕ → ℕ → Result Failure (ℕ × ℕ)
  add_entry (err e) total newest = err e
  add_entry (ok entry) total newest = ok ((total + entry.0) % 2 ^ 64, max newest entry.1)

  unfoldable pub add_paths : List PathToCopy → ℕ → ℕ → Exec World Failure (ℕ × ℕ)
  unfolding add_entries
  add_paths [] total newest = pure (total, newest)
  add_paths (entry ∷ paths) total newest = do
    sum ← λ w. (add_entry (add_entries (walk_dir entry.src w) 0 0) total newest, w)
    add_paths paths sum.0 sum.1

  unfoldable pub get_total_size_and_modified_time : SourceKind → Exec World Failure (ℕ × ℕ)
  unfolding add_paths image_size get_creation_time
  get_total_size_and_modified_time (docker inner) = do
    size ← image_size inner.tag
    time ← get_creation_time inner.tag
    pure (size, time)
  get_total_size_and_modified_time (host paths) = add_paths paths 0 0

  unfoldable pub copy_into : FilePath → FilePath → Exec World Failure (Unit {0})
  copy_into from to = do run (mkdir to); run (cp from to)

  -- Copy all paths under a root.
  unfoldable pub copy_paths : List PathToCopy → FilePath → Exec World Failure (Unit {0})
  unfolding copy_into
  copy_paths [] root = pure tt
  copy_paths (entry ∷ paths) root = do
    with_context (within (codes "error copying " ++ (entry.src ++ (codes " to " ++ entry.dst))))
        (copy_into entry.src (join root entry.dst))
    copy_paths paths root

  -- docker.rs, copy_files: each file goes through an archive.
  unfoldable pub copy_files :
      Text → FilePath → List FilePath → FilePath → Exec World Failure (Unit {0})
  copy_files name tmp_path [] root = pure tt
  copy_files name tmp_path (file ∷ files) root = do
    with_context (within (codes "failed to create temporary file for copying")) (create tmp_path)
    out ← with_context (within (codes "error running docker cp")) (
        output_to tmp_path
          (codes "docker" ∷ codes "cp" ∷ (name ++ (codes ":/" ++ file)) ∷ codes "-" ∷ []))
    lift (elim out.success [
      | true ↦ ok tt
      | false ↦ err (cause (codes "error running docker cp: " ++ out.stderr))
    ])
    with_context (within (codes "error unpacking archive")) (unpack_archive tmp_path root)
    copy_files name tmp_path files root

  abbrev name_of : Output → Result Failure Text
  name_of out = elim out.success [
    | true ↦ elim out.stdout [
      | none ↦ err (cause (codes "invalid utf-8"))
      | some text ↦ ok (trim text)
    ]
    | false ↦ err (cause (codes "failed with " ++ out.stderr))
  ]

  unfoldable pub create_container : Text → Exec World Failure Text
  create_container image = do
    out ← output (codes "docker" ∷ create_args image [])
    lift (name_of out)

  -- `Container::remove` of a container that was created and does not run.
  unfoldable pub remove_container : Text → Exec World Failure (Unit {0})
  remove_container name =
      with_context (within (codes "failed to remove container"))
        (run (codes "docker" ∷ codes "rm" ∷ name ∷ []))

  -- The container is removed once more when it is dropped, if it has not been removed.
  unfoldable pub removing_on_error :
      Text → Exec World Failure (Unit {0}) → Exec World Failure (Unit {0})
  unfolding remove_container
  removing_on_error name body w =
      let (r, w') = body w in
      elim r [ ok a ↦ (ok a, w') | err e ↦ (err e, (remove_container name w').1) ]

  unfoldable pub create_dirs_in : FilePath → List FilePath → Exec World Failure (Unit {0})
  create_dirs_in root [] = pure tt
  create_dirs_in root (dir ∷ dirs) = do
    run (codes "mkdir" ∷ join root dir ∷ [])
    create_dirs_in root dirs

  unfoldable pub copy_image : DockerSource → FilePath → Exec World Failure (Unit {0})
  unfolding copy_files create_container removing_on_error create_dirs_in
  copy_image config root = do
    name ← create_container config.tag
    removing_on_error name (do
      deleting (join temp_dir (codes "bench-harness-docker-extract"))
          (copy_files name (join temp_dir (codes "bench-harness-docker-extract")) config.copy root)
      remove_container name)
    create_dirs_in root config.create_dirs

  unfoldable pub copy : SourceKind → FilePath → Exec World Failure (Unit {0})
  unfolding copy_paths copy_image
  copy (docker inner) root = copy_image inner root
  copy (host paths) root = copy_paths paths root
