-- ===== src/Docker.antt =====
-- bench-harness/bench-harness/src/docker.rs: the containers of workers, over the answers of the
-- docker command.
pub mod Answers
pub mod Removal
use multi_fuzz_benchmarks.Prelude.{
  ℕ, zero, suc, Bool, true, false, Option, none, some, List, [], ◌∷◌, ◌++◌, Text, codes, length,
  map, trim, if◌then◌else◌,
}
use multi_fuzz_benchmarks.Prelude.Outcome.{Result, ok, err, ok_or, ◌>>=◌}
use multi_fuzz_benchmarks.Prelude.Radix.{ParseIntError, from_str_radix, to_decimal}
use multi_fuzz_benchmarks.Rpc.{Bytes, FilePath}

pub data MountType : Type 0 where
  bind volume tmp_fs : MountType

unfoldable pub type_text : MountType → Text
type_text bind = codes "bind"
type_text volume = codes "volume"
type_text tmp_fs = codes "tmpfs"

pub record Mount : Type 0 where
  pub kind : MountType
  pub source : FilePath
  pub destination : FilePath

unfoldable pub to_arg : Mount → Text
unfolding type_text
to_arg self =
    codes "type="
    ++ (type_text self.kind
        ++ (codes ",source=" ++ (self.source ++ (codes ",destination=" ++ self.destination))))

unfoldable pub mount_args : List Mount → List Text
unfolding to_arg
mount_args [] = []
mount_args (mount ∷ mounts) = codes "--mount" ∷ to_arg mount ∷ mount_args mounts

-- The arguments of `docker` in `Container::run_detached`, for a user and a group.
unfoldable pub run_args : ℕ → ℕ → Text → List Mount → List Text → List Text
unfolding mount_args
run_args uid gid image mounts args =
    (codes "run" ∷ codes "-u" ∷ (to_decimal uid ++ (b':' ∷ to_decimal gid)) ∷ codes "-d" ∷ [])
    ++ (mount_args mounts ++ image ∷ args)

-- Those in `Container::create`.
unfoldable pub create_args : Text → List Mount → List Text
unfolding mount_args
create_args image mounts = (codes "create" ∷ image ∷ []) ++ mount_args mounts

-- The mounts of `spawn_docker_worker`: the working directory is `/var` in the container.
unfoldable pub worker_mounts : FilePath → List (FilePath × FilePath) → List Mount
worker_mounts workdir mounts =
    record { kind = bind; source = workdir; destination = codes "/var" }
    ∷ map (λ m. record { kind = bind; source = m.0; destination = m.1 }) mounts

-- `get_image_size`, over the success of the command, its output as a text and its errors.
unfoldable pub get_image_size : Bool → Option Text → Text → Result Text ℕ
get_image_size false output errors = err (codes "error inspecting size of docker image: " ++ errors)
get_image_size true output errors = do
  text ← ok_or output (codes "error parsing image size")
  parsed (from_str_radix 10 (trim text))
  where
    parsed : Result ParseIntError ℕ → Result Text ℕ
    parsed (ok size) = ok size
    parsed (err e) = err (codes "error parsing image size")

pub record Container : Type 0 where
  pub name : Text
  pub active : Bool
  pub removed : Bool

-- The container of `run_detached` and of `create`.
unfoldable pub running_container : Text → Container
running_container name = record { name = name; active = true; removed = false }

unfoldable pub created_container : Text → Container
created_container name = record { name = name; active = false; removed = false }

-- `docker stop` and `docker rm`, with what came of them, the last call first.
pub data Call : Type 0 where
  stop rm : Call

abbrev pub Calls : Type 0
Calls = List (Call × Bool)

-- Over the success of each call, by its number.
module _ (answers : ℕ → Bool) where
  -- `docker rm`, at the end of `Container::remove`.
  unfoldable pub run_rm : Container → Calls → Result Text (Unit {0}) × Container × Calls
  run_rm self calls = elim (answers (length calls)) [
    | false ↦ (err (codes "failed to remove container"), self, (rm, false) ∷ calls)
    | true ↦ (ok tt, record self { removed = true }, (rm, true) ∷ calls)
  ]

  unfoldable pub run_stop : Container → Calls → Result Text (Unit {0}) × Container × Calls
  unfolding run_rm
  run_stop self calls = elim (answers (length calls)) [
    | false ↦ (err (codes "failed to stop container"), self, (stop, false) ∷ calls)
    | true ↦ run_rm (record self { active = false }) ((stop, true) ∷ calls)
  ]

  -- `Container::remove`.
  unfoldable pub remove : Container → Calls → Result Text (Unit {0}) × Container × Calls
  unfolding run_stop
  remove self calls = elim self.removed [
    | true ↦ (ok tt, self, calls)
    | false ↦ elim self.active [ true ↦ run_stop self calls | false ↦ run_rm self calls ]
  ]

  -- Several removals, the last of them that of `Drop`.
  unfoldable pub remove_all : ℕ → Container → Calls → Container × Calls
  unfolding remove
  remove_all zero self calls = (self, calls)
  remove_all (suc n) self calls = remove_all n (remove self calls).1 (remove self calls).2
