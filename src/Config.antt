-- ===== src/Config.antt =====
-- bench-harness/bench-harness/src/config.rs: `KEY=VALUE` entries, and the merging of configuration
-- files. The values of a table are a type parameter: `merge` only moves them.
pub mod Entry
pub mod Merge
use multi_fuzz_benchmarks.Prelude.{
  ℕ, suc, Bool, true, false, Option, none, some, List, [], ◌∷◌, ◌++◌, if◌then◌else◌, Eq, text_eq,
  Text, find, take, drop, trim,
}
use mathlib.Core.Option
use multi_fuzz_benchmarks.Prelude.Dict
use multi_fuzz_benchmarks.Prelude.Dict.{Dict}
use multi_fuzz_benchmarks.Prelude.Outcome.{Result, ok, err}
use multi_fuzz_benchmarks.Prelude.Exec.{Exec, ◌>>=◌, ◌>>◌}

pub record KeyValue : Type 0 where
  pub key : Text
  pub value : Text

-- Parses from a string (e.g. "KEY=VALUE"); the `=` is at the head of the second part.
unfoldable pub from_str : Text → Option KeyValue
from_str input =
    Option.map
      (λ pos.
        let key = take pos input in
        let v = drop pos input in record { key = trim key; value = trim (drop 1 v) })
      (find b'=' input)

-- `Into<(String, String)>` and `Serialize`.
abbrev pub into : KeyValue → Text × Text
into self = (self.key, self.value)

abbrev pub serialize : KeyValue → Text
serialize self = self.key ++ b'=' ∷ self.value

pub data Section : Type 0 where
  image instance' task docker' : Section

pub data MergeError : Type 0 where
  redefinition : Section → Text → MergeError

-- `checked_insert!`: the entries before the one that is refused stay inserted.
unfoldable pub checked_insert :
    {V : Type 0} → Section → Dict Text V → Dict Text V → Result MergeError (Unit {0}) × Dict Text V
checked_insert name [] dst = (ok tt, dst)
checked_insert name ((key, value) ∷ src) dst =
    let rest = checked_insert name src (Dict.insert key value dst) in
    if Dict.contains_key key dst then (err (redefinition name key), dst) else rest

pub record ConfigData (Image Instance Task Docker : Type 0) : Type 0 where
  pub images : Dict Text Image
  pub instances : Dict Text Instance
  pub tasks : Dict Text Task
  pub docker : Dict Text Docker

module _ {Image Instance Task Docker : Type 0} where
  -- The four loops of `ConfigData::merge`; the first redefinition ends it.
  unfoldable pub merge :
      ConfigData Image Instance Task Docker
      → Exec (ConfigData Image Instance Task Docker) MergeError (Unit {0})
  merge other = do
    λ self.
        let (r, t) = checked_insert image other.images self.images in
        (r, record self { images = t })
    λ self.
        let (r, t) = checked_insert instance' other.instances self.instances in
        (r, record self { instances = t })
    λ self.
        let (r, t) = checked_insert task other.tasks self.tasks in (r, record self { tasks = t })
    λ self.
        let (r, t) = checked_insert docker' other.docker self.docker in
        (r, record self { docker = t })

  -- `Config::get_task`, over the tasks of the configuration.
  unfoldable pub get_task : ConfigData Image Instance Task Docker → Text → Option Task
  get_task self name = Dict.lookup name self.tasks
