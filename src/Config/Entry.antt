-- ===== src/Config/Entry.antt =====
-- Entries in the form `KEY=VALUE`.
use multi_fuzz_benchmarks.Prelude.{
  ◌≡◌, false, some, ◌∷◌, contains, find-append, take-length_append, drop-length_append, trim,
}
use multi_fuzz_benchmarks.Config.{KeyValue, from_str, serialize}

-- What is written for an entry is read back as that entry, when its key has no `=` and neither
-- part has white space around it.
pub from_str-serialize :
    (self : KeyValue)
    → contains b'=' self.key ≡ false
    → trim self.key ≡ self.key
    → trim self.value ≡ self.value
    → from_str (serialize self) ≡ some self
unfolding from_str
from_str-serialize self no_eq key v = rw (find-append b'=' self.key self.value no_eq) (
    rw (
      take-length_append self.key (b'=' ∷ self.value),
      drop-length_append self.key (b'=' ∷ self.value),
      key,
      v,
    ))
