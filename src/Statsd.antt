-- ===== src/Statsd.antt =====
-- bench-harness/agent/src/log_collector.rs: the ring of buffers that holds statsd datagrams until
-- the harness asks for them.
pub mod Window
use multi_fuzz_benchmarks.Prelude.{
  ℕ, zero, suc, ◌+◌, Bool, true, false, Option, none, some, List, [], ◌∷◌, ◌++◌, if◌then◌else◌,
  ◌==◌, nat_eq, length, get_elem?, set, take, drop, replicate,
}
use multi_fuzz_benchmarks.Prelude.Maybe.{◌>>=◌}

abbrev pub Bytes : Type 0
Bytes = List ℕ

pub record StatsdData : Type 0 where
  pub buf : List Bytes
  pub offset : ℕ
  pub is_overflow : Bool

unfoldable pub new : ℕ → StatsdData
new capacity = record { buf = replicate capacity []; offset = 0; is_overflow = true }

-- `none` is the panic of an index out of range.
unfoldable pub push : StatsdData → Bytes → Option StatsdData
push self data' = do
  _ ← get_elem? self.buf self.offset
  let buf = set self.buf self.offset data'
  let offset = self.offset + 1
  some (
      if offset == length buf
      then record { buf = buf; offset = 0; is_overflow = true }
      else record { buf = buf; offset = offset; is_overflow = self.is_overflow })

-- The slices in the order of the iterator, and the state left behind.
unfoldable pub drain_all : StatsdData → List Bytes × StatsdData
drain_all self = (
  if self.is_overflow
      then drop self.offset self.buf ++ take self.offset self.buf
      else take self.offset self.buf ++ take 0 self.buf,
  record self { offset = 0; is_overflow = false },
)

unfoldable pub push_all : StatsdData → List Bytes → Option StatsdData
push_all self [] = some self
push_all self (d ∷ ds) = do self' ← push self d; push_all self' ds
