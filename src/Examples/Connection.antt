-- ===== src/Examples/Connection.antt =====
-- A connection to an agent and the ring of datagrams, on concrete data.
use multi_fuzz_benchmarks.Prelude.{
  ℕ, ◌+◌, true, false, some, List, [], ◌∷◌, ◌++◌, map, ◌≡◌, refl, arith, length,
}
use multi_fuzz_benchmarks.Client
use multi_fuzz_benchmarks.Client.{
  RpcAgent, IpcWrapper, Read, message, failed, await_response, Attempt, retry,
}
use multi_fuzz_benchmarks.Client.Stale.{session, expected, session-expected}
use multi_fuzz_benchmarks.Statsd.{Bytes, StatsdData, push_all, drain_all}
use multi_fuzz_benchmarks.Statsd.Window.{IsValid, last_n, push_all-window}

abbrev late_reader : List (Read ℕ)
late_reader =
    message (record { id = 1; body = 10 })
    ∷ message (record { id = 2; body = 20 })
    ∷ message (record { id = 3; body = 30 })
    ∷ []

abbrev fresh : RpcAgent ℕ ℕ
fresh = Client.new []

session-expected_example :
    session (λ n. n + 100) fresh ((7, true) ∷ (8, false) ∷ (9, true) ∷ [])
    ≡ map (expected (λ n. n + 100)) ((7, true) ∷ (8, false) ∷ (9, true) ∷ [])
unfolding Client.new
session-expected_example =
    session-expected (λ n. n + 100) fresh ((7, true) ∷ (8, false) ∷ (9, true) ∷ [])
      (record { stale = []; pending = refl; earlier = tt })

abbrev ring : StatsdData
ring = record { buf = (b'a' ∷ []) ∷ (b'b' ∷ []) ∷ []; offset = 1; is_overflow = false }

abbrev arrivals : List Bytes
arrivals = (b'x' ∷ []) ∷ (b'y' ∷ []) ∷ (b'z' ∷ []) ∷ []

push_all-window_example :
    (s' : StatsdData) × (push_all ring arrivals ≡ some s')
    × IsValid s'
    × (length s'.buf ≡ length ring.buf)
    × ((drain_all s').0 ≡ last_n (length ring.buf) ((drain_all ring).0 ++ arrivals))
push_all-window_example = push_all-window ring arrivals (record { inside = omega arith })
