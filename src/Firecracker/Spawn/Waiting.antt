-- ===== src/Firecracker/Spawn/Waiting.antt =====
-- firecracker.rs, spawn_vm: enough rounds of the wait for the API socket.
use multi_fuzz_benchmarks.Prelude.{
  ℕ, zero, suc, ◌<◌, ◌≤◌, ◌≡◌, refl, arith, true, Bool-cases, inl, inr,
}
use multi_fuzz_benchmarks.Prelude.Outcome.{ok}
use multi_fuzz_benchmarks.Rpc.{FilePath}
use multi_fuzz_benchmarks.Firecracker.{Host}
use multi_fuzz_benchmarks.Firecracker.Spawn.{Processes, await_socket}

module _ {World : Type 0} (host : Host World) (processes : Processes World) where
  -- The world after a number of waits.
  abbrev waited : ℕ → World → World
  waited zero w = w
  waited (suc k) w = waited k (processes.sleep 100 w)

  -- If the socket is there after some waits, then with more rounds than that the wait ends, at the
  -- first round that finds the socket, however many rounds there are.
  await_socket-first :
      (k rounds : ℕ) (api_socket : FilePath) (w : World)
      → k < rounds
      → host.exists_path api_socket (waited k w) ≡ true
      → (first : ℕ) × (first ≤ k)
        × (await_socket host processes rounds api_socket w ≡ (ok tt, waited first w))
  unfolding await_socket
  await_socket-first k zero api_socket w lt h = absurd (omega arith)
  await_socket-first zero (suc rounds) api_socket w lt h =
      (zero, omega arith, rw (h, await_socket) refl)
  await_socket-first (suc k) (suc rounds) api_socket w lt h =
      elim (Bool-cases (host.exists_path api_socket w)) [
        | inl b ↦ (zero, omega arith, rw (b, await_socket) refl)
        | inr b ↦
            let (first, le, e) =
              await_socket-first k rounds api_socket (processes.sleep 100 w) (omega arith) h in
            (suc first, omega arith, rw (b, await_socket) e)
      ]
