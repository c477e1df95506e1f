-- ===== src/Workers/Dummy.antt =====
-- worker.rs, DummyAgent: answers without a machine. What it prints is left out.
use multi_fuzz_benchmarks.Prelude.{ℕ, suc, ◌≤◌, ◌<◌, ◌≡◌, refl, arith, List, [], ◌∷◌}
use multi_fuzz_benchmarks.Rpc.{RunCommand, Request, Requests, Response, value}

-- The JSON values of the answers: a number, `null`, `{}`, and a run with success and no output.
module _ {Json : Type 0} (number : ℕ → Json) (null empty_object success_output : Json) where
  -- `DummyAgent::handle_request`, over `next_pid`, which stays below 2^32; no request fails.
  unfoldable mutual
    pub handle_request : Request → ℕ → Response Json × ℕ
    handle_request (Request.spawn_process process) next_pid =
        (value (number next_pid), suc next_pid)
    handle_request (Request.run_process process) next_pid = (value success_output, next_pid)
    handle_request (Request.wait_pid pid) next_pid = (value (number 0), next_pid)
    handle_request (Request.get_status pid) next_pid = (value null, next_pid)
    handle_request (Request.stat_file path) next_pid = (value null, next_pid)
    handle_request (Request.bulk requests) next_pid =
        (value empty_object, handle_all requests next_pid)
    handle_request Request.reboot next_pid = (value empty_object, next_pid)
    handle_request Request.restart_agent next_pid = (value empty_object, next_pid)
    handle_request Request.get_stats next_pid = (value empty_object, next_pid)
    handle_request (Request.kill_process pid signal) next_pid = (value empty_object, next_pid)
    handle_request (Request.read_file path offset len) next_pid = (value empty_object, next_pid)
    handle_request (Request.read_dir path) next_pid = (value empty_object, next_pid)
    handle_request (Request.add_entropy bytes) next_pid = (value empty_object, next_pid)

    -- The loop over a bulk.
    pub handle_all : Requests → ℕ → ℕ
    handle_all Requests.nil next_pid = next_pid
    handle_all (Requests.cons req requests) next_pid =
        handle_all requests (handle_request req next_pid).1

  -- The requests of a session.
  unfoldable pub serve : List Request → ℕ → ℕ
  unfolding handle_request
  serve [] next_pid = next_pid
  serve (req ∷ requests) next_pid = serve requests (handle_request req next_pid).1

  mutual
    unfolding handle_request handle_all

    handle_request-le : (req : Request) (next_pid : ℕ) → next_pid ≤ (handle_request req next_pid).1
    handle_request-le (Request.spawn_process process) n = omega arith
    handle_request-le (Request.run_process process) n = omega arith
    handle_request-le (Request.wait_pid pid) n = omega arith
    handle_request-le (Request.get_status pid) n = omega arith
    handle_request-le (Request.stat_file path) n = omega arith
    handle_request-le (Request.bulk requests) n = handle_all-le requests n
    handle_request-le Request.reboot n = omega arith
    handle_request-le Request.restart_agent n = omega arith
    handle_request-le Request.get_stats n = omega arith
    handle_request-le (Request.kill_process pid signal) n = omega arith
    handle_request-le (Request.read_file path offset len) n = omega arith
    handle_request-le (Request.read_dir path) n = omega arith
    handle_request-le (Request.add_entropy bytes) n = omega arith

    handle_all-le : (requests : Requests) (next_pid : ℕ) → next_pid ≤ handle_all requests next_pid
    handle_all-le Requests.nil n = omega arith
    handle_all-le (Requests.cons req requests) n =
        let first = handle_request-le req n in
        let rest = handle_all-le requests (handle_request req n).1 in omega arith

  serve-le : (requests : List Request) (next_pid : ℕ) → next_pid ≤ serve requests next_pid
  unfolding serve
  serve-le [] n = omega arith
  serve-le (req ∷ requests) n =
      let first = handle_request-le req n in
      let rest = serve-le requests (handle_request req n).1 in omega arith

  -- Two processes that are started in one session get different numbers, the later one the larger,
  -- whatever requests stand between them.
  pub spawn_process-increasing :
      (first second : RunCommand) (between : List Request) (next_pid : ℕ)
      → (pid later : ℕ) × ((handle_request (Request.spawn_process first) next_pid).0
          ≡ value (number pid))
        × ((handle_request
              (Request.spawn_process second)
              (serve between (handle_request (Request.spawn_process first) next_pid).1)).0
            ≡ value (number later))
        × (pid < later)
  unfolding handle_request
  spawn_process-increasing first second between n =
      (n, serve between (suc n), refl, refl, serve-le between (suc n))
