-- ===== src/Agent/Answers.antt =====
-- agent/src/main.rs: the numbers of the answers on a connection.
use multi_fuzz_benchmarks.Prelude.{
  ℕ, Option, none, some, List, [], ◌∷◌, ◌++◌, map, ◌≡◌, refl, ap, Text,
}
use multi_fuzz_benchmarks.Prelude.Outcome.{Result, ok}
use multi_fuzz_benchmarks.Rpc.{Request}
use multi_fuzz_benchmarks.Client.{IpcWrapper}
use multi_fuzz_benchmarks.Agent.{Host, Value, State, handle_request, Exit}
use multi_fuzz_benchmarks.Agent.Connection.{serve, reap_dead}

module _ (host : Host) where
  numbers_step :
      (exit : Option Exit) (n : ℕ) (request : IpcWrapper Request)
      (requests : List (IpcWrapper Request)) (s : State host)
      → ((m : ℕ) (t : State host)
          → (rest : List ℕ) × (map
                  (λ (a : IpcWrapper (Result Text Value)). a.id)
                  (serve host m (map ok requests) t).0
                ++ rest
              ≡ map (λ (r : IpcWrapper Request). r.id) requests))
      → s.0.exit ≡ exit
      → (rest : List ℕ) × (map
              (λ (a : IpcWrapper (Result Text Value)). a.id)
              (serve host n (ok request ∷ map ok requests) s).0
            ++ rest
          ≡ request.id ∷ map (λ (r : IpcWrapper Request). r.id) requests)
  unfolding serve
  numbers_step none n request requests s later e =
      let answered =
        handle_request host request.body (reap_dead host (record s.0 { exit = none }, s.1)) in
      let (rest, p) = later request.id answered.1 in rw e (rest, ap (λ l. request.id ∷ l) p)
  numbers_step (some x) n request requests s later e = rw e (_, refl)

  -- The answers to well-formed requests carry the numbers of the requests, in their order and with
  -- none left out, up to the request at which the connection ends.
  pub serve-ids :
      (n : ℕ) (requests : List (IpcWrapper Request)) (s : State host)
      → (rest : List ℕ) × (map
              (λ (a : IpcWrapper (Result Text Value)). a.id)
              (serve host n (map ok requests) s).0
            ++ rest
          ≡ map (λ (r : IpcWrapper Request). r.id) requests)
  unfolding serve
  serve-ids n [] s = ([], refl)
  serve-ids n (request ∷ requests) s =
      numbers_step s.0.exit n request requests s (λ m t. serve-ids m requests t) refl
