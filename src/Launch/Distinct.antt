-- ===== src/Launch/Distinct.antt =====
-- main.rs, start_workers: the ids of the workers, from which their working directories are named.
use mathlib.Core.List.{append_cancel_left, append_cancel_right}
use multi_fuzz_benchmarks.Prelude.Outcome.{ok, ok_or}
use multi_fuzz_benchmarks.Prelude.Exec.{Exec, lift}
use multi_fuzz_benchmarks.Prelude.Returns.{pure-Returns, then-Returns}
use multi_fuzz_benchmarks.Env.{Failure, cause}
use multi_fuzz_benchmarks.Workers.{WorkerBackend, local, firecracker, docker, dummy}
use multi_fuzz_benchmarks.Prelude.{
  ℕ, zero, suc, ◌+◌, ◌-◌, ◌*◌, ◌/◌, ◌%◌, ◌<◌, ◌≡◌, refl, sym, ap, ◌∙◌, arith, List, [], ◌∷◌, ◌++◌,
  Text, codes, get_elem?, length, Option, some, ltb, Bool-cases, inl, inr,
}
use multi_fuzz_benchmarks.Prelude.Radix.{decimal_digits, to_decimal}
use multi_fuzz_benchmarks.Launch.{
  Runner, local_worker, dummy_worker, runners_from, vm_worker, container_worker, runners,
}

-- The number that decimal digits stand for, behind those that were read before.
unfoldable value_from : ℕ → Text → ℕ
value_from acc [] = acc
value_from acc (c ∷ cs) = value_from (acc * 10 + (c - b'0')) cs

decimal_digits-value :
    (fuel n : ℕ) (digits : Text)
    → n < fuel
    → value_from 0 (decimal_digits fuel n digits) ≡ value_from n digits
unfolding value_from decimal_digits
decimal_digits-value zero n digits h = absurd (omega arith)
decimal_digits-value (suc fuel) n digits h = elim (Bool-cases (ltb n 10)) [
  | inl b ↦ rw (b, decimal_digits) (ap (λ k. value_from k digits) (ground arith))
  | inr b ↦
      rw (b, decimal_digits)
        (decimal_digits-value fuel (n / 10) ((b'0' + n % 10) ∷ digits) (ground arith)
          ∙ ap (λ k. value_from k digits) (omega arith))
]

pub to_decimal-injective : (m n : ℕ) → to_decimal m ≡ to_decimal n → m ≡ n
unfolding to_decimal value_from
to_decimal-injective m n h =
    sym (decimal_digits-value (m + 1) m [] (omega arith))
    ∙ ap (value_from 0) h
    ∙ decimal_digits-value (n + 1) n [] (omega arith)

module _ {Local Instances Containers : Type 0} where
  -- The worker at a place is the one that was made for it.
  runners_from-get_elem? :
      (make : ℕ → Runner Local Instances Containers) (i workers k : ℕ)
      (r : Runner Local Instances Containers)
      → get_elem? (runners_from make i workers) k ≡ some r
      → r ≡ make (i + k)
  unfolding runners_from
  runners_from-get_elem? make i zero k r h = absurd (cc)
  runners_from-get_elem? make i (suc workers) zero r h =
      let e : r ≡ make i = cc in e ∙ ap make (omega arith)
  runners_from-get_elem? make i (suc workers) (suc k) r h =
      runners_from-get_elem? make (suc i) workers k r h ∙ ap make (omega arith)

  length-runners_from :
      (make : ℕ → Runner Local Instances Containers) (i workers : ℕ)
      → length (runners_from make i workers) ≡ workers
  unfolding runners_from
  length-runners_from make i zero = refl
  length-runners_from make i (suc workers) = ap suc (length-runners_from make (suc i) workers)

  vm_worker-injective :
      (instances : Instances) (i j : ℕ)
      → ◌≡◌ {A = Runner Local Instances Containers} (vm_worker instances i) (vm_worker instances j)
      → i ≡ j
  unfolding vm_worker
  vm_worker-injective instances i j h =
      let ids : codes "vm" ++ (to_decimal i ++ codes "-data")
          ≡ codes "vm" ++ (to_decimal j ++ codes "-data") =
        cc in
      to_decimal-injective i j (
        append_cancel_right (to_decimal i) (to_decimal j) (codes "-data")
          (append_cancel_left (codes "vm") _ _ ids))

  container_worker-injective :
      (instances : Containers) (i j : ℕ)
      → ◌≡◌ {A = Runner Local Instances Containers}
          (container_worker instances i)
          (container_worker instances j)
      → i ≡ j
  unfolding container_worker
  container_worker-injective instances i j h =
      let ids : codes "container-" ++ to_decimal i ≡ codes "container-" ++ to_decimal j = cc in
      to_decimal-injective i j (append_cancel_left (codes "container-") _ _ ids)

  -- As many workers as asked for, no two of them equal.
  abbrev pub AreDistinct : ℕ → List (Runner Local Instances Containers) → Type 0
  AreDistinct workers started =
      (length started ≡ workers)
      × ((i j : ℕ) (r : Runner Local Instances Containers)
          → get_elem? started i ≡ some r
          → get_elem? started j ≡ some r
          → i ≡ j)

  runners_from-AreDistinct :
      (make : ℕ → Runner Local Instances Containers) (workers : ℕ)
      → ((i j : ℕ) → make i ≡ make j → i ≡ j)
      → AreDistinct workers (runners_from make 0 workers)
  runners_from-AreDistinct make workers injective = (
    length-runners_from make 0 workers,
    λ i j r p q.
        let same = injective (0 + i) (0 + j) (
          sym (runners_from-get_elem? make 0 workers i r p)
          ∙ runners_from-get_elem? make 0 workers j r q) in
        omega arith,
  )

  -- Whatever the backend, the workers that are started are as many as asked for, and no two of them
  -- are equal in id and configuration.
  pub runners-AreDistinct :
      {World : Type 0} (local_config : Option Local)
      (get_instance_config : Exec World Failure Instances)
      (prepare_instances : Exec World Failure Containers) (backend : WorkerBackend) (workers : ℕ)
      (w : World) (started : List (Runner Local Instances Containers))
      → (runners local_config get_instance_config prepare_instances backend workers w).0
        ≡ ok started
      → AreDistinct workers started
  unfolding runners
  runners-AreDistinct local_config get_instance_config prepare_instances local workers w started =
      then-Returns (λ ws _. AreDistinct workers ws)
        (lift (ok_or local_config (cause (codes "No local worker config")))) _
        (λ config.
          pure-Returns (λ ws _. AreDistinct workers ws) _
            (λ _. runners_from-AreDistinct (λ i. local_worker i config) workers (λ i j h. cc)))
        w started
  runners-AreDistinct local_config get_instance_config prepare_instances firecracker workers w
        started =
      then-Returns (λ ws _. AreDistinct workers ws) get_instance_config _
        (λ instances.
          pure-Returns (λ ws _. AreDistinct workers ws) _
            (λ _.
              runners_from-AreDistinct (vm_worker instances) workers
                (vm_worker-injective instances)))
        w started
  runners-AreDistinct local_config get_instance_config prepare_instances docker workers w started =
      then-Returns (λ ws _. AreDistinct workers ws) prepare_instances _
        (λ instances.
          pure-Returns (λ ws _. AreDistinct workers ws) _
            (λ _.
              runners_from-AreDistinct (container_worker instances) workers
                (container_worker-injective instances)))
        w started
  runners-AreDistinct local_config get_instance_config prepare_instances dummy workers w started =
      pure-Returns (λ ws _. AreDistinct workers ws) (runners_from dummy_worker 0 workers)
        (λ _. runners_from-AreDistinct dummy_worker workers (λ i j h. cc)) w started
