-- ===== src/Examples/Spawning.antt =====
-- A machine that is started on a host whose world is the number of its processes.
use multi_fuzz_benchmarks.Prelude.{
  ℕ, suc, ◌+◌, ◌-◌, ◌≡◌, refl, arith, true, false, none, some, [], ◌∷◌, ◌++◌, codes, Text,
}
use multi_fuzz_benchmarks.Prelude.Outcome.{Result, ok, err}
use multi_fuzz_benchmarks.Env.{Failure, cause}
use multi_fuzz_benchmarks.Workers.Leaks.{Keeps, started}
use multi_fuzz_benchmarks.Harness.Workdir.{not_found}
use multi_fuzz_benchmarks.Workers.{firecracker_run_task}
use multi_fuzz_benchmarks.Firecracker.Spawn.Worker.{
  Agents, AreApart, vm_machines, firecracker_run_task-Keeps,
}
use multi_fuzz_benchmarks.Firecracker.{
  VmConfig, Host, Message, action, read_only, duplicate, path_of, add_drive, add_drives, all_drives,
  put_drives, send_config, configure,
}
use multi_fuzz_benchmarks.Firecracker.Spawn.{
  Processes, ActiveVm, spawn_vm, wait_for_exit_timeout, wait_for_exit,
}
use multi_fuzz_benchmarks.Firecracker.Spawn.Process.{IsCounted}
use multi_fuzz_benchmarks.Firecracker.Spawn.Starts.{spawn_vm-Starts}
use multi_fuzz_benchmarks.Firecracker.Spawn.Ended.{wait_for_exit-spawn_vm}

abbrev answers : Message → Result Failure (Unit {0})
answers (action kind) = err (cause (codes "no kernel"))
answers _ = ok tt

abbrev host_with : (Message → Result Failure (Unit {0})) → Host ℕ
host_with answer = record {
  join = λ a b. a ++ (b'/' ∷ b);
  exists_path = λ path n. true;
  copy = λ a b n. (ok tt, n);
  canonicalize = λ path n. (ok path, n);
  put = λ url message n. (answer message, n);
}

-- A host on which each wait times out.
abbrev one_process : Processes ℕ
one_process = record {
  temp_dir = codes "/tmp";
  prepare_workdir = λ api_socket workdir recreate n. (ok tt, n);
  redirect_stdio = λ workdir n. (ok tt, n);
  spawn = λ bin api_socket n. (ok 7, suc n);
  kill = λ process n. n - 1;
  sleep = λ time n. n;
  connect_api = λ path n. (ok tt, n);
  remove_file = λ path n. (err not_found, n);
  wait_for_process_timeout = λ process timeout n. (ok none, n);
  wait = λ process n. (ok false, n);
}

one_process-IsCounted :
    (answer : Message → Result Failure (Unit {0}))
    → IsCounted (λ n. n) (host_with answer) one_process
one_process-IsCounted answer = record {
  spawn = λ bin api_socket w. omega arith;
  kill = λ process w. refl;
  prepare_workdir = λ api_socket workdir recreate w. refl;
  redirect_stdio = λ workdir w. refl;
  sleep = λ time w. refl;
  connect_api = λ path w. refl;
  remove_file = λ path w. refl;
  wait_for_process_timeout = λ process timeout w. refl;
  wait = λ process w. refl;
  copy = λ from to w. refl;
  canonicalize = λ path w. refl;
  put = λ url message w. refl;
}

abbrev config : VmConfig
config = record {
  bin = codes "firecracker";
  boot_delay_sec = 5;
  kernel_entropy = none;
  recreate_work_dir = true;
  kernel_image_path = codes "vmlinux";
  boot_args = [];
  machine = record { smt = false; mem_size_mib = 512; vcpu_count = 1 };
  rootfs = record { name = codes "rootfs"; path = codes "root.img"; mount = read_only };
  drives = record { name = codes "data"; path = codes "data.img"; mount = duplicate } ∷ [];
}

-- A machine whose start is refused behind its configuration.
spawn_vm-Starts_example :
    (spawn_vm (host_with answers) one_process 3 (codes "vm0") config false 2).1
    ≡ 2 + started (spawn_vm (host_with answers) one_process 3 (codes "vm0") config false 2).0
spawn_vm-Starts_example =
    spawn_vm-Starts (λ n. n) (host_with answers) one_process (one_process-IsCounted answers) 3
      (codes "vm0") config false 2

abbrev vm : ActiveVm
vm = record {
  workdir = codes "/tmp/bench-harness/vm0";
  drives =
      record {
        drive_id = codes "rootfs";
        path_on_host = codes "root.img";
        is_root_device = true;
        is_read_only = true;
      }
      ∷ record {
        drive_id = codes "data";
        path_on_host = codes "/tmp/bench-harness/vm0/data.ext4";
        is_root_device = false;
        is_read_only = false;
      }
      ∷ [];
  vsock_path = codes "/tmp/bench-harness/vm0/vm.vsock";
  instance' = some 7;
}

vm_lem : (spawn_vm (host_with (λ m. ok tt)) one_process 3 (codes "vm0") config false 2).0 ≡ ok vm
unfolding spawn_vm configure all_drives add_drives add_drive path_of send_config put_drives
vm_lem = refl

wait_for_exit-spawn_vm_example :
    ((wait_for_exit_timeout (host_with (λ m. ok tt)) one_process vm 60 3).1 ≡ 2)
    × ((wait_for_exit (host_with (λ m. ok tt)) one_process vm 3).1 ≡ 2)
unfolding spawn_vm configure all_drives add_drives add_drive path_of send_config put_drives
wait_for_exit-spawn_vm_example =
    wait_for_exit-spawn_vm (λ n. n) (host_with (λ m. ok tt)) one_process
      (one_process-IsCounted (λ m. ok tt)) 3 (codes "vm0") config false 60 2 3 vm vm_lem refl

-- Tasks that are their instances, and fail in the machine.
abbrev failing : Agents ℕ Text (Unit {0})
failing = record {
  instance_of = λ task. task;
  run = λ task id agent n. (err (cause (codes "failed")), n);
  connect_to_vsock_agent = λ machine n. (ok tt, n);
  add_entropy = λ agent bytes n. (ok tt, n);
  shutdown_vm = λ agent n. (ok tt, n);
}

failing-AreApart : AreApart (λ n. n) failing
failing-AreApart = record {
  run = λ task id agent w. refl;
  connect_to_vsock_agent = λ machine w. refl;
  add_entropy = λ agent bytes w. refl;
  shutdown_vm = λ agent w. refl;
}

firecracker_run_task-Keeps_example :
    Keeps
      (λ n. n)
      (firecracker_run_task
        (vm_machines 3 (host_with (λ m. ok tt)) one_process failing)
        (codes "vm0-data")
        (λ name. some config)
        (codes "default"))
firecracker_run_task-Keeps_example =
    firecracker_run_task-Keeps (λ n. n) 3 (host_with (λ m. ok tt)) one_process failing
      (one_process-IsCounted (λ m. ok tt)) failing-AreApart (codes "vm0-data") (λ name. some config)
      (codes "default")
