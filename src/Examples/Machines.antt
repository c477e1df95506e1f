-- ===== src/Examples/Machines.antt =====
-- Waiting, directories, drives, containers and templates, on small worlds.
use multi_fuzz_benchmarks.Prelude.{
  ℕ, zero, suc, ◌/◌, ◌≡◌, refl, true, false, Bool, Option, none, some, List, [], ◌∷◌, ◌++◌, [], ◌∷◌,
  Text, codes, text_eq,
}
use multi_fuzz_benchmarks.Prelude.Outcome.{Result, ok}
use multi_fuzz_benchmarks.Rpc
use multi_fuzz_benchmarks.Rpc.{RunCommand, Request, Requests, Response, value}
use multi_fuzz_benchmarks.Harness.Waiting.{sleep_time, wait_for_process_timeout}
use multi_fuzz_benchmarks.Harness.Waiting.Polls.{first_found, wait_for_process_timeout-first_found}
use multi_fuzz_benchmarks.Harness.Workdir.{FileOps, prepare_workdir}
use multi_fuzz_benchmarks.Harness.Workdir.Kept.{prepare_workdir-keeps}
use multi_fuzz_benchmarks.Firecracker.{Drive, VmConfig, Host, read_only, duplicate, all_drives}
use multi_fuzz_benchmarks.Firecracker.Drives.{HasDrives, all_drives-HasDrives}
use multi_fuzz_benchmarks.Docker.{running_container, remove_all}
use multi_fuzz_benchmarks.Docker.Answers.{AreAnswers}
use multi_fuzz_benchmarks.Docker.Removal.{after, life_of, Ends, remove_all-after}
use multi_fuzz_benchmarks.Command.{Poll, ready, eof, would_block, new_reader, read2_or_timeout}
use multi_fuzz_benchmarks.Command.Sides.{read_sides, read2_or_timeout-read_sides}
use multi_fuzz_benchmarks.Schedule.Render.{BenchGroup, render_tasks_template}
use multi_fuzz_benchmarks.Schedule.Render.Fresh.{
  all_trials, render_each, render_tasks_template-each,
}

abbrev sleep_command : RunCommand
sleep_command = Rpc.new (codes "sleep")

-- A process that ends at the third poll.
abbrev third_poll : ℕ → Result Text (Option ℕ)
third_poll zero = ok none
third_poll (suc zero) = ok none
third_poll (suc (suc poll)) = ok (some 7)

wait_for_process_timeout-first_found_example :
    wait_for_process_timeout third_poll 25000000
    ≡ some (first_found third_poll (suc (25000000 / sleep_time)) 0)
wait_for_process_timeout-first_found_example =
    wait_for_process_timeout-first_found third_poll 25000000

-- A file system of one directory, by the number of the files in it.
abbrev one_directory : FileOps ℕ
one_directory = record {
  exists_path = λ path n. false;
  remove_dir_all = λ path n. (ok tt, 0);
  create_dir_all = λ path n. (ok tt, n);
  remove_file = λ path n. (ok tt, n);
}

prepare_workdir-keeps_example :
    (prepare_workdir one_directory (codes "api.sock") (codes "work") true false 5).1 ≡ 5
prepare_workdir-keeps_example =
    prepare_workdir-keeps one_directory (λ n. n ≡ 5) (codes "api.sock") (codes "work") true 5
      (λ n p. p) (λ n p. p) refl refl

abbrev two_trials : BenchGroup
two_trials = record {
  template = codes "t";
  trials = 4 ∷ 5 ∷ [];
  config = (codes "trial", codes "?") ∷ [];
}

render_tasks_template-each_example :
    render_tasks_template
      (λ name. ok name)
      (λ template ctx. ok template)
      (λ text name trial. ok trial)
      (λ text. ok (two_trials ∷ []))
      (codes "b")
    ≡ render_each
        (λ name. ok name)
        (λ template ctx. ok template)
        (λ text name trial. ok trial)
        (all_trials (two_trials ∷ []))
render_tasks_template-each_example =
    render_tasks_template-each (λ name. ok name) (λ template ctx. ok template)
      (λ text name trial. ok trial) (λ text. ok (two_trials ∷ [])) (codes "b")

-- The output ends first; the errors are read after it.
abbrev two_polls : List (Poll Text)
two_polls =
    ready true true (eof (codes "done")) (would_block (codes "warn"))
    ∷ ready false true (eof []) (eof (codes "ing"))
    ∷ []

read2_or_timeout-read_sides_example :
    read2_or_timeout two_polls new_reader
    ≡ read_sides two_polls
        (record { bytes = []; is_open = true })
        (record { bytes = []; is_open = true })
read2_or_timeout-read_sides_example = read2_or_timeout-read_sides two_polls

-- A host on which every file exists.
abbrev full_host : Host ℕ
full_host = record {
  join = λ a b. a ++ (b'/' ∷ b);
  exists_path = λ path n. true;
  copy = λ a b n. (ok tt, n);
  canonicalize = λ path n. (ok path, n);
  put = λ url message n. (ok tt, n);
}

abbrev vm_config : VmConfig
vm_config = record {
  bin = codes "firecracker";
  boot_delay_sec = 5;
  kernel_entropy = none;
  recreate_work_dir = true;
  kernel_image_path = codes "vmlinux";
  boot_args = [];
  machine = record { smt = false; mem_size_mib = 512; vcpu_count = 1 };
  rootfs = record { name = codes "rootfs"; path = codes "root.img"; mount = read_only };
  drives = record { name = codes "data"; path = codes "data.img"; mount = duplicate } ∷ [];
}

abbrev vm_drives : List Drive
vm_drives =
    record {
      drive_id = codes "rootfs";
      path_on_host = codes "root.img";
      is_root_device = true;
      is_read_only = true;
    }
    ∷ record {
      drive_id = codes "data";
      path_on_host = codes "work/data.ext4";
      is_root_device = false;
      is_read_only = false;
    }
    ∷ []

vm_drives_lem : (all_drives full_host (codes "work") vm_config 0).0 ≡ ok vm_drives
unfolding all_drives
vm_drives_lem = refl

all_drives-HasDrives_example : HasDrives full_host (codes "work") vm_config vm_drives
all_drives-HasDrives_example =
    all_drives-HasDrives full_host (codes "work") vm_config 0 vm_drives vm_drives_lem

-- The first stop fails.
abbrev second_try : ℕ → Bool
second_try zero = false
second_try (suc n) = true

remove_all-after_example :
    (after (remove_all second_try 3 (running_container (codes "c")) []).1
      ≡ some (
          life_of
            (remove_all second_try 3 (running_container (codes "c")) []).0.active
            (remove_all second_try 3 (running_container (codes "c")) []).0.removed))
    × AreAnswers second_try (remove_all second_try 3 (running_container (codes "c")) []).1
    × Ends 0 3
        (remove_all second_try 3 (running_container (codes "c")) []).0
        (remove_all second_try 3 (running_container (codes "c")) []).1
remove_all-after_example = remove_all-after second_try 3 (codes "c")
