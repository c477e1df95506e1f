-- ===== src/Lib.antt =====
-- Verification library of the harness that runs the fuzzing benchmarks, and of the analysis of
-- their results.
--
-- The program. The harness (bench-harness/bench-harness/src) reads a configuration, starts virtual
-- machines, and runs in each of them the tasks that the configuration lists for a trial. It talks
-- to the agent of the machine (bench-harness/agent/src) through a connection of numbered requests
-- (bench-harness/agent-interface/src): the agent runs commands, reads files and collects statsd
-- datagrams. The tools under analysis/ read what the trials wrote, and the block maps of the
-- benchmarks' firmware.
--
-- The files, each with the code it is about:
--   Vars       bench-harness/bench-harness/src/utils.rs, Variables and split_template. Templates
--              are texts, lists of code points.
--   Config     bench-harness/bench-harness/src/config.rs, KeyValue and ConfigData.
--   Afl        bench-harness/bench-harness/src/afl.rs.
--   Rpc        bench-harness/agent-interface/src/lib.rs and utils.rs, the requests and commands.
--   Command    bench-harness/agent-interface/src/command.rs, run_command and read2_or_timeout.
--   Client     bench-harness/agent-interface/src/client.rs, RpcAgent and retry. The stream of a
--              connection is the list of what its reads will give.
--   Methods    the same file, the methods of the trait Agent. Code that calls the agent or the host
--              takes the state of the world and gives a result and the next state (Prelude/Exec).
--   Agent      bench-harness/agent/src/lib.rs and main.rs, AgentState and the loop of a connection.
--   Statsd     bench-harness/agent/src/log_collector.rs, StatsdData.
--   Tasks      bench-harness/bench-harness/src/tasks.rs: Tasks/Process for commands in the machine,
--              Tasks/Files for results on the host, Tasks/Walk for directories, Tasks/Bugs for
--              crashes, and Tasks/Run for the interpreter of the tasks.
--   Schedule   bench-harness/bench-harness/src/main.rs: the trials of a benchmark, the templates of
--              its tasks (Schedule/Render) and the estimate of its duration.
--   Pool       bench-harness/bench-harness/src/worker.rs, WorkerPool, and start_workers of main.rs:
--              a step relation of the main thread, its workers and the cancellation.
--   Workers    the same file, the workers of each backend (Workers/Dummy: the agent that only pretends),
--              and WorkerBackend of main.rs.
--   Firecracker  bench-harness/bench-harness/src/firecracker.rs: drives, messages and the handshake;
--              Firecracker/Instances makes the machines of a configuration, Firecracker/Spawn is
--              spawn_vm and the end of a machine, over the processes of the host, and
--              Firecracker/Spawn/Worker what a worker of firecracker calls of it.
--   Docker     bench-harness/bench-harness/src/docker.rs: the arguments and the removal of containers.
--   Harness    bench-harness/bench-harness/src/utils.rs: Harness/Waiting, Harness/Durations and
--              Harness/Workdir.
--   Setup      bench-harness/bench-harness/src/setup.rs: the binaries that are downloaded
--              (Setup/Cached, with Setup/Written, Setup/Stored, Setup/Checked, Setup/Origin and
--              Setup/Scheme) and their digests
--              (Setup/Hex).
--   Images     bench-harness/bench-harness/src/image_builder: disk images, what they are made from
--              (Images/Sources, with copy_image of docker.rs), their sizes and how a build fails;
--              Images/Mounts is prepare_instances of docker.rs.
--   Launch     bench-harness/bench-harness/src/main.rs: run with its includes (Launch/Included, with
--              toml_from_path of config.rs),
--              start_workers, and run_bench_v2 up to the pool (Launch/Complete).
--   Blocks     analysis/plot-data/src/metadata.rs, BlockMap; an address is a number of 64 bits that
--              wraps around. Blocks/Load reads a map.
--   Coverage   analysis/plot-data/src: Coverage/Tags is data_loading/mod.rs, Coverage/Chunks the CSV
--              files of multifuzz.rs, Coverage/Paths what ember.rs, fuzzware.rs and multifuzz.rs read
--              from paths, Coverage/Names the names of lib.rs, Coverage/Filter and Coverage/Layout
--              the configuration of config.rs, Coverage/Metadata the struct Metadata of metadata.rs,
--              Coverage/Columns the order of columns of analysis.rs.
--   Plot       analysis/plot/src/utils.rs: step curves, the legend, and the cells of a figure.
--   Env        what the tasks take from outside the repository: the agent, JSON, CSV, archives, the
--              files, processes, clock and stop flag of the host. Agent has a record Host of the
--              same kind for the machine.
--   Prelude    shared types and lemmas: texts, lists, maps, results, numbers read and written.
--   Examples   the theorems at concrete inputs.
-- The modules below a part hold its proofs and are named for what they prove.
--
-- Bounds. expand_vars runs with one more round than the text has characters, and each round that
-- finds a key drops at least its two braces, so the rounds are never used up. The loops that wait
-- for a process or walk a directory of the machine end only if the machine lets them: they take a
-- number of rounds, and running out of them is the failure `unfinished`, which is no error of the
-- program and is not caught; so does the wait of spawn_vm for its socket, where
-- Firecracker/Spawn/Waiting says which number is enough. The wait for a process with a timeout has a round for each poll that
-- the timeout leaves time for, and never uses them up.
--
-- Not modelled: what docker, firecracker, curl, mkfs, mount and tar do when they are called,
-- sockets and listeners, the data frames of the analysis, which are polars', and the drawing of
-- the plots, which is plotters'; the start and the end of docker's workers, which Workers takes as
-- calls. The locks on the host's files are left out, since one task at a time is followed.
pub mod Prelude
pub mod Vars
pub mod Statsd
pub mod Client
pub mod Blocks
pub mod Rpc
pub mod Config
pub mod Env
pub mod Methods
pub mod Afl
pub mod Tasks
pub mod Agent
pub mod Schedule
pub mod Harness
pub mod Command
pub mod Plot
pub mod Pool
pub mod Workers
pub mod Firecracker
pub mod Docker
pub mod Coverage
mod Examples
pub mod Setup
pub mod Images
pub mod Launch
