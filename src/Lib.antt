-- ===== src/Lib.antt =====
-- hostd: a verification library for the daemon that keeps the containers of one machine as the
-- files of an operator's tree declare them.
--
-- The daemon reads declarations (service/), compares them with what it believes and with what the
-- container runtime answers (supervisor/plan.go), carries the difference out
-- (supervisor/commands.go, supervisor/container.go), starts the runs of jobs by the clock
-- (supervisor/schedule.go), and records each operation in a state directory with a generation
-- that later operations can claim (state/). What the services write goes to a log that can be
-- searched and followed (logs/), and what they use to series of two resolutions (metrics/). This
-- library models those parts and how they call each other.
--
-- Base: lists, texts as lists of bytes, maps with text keys as association lists with one entry
--   for a key, sorting, and the numbers that may be negative (`ℤ`). Numbers that Go writes with a
--   fraction (memory, cores, seconds, runs at once) are thousandths.
-- Strings: the functions of Go's `strings` that the code calls.
-- Filoconf: filoconf/filoconf.go around the Filo engine, which is the parameter `Codec`.
-- State: state/state.go. `Store` is the store's guarded state, `record_locked` what `Record` does
--   under the lock, `check` is `Check`. State.Disk: the files, with a flag for each call that the
--   operating system may refuse (`Faults`); `record_entry`, `open_store`, `load_audit` and
--   `save_snapshot` are `Record`, `Open`, `loadAudit` and `saveSnapshot`.
-- Service: service/service.go. Service.Duration is Go's `time.ParseDuration` and `strconv.Atoi`
--   as the code uses them, Service.Address the volumes and ports, Service.Normalize the
--   validation with its defaults. An error keeps its kind and leaves its prose out. Service.Tree is
--   service/tree.go with `Parse`, `ParseFile` and `LoadDir`, over what the file system answers.
-- Supervisor: supervisor/supervisor.go's guarded state as `World`, with the container runtime as
--   the parameter `Runtime`: one field for each call of the client, each of which may answer
--   anything. Supervisor.Act is the sequence of calls with early return. Supervisor.Plan is
--   supervisor/plan.go and `sameDefinition`; Supervisor.Containers is supervisor/container.go;
--   Supervisor.Commands and Supervisor.Apply are supervisor/commands.go; Supervisor.Schedule is
--   supervisor/schedule.go up to the start of a run; Supervisor.Await is `awaitRun` of that file, a
--   relation of moves (`Move`) between which the run's timer, the adoption of runs and the steps of
--   all other goroutines come;
--   Supervisor.Drift is the drift round of supervisor/supervisor.go with the runs it adopts;
--   Supervisor.Status is `Status` of supervisor/commands.go; Supervisor.Backup is
--   supervisor/backup.go; Supervisor.Ticks is `sample` and `Stats`, Supervisor.Watch `watchRuntime`
--   and `Adopt` of supervisor/supervisor.go. Supervisor.Kept has what holds of the machine in every
--   sequence of these operations (`Reach`).
-- Docker: docker/docker.go, the runtime's client. `Engine` is the daemon behind the socket, which
--   answers a request (`HttpRequest`) with a status and a body; Docker.Transport is `do`, `call` and
--   `message`; Docker.Create is the body of `Create`; Docker.Calls has the other calls; Docker.Frames
--   is `Logs`; Docker.Pull is `Pull` and `Progress`. Docker.Attached makes the supervisor's `Runtime`
--   of an `Engine`, so that the two components are one system.
-- Api: api/server.go's `apply`, `mutate` and `refuse`, over the store and the supervisor;
--   Api.Images is the policy of an image prune, `imagesToPrune`; Api.Versions is `versionsOf` of
--   api/versions.go; Api.Files is `fileRoot`, `putFile` and `deleteFile` of api/files.go over a volume
--   as a map, with a flag for each call that the operating system may refuse; Api.Jobs is `runJob`.
--   Api.Declaration is `Send`, `putService` with `writeDeclaration` and `writeAtomic`, and
--   Api.Declaration.Removal `removeService` and `releaseImage`, of api/declaration.go, over the
--   services directory as a map of files and a map of the directories beside them.
-- Logs: logs/record.go, `matches` and the ceilings of logs/store.go. Logs.Writer is the store of
--   logs/store.go (`LogStore`): lines on their way, the batch, the table as a list of rows, and one
--   function for each of its operations; Logs.Writer.Steps has an append in three steps (`number`,
--   `deliver_one`, `enqueue_one`), the cases of the writer goroutine's `select`, and `run_log` over
--   any sequence of them. Logs.Search is `Search`, `ftsQuery` and `LastAt`, with SQLite's full text
--   index as a parameter.
-- Metrics: metrics/. `Float` stands for float64. Metrics.Proc is metrics/proc.go; Metrics.Sampler is
--   the tick of metrics/metrics.go, with the kernel's answers as an argument; Metrics.Series is the
--   store of metrics/store.go, its table a list of rows, with `Sweep`; Metrics.Series.Answer is its
--   `Query`.
-- Tests: a machine that never refuses, and each theorem at one input.
--
-- Bounds and fuel: the generation, the audit sequence and the numbers of log lines wrap at 2^64, and
-- the theorems that need it say that the counter is below. The digits of a run's name have 19 steps
-- of fuel, the digits of the largest `int64`. Following a container's output has one more step of
-- fuel than the body has bytes, since each frame takes eight. The ring of durations has the
-- source's 256 places. Every other recursion is on a list.
--
-- Not modelled: the commands cmd/hostd and cmd/hostctl, the rest of the API (api/: transport,
-- listing and reading files, handing a backup over, the carrying out of a prune),
-- config/, daemon/ and version/. Of the runtime's client: finding the socket, and `Archive`, `Save` and
-- `Load`, which hand a stream on. Of the log: the schema and its migration (`addColumns`). Of the
-- metrics: the newest value of each series (`Latest`) and the reading of /proc's files. Of the
-- supervisor: the `select` loops of `Run` and `schedule`, and following a container's output. The
-- locks are not modelled: an operation is one step, but for an append to the log and the wait for a
-- run. The time and the prose of an event are left out.
pub mod Logs
pub mod Metrics
pub mod Base
pub mod Strings
pub mod Docker
pub mod Filoconf
pub mod State
pub mod Service
pub mod Supervisor
pub mod Api
pub mod Tests
