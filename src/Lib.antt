-- ===== src/Lib.antt =====
-- orascout watches an OCI registry for artifacts and deploys them on the host by the annotations on
-- their manifest. A cycle resolves the digest of each configured repository, and where it has changed
-- parses the annotations (pkg/annotations), pulls the artifact (internal/registry) and runs a deploy
-- strategy (internal/deploy), whose paths are checked first. The configuration (internal/config) gives
-- the repositories and the directories that deploys may write to.
--
-- Go strings are lists of bytes. Go's `(T, error)` is the type Result, whose error says which of the
-- returns of the source was taken; the texts of errors and logging are not modelled. A `*bool` or
-- `*uint32` is an Option. A map is an association list whose first entry of a key counts.
--
--   Base: library names passed on, tests, lists, results, byte strings, signed numbers.
--   Strings, Strconv, Paths: what the program calls of Go's strings, strconv, path and path/filepath
--   on Unix. Paths.Elements and Paths.Inside relate cleaned paths and the prefix test of the source to
--   lists of path elements; Paths.Depth the counting of levels.
--   Annotations: pkg/annotations/annotations.go. `Parse` is `parse`, its switch on the type
--   `parse_type`, the blocks for optional annotations `optional`. time.ParseDuration is a parameter,
--   since it scales fractions in floating point.
--   Config: internal/config/config.go. The file, yaml.Unmarshal and os.Getenv are parameters of `load`.
--   Registry: internal/registry/registry.go, `splitRef`; Registry.Client: the client. The library
--   oras-go is what replies to its calls. Registry.Configured: the references of a configuration.
--   State: internal/state/state.go. encoding/json is a parameter. The disk maps paths to the contents of
--   regular files, and every call of a save may fail. State.Program has the same as programs of calls,
--   State.Refines what these calls do to the disk.
--   Lockfile: internal/lockfile/lockfile.go. Lockfile.System: several processes that take one lock,
--   as a step relation on the lock file and their programs; Lockfile.Guarded: which calls a process
--   makes as the owner of the file and else; Lockfile.Held: the lock file of another process;
--   Lockfile.Staleness: what the text in it is taken for.
--   Watcher: internal/watcher/watcher.go, `New` and `cycleOne`; Watcher.Daemon: `RunOnce`, `Run`
--   and `pushLogs`. Watcher.Answers and Asked have what the registry was asked and answered,
--   Recorded and Cycle follow what is recorded, Observes a dry run, Settled a cycle without news,
--   Own the calls of a cycle besides those of the deploy, Contained the paths that both write to,
--   Bracket the lock around a round, Served the repositories in it.
--   Main: cmd/orascout/main.go; Main.Check: its subcommand check.
--   Deploy.Safety: internal/deploy/safety.go, each function under its name in snake case.
--   filepath.EvalSymlinks enters `guard_clear_dir` as its reply. Deploy.Safety.Target and Clear describe
--   the accepted paths by their elements, Deploy.Safety.Cleared the directories that a deploy clears,
--   Deploy.Safety.Artifact the paths in an artifact.
--   Deploy.Command: internal/deploy/fsutil.go, `parseShellCommand` and `applyTemplate`.
--   Host: the operating system, as the calls that the program makes and the replies that it may get. A
--   program is a tree of calls, so that its properties hold for every host. Host.Runs has executions,
--   Host.Splits their parts, Host.Ensures rules for the calls and the result of a program.
--   Deploy.Files: internal/deploy/fsutil.go, the file operations. Deploy.Services:
--   internal/deploy/systemd.go. Deploy.Strategies: internal/deploy/strategy_*.go. Deploy.Run:
--   internal/deploy/deploy.go, `Run`, `runHook` and `healthcheck`. Deploy.Errors: their errors.
--   Deploy.Contained: the calls of a deploy that write or remove, and the paths they may name;
--   Deploy.Contained.Checked: what holds before the first call.
--
-- Loops are recursions on a list, without fuel. Only the health check and the daemon's loop, which are
-- repeated as long as the clock and the context say, have fuel; it counts attempts and ticks.
--
-- In the step relation of Lockfile.System every call is one step, and what a process does under the lock
-- is a single call.
--
-- Not modelled: log lines and the texts of errors, usage texts, the closing of files and readers whose
-- errors the source ignores, and the HTTP client's retries and cache.
pub mod Base
pub mod Host
pub mod Strings
pub mod Paths
pub mod Strconv
pub mod Annotations
pub mod Deploy
pub mod Config
pub mod Registry
pub mod State
pub mod Lockfile
pub mod Watcher
pub mod Main
