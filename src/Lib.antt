-- ===== src/Lib.antt =====
-- The ReleasePanel agent: a node agent that converges sites to what Central's ledger asks for.
--
-- Two executors do the work. `gitdeploy.Run` clones or fetches one site's repository and resets it
-- to a commit; `nginxruntime.Run` writes one site's nginx configuration, tests it and, when asked,
-- reloads nginx. Both take an intent of the ledger and send receipts through a reporter, a
-- callback that posts one row to Central. Both check the site's path with `ValidateDeployPath`.
--
-- A third part, `Runner.Reconcile`, keeps the fingerprints of a node's manifest; its apply step is
-- a scaffold in the code. The loop of `cmdRun` drives all three: each cycle sends a heartbeat, the
-- inventory once an hour and the health, pings Central for its intents, hands them to the executors
-- and reconciles the manifest.
--
-- Files and code:
--   Base, Base/*              names passed on, Boolean tests, lists over the native numbers
--   Text, Text/*              Go strings and the functions of package strings; `truncateRunes`
--   FilePath, FilePath/*      package path/filepath: `IsAbs`, `Clean`, `Join`, `Dir`
--   Api                       pkg/api/ping.go and types.go
--   System, System/*          what stands outside: processes, files, clock, receipts; early
--                             returns (System/Flow), Hoare triples (System/Ensures), the disk
--                             (System/Files), the atomic replacement of a file (System/Atomic)
--                             and logs that a protocol allows (System/Trace)
--   GitDeploy/PathValidate    internal/gitdeploy/pathvalidate.go
--   GitDeploy/Ssh             internal/gitdeploy/ssh.go; Ssh/Shell reads a command as a shell does
--   GitDeploy/Rows, Git, Executor
--                             internal/gitdeploy/executor.go: receipts, git subprocesses, `Run`
--   GitDeploy/Protocol        the legal receipts and commands of a deployment, by stages
--   NginxRuntime/WebRoot, TlsIntent, Render
--                             internal/nginxruntime/webroot.go, tlsintent.go, render.go
--   NginxRuntime/CertPaths    internal/nginxruntime/certpaths.go
--   NginxRuntime/SiteFiles, Rows, Converge
--                             internal/nginxruntime/converge.go: files of a site, receipts, `Run`
--   NginxRuntime/Protocol     the legal receipts, file calls and commands of a convergence
--   Deploy                    internal/deploy/runner.go and internal/lock/lock.go, with what they
--                             use of internal/state/state.go and internal/paths/paths.go
--   Config/Probes             internal/config/runtime_dependency_probes.go
--   Config/Origin             internal/urlorigin/origin.go
--   Config/Settings, Load     internal/config/config.go: `Config` with its methods, and `Load`
--   Central                   internal/central/client.go, and Central/Ping internal/central/ping.go;
--                             Http stands for the network and keeps the exchanges
--   State                     internal/state/state.go and internal/paths/paths.go
--   Enroll                    internal/enroll/enroll.go
--   RuntimeProbe              internal/runtimeprobe: the checks of a dependency and their rows;
--                             its Host answers the questions of the probes and keeps them in a log
--   Logs                      internal/logs/logs.go
--   Inventory                 internal/inventory and the inventories of internal/runtime
--   Health                    internal/health/health.go and the probes of internal/runtime
--   Agent                     cmd/agent/main.go: `normalizeDeployRoots`
--   Agent/Loop, Cycle         the state of the loop of `cmdRun`, one cycle of it, and the loop
--   Agent/Receipts, Dispatch  its reporters, and the part that pings Central for intents
--   Agent/Hosted              an executor with a reporter of the loop
--   Agent/Start, Commands     what `cmdRun` does before its loop; `cmdEnroll`
--   Agent/Endures             rules for the parts of a cycle, and the loop
--   */Tests                   small inputs at which the theorems are applied
--
-- How the code is modelled. A string is the list of its code points, so it is valid UTF-8;
-- `byte_length` is Go's `len`. The case table for letters outside ASCII and `%q` are the
-- parameter `Unicode`. An `error` is the option of its message, nil is `none`. A function that
-- changes something is an action on `Sys`, the agent's disk and the log of what it has sent,
-- executed and called on files; an early return is an `Exit`. Everything outside answers through
-- the record `Os`, as it likes and from all that has happened before: processes, `os.Stat`, the
-- clock, the taking of receipts and a fault for every call on a file. So every theorem on a run
-- holds for all interleavings of errors; a context that is cancelled is one of these answers.
-- All loops are structural and no fuel is needed.
--
-- `Sys.disk` keeps files and symbolic links by their path, not directories, and no file changes
-- but through the agent and the processes that it executes. Both outputs of nginx's commands go
-- to one buffer and are met only as the whole text.
--
-- A cycle of the loop is an action on `Loop`: the files, the exchanges with Central, the questions
-- of the probes, the counters, the record of the manifest and the TLS state of each site. The loop
-- runs the executors of GitDeploy and NginxRuntime, which work on `Sys`, with reporters that post to
-- Central. A Go closure keeps the rest of the loop in its captured variables; here that rest follows
-- from the receipts in the log, since nothing but the reporter changes it during a run.
-- The number of a cycle is an int64 by its bit pattern. The branch of the loop on an error of
-- `inventory.Collect` is left out, since that function returns none. A JSON object is read as the
-- list of its entries, in the order in which `range` visits them.
--
-- Not modelled: the reading of flags, the usage text, the two commands that print a report, the
-- wait on ticker and signals, and the reading of YAML: all are input and output. What the agent
-- prints on its standard outputs is left out. The systems other than unix are left out. `url.Parse`,
-- `net.SplitHostPort`, net/http, package json and, for the reconciliation of the manifest, Central's
-- client are parameters.
pub mod Base
pub mod Text
pub mod FilePath
pub mod Api
pub mod System
pub mod GitDeploy
pub mod NginxRuntime
pub mod Agent
pub mod Central
pub mod Config
pub mod Deploy
pub mod Enroll
pub mod Health
pub mod Inventory
pub mod Logs
pub mod RuntimeProbe
pub mod State
