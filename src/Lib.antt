-- ===== src/Lib.antt =====
-- SRE lab: the services, stores and exercise runtime of this repository.
--
-- A learner starts an exercise in the server (internal/server/server.go), which checks each request and
-- sends it to the runtime, the checklists, the static files, or the proxies of Prometheus and of the
-- terminal. The runtime (internal/server/runtime.go, behind internal/server/runtime_http.go) has the
-- exercises of the catalog (internal/scenario). It puts faults into the demo services (internal/demo),
-- blocks the egress between them in the policy gateway (internal/policy), sets the load balancer in
-- front of them (internal/apilb), and has the traffic controller (traffic) run k6. The learner looks
-- around in a terminal (internal/terminal), records a diagnosis and mitigates; a check of the outcome
-- grades the run and writes the learner's profile (internal/progression) and the history of runs
-- (internal/history). Checklists and notes are kept beside them (internal/progress).
--
-- Files and what they model:
-- - Prelude: native numbers, lists, integers, association lists, sorting, texts; Prelude/Chain: results
--   that may fail, in a row.
-- - Http: requests and replies as data.
-- - Files: `persist` of internal/progression/progression.go and the same steps in
--   internal/history/history.go and internal/progress/store.go, over the interface `Storage` for packages
--   os and encoding/json, whose laws are what their documentation promises. Files/Atomic: what a save
--   leaves in the file.
-- - Progression: internal/progression/progression.go (Open, Award, rankFor). Its modules: Ranks,
--   Invariant, Awards, Session.
-- - History: internal/history/history.go (Open, Add). Its module: Window.
-- - Progress: internal/progress/store.go (Open, Get, Put, normalize). Its modules: Steps, Records, Opened,
--   Loss.
-- - ApiLb: internal/apilb/apilb.go (state, updateState, proxy, copyHeaders). Its modules: Rotation,
--   Admin, Relay, Setup (the configuration, New and what it guarantees).
-- - Demo: internal/demo/demo.go (New, serveState). Its modules: Admin, Burn (burnCPU), Dependency
--   (callDependency), Handler (ServeHTTP), Failures, Limits (overlapping requests as a
--   step relation), Remote (an update of all the settings), Setup (cpuLimitFromEnv, isInternalRequest,
--   requestRunID).
-- - Traffic: traffic/controller.go (start, reap, handleStart, handleStop, stopRun, Shutdown). Its
--   modules: Requests, Lifecycle (a step relation), Stopping, Setup (the configuration and the arguments
--   of k6).
-- - Policy: internal/policy/policy.go (New, ServeHTTP). Its module: Denial.
-- - Scenario: internal/scenario/scenario.go (validate; Types has the types), Scenario/Catalog: Load, decode.
--   Rules, Faults, Goals and Validity say what the checks mean, Catalog/Installed which catalogs are loaded.
-- - Runtime: internal/server/runtime.go. State has the run and the tables, Control what applyState and
--   startTraffic send, Operations the methods, Solutions and Grading the check, Evidence what it asks of
--   Prometheus, Library the exercises of the catalog, RunId newRunID, and Composition the runtime together
--   with the handlers of Demo, Policy and ApiLb, which Launch joins with the traffic controller for a
--   start and a stop. Runtime/Api is internal/server/runtime_http.go (handleRuntime,
--   decodeJSON). WellFormed, Invariant, Gating, Outcome, Evidence/Outage, Fleet, Solvable,
--   Library/Ready, Api/Effects, Api/Learner and
--   Api/Learner/Earned hold proofs.
-- - Server: internal/server/server.go. Paths (safePath, prometheusPath), Origins (ParseOrigins,
--   upstream), Files (the static files), Relay (the rewriting of the reverse proxies), Handler (the
--   handler of New, handleProgress), Headers (those of every reply), Tunnels (the contexts of proxied
--   terminals, Handler.Close), Config (ConfigFromEnv, the defaults of New) and Startup (New from the
--   configuration to its handler, with newRuntime of internal/server/runtime.go, over the interface
--   `Host` for the operating system and the libraries); proofs in Paths/Reach, Paths/Resolved,
--   Origins/Parsed, Origins/Upstreams, Relay/Replies, Handler/Access, Handler/Guard, Handler/Lasting, Startup/Lasting,
--   Startup/Callers and Startup/Starts.
-- - Terminal: internal/terminal/terminal.go (decodeMessage, resize, ServeHTTP, Close). Its modules:
--   Messages, Sessions (a step relation over the critical sections), Closing, and Shell (a session from
--   the start of its shell on, as a step relation over the moves of its goroutines) with Held,
--   Bounds and Ending; and Setup (New).
-- - Commands: the main functions under cmd. The server, the toolbox, the load balancer and the traffic
--   controller are one step relation over `main` and the goroutine that waits for a signal, with the
--   calls of each as a `Program`. Its modules: Ordered, Bounded.
-- - Examples: concrete runs.
--
-- Conventions. A method is a function from the state to the new state and the reply; a method that
-- holds the mutex from start to end is one step. An error is `none`, `false` or a status. Calls of the
-- standard library, the network, the clock, processes and Prometheus are parameters: functions, the
-- fields of an interface, or the outcome that one call meets. float64 is a type parameter with the
-- comparisons that are used. int is an unbounded integer where the code bounds the values, uint64 is a
-- number modulo 2 ^ 64, and a Go slice is a list. All loops are recursion on their list or their
-- number of rounds, so there is no fuel. The length of a text is its number of bytes.
--
-- Not modelled: the transports of the proxies, which only set up net/http; the PTY, the shell and the
-- WebSocket of a terminal beyond what they answer; the addresses and timeouts of the HTTP servers under
-- cmd, and cmd/file-reader/main.go, which opens a file and sleeps; metrics that no code reads; and
-- everything that is not Go.
pub mod Prelude
pub mod Files
pub mod Progression
pub mod History
pub mod Progress
pub mod Http
pub mod ApiLb
pub mod Demo
pub mod Traffic
pub mod Runtime
pub mod Policy
pub mod Scenario
pub mod Server
pub mod Terminal
pub mod Commands
pub mod Examples
