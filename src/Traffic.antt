-- ===== src/Traffic.antt =====
-- traffic/controller.go: the controller of the single k6 process. A run object is known by the order
-- in which the controller made it (`serial`), which stands for its pointer. What `cmd.Start` returns
-- (a process id, or an error) and what the signals and waits of a stop meet are arguments.
pub mod Requests
pub mod Lifecycle
pub mod Stopping
pub mod Setup
use zth_sre.Prelude.{
  ℕ, zero, suc, ◌+◌, String, Bool, true, false, ◌&&◌, ◌||◌, not, Option, none, some, List, [], ◌∷◌,
  if◌then◌else◌, ◌==◌, String_eq, ℕ_eq,
}
use zth_sre.Prelude.Map.{Map, get}
use zth_sre.Prelude.Text.{codes, matches, word_first, word_rest}
use zth_sre.Http.{Method, is_get, is_post, Body}

-- `profiles`
unfoldable pub profiles : Map String
profiles =
    ("cpu-saturation", "cpu")
    ∷ ("useful-alerts", "alert")
    ∷ ("alerting", "alert")
    ∷ ("slo-burn-rate", "slo")
    ∷ ("vertical-horizontal", "cpu")
    ∷ ("dependency-bottleneck", "alert")
    ∷ ("connection-pool", "alert")
    ∷ ("latency-slo", "slo")
    ∷ ("dns-failure", "alert")
    ∷ ("retry-storm", "alert")
    ∷ ("memory-leak", "alert")
    ∷ ("autoscaler-oscillation", "cpu")
    ∷ ("file-forensics", "alert")
    ∷ ("blocked-traffic", "alert")
    ∷ []

pub record StartRequest : Type 0 where
  pub run_id : String
  pub scenario : String
  pub profile : String

-- `runIDPattern`: ^[A-Za-z0-9][A-Za-z0-9_-]{0,63}$
unfoldable pub valid_run_id : String → Bool
valid_run_id id = matches word_first word_rest 63 (codes id)

-- A missing key of the map reads as the empty text.
unfoldable pub valid_request : StartRequest → Bool
valid_request r = valid_run_id r.run_id && get "" r.scenario profiles == r.profile

pub record Run : Type 0 where
  pub serial : ℕ
  pub run_id : String
  pub scenario : String
  pub profile : String
  pub pid : ℕ

pub record Controller : Type 0 where
  pub active : Option Run
  pub closed : Bool
  pub made : ℕ

unfoldable pub init : Controller
init = record { active = none; closed = false; made = 0 }

pub data Status : Type 0 where
  idle : Status
  running : String → String → String → ℕ → Status

status_locked : Option Run → Status
status_locked none = idle
status_locked (some r) = running r.run_id r.scenario r.profile r.pid

unfoldable pub status : Controller → Status
unfolding status_locked
status c = status_locked c.active

pub data StartResult : Type 0 where
  started : Status → StartResult
  run_active : Status → StartResult
  closed_error : StartResult
  spawn_error : StartResult

-- With no run active: `cmd.Start`, then the new run.
spawn : StartRequest → Option ℕ → Controller → Controller × StartResult
spawn request none c = (c, spawn_error)
spawn request (some pid) c =
    let r : Run = record {
      serial = c.made;
      run_id = request.run_id;
      scenario = request.scenario;
      profile = request.profile;
      pid = pid;
    } in
    (
      record c { active = some r; made = c.made + 1 },
      started (running r.run_id r.scenario r.profile r.pid),
    )

start_open : Option Run → StartRequest → Option ℕ → Controller → Controller × StartResult
unfolding spawn
start_open none request spawned c = spawn request spawned c
start_open (some r) request spawned c = (c, run_active (status c))

-- `start`, under the mutex.
unfoldable pub start : StartRequest → Option ℕ → Controller → Controller × StartResult
unfolding start_open
start request spawned c =
    if c.closed then (c, closed_error) else start_open c.active request spawned c

abbrev pub same_run : ℕ → Option Run → Bool
same_run serial none = false
same_run serial (some r) = r.serial == serial

-- The critical section of `reap`: `if c.active == r { c.active = nil }`.
unfoldable pub reap : Run → Controller → Controller
reap r c = if same_run r.serial c.active then record c { active = none } else c

-- The critical section of `Shutdown`.
unfoldable pub shut : Controller → Controller
shut c = record c { closed = true }

pub data Reply : Type 0 where
  error : ℕ → Reply
  json : ℕ → Status → Reply

start_reply : Controller × StartResult → Controller × Reply
start_reply (c, started s) = (c, json 201 s)
start_reply (c, run_active s) = (c, json 409 s)
start_reply (c, closed_error) = (c, error 503)
start_reply (c, spawn_error) = (c, error 500)

start_valid : Bool → Option StartRequest → Option ℕ → Controller → Controller × Reply
unfolding start_reply
start_valid at_end none spawned c = (c, error 400)
start_valid at_end (some request) spawned c =
    if at_end && valid_request request
    then start_reply (start request spawned c)
    else (c, error 400)

-- `handleStart`; `media` is what mime.ParseMediaType makes of the Content-Type, none for an error.
unfoldable pub handle_start :
    Option String → Body StartRequest → Option ℕ → Controller → Controller × Reply
unfolding start_valid
handle_start none body spawned c = (c, error 415)
handle_start (some media) body spawned c =
    if media == "application/json"
    then start_valid body.at_end body.value spawned c
    else (c, error 415)

-- What syscall.Kill on the process group returns.
pub data Kill : Type 0 where
  sent no_such_process kill_error : Kill

abbrev pub kill_failed : Kill → Bool
kill_failed kill_error = true
kill_failed _ = false

pub data Signal : Type 0 where
  sigterm sigkill : Signal

-- What `stopRun` meets: whether `r.done` is closed at the start, the first signal, whether it is
-- closed before the context ends, and the second signal.
pub record StopEnv : Type 0 where
  pub done_before : Bool
  pub term : Kill
  pub done_in_time : Bool
  pub kill : Kill

-- Whether `stopRun` returns nil, whether it received from `r.done` before, and the signals it sent.
-- Where the last result is true and the second signal was sent, it waited for `r.done` with no limit.
unfoldable pub stop_run : StopEnv → Bool × List Signal
stop_run e =
    if e.done_before
    then (true, [])
    else if kill_failed e.term
    then (false, sigterm ∷ [])
    else if e.done_in_time
    then (true, sigterm ∷ [])
    else if kill_failed e.kill
    then (false, sigterm ∷ sigkill ∷ [])
    else (true, sigterm ∷ sigkill ∷ [])

stop_reply : Bool → Controller → Reply
stop_reply true c = json 200 (status c)
stop_reply false c = error 500

-- `handleStop` between its two looks at the controller: `before` is the run it read, `later` the
-- controller when `stopRun` returned.
unfoldable pub handle_stop : Option Run → StopEnv → Controller → Reply
unfolding stop_reply
handle_stop none e later = json 200 idle
handle_stop (some r) e later = stop_reply (stop_run e).0 later

pub data Route : Type 0 where
  health show_status start_route stop_route : Route
  not_allowed not_found : Route

pub route : Method → String → Route
route method path =
    if path == "/healthz"
    then (if is_get method then health else not_allowed)
    else if path == "/status"
    then (if is_get method then show_status else not_allowed)
    else if path == "/start"
    then (if is_post method then start_route else not_allowed)
    else if path == "/stop"
    then (if is_post method then stop_route else not_allowed)
    else not_found
