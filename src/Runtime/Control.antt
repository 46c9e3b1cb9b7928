-- ===== src/Runtime/Control.antt =====
-- What the runtime sends to the other services: `applyState`, `startTraffic`, `stopTraffic` and
-- `putJSON` of internal/server/runtime.go. A request is what `requestJSON` would marshal and post;
-- whatever carries it there is the argument `send`, which says whether a 2xx answer came back.
use zth_sre.Prelude.{
  ℕ, String, Bool, true, false, ◌&&◌, ◌||◌, Option, none, some, List, [], ◌∷◌, ◌++◌, if◌then◌else◌,
  ◌==◌, String_eq,
}
use zth_sre.Prelude.Map.{get}
use zth_sre.Demo.{Settings, healthy}
use zth_sre.Runtime.State.{RunState, traffic_profiles}

pub data Request : Type 0 where
  -- PUT /admin/state of the two API servers, the dependency, the policy gateway and the balancer.
  put_api1 put_api2 put_dependency : Settings → Request
  put_policy : Bool → Request
  put_balancer : ℕ → Request
  -- POST /start and /stop of the traffic controller.
  start_traffic : String → String → String → Request
  stop_traffic : Request

-- The API's settings in the incident of a scenario.
unfoldable pub api_incident : String → Settings
api_incident scenario =
    if scenario == "cpu-saturation"
      || (scenario == "vertical-horizontal" || scenario == "autoscaler-oscillation")
    then record healthy { cpu_work = 1000000 }
    else if scenario == "useful-alerts"
    then record healthy { cpu_work = 2000000; failure_every = 5 }
    else if scenario == "connection-pool"
    then record healthy { max_concurrency = 4 }
    else if scenario == "retry-storm"
    then record healthy { retries = 3 }
    else if scenario == "memory-leak"
    then record healthy { memory_mb = 2 }
    else if scenario == "slo-burn-rate"
    then record healthy { failure_every = 5 }
    else healthy

-- The dependency's settings in the incident of a scenario.
unfoldable pub dependency_incident : String → Settings
dependency_incident scenario =
    if scenario == "dependency-bottleneck" || scenario == "latency-slo"
    then record healthy { latency_ms = 300 }
    else if scenario == "dns-failure"
    then record healthy { dependency_failure_every = 1 }
    else if scenario == "retry-storm"
    then record healthy { dependency_failure_every = 5 }
    else healthy

unfoldable pub api_state : String → String → Settings
api_state phase scenario = if phase == "incident" then api_incident scenario else healthy

unfoldable pub dependency_state : String → String → Settings
dependency_state phase scenario =
    if phase == "incident" then dependency_incident scenario else healthy

unfoldable pub blocked_state : String → String → Bool
blocked_state phase scenario = phase == "incident" && scenario == "blocked-traffic"

unfoldable pub backends_for : String → ℕ
backends_for scenario =
    if scenario == "cpu-saturation"
      || (scenario == "vertical-horizontal" || scenario == "autoscaler-oscillation")
    then 1
    else 2

-- The requests of `applyState`, in order; `policy` is whether a policy URL is configured.
unfoldable pub state_requests : Bool → String → String → List Request
state_requests policy phase scenario =
    put_api1 (api_state phase scenario)
      ∷ put_api2 (api_state phase scenario)
      ∷ put_dependency (dependency_state phase scenario)
      ∷ (if policy then put_policy (blocked_state phase scenario) ∷ [] else [])
    ++ put_balancer (backends_for scenario) ∷ []

abbrev pub scenario_of : Option RunState → String
scenario_of none = ""
scenario_of (some r) = r.scenario

module _ {W : Type 0} (send : Request → W → W × Bool) where
  -- One request after the other, up to the first that fails.
  unfoldable pub send_all : List Request → W → W × Bool
  send_all [] w = (w, true)
  send_all (q ∷ qs) w =
      let (w', ok) = send q w in let rest = send_all qs w' in if ok then rest else (w', false)

  unfoldable pub apply_state : Bool → String → Option RunState → W → W × Bool
  apply_state policy phase active w = send_all (state_requests policy phase (scenario_of active)) w

  unfoldable pub start_run_traffic : RunState → W → W × Bool
  start_run_traffic r w =
      send (start_traffic r.id r.scenario (get "" r.scenario traffic_profiles)) w
