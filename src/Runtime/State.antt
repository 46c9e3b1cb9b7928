-- ===== src/Runtime/State.antt =====
-- The state of a run, the exercises and the tables of internal/server/runtime.go.
use zth_sre.Prelude.{
  ℕ, String, Bool, true, false, ◌&&◌, ◌||◌, not, Option, none, some, List, [], ◌∷◌, ◌==◌, String_eq,
  elem,
}
use zth_sre.Prelude.Map.{Map, get}

pub record RunState : Type 0 where
  pub id : String
  pub scenario : String
  pub state : String
  pub phase : String
  pub started_at : ℕ
  pub revealed_hints : List ℕ
  pub alert_expression : String
  pub alert_fired : Bool
  pub alert_cleared : Bool
  pub alert_baseline : Bool
  pub alert_baseline_observed : Bool
  pub incident_seen : Bool
  pub recovery_seen : Bool
  pub interventions : List String
  pub file_evidence_seen : Bool
  pub diagnosis : String
  pub evidence_note : String

-- What the runtime reads of a scenario.Scenario; `F` is float64.
pub record Exercise (F : Type 0) : Type 0 where
  pub id : String
  pub hints : List String
  pub availability : F
  pub p95_latency_ms : ℕ
  pub minimum_requests : ℕ

-- `&runState{…}` of `start`.
abbrev pub new_run : String → String → ℕ → RunState
new_run id scenario now = record {
  id = id;
  scenario = scenario;
  state = "starting";
  phase = "baseline";
  started_at = now;
  revealed_hints = [];
  alert_expression = "";
  alert_fired = false;
  alert_cleared = false;
  alert_baseline = false;
  alert_baseline_observed = false;
  incident_seen = false;
  recovery_seen = false;
  interventions = [];
  file_evidence_seen = false;
  diagnosis = "";
  evidence_note = "";
}

-- `expectedDiagnoses`
unfoldable pub expected_diagnoses : Map String
expected_diagnoses =
    ("cpu-saturation", "api-capacity")
    ∷ ("useful-alerts", "user-impact")
    ∷ ("slo-burn-rate", "error-budget-burn")
    ∷ ("vertical-horizontal", "api-capacity")
    ∷ ("dependency-bottleneck", "dependency")
    ∷ ("connection-pool", "concurrency")
    ∷ ("latency-slo", "latency")
    ∷ ("dns-failure", "service-discovery")
    ∷ ("retry-storm", "retry-amplification")
    ∷ ("memory-leak", "memory-growth")
    ∷ ("autoscaler-oscillation", "feedback-loop")
    ∷ ("file-forensics", "file-owner")
    ∷ ("blocked-traffic", "network-policy")
    ∷ []

-- `allowed` of `intervene`: the exercise that an action mitigates.
unfoldable pub allowed : Map String
allowed =
    ("dependency-recovery", "dependency-bottleneck")
    ∷ ("pool-recovery", "connection-pool")
    ∷ ("latency-budget", "latency-slo")
    ∷ ("dns-recovery", "dns-failure")
    ∷ ("retry-budget", "retry-storm")
    ∷ ("replace-capacity", "memory-leak")
    ∷ ("stabilize-policy", "autoscaler-oscillation")
    ∷ ("network-policy-recovery", "blocked-traffic")
    ∷ []

-- The profile table of `startTraffic`.
unfoldable pub traffic_profiles : Map String
traffic_profiles =
    ("cpu-saturation", "cpu")
    ∷ ("useful-alerts", "alert")
    ∷ ("slo-burn-rate", "slo")
    ∷ ("vertical-horizontal", "cpu")
    ∷ ("dependency-bottleneck", "alert")
    ∷ ("connection-pool", "alert")
    ∷ ("latency-slo", "slo")
    ∷ ("dns-failure", "alert")
    ∷ ("retry-storm", "alert")
    ∷ ("memory-leak", "alert")
    ∷ ("autoscaler-oscillation", "cpu")
    ∷ ("file-forensics", "alert")
    ∷ ("blocked-traffic", "alert")
    ∷ []

abbrev pub is_some {ℓ} : {A : Type ℓ} → Option A → Bool
is_some none = false
is_some (some a) = true

-- The exercises in which the learner writes an alert.
abbrev pub is_alert : String → Bool
is_alert scenario = scenario == "useful-alerts" || scenario == "slo-burn-rate"

abbrev pub expected : String → String
expected scenario = get "" scenario expected_diagnoses

-- `requireDiagnosis` returns nil, for a run that is active.
unfoldable pub diagnosed : RunState → Bool
diagnosed r = not (r.diagnosis == "") && expected r.scenario == r.diagnosis

-- `activeDiagnosisCorrect`, for a run that is active.
unfoldable pub diagnosis_correct : RunState → Bool
diagnosis_correct r = expected r.scenario == r.diagnosis

-- `hasIntervention`
abbrev pub has_intervention : RunState → String → Bool
has_intervention r action = elem action r.interventions
