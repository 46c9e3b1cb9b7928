-- ===== src/Runtime/Api.antt =====
-- internal/server/runtime_http.go: the routes of the runtime.
pub mod Effects
pub mod Learner
use zth_sre.Prelude.{
  ℕ, String, Bool, true, false, ◌&&◌, ◌||◌, not, Option, none, some, List, [], ◌∷◌, if◌then◌else◌,
  ◌==◌, String_eq, ℕ_eq, map,
}
use zth_sre.Prelude.Int.{ℤ, pos, negsuc}
use zth_sre.Prelude.Strings.{has_prefix, has_suffix, trim_prefix, trim_suffix, has_code}
use zth_sre.Http.{Method, is_get, is_put, is_post, Body}
use zth_sre.Files.{Storage}
use zth_sre.Progression
use zth_sre.History
use zth_sre.Scenario.{Scenario, Diagram, not_positive}
use zth_sre.Runtime.State.{RunState, Exercise}
use zth_sre.Runtime.Control.{Request}
use zth_sre.Runtime.Operations.{
  Manager, start, reset, set_capacity, intervene, set_phase, set_diagnosis, reveal_hint, set_alert,
  mark_file_evidence,
}
use zth_sre.Runtime.Grading.{Floats, Evidence, Stores, Result, check}

-- `scenarioView`
pub record View : Type 0 where
  pub id : String
  pub title : String
  pub difficulty : String
  pub description : String
  pub learning_objectives : List String
  pub hints : List String
  pub traffic_profile : String
  pub grading_kind : String
  pub available : Bool
  pub topology : String
  pub diagram : Diagram
  pub goal : String
  pub success_criteria : List String
  pub prerequisites : List String
  pub required_tools : List String
  pub false_hypotheses : List String

pub view : {F : Type 0} → Scenario F → View
view s = record {
  id = s.id;
  title = s.title;
  difficulty = s.difficulty;
  description = s.description;
  learning_objectives = s.learning_objectives;
  hints = s.hints;
  traffic_profile = s.traffic.profile;
  grading_kind = s.grading.kind;
  available = true;
  topology = s.topology;
  diagram = s.diagram;
  goal = s.goal;
  success_criteria = s.success_criteria;
  prerequisites = s.prerequisites;
  required_tools = s.required_tools;
  false_hypotheses = s.false_hypotheses;
}

-- What decoding the body into the input of each handler finds.
pub record Inputs : Type 0 where
  pub capacity : Body ℤ
  pub phase : Body String
  pub action : Body String
  pub empty : Body (Unit {0})
  pub diagnosis : Body (String × String)
  pub expression : Body String

-- The conditions of `handleRuntime`, in their order.
pub data Endpoint : Type 0 where
  scenarios_page run_page runs_page profile_page export_page : Endpoint
  check_run reset_run capacity phase intervention file_evidence diagnosis alert : Endpoint
  start_run : String → Endpoint
  hint unknown : Endpoint

-- The conditions on POST and PUT.
unfoldable pub command : Method → String → Endpoint
command method path =
    if path == "run/check" && is_post method
    then check_run
    else if path == "run/reset" && is_post method
    then reset_run
    else if path == "run/capacity" && is_post method
    then capacity
    else if path == "run/phase" && is_post method
    then phase
    else if path == "run/intervention" && is_post method
    then intervention
    else if path == "run/file-evidence" && is_post method
    then file_evidence
    else if path == "run/diagnosis" && is_post method
    then diagnosis
    else if path == "run/alert" && is_put method
    then alert
    else if has_prefix path "scenarios/" && (has_suffix path "/start" && is_post method)
    then start_run (trim_suffix (trim_prefix path "scenarios/") "/start")
    else if has_prefix path "run/hint" && is_post method
    then hint
    else unknown

-- The endpoint of a path without "/api/".
unfoldable pub endpoint : Method → String → Endpoint
unfolding command
endpoint method path =
    if is_get method && path == "scenarios"
    then scenarios_page
    else if is_get method && path == "run"
    then run_page
    else if is_get method && path == "runs"
    then runs_page
    else if is_get method && path == "profile"
    then profile_page
    else if is_get method && path == "runs/export"
    then export_page
    else command method path

-- `decodeJSON`: none where it answered 400.
unfoldable pub decode_json : {A : Type 0} → Body A → Option A
decode_json body = if body.at_end then body.value else none

-- The fields of `runtimeManager` that do not change, and what stands for the other services and the
-- standard library: `send` carries the requests of the methods, and `policy` is whether a policy URL
-- is configured.
pub record Setup (F W : Type 0) : Type 1 where
  pub send : Request → W → W × Bool
  pub catalog : String → Option (Exercise F)
  pub policy : Bool
  pub library : List (Scenario F)
  pub fl : Floats F
  pub ps : Storage Progression.Profile
  pub sort : List String → List String
  pub hs : Storage (List (History.Record F))

module _ {F W : Type 0} (u : Setup F W) where
  -- The manager with the stores that it writes.
  pub record Runtime : Type 0 where
    pub manager : Manager W
    pub stores : Stores u.fl u.ps u.sort u.hs

  -- What a request meets: a new run id, two readings of the clock, the evidence that Prometheus holds
  -- of the active run, and the expressions that it accepts.
  pub record Moment : Type 0 where
    pub new_id : String
    pub now : ℕ
    pub later : ℕ
    pub evidence : Evidence F
    pub accepts : String → Bool

  pub data Reply : Type 0 where
    -- The handler returns without writing, which net/http turns into an empty 200.
    silent : Reply
    failed : ℕ → Reply
    views : List View → Reply
    status : Option RunState → Reply
    runs : List (History.Record F) → Reply
    profile : Progression.Profile → Reply
    exported : ℕ → List (History.Record F) → Reply
    checked : Option (Result u.fl) → Reply
    idle : Reply
    created : RunState → Reply
    hints : List ℕ → Reply

  abbrev Answer : Type 0
  Answer = Runtime × Reply

  abbrev moved : Runtime → Manager W → Runtime
  moved s m = record s { manager = m }

  -- The status after a method that returned nil, or its error with the given status.
  done : ℕ → Runtime → Manager W × Bool → Answer
  done code s (m, true) = (moved s m, status m.active)
  done code s (m, false) = (moved s m, failed code)

  -- `";\n\r"` has no character of the expression.
  abbrev plain : String → Bool
  plain text = not (has_code text 59) && (not (has_code text 10) && not (has_code text 13))

  on_capacity : Option ℤ → Runtime → Answer
  unfolding done
  on_capacity none s = (s, failed 400)
  on_capacity (some n) s =
      if not_positive n
      then (s, silent)
      else done 409 s (set_capacity u.send u.catalog u.policy n s.manager)

  on_phase : Option String → Runtime → Answer
  unfolding done
  on_phase none s = (s, failed 400)
  on_phase (some name) s =
      if name == ""
      then (s, silent)
      else done 409 s (set_phase u.send u.catalog u.policy name s.manager)

  on_action : Option String → Runtime → Answer
  unfolding done
  on_action none s = (s, failed 400)
  on_action (some action) s =
      if action == ""
      then (s, silent)
      else done 409 s (intervene u.send u.catalog u.policy action s.manager)

  on_evidence : Option (Unit {0}) → Runtime → Answer
  unfolding done
  on_evidence none s = (s, failed 400)
  on_evidence (some nothing) s = done 409 s (mark_file_evidence u.send u.catalog u.policy s.manager)

  on_diagnosis : Option (String × String) → Runtime → Answer
  unfolding done
  on_diagnosis none s = (s, failed 400)
  on_diagnosis (some (name, note)) s =
      if name == ""
      then (s, silent)
      else done 409 s (set_diagnosis u.send u.catalog u.policy name note s.manager)

  on_alert : Moment → Option String → Runtime → Answer
  unfolding done
  on_alert at none s = (s, failed 400)
  on_alert at (some text) s =
      if text == ""
      then (s, silent)
      else done 400 s
          (set_alert u.send u.catalog u.policy (at.accepts text) (plain text) text s.manager)

  reset_done : Runtime → Manager W × Bool → Answer
  reset_done s (m, true) = (moved s m, idle)
  reset_done s (m, false) = (moved s m, failed 409)

  start_done : Runtime → Manager W × Option RunState → Answer
  start_done s (m, none) = (moved s m, failed 409)
  start_done s (m, some run) = (moved s m, created run)

  hint_done : Runtime → Manager W × Option (List ℕ) → Answer
  hint_done s (m, none) = (moved s m, failed 409)
  hint_done s (m, some revealed) = (moved s m, hints revealed)

  check_done : Runtime → Stores u.fl u.ps u.sort u.hs × Option (Result u.fl) → Answer
  check_done s (stores, result) = (record s { stores = stores }, checked result)

  respond : Endpoint → Moment → Inputs → Runtime → Answer
  unfolding view decode_json on_capacity on_phase on_action on_evidence on_diagnosis on_alert
      reset_done start_done hint_done check_done
  respond scenarios_page at inputs s = (s, views (map view u.library))
  respond run_page at inputs s = (s, status s.manager.active)
  respond runs_page at inputs s = (s, runs s.stores.history.records)
  respond profile_page at inputs s = (s, profile s.stores.profile.profile)
  respond export_page at inputs s = (s, exported at.now s.stores.history.records)
  respond check_run at inputs s =
      check_done s (
        check u.fl u.ps u.sort u.hs at.now at.later at.evidence u.catalog s.manager.active s.stores)
  respond reset_run at inputs s = reset_done s (reset u.send u.catalog u.policy s.manager)
  respond capacity at inputs s = on_capacity (decode_json inputs.capacity) s
  respond phase at inputs s = on_phase (decode_json inputs.phase) s
  respond intervention at inputs s = on_action (decode_json inputs.action) s
  respond file_evidence at inputs s = on_evidence (decode_json inputs.empty) s
  respond diagnosis at inputs s = on_diagnosis (decode_json inputs.diagnosis) s
  respond alert at inputs s = on_alert at (decode_json inputs.expression) s
  respond (start_run id) at inputs s =
      start_done s (start u.send u.catalog u.policy id at.new_id at.now s.manager)
  respond hint at inputs s = hint_done s (reveal_hint u.send u.catalog u.policy s.manager)
  respond unknown at inputs s = (s, failed 404)

  -- `handleRuntime`
  unfoldable pub handle_runtime : Method → String → Moment → Inputs → Runtime → Answer
  unfolding respond
  handle_runtime method path at inputs s =
      respond (endpoint method (trim_prefix path "/api/")) at inputs s
