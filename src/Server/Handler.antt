-- ===== src/Server/Handler.antt =====
-- The handler of `New` in internal/server/server.go, with `handleProgress`. A request comes with what
-- the probes of the other services return for it.
pub mod Access
pub mod Guard
pub mod Lasting
use zth_sre.Prelude.{
  ℕ, String, Bool, true, false, ◌&&◌, ◌||◌, not, Option, none, some, List, [], ◌∷◌, if◌then◌else◌,
  ◌==◌, String_eq, ℕ_eq, elem,
}
use zth_sre.Prelude.Int.{ℤ}
use zth_sre.Prelude.Map.{Map}
use zth_sre.Prelude.Strings.{has_prefix, has_suffix, trim_prefix, contains}
use zth_sre.Http.{Method, get, put, is_get, is_put, is_post, is_head, Body, Url}
use zth_sre.Files.{Storage}
use zth_sre.Progress
use zth_sre.Progress.{get_record}
use zth_sre.Runtime.Api.{Setup, Runtime, Moment, Inputs, handle_runtime, decode_json}
use zth_sre.Runtime.Api
use zth_sre.Server.Paths.{safe_path, prometheus_path}
use zth_sre.Server.Origins.{Allowed, allowed_origin}
use zth_sre.Server.Files.{Root, Page, static_page}
use zth_sre.Server.Relay.{Headers, Outgoing, rewritten}

-- The suffixes of `isRuntimeMutation`.
abbrev pub mutates : String → Bool
mutates path =
    has_suffix path "/start"
    || has_suffix path "/reset"
    || has_suffix path "/hint"
    || has_suffix path "/capacity"
    || has_suffix path "/phase"
    || has_suffix path "/intervention"
    || has_suffix path "/alert"
    || has_suffix path "/check"
    || has_suffix path "/file-evidence"
    || has_suffix path "/diagnosis"

-- The condition on the method, negated; `running` is `runtime != nil`.
unfoldable pub method_allowed : Bool → Method → String → Bool
method_allowed running method path =
    is_get method
    || is_put method && has_prefix path "/api/progress/"
    || running && mutates path && (is_post method || is_put method)
    || is_head method
      && not (has_prefix path "/api")
      && not (has_prefix path "/prometheus")
      && not (path == "/terminal")
      && not (path == "/healthz")

-- Where the handler sends a path.
pub data Route : Type 0 where
  health status runtime progress terminal nowhere prometheus static : Route

unfoldable pub route : Bool → String → Route
route running path =
    if path == "/healthz"
    then health
    else if path == "/api/status"
    then status
    else if running
        && (has_prefix path "/api/scenarios"
            || has_prefix path "/api/run"
            || path == "/api/runs"
            || path == "/api/profile")
    then runtime
    else if has_prefix path "/api/progress/"
    then progress
    else if path == "/terminal"
    then terminal
    else if has_prefix path "/api" || has_prefix path "/terminal/"
    then nowhere
    else if has_prefix path "/prometheus"
    then prometheus
    else static

-- A component is healthy where its probe is answered 200; none stands for a failed request.
abbrev pub probed : Option ℕ → Bool
probed none = false
probed (some code) = code == 200

-- The statuses of the components, and `result.Status`, whether it is "healthy".
pub record Report : Type 0 where
  pub api : Bool
  pub dependency : Bool
  pub toolbox : Bool
  pub prometheus : Bool
  pub healthy : Bool

pub record Probes : Type 0 where
  pub api : Option ℕ
  pub dependency : Option ℕ
  pub toolbox : Option ℕ
  pub prometheus : Option ℕ

all_healthy : List Bool → Bool → Bool
all_healthy [] healthy = healthy
all_healthy (component ∷ components) healthy =
    all_healthy components (if not component then false else healthy)

unfoldable pub report : Probes → Report
unfolding all_healthy
report p = record {
  api = probed p.api;
  dependency = probed p.dependency;
  toolbox = probed p.toolbox;
  prometheus = probed p.prometheus;
  healthy =
      all_healthy (probed p.api ∷ probed p.dependency ∷ probed p.toolbox ∷ probed p.prometheus ∷ [])
        true;
}

module _ {F W : Type 0} (u : Setup F W) (keys sort : List ℕ → List ℕ)
    (storage : Storage (Map Progress.Record)) where
  -- The values of `New` that do not change: the allowed origins and hosts, the two proxied targets, and
  -- the opened root.
  pub record Config : Type 0 where
    pub allowed : Allowed
    pub toolbox : Url
    pub prometheus : Url
    pub root : Option Root

  pub record Server : Type 0 where
    pub runtime : Option (Runtime u)
    pub progress : Progress.Store storage.Disk

  pub record Request : Type 0 where
    pub method : Method
    pub host : String
    pub path : String
    pub raw_query : String
    pub headers : Headers
    -- The values of the header Origin, and whether Upgrade is "websocket" up to case.
    pub origins : List String
    pub websocket : Bool
    pub content_type : String
    pub at : Moment u
    pub inputs : Inputs
    pub checklist : Body (List ℤ × String)
    pub probes : Probes

  pub data Reply : Type 0 where
    failed : ℕ → Reply
    ok : Reply
    reported : Report → Reply
    from_runtime : Api.Reply u → Reply
    recorded : Progress.Record → Reply
    -- What is handed to a reverse proxy.
    to_terminal to_prometheus : Outgoing → Reply
    page : Page → Reply

  abbrev Answer : Type 0
  Answer = Server × Reply

  or_empty : Option Progress.Record → Progress.Record
  or_empty none = record { completed_steps = []; notes = ""; updated_at = 0 }
  or_empty (some r) = r

  stored : Server → Progress.Store storage.Disk × Option Progress.Record → Answer
  stored s (store, none) = (record s { progress = store }, failed 400)
  stored s (store, some r) = (record s { progress = store }, recorded r)

  put_progress : String → ℕ → Option (List ℤ × String) → Server → Answer
  unfolding stored
  put_progress id now none s = (s, failed 400)
  put_progress id now (some (steps, notes)) s =
      stored s (Progress.put keys sort storage now id steps notes s.progress)

  progress_on : Method → String → Config → Request → Server → Answer
  unfolding or_empty put_progress decode_json
  progress_on get id c r s = (s, recorded (or_empty (get_record id s.progress)))
  progress_on put id c r s =
      let written = put_progress id r.at.now (decode_json r.checklist) s in
      if not (allowed_origin c.allowed.origins r.origins)
        || not (has_prefix r.content_type "application/json")
      then (s, failed 403)
      else written
  progress_on _ id c r s = (s, failed 405)

  -- `handleProgress`
  unfoldable pub handle_progress : Config → Request → Server → Answer
  unfolding progress_on
  handle_progress c r s =
      let id = trim_prefix r.path "/api/progress/" in
      let answer = progress_on r.method id c r s in
      if id == "" || contains id "/" then (s, failed 404) else answer

  runtime_answer : Server → Runtime u × Api.Reply u → Answer
  runtime_answer s (m, reply) = (record s { runtime = some m }, from_runtime reply)

  runtime_on : Config → Request → Option (Runtime u) → Server → Answer
  unfolding runtime_answer
  runtime_on c r none s = (s, failed 404)
  runtime_on c r (some m) s =
      if not (is_get r.method) && not (allowed_origin c.allowed.origins r.origins)
      then (s, failed 403)
      else runtime_answer s (handle_runtime u r.method r.path r.at r.inputs m)

  follow : Route → Config → Request → Server → Answer
  unfolding report runtime_on handle_progress rewritten static_page
  follow health c r s = (s, ok)
  follow status c r s = (s, reported (report r.probes))
  follow runtime c r s = runtime_on c r s.runtime s
  follow progress c r s = handle_progress c r s
  follow terminal c r s =
      if not (allowed_origin c.allowed.origins r.origins)
      then (s, failed 403)
      else if not r.websocket
      then (s, failed 400)
      else (s, to_terminal (rewritten true c.toolbox r.path r.raw_query r.headers))
  follow nowhere c r s = (s, failed 404)
  follow prometheus c r s =
      if not (prometheus_path (trim_prefix r.path "/prometheus"))
      then (s, failed 404)
      else (s, to_prometheus (rewritten false c.prometheus r.path r.raw_query r.headers))
  follow static c r s = (s, page (static_page c.root r.path))

  abbrev pub running : Option (Runtime u) → Bool
  running none = false
  running (some m) = true

  -- The handler.
  unfoldable pub serve : Config → Request → Server → Answer
  unfolding method_allowed route follow safe_path
  serve c r s =
      if not (elem r.host c.allowed.hosts)
      then (s, failed 403)
      else if not (method_allowed (running s.runtime) r.method r.path)
      then (s, failed 405)
      else if not (safe_path r.path)
      then (s, failed 404)
      else follow (route (running s.runtime) r.path) c r s
