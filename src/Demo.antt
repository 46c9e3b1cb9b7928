-- ===== src/Demo.antt =====
-- internal/demo/demo.go: the API and dependency services with their fault controls.
-- The fields under `stateMu` are numbers: New sets them to 0, and the only writer, PUT /admin/state,
-- refuses a negative value. Gauges are the numbers that they were set to; counters and histograms
-- of Prometheus, which the service never reads, are left out. `request_seq` is a uint64.
pub mod Admin
pub mod Burn
pub mod Dependency
pub mod Handler
pub mod Failures
pub mod Limits
pub mod Remote
pub mod Setup
use zth_sre.Prelude.{
  ℕ, zero, suc, ◌+◌, ◌-◌, ◌*◌, ◌%◌, ◌^◌, String, Bool, true, false, ◌&&◌, ◌||◌, not, Option, none,
  some, List, [], ◌∷◌, ◌++◌, length, ltb, leb, if◌then◌else◌, ◌==◌, String_eq, ℕ_eq,
}
use zth_sre.Prelude.Int.{ℤ, pos, negsuc, out_of_range, to_ℕ}
use zth_sre.Prelude.Text.{codes, matches, word_first, word_rest}
use zth_sre.Http.{Method, get, put, is_get, Body, Response, refused, answered, Url, is_http}

abbrev pub max_cpu_work : ℕ
max_cpu_work = 20_000_000

abbrev pub max_failure_every : ℕ
max_failure_every = 10_000

pub data Role : Type 0 where
  api dependency : Role

abbrev pub is_api : Role → Bool
is_api api = true
is_api dependency = false

pub record Settings : Type 0 where
  pub cpu_work : ℕ
  pub failure_every : ℕ
  pub latency_ms : ℕ
  pub dependency_failure_every : ℕ
  pub retries : ℕ
  pub max_concurrency : ℕ
  pub memory_mb : ℕ

pub record Gauges : Type 0 where
  pub cpu_work_metric : ℕ
  pub failure_every_metric : ℕ
  pub latency_metric : ℕ
  pub concurrency_metric : ℕ
  pub memory_metric : ℕ

-- `leak` holds the sizes in bytes of the slices that are kept.
pub record Service : Type 0 where
  pub role : Role
  pub settings : Settings
  pub gauges : Gauges
  pub leak : List ℕ
  pub request_seq : ℕ
  pub active_count : ℕ

abbrev pub healthy : Settings
healthy = record {
  cpu_work = 0;
  failure_every = 0;
  latency_ms = 0;
  dependency_failure_every = 0;
  retries = 0;
  max_concurrency = 0;
  memory_mb = 0;
}

parse_role : String → Option Role
parse_role role =
    if role == ""
    then some api
    else if role == "api"
    then some api
    else if role == "dependency"
    then some dependency
    else none

-- The check of DEPENDENCY_URL in `New`, on what url.Parse returned.
pub valid_dependency_url : Option Url → Bool
valid_dependency_url none = false
valid_dependency_url (some u) = not (
    not (is_http u.scheme)
    || (u.hostname == ""
        || (u.user
            || ((not (u.path == "") && not (u.path == "/"))
                || (not (u.raw_query == "")
                    || (u.force_query || (not (u.fragment == "") || not (u.opaque_part == ""))))))))

started : Role → Service
started role = record {
  role = role;
  settings = healthy;
  gauges = record {
    cpu_work_metric = 0;
    failure_every_metric = 0;
    latency_metric = 0;
    concurrency_metric = 0;
    memory_metric = 0;
  };
  leak = [];
  request_seq = 0;
  active_count = 0;
}

start_role : Bool → Bool → Option Role → Option Service
unfolding started
start_role url_ok limit_ok none = none
start_role url_ok limit_ok (some role) = if url_ok && limit_ok then some (started role) else none

-- `New`: the role, the dependency's URL as url.Parse reads it, and whether CPU_LIMIT_CORES is a
-- positive finite number.
pub new_service : String → Option Url → Bool → Option Service
unfolding start_role parse_role valid_dependency_url
new_service role url limit_ok = start_role (valid_dependency_url url) limit_ok (parse_role role)

-- `stateUpdate`: a pointer that is nil is none.
pub record StateUpdate : Type 0 where
  pub cpu_work : Option ℤ
  pub failure_every : Option ℤ
  pub latency_ms : Option ℤ
  pub dependency_failure_every : Option ℤ
  pub retries : Option ℤ
  pub max_concurrency : Option ℤ
  pub memory_mb : Option ℤ

-- `p != nil && (*p < 0 || *p > limit)`
abbrev pub bad : ℕ → Option ℤ → Bool
bad limit none = false
bad limit (some n) = out_of_range limit n

pub out_of_bounds : StateUpdate → Bool
out_of_bounds u =
    bad max_cpu_work u.cpu_work
    || (bad max_failure_every u.failure_every
        || (bad 10000 u.latency_ms
            || (bad max_failure_every u.dependency_failure_every
                || (bad 10 u.retries || (bad 1000 u.max_concurrency || bad 1024 u.memory_mb)))))

-- `if p != nil { field = *p }`
abbrev pub over : Option ℤ → ℕ → ℕ
over none old = old
over (some n) old = to_ℕ n

abbrev pub present : Option ℤ → Bool
present none = false
present (some n) = true

-- The writes under the lock.
pub write_state : StateUpdate → Service → Service
write_state u s =
    let c : Settings = record {
      cpu_work = over u.cpu_work s.settings.cpu_work;
      failure_every = over u.failure_every s.settings.failure_every;
      latency_ms = over u.latency_ms s.settings.latency_ms;
      dependency_failure_every =
          over u.dependency_failure_every s.settings.dependency_failure_every;
      retries = over u.retries s.settings.retries;
      max_concurrency = over u.max_concurrency s.settings.max_concurrency;
      memory_mb = over u.memory_mb s.settings.memory_mb;
    } in
    record s {
      settings = c;
      leak = if present u.memory_mb && c.memory_mb == 0 then [] else s.leak;
      gauges = record {
        cpu_work_metric = c.cpu_work;
        failure_every_metric = c.failure_every;
        latency_metric = c.latency_ms;
        concurrency_metric = c.max_concurrency;
        memory_metric = c.memory_mb;
      };
    }

-- `stateResponse`: the settings and the request sequence.
pub record StateResponse : Type 0 where
  pub settings : Settings
  pub request_seq : ℕ

pub state_response : Service → StateResponse
state_response s = record { settings = s.settings; request_seq = s.request_seq }

put_decoded : Option StateUpdate → Bool → Service → Service × Response StateResponse
unfolding out_of_bounds write_state state_response
put_decoded none at_end s = (s, refused 400)
put_decoded (some u) at_end s =
    if not (present u.cpu_work) || (not (present u.failure_every) || not at_end)
    then (s, refused 400)
    else if out_of_bounds u
    then (s, refused 400)
    else (write_state u s, answered 200 (state_response (write_state u s)))

-- `serveState`: `internal` is whether the client's address is loopback, private or link-local.
pub serve_state : Bool → Method → Body StateUpdate → Service → Service × Response StateResponse
unfolding put_decoded
serve_state false method body s = (s, refused 403)
serve_state true get body s = (s, answered 200 (state_response s))
serve_state true put body s = put_decoded body.value body.at_end s
serve_state true _ body s = (s, refused 405)

-- `runIDPattern`: ^[A-Za-z0-9][A-Za-z0-9_-]{0,31}$
pub request_run_id : String → String
request_run_id header =
    if header == "" || not (matches word_first word_rest 31 (codes header))
    then "manual"
    else header
