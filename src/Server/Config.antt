-- ===== src/Server/Config.antt =====
-- The configuration of internal/server/server.go: `Config`, `ConfigFromEnv` and the defaults of `New`.
use zth_sre.Prelude.{String, List, not, if◌then◌else◌, ◌==◌, String_eq}
use zth_sre.Prelude.Strings.{split}

-- `Config`
pub record Settings : Type 0 where
  pub origins : List String
  pub static_dir : String
  pub toolbox_url : String
  pub prometheus_url : String
  pub api_url : String
  pub dependency_url : String
  pub dependency_control_url : String
  pub history_path : String
  pub profile_path : String
  pub progress_path : String
  pub scenario_root : String
  pub traffic_url : String
  pub lb_url : String
  pub api1_url : String
  pub api2_url : String
  pub policy_control_url : String

abbrev pub default_origins : String
default_origins = "http://localhost:8080,http://127.0.0.1:8080"

-- `os.Getenv` is empty for a variable that is not set.
module _ (getenv : String → String) where
  abbrev pub env : String → String → String
  env key fallback = let value = getenv key in if not (value == "") then value else fallback

  unfoldable pub origins_from_env : List String
  origins_from_env = split (env "ALLOWED_ORIGINS" default_origins) b','

  abbrev pub config_from_env : Settings
  config_from_env = record {
    origins = origins_from_env;
    static_dir = env "STATIC_DIR" "/app/frontend";
    toolbox_url = env "TOOLBOX_URL" "http://toolbox:8080";
    prometheus_url = env "PROMETHEUS_URL" "http://prometheus:9090";
    api_url = env "API_URL" "http://api-lb:8080";
    dependency_url = env "DEPENDENCY_URL" "http://dependency:8080";
    dependency_control_url = env "DEPENDENCY_CONTROL_URL" "http://dependency:8080";
    history_path = env "HISTORY_PATH" "/data/runs.json";
    profile_path = env "PROFILE_PATH" "/data/learner.json";
    progress_path = env "PROGRESS_PATH" "/data/progress.json";
    scenario_root = env "SCENARIO_ROOT" "/app";
    traffic_url = env "TRAFFIC_URL" "http://traffic:8080";
    lb_url = env "LB_URL" "http://api-lb:8080";
    api1_url = env "API1_URL" "http://api-1:8080";
    api2_url = env "API2_URL" "http://api-2:8080";
    policy_control_url = env "POLICY_CONTROL_URL" "http://policy:8080";
  }

abbrev or_else : String → String → String
or_else path fallback = if path == "" then fallback else path

-- The first lines of `New`; `join` is filepath.Join.
abbrev pub with_paths : (String → String → String) → Settings → Settings
with_paths join c = record c {
  progress_path = or_else c.progress_path (join c.static_dir ".progress.json");
  history_path = or_else c.history_path (join c.static_dir ".runs.json");
  profile_path = or_else c.profile_path (join c.static_dir ".learner.json");
}
