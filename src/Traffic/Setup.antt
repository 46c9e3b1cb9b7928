-- ===== src/Traffic/Setup.antt =====
-- `Config`, `ConfigFromEnv` and `New` of traffic/controller.go, and the k6 process that `start` sets
-- up.
use Prim.Native.String.{[], ◌∷◌, ◌++◌}
use Prim.Native.String.append
use zth_sre.Prelude.Text.{all}
use zth_sre.Prelude.Strings.{has_prefix}
use zth_sre.Prelude.{
  false, ap, refl, true, elem, ◌||◌, true, refl, ◌≡◌, String, List, [], ◌∷◌, not, if◌then◌else◌,
  ◌==◌, String_eq, ◌≡◌, arith,
}
use zth_sre.Traffic.{StartRequest}

pub record Config : Type 0 where
  pub k6_path : String
  pub target_url : String
  pub prometheus_rw_url : String

abbrev pub default_k6_path : String
default_k6_path = "/usr/bin/k6"

abbrev pub default_target_url : String
default_target_url = "http://api-lb:8080"

abbrev pub default_prometheus_rw_url : String
default_prometheus_rw_url = "http://prometheus:9090/api/v1/write"

-- `getenv` is os.Getenv, which is empty for a variable that is not set.
abbrev pub env : (String → String) → String → String → String
env getenv key fallback = let value = getenv key in if not (value == "") then value else fallback

unfoldable pub config_from_env : (String → String) → Config
config_from_env getenv = record {
  k6_path = env getenv "K6_PATH" default_k6_path;
  target_url = env getenv "TARGET_URL" default_target_url;
  prometheus_rw_url = env getenv "PROMETHEUS_RW_URL" default_prometheus_rw_url;
}

-- The configuration that `New` keeps.
unfoldable pub completed : Config → Config
completed c = record {
  k6_path = (if c.k6_path == "" then default_k6_path else c.k6_path);
  target_url = (if c.target_url == "" then default_target_url else c.target_url);
  prometheus_rw_url =
      (if c.prometheus_rw_url == "" then default_prometheus_rw_url else c.prometheus_rw_url);
}

-- The arguments of k6, and what its environment has after that of the controller.
unfoldable pub arguments : Config → StartRequest → List String
arguments c r =
    "run"
    ∷ "--out"
    ∷ ("experimental-prometheus-rw=" ++ c.prometheus_rw_url)
    ∷ "--tag"
    ∷ "source=sre-lab"
    ∷ "--tag"
    ∷ ("run_id=" ++ r.run_id)
    ∷ "--tag"
    ∷ ("scenario=" ++ r.scenario)
    ∷ "--tag"
    ∷ ("profile=" ++ r.profile)
    ∷ "--env"
    ∷ ("RUN_ID=" ++ r.run_id)
    ∷ "--env"
    ∷ ("SCENARIO=" ++ r.scenario)
    ∷ "--env"
    ∷ ("PROFILE=" ++ r.profile)
    ∷ "--env"
    ∷ ("TARGET_URL=" ++ c.target_url)
    ∷ "/app/traffic/script.js"
    ∷ []

unfoldable pub environment : Config → StartRequest → List String
environment c r =
    ("RUN_ID=" ++ r.run_id)
    ∷ ("SCENARIO=" ++ r.scenario)
    ∷ ("PROFILE=" ++ r.profile)
    ∷ ("TARGET_URL=" ++ c.target_url)
    ∷ []

-- `New` leaves a configuration from the environment as it is.
pub completed-config_from_env :
    (getenv : String → String) → completed (config_from_env getenv) ≡ config_from_env getenv
unfolding completed config_from_env
completed-config_from_env getenv = ground arith

abbrev flags : List String
flags = "--out" ∷ "--tag" ∷ "--env" ∷ []

-- What a text begins with does not depend on what follows it.
dash-append : (s t : String) → (s == "") ≡ false → has_prefix (s ++ t) "-" ≡ has_prefix s "-"
unfolding has_prefix
dash-append [] t h = absurd (cc)
dash-append (c ∷ s) t h = ap (λ x. has_prefix x "-") (append.cons c s t)

-- Whatever a request and the configuration hold, an argument of k6 that begins with a dash is one of
-- its three flags.
pub arguments_lem :
    (c : Config) (r : StartRequest)
    → all (λ a. not (has_prefix a "-") || elem a flags) (arguments c r) ≡ true
unfolding arguments has_prefix
arguments_lem c r =
    rw
      (
        dash-append "experimental-prometheus-rw=" c.prometheus_rw_url refl,
        dash-append "run_id=" r.run_id refl,
        dash-append "scenario=" r.scenario refl,
        dash-append "profile=" r.profile refl,
        dash-append "RUN_ID=" r.run_id refl,
        dash-append "SCENARIO=" r.scenario refl,
        dash-append "PROFILE=" r.profile refl,
        dash-append "TARGET_URL=" c.target_url refl,
      )
      refl
