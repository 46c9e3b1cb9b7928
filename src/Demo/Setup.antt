-- ===== src/Demo/Setup.antt =====
-- What internal/demo/demo.go reads of the environment and of a request: `cpuLimitFromEnv`,
-- `isInternalRequest` and `requestRunID`; and the service that cmd/demo/main.go starts.
use zth_sre.Prelude.{
  String, Bool, true, false, ◌||◌, not, Option, none, some, if◌then◌else◌, ◌==◌, String_eq,
}
use zth_sre.Prelude.Text.{codes, matches, word_first, word_rest}
use zth_sre.Http.{Url}
use zth_sre.Demo.{Service, new_service}

-- float64: strconv.ParseFloat, the tests of package math, and the comparison with 0.
pub record Floats (F : Type 0) : Type 0 where
  pub half : F
  pub parse : String → Option F
  pub is_nan : F → Bool
  pub is_inf : F → Bool
  pub not_positive : F → Bool

parsed_limit : {F : Type 0} → Floats F → Option F → Option F
parsed_limit fl none = none
parsed_limit fl (some limit) =
    if fl.is_nan limit || fl.is_inf limit || fl.not_positive limit then none else some limit

-- `cpuLimitFromEnv` on CPU_LIMIT_CORES, with none for an error.
unfoldable pub cpu_limit_from_env : {F : Type 0} → Floats F → String → Option F
unfolding parsed_limit
cpu_limit_from_env fl value = if value == "" then some fl.half else parsed_limit fl (fl.parse value)

-- What package net says of an address.
pub record Ip : Type 0 where
  pub loopback : Bool
  pub private : Bool
  pub link_local : Bool

internal_ip : Option Ip → Bool
internal_ip none = false
internal_ip (some ip) = ip.loopback || ip.private || ip.link_local

host_of : String → Option String → String
host_of remote none = remote
host_of remote (some host) = host

-- `isInternalRequest` on the remote address; `split` is net.SplitHostPort, and `parse` net.ParseIP.
pub is_internal_request : (String → Option String) → (String → Option Ip) → String → Bool
unfolding internal_ip host_of
is_internal_request split parse remote = internal_ip (parse (host_of remote (split remote)))

-- `requestRunID` on the header X-SRE-Run-ID.
unfoldable pub request_run_id : String → String
request_run_id id =
    if id == "" || not (matches word_first word_rest 31 (codes id)) then "manual" else id

is_some : {A : Type 0} → Option A → Bool
is_some none = false
is_some (some x) = true

-- The service of the command; `getenv` is os.Getenv, and `parse` url.Parse.
pub demo_service :
    {F : Type 0} → Floats F → (String → String) → (String → Option Url) → Option Service
unfolding cpu_limit_from_env is_some
demo_service fl getenv parse =
    let named = getenv "DEPENDENCY_URL" in
    new_service (getenv "ROLE") (parse (if named == "" then "http://dependency:8080" else named))
      (is_some (cpu_limit_from_env fl (getenv "CPU_LIMIT_CORES")))
