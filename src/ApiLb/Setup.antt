-- ===== src/ApiLb/Setup.antt =====
-- `Config`, `ConfigFromEnv`, `New` and `healthz` of internal/apilb/apilb.go.
use zth_sre.Prelude.{
  ℕ, ◌<◌, String, Option, none, some, not, if◌then◌else◌, ◌==◌, String_eq, ℕ_eq, ◌≡◌, refl, true,
  false, eq_iff, arith,
}
use mathlib.Core.Path.{subst}
use zth_sre.Prelude.Chain.{◌>>=◌, >>=-elim}
use zth_sre.Http.{Method, is_get, Url, Response, refused, answered, is_http}
use zth_sre.ApiLb.{Balancer, init, parse_backend}

-- `Config`; the timeout is in milliseconds, and not positive where it is 0.
pub record Config : Type 0 where
  pub backend_1_url : String
  pub backend_2_url : String
  pub timeout : ℕ

abbrev pub default_timeout : ℕ
default_timeout = 2000

-- `getenv` is os.Getenv, which is empty for a variable that is not set.
abbrev pub env : (String → String) → String → String → String
env getenv key fallback = let value = getenv key in if not (value == "") then value else fallback

unfoldable pub config_from_env : (String → String) → Config
config_from_env getenv = record {
  backend_1_url = env getenv "BACKEND_1_URL" "http://api-1:8080";
  backend_2_url = env getenv "BACKEND_2_URL" "http://api-2:8080";
  timeout = default_timeout;
}

-- `loadBalancer` with the backends and the timeout of its client.
pub record LoadBalancer : Type 0 where
  pub backend_1 : Url
  pub backend_2 : Url
  pub timeout : ℕ
  pub balancer : Balancer

-- `New`, with none for an error; `parse` is url.Parse.
unfoldable pub new : (String → Option Url) → Config → Option LoadBalancer
new parse c = do
  backend_1 ← parse_backend (parse c.backend_1_url)
  backend_2 ← parse_backend (parse c.backend_2_url)
  some (record {
    backend_1 = backend_1;
    backend_2 = backend_2;
    timeout = (if c.timeout == 0 then default_timeout else c.timeout);
    balancer = init;
  })

-- `healthz`
pub healthz : Method → Response String
healthz method = if not (is_get method) then refused 405 else answered 200 "ok\n"

-- What is left of the URL of a backend: a scheme and a host.
pub record Origin (u : Url) : Type 0 where
  pub http : is_http u.scheme ≡ true
  pub host : (u.hostname == "") ≡ false
  pub user : u.user ≡ false
  pub path : u.path ≡ ""
  pub raw_query : u.raw_query ≡ ""
  pub force_query : u.force_query ≡ false
  pub fragment : u.fragment ≡ ""

parse_backend-Origin : (u : Option Url) (b : Url) → parse_backend u ≡ some b → Origin b
unfolding parse_backend
parse_backend-Origin none b e = absurd (cc)
parse_backend-Origin (some u) b e =
    let p = eq_iff u.raw_query "" in
    let q = eq_iff u.fragment "" in
    record {
      http = ground (arith, e, p, q);
      host = ground (arith, e, p, q);
      user = ground (arith, e, p, q);
      path = ground (arith, e, p, q);
      raw_query = ground (arith, e, p, q);
      force_query = ground (arith, e, p, q);
      fragment = ground (arith, e, p, q);
    }

-- Plain origins as backends, a timeout, and one active backend.
pub record Ready (lb : LoadBalancer) : Type 0 where
  pub first : Origin lb.backend_1
  pub second : Origin lb.backend_2
  pub bounded : 0 < lb.timeout
  pub starts : lb.balancer ≡ init

kept_timeout : (n : ℕ) → 0 < (if n == 0 then default_timeout else n)
kept_timeout n = ground arith

-- Whatever the configuration: where `New` succeeds, the backends are plain origins, so that a request
-- adds its own path and query to a scheme and a host and no more, and the client has a timeout.
pub new-Ready :
    (parse : String → Option Url) (c : Config) (lb : LoadBalancer)
    → new parse c ≡ some lb
    → Ready lb
unfolding new
new-Ready parse c lb e0 = >>=-elim (parse_backend (parse c.backend_1_url)) _ e0 λ one a e1.
    >>=-elim (parse_backend (parse c.backend_2_url)) _ e1 λ two b e2.
      let made : LoadBalancer = record {
        backend_1 = one;
        backend_2 = two;
        timeout = (if c.timeout == 0 then default_timeout else c.timeout);
        balancer = init;
      } in
      let k : some made ≡ some lb = e2 in
      let q : made ≡ lb = cc in
      subst (λ x. Ready x) q
        (record {
          first = parse_backend-Origin (parse c.backend_1_url) one a;
          second = parse_backend-Origin (parse c.backend_2_url) two b;
          bounded = kept_timeout c.timeout;
          starts = refl;
        })
