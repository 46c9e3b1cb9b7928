-- ===== src/Server/Relay.antt =====
-- `Rewrite` and `ModifyResponse` of the two reverse proxies of internal/server/server.go.
pub mod Replies
use zth_sre.Prelude.{
  ℕ, String, Bool, true, false, ◌&&◌, ◌||◌, not, Option, none, some, List, [], ◌∷◌, if◌then◌else◌,
  ◌==◌, String_eq, ℕ_eq, elem, leb, ltb,
}
use Prim.Native.String.{◌++◌}
use zth_sre.Prelude.Strings.{trim_prefix}
use zth_sre.Http.{Url}
use zth_sre.Server.Paths.{safe_path, prometheus_path}

abbrev pub Headers : Type 0
Headers = List (String × String)

-- The headers are under their canonical keys.
pub without : List String → Headers → Headers
without keys [] = []
without keys ((key, value) ∷ headers) =
    let rest = without keys headers in if elem key keys then rest else (key, value) ∷ rest

-- A request to a target.
pub record Outgoing : Type 0 where
  pub host : String
  pub path : String
  pub raw_query : String
  pub headers : Headers

pub dropped : List String
dropped =
    "Forwarded" ∷ "X-Forwarded-Host" ∷ "X-Forwarded-Proto" ∷ "X-Forwarded-For" ∷ "Authorization"
    ∷ "Cookie" ∷ []

-- `Rewrite`, where the target's own path and query are empty.
unfoldable pub rewritten : Bool → Url → String → String → Headers → Outgoing
unfolding without dropped
rewritten terminal target path raw_query headers = record {
  host = target.host;
  path = if terminal then "/terminal" else trim_prefix path "/prometheus";
  raw_query = if terminal then "" else raw_query;
  headers = without dropped headers;
}

-- A response: `location` is what `r.Location` returns, none for an error.
pub record Answer : Type 0 where
  pub status : ℕ
  pub location : Option Url
  pub headers : Headers

-- The checks of a redirect's location, and the new location; none for an error.
relocated : Bool → Url → Option Url → Option Url
relocated terminal target none = none
relocated terminal target (some l) =
    let p = trim_prefix l.path "/prometheus" in
    if terminal || not (l.scheme == target.scheme) || not (l.host == target.host) || l.user
    then none
    else if not (safe_path p) || not (prometheus_path p)
    then none
    else some (record l {
      scheme = "";
      host = "";
      hostname = "";
      raw_path = "";
      path = "/prometheus" ++ p;
    })

abbrev pub is_redirect : ℕ → Bool
is_redirect status = leb 300 status && ltb status 400 && not (status == 304)

redirected : Option Url → Answer → Option Answer
redirected none r = none
redirected (some l) r = some (record r { location = some l })

-- `ModifyResponse`: none for an error, which `ErrorHandler` answers with 502.
unfoldable pub modified : Bool → Url → Answer → Option Answer
unfolding without relocated redirected
modified terminal target r =
    let kept : Answer = record r { headers = without ("Set-Cookie" ∷ []) r.headers } in
    let moved = redirected (relocated terminal target r.location) kept in
    if is_redirect r.status then moved else some kept
