-- ===== src/Policy.antt =====
-- internal/policy/policy.go: the gateway between the API and its dependency. The upstream, its client
-- and url.Parse are parameters: a request comes with what they return for it.
pub mod Denial
use zth_sre.Prelude.{
  ℕ, zero, suc, ◌^◌, String, Bool, true, false, ◌||◌, not, Option, none, some, List, [], ◌∷◌,
  if◌then◌else◌, ◌==◌, String_eq,
}
use zth_sre.Http.{Method, is_get, is_put, Url}

pub record Service : Type 0 where
  pub upstream : Url
  pub blocked : Bool

-- `New`: none for an error, as for a text that url.Parse refuses.
pub new : Option Url → Option Service
new none = none
new (some u) =
    if not (u.scheme == "http")
      || (u.hostname == ""
          || (u.user
              || (not (u.path == "") || (not (u.raw_query == "") || not (u.fragment == "")))))
    then none
    else some (record { upstream = u; blocked = false })

abbrev pub Headers : Type 0
Headers = List (String × String)

-- The request that is passed on, and what comes back.
pub record Outgoing : Type 0 where
  pub url : Url
  pub headers : Headers

pub record Answer : Type 0 where
  pub status : ℕ
  pub headers : Headers
  pub content : List ℕ

-- A request. `update` is what `Decode` finds in the first 1024 bytes of the body: the field `blocked`,
-- false where it is absent; none for an error. `builds` is whether NewRequestWithContext succeeds, and
-- `answer` what `Do` returns, none for an error.
pub record Request : Type 0 where
  pub method : Method
  pub path : String
  pub raw_query : String
  pub headers : Headers
  pub update : Option Bool
  pub builds : Bool
  pub answer : Option Answer

pub data Reply : Type 0 where
  -- `methodNotAllowed`: 405, with the value of the header Allow.
  not_allowed : String → Reply
  failed : ℕ → Reply
  healthy : Reply
  -- The action of the one rule, and the target of the one line.
  rules : String → Reply
  iptables : String → Reply
  state : Bool → Reply
  relayed : ℕ → Headers → List ℕ → Reply

-- The service after a request, the request that it sent on, and the reply.
pub record Served : Type 0 where
  pub service : Service
  pub sent : Option Outgoing
  pub reply : Reply

-- io.LimitReader
pub limited : ℕ → List ℕ → List ℕ
limited zero content = []
limited (suc n) [] = []
limited (suc n) (b ∷ content) = b ∷ limited n content

abbrev pub replied : Service → Reply → Served
replied s reply = record { service = s; sent = none; reply = reply }

method_not_allowed : Reply
method_not_allowed = not_allowed "GET"

update_state : Option Bool → Service → Served
update_state none s = replied s (failed 400)
update_state (some b) s = replied (record s { blocked = b }) (state b)

relay : Option Answer → Reply
unfolding limited
relay none = failed 502
relay (some a) = relayed a.status a.headers (limited (2 ^ 20) a.content)

forward : Request → Service → Served
unfolding relay
forward r s = if not r.builds then replied s (failed 502) else record {
  service = s;
  sent = some (record {
    url = record (s.upstream) { path = r.path; raw_query = r.raw_query };
    headers = r.headers;
  });
  reply = relay r.answer;
}

-- The cases of the switch on the path, with its default.
pub data Page : Type 0 where
  health_page rules_page iptables_page admin_page other_page : Page

unfoldable pub page : String → Page
page path =
    if path == "/healthz"
    then health_page
    else if path == "/rules"
    then rules_page
    else if path == "/iptables"
    then iptables_page
    else if path == "/admin/state"
    then admin_page
    else other_page

get_only : Method → Reply → Service → Served
unfolding method_not_allowed
get_only method reply s = replied s (if not (is_get method) then method_not_allowed else reply)

serve_page : Page → Request → Service → Served
unfolding get_only update_state forward
serve_page health_page r s = get_only r.method healthy s
serve_page rules_page r s = get_only r.method (rules (if s.blocked then "drop" else "accept")) s
serve_page iptables_page r s =
    get_only r.method (iptables (if s.blocked then "DROP" else "ACCEPT")) s
serve_page admin_page r s =
    if not (is_put r.method) then replied s method_not_allowed else update_state r.update s
serve_page other_page r s =
    if not (is_get r.method) || not (r.path == "/")
    then replied s (failed 404)
    else if s.blocked
    then replied s (failed 504)
    else forward r s

-- `ServeHTTP`
unfoldable pub serve : Request → Service → Served
unfolding serve_page
serve r s = serve_page (page r.path) r s
