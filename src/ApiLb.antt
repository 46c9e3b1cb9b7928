-- ===== src/ApiLb.antt =====
-- internal/apilb/apilb.go: the load balancer over two fixed API backends.
-- `active` is an int32 and `next` a uint64; both are changed by single atomic operations, so
-- concurrent requests are a sequence of the steps here.
pub mod Rotation
pub mod Admin
pub mod Relay
pub mod Setup
use zth_sre.Prelude.{
  ℕ, zero, suc, ◌+◌, ◌-◌, ◌*◌, ◌%◌, ◌^◌, String, Bool, true, false, ◌&&◌, ◌||◌, not, Option, none,
  some, List, [], ◌∷◌, ltb, leb, if◌then◌else◌, ◌==◌, String_eq, ℕ_eq,
}
use zth_sre.Prelude.Int.{ℤ, pos, negsuc, ℤ_eq}
use zth_sre.Http.{Method, get, put, is_get, Body, Response, refused, answered, Url, is_http}

abbrev pub u64_mod : ℕ
u64_mod = 2 ^ 64

abbrev pub i64_max : ℕ
i64_max = 2 ^ 63

pub record Balancer : Type 0 where
  pub active : ℕ
  pub next : ℕ

-- `New`: one active backend, the counter at zero.
unfoldable pub init : Balancer
init = record { active = 1; next = 0 }

-- `parseBackend` on what url.Parse returned; none is the error.
pub parse_backend : Option Url → Option Url
parse_backend none = none
parse_backend (some u) =
    if not (is_http u.scheme)
      || (u.hostname == ""
          || (u.user
              || ((not (u.path == "") && not (u.path == "/"))
                  || (not (u.raw_query == "") || (u.force_query || not (u.fragment == ""))))))
    then none
    else some (record u { path = ""; raw_path = "" })

-- The conversion `int(x)` of a uint64 on a 64-bit machine.
pub int_of_u64 : ℕ → ℤ
int_of_u64 x = if ltb x i64_max then pos x else negsuc (u64_mod - x - 1)

-- Go's `%` on int: the sign of the result is that of the dividend.
pub int_rem : ℤ → ℕ → ℤ
int_rem (pos a) c = pos (a % c)
int_rem (negsuc a) c = let r = suc a % c in if r == 0 then pos 0 else negsuc (r - 1)

-- `index := int(lb.next.Add(1)-1) % count`, with the counter after it.
unfoldable pub pick : Balancer → Balancer × ℤ
unfolding int_of_u64 int_rem
pick b =
    let after = (b.next + 1) % u64_mod in
    let before = (after + u64_mod - 1) % u64_mod in
    (record b { next = after }, int_rem (int_of_u64 before) b.active)

-- The number `*input.ActiveBackends`, and whether the body ends after it.
store_active : Bool → ℤ → Balancer → Balancer × Response ℕ
store_active at_end (negsuc n) b = (b, refused 400)
store_active at_end (pos n) b =
    if not (n == 1) && not (n == 2)
    then (b, refused 400)
    else if at_end
    then (record b { active = n }, answered 200 n)
    else (b, refused 400)

decoded_state : Bool → Option (Option ℤ) → Balancer → Balancer × Response ℕ
unfolding store_active
decoded_state at_end none b = (b, refused 400)
decoded_state at_end (some none) b = (b, refused 400)
decoded_state at_end (some (some n)) b = store_active at_end n b

-- The request body of PUT /admin/state: `active_backends`, none if it is absent or null.
pub update_state : Body (Option ℤ) → Balancer → Balancer × Response ℕ
unfolding decoded_state
update_state body b = decoded_state body.at_end body.value b

pub state : Method → Body (Option ℤ) → Balancer → Balancer × Response ℕ
unfolding update_state
state get body b = (b, answered 200 b.active)
state put body b = update_state body b
state _ body b = (b, refused 405)

abbrev pub Headers : Type 0
Headers = List (String × String)

pub record Upstream : Type 0 where
  pub status : ℕ
  pub headers : Headers
  pub content : String

pub data Outcome : Type 0 where
  failed : ℕ → Outcome
  relayed : ℕ → Headers → String → Outcome
  -- The index is out of range: the handler panics.
  panicked : Outcome

pub hop_by_hop : List String
hop_by_hop =
    "Connection" ∷ "Keep-Alive" ∷ "Proxy-Authenticate" ∷ "Proxy-Authorization" ∷ "TE" ∷ "Trailer"
    ∷ "Transfer-Encoding" ∷ "Upgrade" ∷ []

-- `equal_fold` is strings.EqualFold.
module _ (equal_fold : String → String → Bool) where
  pub any_fold : String → List String → Bool
  any_fold key [] = false
  any_fold key (h ∷ hs) = equal_fold key h || any_fold key hs

  pub copy_headers : Headers → Headers
  copy_headers [] = []
  copy_headers ((key, value) ∷ src) =
      let rest = copy_headers src in if any_fold key hop_by_hop then rest else (key, value) ∷ rest

-- `send` is the client's `Do` for a backend's index and the query, none where it fails; the request's
-- X-SRE-Run-ID, which `proxy` sets on the new request as it came, is part of `send`.
module _ (equal_fold : String → String → Bool) (send : ℕ → String → Option Upstream) where
  answer : Option Upstream → Outcome
  answer none = failed 503
  answer (some r) =
      if leb 300 r.status && ltb r.status 400
      then failed 503
      else relayed r.status (copy_headers equal_fold r.headers) r.content

  -- The two backends are an array: any other index panics.
  forward : ℤ → String → Outcome
  unfolding answer
  forward (negsuc n) query = panicked
  forward (pos n) query = if ltb n 2 then answer (send n query) else panicked

  pub proxy : Method → String → String → Balancer → Balancer × Outcome
  unfolding forward
  proxy method path query b =
      if not (is_get method) || not (path == "/")
      then (b, failed 404)
      else (let (b', index) = pick b in (b', forward index query))
