-- ===== src/Server/Headers.antt =====
-- The headers that the handler of internal/server/server.go puts on every reply.
use Prim.Native.String.{◌++◌}
use zth_sre.Prelude.{
  String, String_eq, Bool, true, false, [], ◌∷◌, if◌then◌else◌, ◌==◌, ◌≡◌, refl, ◌⊎◌, inl, inr,
  Bool-cases, eq_iff, arith,
}
use zth_sre.Prelude.Strings.{has_prefix, has_prefix_trans}
use zth_sre.Server.Paths.Reach.{apart}
use zth_sre.Server.Handler.{prometheus, route}
use zth_sre.Server.Relay.{Headers}

-- The policy of the pages of the lab, and that of Prometheus, which bootstraps its pages with an inline
-- script.
unfoldable pub strict_policy : String
strict_policy =
    "default-src 'self'; script-src 'self'; style-src 'self' 'unsafe-inline'; img-src 'self' data:; "
    ++ "font-src 'self'; connect-src 'self'; frame-src 'self'; frame-ancestors 'self'; "
    ++ "object-src 'none'; base-uri 'self'; form-action 'self'"

unfoldable pub prometheus_policy : String
prometheus_policy =
    "default-src 'self'; script-src 'self' 'unsafe-inline'; style-src 'self' 'unsafe-inline'; "
    ++ "img-src 'self' data:; font-src 'self'; connect-src 'self'; frame-ancestors 'self'; "
    ++ "object-src 'none'; base-uri 'self'; form-action 'self'"

unfoldable pub policy : String → String
policy path = if has_prefix path "/prometheus/" then prometheus_policy else strict_policy

unfoldable pub reply_headers : String → Headers
unfolding policy
reply_headers path =
    ("Content-Security-Policy", policy path)
    ∷ ("X-Content-Type-Options", "nosniff")
    ∷ ("Referrer-Policy", "no-referrer")
    ∷ ("X-Frame-Options", "SAMEORIGIN")
    ∷ ("Permissions-Policy", "camera=(), microphone=(), geolocation=()")
    ∷ []

-- A path below /prometheus/ is none of the others.
differs :
    (path other : String)
    → has_prefix other "/prometheus/" ≡ false
    → has_prefix path "/prometheus/" ≡ true
    → (path == other) ≡ false
differs path other h k = elim (Bool-cases (path == other)) [
  | inr e ↦ e
  | inl e ↦ let q = (eq_iff path other).0 e in absurd (cc)
]

below-route :
    (running : Bool) (path : String)
    → has_prefix path "/prometheus/" ≡ true
    → route running path ≡ prometheus
unfolding route has_prefix
below-route running path h =
    let a = differs path "/healthz" refl h in
    let b = differs path "/api/status" refl h in
    let c = differs path "/api/runs" refl h in
    let d = differs path "/api/profile" refl h in
    let e = differs path "/terminal" refl h in
    let f = apart path "/prometheus/" "/api/scenarios" refl h in
    let g = apart path "/prometheus/" "/api/run" refl h in
    let i = apart path "/prometheus/" "/api/progress/" refl h in
    let j = apart path "/prometheus/" "/api" refl h in
    let k = apart path "/prometheus/" "/terminal/" refl h in
    let l = has_prefix_trans path "/prometheus/" "/prometheus" h refl in
    ground (arith, a, b, c, d, e, f, g, i, j, k, l)

-- Inline scripts are allowed at most in the replies of Prometheus: the route of every path whose reply
-- has not the strict policy is that of the proxy.
pub policy-route :
    (running : Bool) (path : String)
    → (policy path ≡ strict_policy) ⊎ (route running path ≡ prometheus)
unfolding policy
policy-route running path = elim (Bool-cases (has_prefix path "/prometheus/")) [
  | inl h ↦ inr (below-route running path h)
  | inr h ↦ inl (rw h refl)
]
