-- ===== src/Server/Origins/Upstreams.antt =====
-- Which URLs and lists of origins the server accepts.
use zth_sre.Prelude.{
  ◌<◌, ◌≡◌, refl, ◌↔◌, ◌⊎◌, String, false, Option, none, some, List, [], ◌∷◌, ◌==◌, String_eq,
  length, All, arith, eq_iff,
}
use zth_sre.Prelude.Chain.{Made}
use zth_sre.Http.{Url, is_http}
use zth_sre.Server.Origins.{Allowed, parse_origins, upstream}
use zth_sre.Server.Origins.Parsed.{Origin, Hosts, parse_origins_lem}

-- An HTTP URL of a host, without credentials, path, query and fragment; the path may be a slash.
pub record Plain (u : Url) : Type 0 where
  pub scheme : (u.scheme ≡ "http") ⊎ (u.scheme ≡ "https")
  pub named : (u.hostname == "") ≡ false
  pub no_user : u.user ≡ false
  pub no_path : (u.path ≡ "") ⊎ (u.path ≡ "/")
  pub no_query : u.raw_query ≡ ""
  pub no_force : u.force_query ≡ false
  pub no_fragment : u.fragment ≡ ""

-- A text that url.Parse reads as one.
abbrev pub Upstream : Option Url → Type 0
Upstream parsed = (u : Url) × (parsed ≡ some u) × Plain u

upstream-Plain : (u target : Url) → upstream (some u) ≡ some target → Plain u
unfolding upstream is_http
upstream-Plain u target h =
    let a = eq_iff u.scheme "http" in
    let b = eq_iff u.scheme "https" in
    let c = eq_iff u.path "" in
    let d = eq_iff u.path "/" in
    let e = eq_iff u.raw_query "" in
    let f = eq_iff u.fragment "" in
    record {
      scheme = ground (arith, h, a, b);
      named = ground (arith, h);
      no_user = ground (arith, h);
      no_path = ground (arith, h, c, d);
      no_query = ground (arith, h, e);
      no_force = ground (arith, h);
      no_fragment = ground (arith, h, f);
    }

Plain-upstream : (u : Url) → Plain u → upstream (some u) ≡ some u
unfolding upstream is_http
Plain-upstream u v =
    let a = eq_iff u.scheme "http" in
    let b = eq_iff u.scheme "https" in
    let c = eq_iff u.path "" in
    let d = eq_iff u.path "/" in
    let e = eq_iff u.raw_query "" in
    let f = eq_iff u.fragment "" in
    ground (
      arith, a, b, c, d, e, f, v.scheme, v.named, v.no_user, v.no_path, v.no_query, v.no_force,
      v.no_fragment,
    )

pub upstream-Made : (parsed : Option Url) → Made (upstream parsed) ↔ Upstream parsed
unfolding upstream
upstream-Made none = (λ (u, e). absurd (cc), λ (u, e, v). absurd (cc))
upstream-Made (some u) = (
  λ (target, e). (u, refl, upstream-Plain u target e),
  λ (w, e, v). let q : w ≡ u = cc in (u, Plain-upstream u (rw q at v)),
)

module _ (parse : String → Option Url) where
  abbrev pub Serialized : String → Type 0
  Serialized origin = (u : Url) × (parse origin ≡ some u) × Origin origin u

  Hosts-Serialized :
      (origins hosts : List String) → Hosts parse origins hosts → All Serialized origins
  Hosts-Serialized [] hosts v = tt
  Hosts-Serialized (origin ∷ origins) [] v = absurd v
  Hosts-Serialized (origin ∷ origins) (host ∷ hosts) ((u, e, o, q), v) =
      ((u, e, o), Hosts-Serialized origins hosts v)

  Serialized-Hosts :
      (origins : List String)
      → All Serialized origins
      → (hosts : List String) × Hosts parse origins hosts
  Serialized-Hosts [] v = ([], tt)
  Serialized-Hosts (origin ∷ origins) ((u, e, o), v) =
      let (hosts, w) = Serialized-Hosts origins v in (u.host ∷ hosts, ((u, e, o, refl), w))

  pub origins-Made :
      (origins : List String)
      → Made (parse_origins parse origins) ↔ ((0 < length origins) × All Serialized origins)
  origins-Made origins = (
    λ (a, e).
        let (n, same, hosts) = (parse_origins_lem parse origins a).0 e in
        (n, Hosts-Serialized origins a.hosts hosts),
    λ (n, v).
        let (hosts, w) = Serialized-Hosts origins v in
        let a : Allowed = record { origins = origins; hosts = hosts } in
        (a, (parse_origins_lem parse origins a).1 (n, refl, w)),
  )
