-- ===== src/Server/Origins.antt =====
-- `ParseOrigins` and `upstream` of internal/server/server.go, and the check of the header Origin.
pub mod Parsed
pub mod Upstreams
use Prim.Native.String.{◌++◌}
use zth_sre.Prelude.{
  String, Bool, false, ◌&&◌, ◌||◌, not, Option, none, some, List, [], ◌∷◌, if◌then◌else◌, ◌==◌,
  String_eq, elem, length, ℕ_eq,
}
use zth_sre.Prelude.Strings.{has_code}
use zth_sre.Http.{Url, is_http}

-- The keys of `allowed` and of `hosts`.
pub record Allowed : Type 0 where
  pub origins : List String
  pub hosts : List String

-- The conditions on an origin that url.Parse accepts.
unfoldable pub serialized : String → Url → Bool
unfolding is_http
serialized origin u =
    is_http u.scheme
    && not (u.hostname == "")
    && not u.user
    && u.path == ""
    && u.raw_query == ""
    && not u.force_query
    && u.fragment == ""
    && not (has_code u.host b'*')
    && not (has_code u.host 92)
    && origin == u.scheme ++ "://" ++ u.host

module _ (parse : String → Option Url) where
  added : String → Option Url → Option Allowed → Option Allowed
  added origin none later = none
  added origin (some u) none = none
  added origin (some u) (some a) =
      if serialized origin u
      then some (record { origins = origin ∷ a.origins; hosts = u.host ∷ a.hosts })
      else none

  collect : List String → Option Allowed
  unfolding added
  collect [] = some (record { origins = []; hosts = [] })
  collect (origin ∷ rest) = added origin (parse origin) (collect rest)

  nonempty : Option Allowed → Option Allowed
  nonempty none = none
  nonempty (some a) = if length a.origins == 0 then none else some a

  -- `ParseOrigins`, with none for an error.
  unfoldable pub parse_origins : List String → Option Allowed
  unfolding collect nonempty
  parse_origins origins = nonempty (collect origins)

-- `upstream`: none for an error, as for a text that url.Parse refuses.
unfoldable pub upstream : Option Url → Option Url
unfolding is_http
upstream none = none
upstream (some u) =
    if is_http u.scheme
      && not (u.hostname == "")
      && not u.user
      && (u.path == "" || u.path == "/")
      && u.raw_query == ""
      && not u.force_query
      && u.fragment == ""
    then some u
    else none

-- `len(r.Header.Values("Origin")) != 1 || !origins[r.Header.Get("Origin")]`, negated.
abbrev pub allowed_origin : List String → List String → Bool
allowed_origin origins (value ∷ []) = elem value origins
allowed_origin origins _ = false
