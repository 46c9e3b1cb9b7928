-- ===== src/Server/Paths.antt =====
-- `safePath` and `prometheusPath` of internal/server/server.go.
pub mod Reach
pub mod Resolved
use zth_sre.Prelude.{
  ℕ, String, Bool, true, false, ◌&&◌, ◌||◌, not, List, [], ◌∷◌, if◌then◌else◌, ◌==◌, String_eq,
  elem,
}
use zth_sre.Prelude.Strings.{
  has_prefix, has_suffix, trim_prefix, trim_suffix, contains, has_code, split,
}

-- The loop over the parts.
no_dots : List String → Bool
no_dots [] = true
no_dots (part ∷ parts) = not (part == ".." || part == ".") && no_dots parts

-- `safePath`
unfoldable pub safe_path : String → Bool
unfolding no_dots
safe_path p =
    if has_code p 92 || has_code p 0
    then false
    else if not (no_dots (split p b'/'))
    then false
    else not (contains p "//")

-- The cases of the switch.
unfoldable pub pages : List String
pages =
    "/" ∷ "/query" ∷ "/graph" ∷ "/alerts" ∷ "/targets" ∷ "/service-discovery" ∷ "/status" ∷ "/rules"
    ∷ "/favicon.ico" ∷ "/manifest.json" ∷ "/api/v1/query" ∷ "/api/v1/query_range" ∷ "/api/v1/labels"
    ∷ "/api/v1/series" ∷ "/api/v1/metadata" ∷ "/api/v1/targets" ∷ "/api/v1/targets/metadata"
    ∷ "/api/v1/rules" ∷ "/api/v1/alerts" ∷ "/api/v1/status/buildinfo" ∷ "/api/v1/status/runtimeinfo"
    ∷ "/api/v1/status/flags" ∷ []

label_of : String → String
label_of p = trim_suffix (trim_prefix p "/api/v1/label/") "/values"

-- `prometheusPath`
unfoldable pub prometheus_path : String → Bool
unfolding pages label_of
prometheus_path p =
    if elem p pages
    then true
    else if has_prefix p "/assets/" || has_prefix p "/static/"
    then true
    else if has_prefix p "/api/v1/label/" && has_suffix p "/values"
    then not (label_of p == "") && not (contains (label_of p) "/")
    else false
