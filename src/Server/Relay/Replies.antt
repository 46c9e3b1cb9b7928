-- ===== src/Server/Relay/Replies.antt =====
-- What the reverse proxies pass on, in both directions.
use Prim.Native.String.{◌++◌}
use zth_sre.Prelude.{
  ◌≡◌, refl, ◌⊎◌, inl, inr, String, Bool, true, false, ◌||◌, not, Option, none, some, List, [], ◌∷◌,
  ◌==◌, String_eq, elem, All, arith, Bool-cases,
}
use zth_sre.Prelude.Strings.{trim_prefix}
use zth_sre.Http.{Url}
use zth_sre.Server.Paths.{safe_path, prometheus_path}
use zth_sre.Server.Relay.{
  Headers, without, dropped, rewritten, Answer, relocated, is_redirect, redirected, modified,
}

-- None of the headers has one of the keys.
abbrev pub Lacks : List String → Headers → Type 0
Lacks keys headers = All (λ h. elem h.0 keys ≡ false) headers

without-Lacks : (keys : List String) (headers : Headers) → Lacks keys (without keys headers)
unfolding without
without-Lacks keys [] = tt
without-Lacks keys ((key, value) ∷ headers) = elim (Bool-cases (elem key keys)) [
  | inl e ↦ rw e (without-Lacks keys headers)
  | inr e ↦ rw e (e, without-Lacks keys headers)
]

pub rewritten-Lacks :
    (terminal : Bool) (target : Url) (path raw_query : String) (headers : Headers)
    → Lacks dropped (rewritten terminal target path raw_query headers).headers
unfolding rewritten
rewritten-Lacks terminal target path raw_query headers = without-Lacks dropped headers

-- A redirect that a browser may follow: it stays on the server, below /prometheus, at an allowed path.
abbrev pub Local : Url → Type 0
Local l =
    (l.scheme ≡ "")
    × (l.host ≡ "")
    × (l.user ≡ false)
    × ((p : String) × (l.path ≡ "/prometheus" ++ p)
        × (safe_path p ≡ true)
        × (prometheus_path p ≡ true))

LocalOption : Option Url → Type 0
LocalOption none = Unit
LocalOption (some l) = Local l

-- Nothing is passed on, or no cookie is set, and if it is a redirect it is a local one.
abbrev pub Harmless : Bool → Option Answer → Type 0
Harmless terminal none = Unit
Harmless terminal (some r) =
    Lacks ("Set-Cookie" ∷ []) r.headers
    × ((is_redirect r.status ≡ false)
        ⊎ ((terminal ≡ false) × ((l : Url) × (r.location ≡ some l) × Local l)))

or_false : (a b : Bool) → (a || b) ≡ false → (a ≡ false) × (b ≡ false)
or_false a b h = ground (arith, h)

not-false : (a : Bool) → not a ≡ false → a ≡ true
not-false true h = refl
not-false false h = cc

relocated-LocalOption :
    (target : Url) (location : Option Url) → LocalOption (relocated false target location)
unfolding relocated LocalOption
relocated-LocalOption target none = tt
relocated-LocalOption target (some l) =
    let p = trim_prefix l.path "/prometheus" in
    elim (Bool-cases (not (l.scheme == target.scheme) || not (l.host == target.host) || l.user)) [
      | inl e ↦ rw e tt
      | inr e ↦
          let (others, user) =
            or_false (not (l.scheme == target.scheme) || not (l.host == target.host)) l.user e in
          elim (Bool-cases (not (safe_path p) || not (prometheus_path p))) [
            | inl f ↦ rw (e, f) tt
            | inr f ↦
                let (safe, allowed) = or_false (not (safe_path p)) (not (prometheus_path p)) f in
                rw (e, f)
                  (
                    refl,
                    refl,
                    user,
                    (p, refl, not-false (safe_path p) safe, not-false (prometheus_path p) allowed),
                  )
          ]
    ]

relocated-terminal : (target : Url) (location : Option Url) → relocated true target location ≡ none
unfolding relocated
relocated-terminal target none = refl
relocated-terminal target (some l) = refl

redirected-Harmless :
    (location : Option Url) (r : Answer)
    → LocalOption location
    → Lacks ("Set-Cookie" ∷ []) r.headers
    → Harmless false (redirected location r)
unfolding LocalOption redirected
redirected-Harmless none r v k = tt
redirected-Harmless (some l) r v k = (k, inr (refl, (l, refl, v)))

moved :
    (terminal : Bool) (target : Url) (r : Answer)
    → Harmless terminal (
        redirected
          (relocated terminal target r.location)
          (record r { headers = without ("Set-Cookie" ∷ []) r.headers }))
unfolding redirected
moved false target r =
    redirected-Harmless (relocated false target r.location) _
      (relocated-LocalOption target r.location) (without-Lacks ("Set-Cookie" ∷ []) r.headers)
moved true target r = rw (relocated-terminal target r.location) tt

-- What the proxy of a service passes on sets no cookie. A redirect (300 to 399 without 304) of the
-- terminal is never passed on, and one of Prometheus only with a location without scheme, host and
-- user, whose path is "/prometheus" with a safe and allowed path behind it.
pub modified_lem :
    (terminal : Bool) (target : Url) (r : Answer) → Harmless terminal (modified terminal target r)
unfolding modified
modified_lem terminal target r = elim (Bool-cases (is_redirect r.status)) [
  | inr e ↦ rw e (without-Lacks ("Set-Cookie" ∷ []) r.headers, inl e)
  | inl e ↦ rw e (moved terminal target r)
]
