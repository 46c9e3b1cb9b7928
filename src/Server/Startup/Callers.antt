-- ===== src/Server/Startup/Callers.antt =====
-- Who can change the state of a server that was started with a configuration.
use zth_sre.Prelude.{
  ◌≡◌, refl, ◌⊎◌, inl, inr, String, String_eq, true, false, some, Option, List, [], ◌∷◌, ◌==◌, elem,
  eq_iff, arith, Bool-cases,
}
use zth_sre.Http.{Url, is_get}
use zth_sre.Server.Origins.{allowed_origin}
use zth_sre.Server.Origins.Parsed.{Origin, Hosts, parse_origins_lem}
use zth_sre.Server.Config.{Settings, with_paths}
use zth_sre.Server.Handler.{Request, serve}
use zth_sre.Server.Handler.Access.{serve_permitted}
use zth_sre.Server.Startup.{Host, Handler, HandlerState, setup_of, new}
use zth_sre.Server.Startup.Lasting.{built-Begins}

-- The request has exactly one value of the header Origin, one of the list.
abbrev pub Sent : List String → List String → Type 0
Sent origins values = (o : String) × (values ≡ o ∷ []) × (elem o origins ≡ true)

pub allowed_origin-Sent :
    (origins values : List String) → allowed_origin origins values ≡ true → Sent origins values
allowed_origin-Sent origins [] h = cc
allowed_origin-Sent origins (o ∷ []) h = (o, refl, h)
allowed_origin-Sent origins (o ∷ p ∷ rest) h = cc

module _ (parse : String → Option Url) where
  -- The host is that of an origin of the list.
  abbrev pub Named : List String → String → Type 0
  Named origins host =
      (o : String) × (u : Url) × (elem o origins ≡ true)
      × (parse o ≡ some u)
      × Origin o u
      × (u.host ≡ host)

  Named-later :
      (origin host : String) (origins : List String)
      → Named origins host
      → Named (origin ∷ origins) host
  Named-later origin host origins (o, u, m, p, v, e) = (o, u, ground (arith, m), p, v, e)

  Hosts-Named :
      (origins hosts : List String) (host : String)
      → Hosts parse origins hosts
      → elem host hosts ≡ true
      → Named origins host
  Hosts-Named [] [] host v m = cc
  Hosts-Named [] (x ∷ hosts) host v m = absurd v
  Hosts-Named (origin ∷ origins) [] host v m = absurd v
  Hosts-Named (origin ∷ origins) (x ∷ hosts) host ((u, p, o, e), v) m =
      elim (Bool-cases (x == host)) [
        | inl same ↦
            let q : x ≡ host = (eq_iff x host).0 same in
            let r : u.host ≡ host = cc in (origin, u, ground (arith, eq_iff origin origin), p, o, r)
        | inr other ↦
            Named-later origin host origins
              (Hosts-Named origins hosts host v (ground (arith, m, other)))
      ]

module _ {F W : Type 0} (h : Host F W) where
  -- In whatever state a started server is: a request that changes the runtime, its stores or the
  -- checklists has a method other than GET, exactly one value of the header Origin, which is one of the
  -- configured origins, and the host of a configured origin.
  pub new_permitted :
      (c : Settings) (s : Handler h (with_paths h.join c))
      (t : HandlerState h (with_paths h.join c) s.library)
      (r : Request
        (setup_of h (with_paths h.join c) s.library)
        h.order.keys
        h.sorter.sort
        h.checklists)
      → new h c ≡ some s
      → ((serve
            (setup_of h (with_paths h.join c) s.library)
            h.order.keys
            h.sorter.sort
            h.checklists
            s.config
            r
            t).0
          ≡ t)
        ⊎ ((is_get r.method ≡ false) × Sent c.origins r.origins × Named h.parse c.origins r.host)
  unfolding new
  new_permitted c s t r e =
      let b = built-Begins h (with_paths h.join c) s e in
      let (n, same, hosts) = (parse_origins_lem h.parse c.origins s.config.allowed).0 b.allowed in
      elim (serve_permitted _ _ _ _ s.config r t) [
        | inl unchanged ↦ inl unchanged
        | inr (host, method, allowed, safe, sent) ↦ inr (
          method,
          allowed_origin-Sent c.origins r.origins (rw same at sent),
          Hosts-Named h.parse c.origins s.config.allowed.hosts r.host hosts host,
        )
      ]
