-- ===== src/Server/Handler/Guard.antt =====
-- What the server hands to the reverse proxies.
use zth_sre.Prelude.{
  ℕ, ◌≡◌, refl, inl, inr, String, true, false, ◌&&◌, ◌||◌, not, Option, none, some, List, ◌==◌,
  String_eq, ℕ_eq, elem, arith, Bool-cases, ◌↔◌,
}
use zth_sre.Prelude.Int.{ℤ}
use zth_sre.Prelude.Map.{Map}
use zth_sre.Prelude.Strings.{has_prefix, contains, trim_prefix}
use zth_sre.Http.{Method, get, put, is_get}
use zth_sre.Files.{Storage}
use zth_sre.Progress
use zth_sre.Runtime.Api.{Setup, Runtime, decode_json}
use zth_sre.Server.Paths.{safe_path, prometheus_path}
use zth_sre.Server.Paths.Reach.{clear, guarded, prometheus_path_lem}
use zth_sre.Server.Origins.{allowed_origin}
use zth_sre.Server.Relay.{dropped, rewritten}
use zth_sre.Server.Relay.Replies.{Lacks, rewritten-Lacks}
use zth_sre.Server.Handler.{
  Config, Server, Request, Reply, to_terminal, to_prometheus, Route, health, status, runtime,
  progress, terminal, nowhere, prometheus, static, route, method_allowed, stored, put_progress,
  progress_on, handle_progress, runtime_answer, runtime_on, follow, running, serve, probed, report,
  all_healthy, Probes,
}

probed_iff : (o : Option ℕ) → (probed o ≡ true) ↔ (o ≡ some 200)
probed_iff none = (λ h. cc, λ h. cc)
probed_iff (some code) = (
  λ h. let e : code ≡ 200 = ground (arith, h) in rw e refl,
  λ h. let e : code ≡ 200 = cc in rw e refl,
)

-- The status is "healthy" exactly if the probes of the four components were answered 200.
pub report_lem :
    (p : Probes)
    → ((report p).healthy ≡ true) ↔ (
        (p.api ≡ some 200)
        × (p.dependency ≡ some 200)
        × (p.toolbox ≡ some 200)
        × (p.prometheus ≡ some 200))
unfolding report all_healthy
report_lem p =
    let e1 = probed_iff p.api in
    let e2 = probed_iff p.dependency in
    let e3 = probed_iff p.toolbox in
    let e4 = probed_iff p.prometheus in
    (
      λ h. (
        e1.0 (ground (arith, h)),
        e2.0 (ground (arith, h)),
        e3.0 (ground (arith, h)),
        e4.0 (ground (arith, h)),
      ),
      λ (a, b, c, d). rw (a, b, c, d) refl,
    )

module _ {F W : Type 0} (u : Setup F W) (keys sort : List ℕ → List ℕ)
    (storage : Storage (Map Progress.Record)) where
  abbrev Conf : Type 0
  Conf = Config u keys sort storage

  abbrev Req : Type 0
  Req = Request u keys sort storage

  abbrev State : Type 0
  State = Server u keys sort storage

  abbrev Out : Type 0
  Out = Reply u keys sort storage

  -- A request to a proxied service: none of the dropped headers is passed on. To the toolbox goes only
  -- "/terminal" without a query, from a page of an allowed origin; to Prometheus only an allowed path
  -- outside the guarded ones.
  abbrev pub Guarded : Conf → Req → Out → Type 0
  Guarded c r (to_terminal o) =
      Lacks dropped o.headers
      × (o.host ≡ c.toolbox.host)
      × (o.path ≡ "/terminal")
      × (o.raw_query ≡ "")
      × (allowed_origin c.allowed.origins r.origins ≡ true)
  Guarded c r (to_prometheus o) =
      Lacks dropped o.headers
      × (o.host ≡ c.prometheus.host)
      × (prometheus_path o.path ≡ true)
      × (clear guarded o.path ≡ true)
  Guarded c r _ = Unit

  stored-Guarded :
      (c : Conf) (r : Req) (s : State) (x : Progress.Store storage.Disk × Option Progress.Record)
      → Guarded c r (stored u keys sort storage s x).1
  unfolding stored
  stored-Guarded c r s (store, none) = tt
  stored-Guarded c r s (store, some x) = tt

  put_progress-Guarded :
      (c : Conf) (r : Req) (id : String) (now : ℕ) (input : Option (List ℤ × String)) (s : State)
      → Guarded c r (put_progress u keys sort storage id now input s).1
  unfolding put_progress
  put_progress-Guarded c r id now none s = tt
  put_progress-Guarded c r id now (some (steps, notes)) s = stored-Guarded c r s _

  progress_on-Guarded :
      (m : Method) (id : String) (c : Conf) (r : Req) (s : State)
      → Guarded c r (progress_on u keys sort storage m id c r s).1
  unfolding progress_on
  progress_on-Guarded get id c r s = tt
  progress_on-Guarded put id c r s =
      elim (Bool-cases (
        not (allowed_origin c.allowed.origins r.origins)
        || not (has_prefix r.content_type "application/json"))) [
          | inl e ↦ rw e tt
          | inr e ↦ rw e (put_progress-Guarded c r id r.at.now (decode_json r.checklist) s)
        ]
  progress_on-Guarded _ id c r s = tt

  handle_progress-Guarded :
      (c : Conf) (r : Req) (s : State) → Guarded c r (handle_progress u keys sort storage c r s).1
  unfolding handle_progress
  handle_progress-Guarded c r s =
      let id = trim_prefix r.path "/api/progress/" in
      elim (Bool-cases (id == "" || contains id "/")) [
        | inl e ↦ rw e tt
        | inr e ↦ rw e (progress_on-Guarded r.method id c r s)
      ]

  runtime_on-Guarded :
      (c : Conf) (r : Req) (x : Option (Runtime u)) (s : State)
      → Guarded c r (runtime_on u keys sort storage c r x s).1
  unfolding runtime_on runtime_answer
  runtime_on-Guarded c r none s = tt
  runtime_on-Guarded c r (some x) s =
      elim (Bool-cases
        (not (is_get r.method) && not (allowed_origin c.allowed.origins r.origins))) [
          | inl e ↦ rw e tt
          | inr e ↦ rw e tt
        ]

  follow-Guarded :
      (to : Route) (c : Conf) (r : Req) (s : State)
      → Guarded c r (follow u keys sort storage to c r s).1
  unfolding follow rewritten
  follow-Guarded health c r s = tt
  follow-Guarded status c r s = tt
  follow-Guarded runtime c r s = runtime_on-Guarded c r s.runtime s
  follow-Guarded progress c r s = handle_progress-Guarded c r s
  follow-Guarded terminal c r s = elim (Bool-cases (allowed_origin c.allowed.origins r.origins)) [
    | inr bad ↦ rw bad tt
    | inl good ↦ rw good (elim (Bool-cases r.websocket) [
      | inr e ↦ rw e tt
      | inl e ↦
          let lacks = rewritten-Lacks true c.toolbox r.path r.raw_query r.headers in
          rw e (lacks, refl, refl, refl, good)
    ])
  ]
  follow-Guarded nowhere c r s = tt
  follow-Guarded prometheus c r s =
      let p = trim_prefix r.path "/prometheus" in
      elim (Bool-cases (prometheus_path p)) [
        | inr e ↦ rw e tt
        | inl e ↦
            let lacks = rewritten-Lacks false c.prometheus r.path r.raw_query r.headers in
            rw e (lacks, refl, e, prometheus_path_lem p e)
      ]
  follow-Guarded static c r s = tt

  -- Whatever request is served: what the server hands to the proxy of the toolbox is "/terminal" without
  -- a query, and only for a request with an allowed origin; what it hands to the proxy of Prometheus has
  -- a path on the list of the allowed ones, and none that starts with "/-/", "/federate", "/debug/" or
  -- an administrative endpoint below /api/v1. Neither gets the headers that would carry credentials or
  -- the client's address.
  pub serve-Guarded :
      (c : Conf) (r : Req) (s : State) → Guarded c r (serve u keys sort storage c r s).1
  unfolding serve
  serve-Guarded c r s = elim (Bool-cases (elem r.host c.allowed.hosts)) [
    | inr bad ↦ rw bad tt
    | inl host ↦
        elim (Bool-cases (method_allowed (running u keys sort storage s.runtime) r.method r.path)) [
          | inr bad ↦ rw (host, bad) tt
          | inl method ↦ elim (Bool-cases (safe_path r.path)) [
            | inr bad ↦ rw (host, method, bad) tt
            | inl safe ↦
                rw (host, method, safe)
                  (follow-Guarded (route (running u keys sort storage s.runtime) r.path) c r s)
          ]
        ]
  ]
