-- ===== src/Server/Handler/Access.antt =====
-- Which requests can change the server's state, and what holds after any requests.
use zth_sre.Prelude.{
  ℕ, ◌≡◌, refl, sym, ◌⊎◌, inl, inr, String, true, false, ◌||◌, List, ◌==◌, String_eq, elem,
  Bool-cases, Option-cases,
}
use zth_sre.Prelude.Map.{Map}
use zth_sre.Prelude.Strings.{contains, trim_prefix}
use zth_sre.Http.{Method, get, put, post, head, other, is_get}
use zth_sre.Files.{Storage}
use zth_sre.Progress
use zth_sre.Runtime.Api.{Setup, Runtime, Moment, Inputs, handle_runtime}
use zth_sre.Runtime.Api.Effects.{handle_runtime-get}
use zth_sre.Server.Paths.{safe_path, prometheus_path}
use zth_sre.Server.Origins.{allowed_origin}
use zth_sre.Server.Handler.{
  Config, Server, Request, Route, health, status, runtime, progress, terminal, nowhere, prometheus,
  static, route, method_allowed, progress_on, handle_progress, runtime_answer, runtime_on, follow,
  running, serve,
}

module _ {F W : Type 0} (u : Setup F W) (keys sort : List ℕ → List ℕ)
    (storage : Storage (Map Progress.Record)) where
  abbrev Conf : Type 0
  Conf = Config u keys sort storage

  abbrev Req : Type 0
  Req = Request u keys sort storage

  abbrev State : Type 0
  State = Server u keys sort storage

  -- Nothing changed, or the method is not GET and the request has exactly one value of the header
  -- Origin, an allowed one.
  abbrev Permitted : Method → Conf → Req → State → State → Type 0
  Permitted m c r s t =
      (t ≡ s) ⊎ ((is_get m ≡ false) × (allowed_origin c.allowed.origins r.origins ≡ true))

  progress_on-Permitted :
      (m : Method) (id : String) (c : Conf) (r : Req) (s : State)
      → Permitted m c r s (progress_on u keys sort storage m id c r s).0
  unfolding progress_on
  progress_on-Permitted get id c r s = inl refl
  progress_on-Permitted put id c r s =
      elim (Bool-cases (allowed_origin c.allowed.origins r.origins)) [
        | inl e ↦ inr (refl, e)
        | inr e ↦ rw e (inl refl)
      ]
  progress_on-Permitted post id c r s = inl refl
  progress_on-Permitted head id c r s = inl refl
  progress_on-Permitted other id c r s = inl refl

  handle_progress-Permitted :
      (c : Conf) (r : Req) (s : State)
      → Permitted r.method c r s (handle_progress u keys sort storage c r s).0
  unfolding handle_progress
  handle_progress-Permitted c r s =
      let id = trim_prefix r.path "/api/progress/" in
      elim (Bool-cases (id == "" || contains id "/")) [
        | inl e ↦ rw e (inl refl)
        | inr e ↦ rw e (progress_on-Permitted r.method id c r s)
      ]

  get_keeps :
      (m : Method) (path : String) (at : Moment u) (inputs : Inputs) (x : Runtime u)
      → is_get m ≡ true
      → (handle_runtime u m path at inputs x).0 ≡ x
  get_keeps get path at inputs x h = handle_runtime-get u path at inputs x
  get_keeps _ path at inputs x h = cc

  runtime_on-Permitted :
      (c : Conf) (r : Req) (s : State)
      → Permitted r.method c r s (runtime_on u keys sort storage c r s.runtime s).0
  unfolding runtime_on runtime_answer
  runtime_on-Permitted c r s = elim (Option-cases s.runtime) [
    | inl e ↦ rw e (inl refl)
    | inr (x, e) ↦ elim (Bool-cases (is_get r.method)) [
      | inl reads ↦
          rw (e, reads) (inl (rw (get_keeps r.method r.path r.at r.inputs x reads, sym e) refl))
      | inr writes ↦ elim (Bool-cases (allowed_origin c.allowed.origins r.origins)) [
        | inl ok ↦ inr (writes, ok)
        | inr bad ↦ rw (e, writes, bad) (inl refl)
      ]
    ]
  ]

  follow-Permitted :
      (to : Route) (c : Conf) (r : Req) (s : State)
      → Permitted r.method c r s (follow u keys sort storage to c r s).0
  unfolding follow
  follow-Permitted health c r s = inl refl
  follow-Permitted status c r s = inl refl
  follow-Permitted runtime c r s = runtime_on-Permitted c r s
  follow-Permitted progress c r s = handle_progress-Permitted c r s
  follow-Permitted terminal c r s = elim (Bool-cases (allowed_origin c.allowed.origins r.origins)) [
    | inr bad ↦ rw bad (inl refl)
    | inl ok ↦
        rw ok (elim (Bool-cases r.websocket) [ inl e ↦ rw e (inl refl) | inr e ↦ rw e (inl refl) ])
  ]
  follow-Permitted nowhere c r s = inl refl
  follow-Permitted prometheus c r s =
      elim (Bool-cases (prometheus_path (trim_prefix r.path "/prometheus"))) [
        | inl e ↦ rw e (inl refl)
        | inr e ↦ rw e (inl refl)
      ]
  follow-Permitted static c r s = inl refl

  -- A request leaves the runtime, its stores and the checklists as they were, or its host is allowed,
  -- its method is not GET and passes the check of the methods, its path is safe, and the header Origin
  -- has exactly one value, an allowed one.
  pub serve_permitted :
      (c : Conf) (r : Req) (s : State)
      → ((serve u keys sort storage c r s).0 ≡ s)
        ⊎ ((elem r.host c.allowed.hosts ≡ true)
            × (is_get r.method ≡ false)
            × (method_allowed (running u keys sort storage s.runtime) r.method r.path ≡ true)
            × (safe_path r.path ≡ true)
            × (allowed_origin c.allowed.origins r.origins ≡ true))
  unfolding serve
  serve_permitted c r s = elim (Bool-cases (elem r.host c.allowed.hosts)) [
    | inr bad ↦ rw bad (inl refl)
    | inl host ↦
        elim (Bool-cases (method_allowed (running u keys sort storage s.runtime) r.method r.path)) [
          | inr bad ↦ rw (host, bad) (inl refl)
          | inl method ↦ elim (Bool-cases (safe_path r.path)) [
            | inr bad ↦ rw (host, method, bad) (inl refl)
            | inl safe ↦
                rw (host, method, safe)
                  (elim (follow-Permitted (route (running u keys sort storage s.runtime) r.path) c r
                    s) [
                      | inl same ↦ inl same
                      | inr (writes, ok) ↦ inr (refl, writes, refl, refl, ok)
                    ])
          ]
        ]
  ]
