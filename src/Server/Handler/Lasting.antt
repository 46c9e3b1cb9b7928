-- ===== src/Server/Handler/Lasting.antt =====
-- What holds of the server's state after any requests and evaluation rounds.
use zth_sre.Prelude.{
  ℕ, ◌≤◌, ◌≡◌, inl, inr, String, Bool, ◌&&◌, ◌||◌, not, Option, none, some, List, [], ◌∷◌, ◌==◌,
  String_eq, ℕ_eq, elem, Bool-cases,
}
use zth_sre.Prelude.Int.{ℤ}
use zth_sre.Prelude.Map.{Map}
use zth_sre.Prelude.Sort.{Sorter, KeyOrder}
use zth_sre.Prelude.Strings.{has_prefix, contains, trim_prefix}
use zth_sre.Http.{Method, get, put, is_get}
use zth_sre.Files.{Storage}
use zth_sre.Progression.Invariant.{Inv}
use zth_sre.Progress
use zth_sre.Progress.Records.{Valid, put-Valid}
use zth_sre.Runtime.Operations.{Evaluation, judge}
use zth_sre.Runtime.Invariant.{judges, step, step-Inv}
use zth_sre.Runtime.Api.{Setup, Runtime, decode_json}
use zth_sre.Runtime.Api.Effects.{handle_runtime-Inv}
use zth_sre.Runtime.Api.Learner.{handle_runtime-Kept}
use zth_sre.Runtime.WellFormed.{ActiveInv}
use zth_sre.Server.Paths.{safe_path, prometheus_path}
use zth_sre.Server.Origins.{allowed_origin}
use zth_sre.Server.Handler.{
  Config, Server, Request, Route, health, status, runtime, progress, terminal, nowhere, prometheus,
  static, route, method_allowed, stored, put_progress, progress_on, handle_progress, runtime_answer,
  runtime_on, follow, running, serve,
}

module _ {F W : Type 0} (u : Setup F W) (order : KeyOrder ℕ ℕ_eq) (sorter : Sorter ℕ ℕ_eq ◌≤◌)
    (storage : Storage (Map Progress.Record)) {R : String → String → Type 0}
    (texts : Sorter String String_eq R) (sorted : u.sort ≡ texts.sort) where
  open order use {keys}
  open sorter use {sort}

  abbrev Conf : Type 0
  Conf = Config u keys sort storage

  abbrev Req : Type 0
  Req = Request u keys sort storage

  abbrev State : Type 0
  State = Server u keys sort storage

  -- The active run and the learner's profile are well formed.
  abbrev pub Running : Option (Runtime u) → Type 0
  Running none = Unit {0}
  Running (some x) = ActiveInv u.catalog x.manager.active × Inv x.stores.profile.profile

  pub record Sound (s : State) : Type 0 where
    pub runtime : Running s.runtime
    pub checklists : Valid order sorter storage s.progress.records

  stored-Sound :
      (s : State) (written : Progress.Store storage.Disk × Option Progress.Record)
      → Sound s
      → Valid order sorter storage written.0.records
      → Sound (stored u keys sort storage s written).0
  unfolding stored
  stored-Sound s (store, none) v w = record { runtime = v.runtime; checklists = w }
  stored-Sound s (store, some r) v w = record { runtime = v.runtime; checklists = w }

  put_progress-Sound :
      (id : String) (now : ℕ) (input : Option (List ℤ × String)) (s : State)
      → Sound s
      → Sound (put_progress u keys sort storage id now input s).0
  unfolding put_progress
  put_progress-Sound id now none s v = v
  put_progress-Sound id now (some (steps, notes)) s v =
      stored-Sound s _ v (put-Valid order sorter storage now id steps notes s.progress v.checklists)

  progress_on-Sound :
      (m : Method) (id : String) (c : Conf) (r : Req) (s : State)
      → Sound s
      → Sound (progress_on u keys sort storage m id c r s).0
  unfolding progress_on
  progress_on-Sound get id c r s v = v
  progress_on-Sound put id c r s v =
      elim (Bool-cases (
        not (allowed_origin c.allowed.origins r.origins)
        || not (has_prefix r.content_type "application/json"))) [
          | inl e ↦ rw e v
          | inr e ↦ rw e (put_progress-Sound id r.at.now (decode_json r.checklist) s v)
        ]
  progress_on-Sound _ id c r s v = v

  handle_progress-Sound :
      (c : Conf) (r : Req) (s : State)
      → Sound s
      → Sound (handle_progress u keys sort storage c r s).0
  unfolding handle_progress
  handle_progress-Sound c r s v =
      let id = trim_prefix r.path "/api/progress/" in
      elim (Bool-cases (id == "" || contains id "/")) [
        | inl e ↦ rw e v
        | inr e ↦ rw e (progress_on-Sound r.method id c r s v)
      ]

  runtime_on-Sound :
      (c : Conf) (r : Req) (x : Option (Runtime u)) (s : State)
      → Running x
      → Sound s
      → Sound (runtime_on u keys sort storage c r x s).0
  unfolding runtime_on runtime_answer
  runtime_on-Sound c r none s i v = v
  runtime_on-Sound c r (some x) s (run, profile) v =
      elim (Bool-cases
        (not (is_get r.method) && not (allowed_origin c.allowed.origins r.origins))) [
          | inl e ↦ rw e v
          | inr e ↦ rw e (record {
            runtime = (
              handle_runtime-Inv u r.method r.path r.at r.inputs x run,
              handle_runtime-Kept u texts sorted r.method r.path r.at r.inputs x profile,
            );
            checklists = v.checklists;
          })
        ]

  follow-Sound :
      (to : Route) (c : Conf) (r : Req) (s : State)
      → Sound s
      → Sound (follow u keys sort storage to c r s).0
  unfolding follow
  follow-Sound health c r s v = v
  follow-Sound status c r s v = v
  follow-Sound runtime c r s v = runtime_on-Sound c r s.runtime s v.runtime v
  follow-Sound progress c r s v = handle_progress-Sound c r s v
  follow-Sound terminal c r s v = elim (Bool-cases (allowed_origin c.allowed.origins r.origins)) [
    | inr bad ↦ rw bad v
    | inl ok ↦ rw ok (elim (Bool-cases r.websocket) [ inl e ↦ rw e v | inr e ↦ rw e v ])
  ]
  follow-Sound nowhere c r s v = v
  follow-Sound prometheus c r s v =
      elim (Bool-cases (prometheus_path (trim_prefix r.path "/prometheus"))) [
        | inl e ↦ rw e v
        | inr e ↦ rw e v
      ]
  follow-Sound static c r s v = v

  serve-Sound :
      (c : Conf) (r : Req) (s : State) → Sound s → Sound (serve u keys sort storage c r s).0
  unfolding serve
  serve-Sound c r s v = elim (Bool-cases (elem r.host c.allowed.hosts)) [
    | inr bad ↦ rw bad v
    | inl host ↦
        elim (Bool-cases (method_allowed (running u keys sort storage s.runtime) r.method r.path)) [
          | inr bad ↦ rw (host, bad) v
          | inl method ↦ elim (Bool-cases (safe_path r.path)) [
            | inr bad ↦ rw (host, method, bad) v
            | inl safe ↦
                rw (host, method, safe)
                  (follow-Sound (route (running u keys sort storage s.runtime) r.path) c r s v)
          ]
        ]
  ]

  -- A request, or the second critical section of a round of an evaluation.
  pub data Event : Type 0 where
    requested : Req → Event
    judged : Evaluation → Bool → Event

  judge_in : Evaluation → Bool → Option (Runtime u) → Option (Runtime u)
  judge_in e fired none = none
  judge_in e fired (some x) = some (record x { manager = judge e fired x.manager })

  pub handle : Conf → Event → State → State
  unfolding judge_in
  handle c (requested r) s = (serve u keys sort storage c r s).0
  handle c (judged e fired) s = record s { runtime = judge_in e fired s.runtime }

  judge_in-Running :
      (e : Evaluation) (fired : Bool) (x : Option (Runtime u))
      → Running x
      → Running (judge_in e fired x)
  unfolding judge_in step
  judge_in-Running e fired none i = tt
  judge_in-Running e fired (some x) (run, profile) =
      (step-Inv u.send u.catalog u.policy (judges e fired) x.manager run, profile)

  pub handle_all : Conf → List Event → State → State
  handle_all c [] s = s
  handle_all c (e ∷ es) s = handle_all c es (handle c e s)

  -- After any requests and evaluation rounds, in any order, whatever the clients send and whichever
  -- requests to the other services and writes of files fail: if the active run, the learner's profile
  -- and the checklists were well formed, they are.
  pub handle_all-Sound :
      (c : Conf) (es : List Event) (s : State) → Sound s → Sound (handle_all c es s)
  unfolding handle_all handle
  handle_all-Sound c [] s v = v
  handle_all-Sound c (requested r ∷ es) s v = handle_all-Sound c es _ (serve-Sound c r s v)
  handle_all-Sound c (judged e fired ∷ es) s v =
      handle_all-Sound c es _ (record {
        runtime = judge_in-Running e fired s.runtime v.runtime;
        checklists = v.checklists;
      })
