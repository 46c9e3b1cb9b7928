-- ===== src/Runtime/Api/Effects.antt =====
-- What a request to the runtime can change.
use zth_sre.Prelude.{
  ℕ, ◌≡◌, refl, ◌⊎◌, inl, inr, String, Bool, true, false, ◌&&◌, Option, none, some, List, ◌==◌,
  String_eq, arith, Bool-cases,
}
use zth_sre.Prelude.Int.{ℤ}
use zth_sre.Prelude.Strings.{trim_prefix}
use zth_sre.Http.{Method, get}
use zth_sre.Scenario.{not_positive}
use zth_sre.Runtime.State.{RunState}
use zth_sre.Runtime.Operations.{Manager}
use zth_sre.Runtime.WellFormed.{ActiveInv}
use zth_sre.Runtime.Invariant.{
  Call, starts, resets, sets_capacity, intervenes, sets_phase, diagnoses, reveals, sets_alert,
  marks_evidence, step, step-Inv,
}
use zth_sre.Runtime.Api.{
  Inputs, Endpoint, scenarios_page, run_page, runs_page, profile_page, export_page, check_run,
  reset_run, capacity, phase, intervention, file_evidence, diagnosis, alert, start_run, hint,
  unknown, command, endpoint, decode_json, Runtime, Setup, Moment, done, on_capacity, on_phase,
  on_action, on_evidence, on_diagnosis, on_alert, reset_done, start_done, hint_done, check_done,
  respond, handle_runtime, plain,
}

-- The endpoints that only read.
abbrev is_page : Endpoint → Bool
is_page scenarios_page = true
is_page run_page = true
is_page runs_page = true
is_page profile_page = true
is_page export_page = true
is_page unknown = true
is_page _ = false

and_false : (b : Bool) → (b && false) ≡ false
and_false true = refl
and_false false = refl

command-get : (path : String) → command get path ≡ unknown
unfolding command
command-get path = simp (and_false)

-- A GET reads.
endpoint-get : (path : String) → is_page (endpoint get path) ≡ true
unfolding endpoint
endpoint-get path = rw (command-get path) (ground arith)

module _ {F W : Type 0} (u : Setup F W) where
  -- The manager is as it was, or one method was called.
  abbrev Called : Runtime u → Manager W → Type 0
  Called s m =
      (m ≡ s.manager)
      ⊎ ((c : Call u.send u.catalog u.policy) × (m ≡ step u.send u.catalog u.policy c s.manager))

  done-manager :
      (code : ℕ) (s : Runtime u) (x : Manager W × Bool) → (done u code s x).0.manager ≡ x.0
  unfolding done
  done-manager code s (m, true) = refl
  done-manager code s (m, false) = refl

  on_capacity-Called : (n : Option ℤ) (s : Runtime u) → Called s (on_capacity u n s).0.manager
  unfolding on_capacity step
  on_capacity-Called none s = inl refl
  on_capacity-Called (some n) s = elim (Bool-cases (not_positive n)) [
    | inl e ↦ rw e (inl refl)
    | inr e ↦ rw e (inr (sets_capacity n, done-manager 409 s _))
  ]

  on_phase-Called : (name : Option String) (s : Runtime u) → Called s (on_phase u name s).0.manager
  unfolding on_phase step
  on_phase-Called none s = inl refl
  on_phase-Called (some name) s = elim (Bool-cases (name == "")) [
    | inl e ↦ rw e (inl refl)
    | inr e ↦ rw e (inr (sets_phase name, done-manager 409 s _))
  ]

  on_action-Called :
      (action : Option String) (s : Runtime u) → Called s (on_action u action s).0.manager
  unfolding on_action step
  on_action-Called none s = inl refl
  on_action-Called (some action) s = elim (Bool-cases (action == "")) [
    | inl e ↦ rw e (inl refl)
    | inr e ↦ rw e (inr (intervenes action, done-manager 409 s _))
  ]

  on_evidence-Called :
      (nothing : Option (Unit {0})) (s : Runtime u) → Called s (on_evidence u nothing s).0.manager
  unfolding on_evidence step
  on_evidence-Called none s = inl refl
  on_evidence-Called (some nothing) s = inr (marks_evidence, done-manager 409 s _)

  on_diagnosis-Called :
      (input : Option (String × String)) (s : Runtime u)
      → Called s (on_diagnosis u input s).0.manager
  unfolding on_diagnosis step
  on_diagnosis-Called none s = inl refl
  on_diagnosis-Called (some (name, note)) s = elim (Bool-cases (name == "")) [
    | inl e ↦ rw e (inl refl)
    | inr e ↦ rw e (inr (diagnoses name note e, done-manager 409 s _))
  ]

  on_alert-Called :
      (at : Moment u) (input : Option String) (s : Runtime u)
      → Called s (on_alert u at input s).0.manager
  unfolding on_alert step
  on_alert-Called at none s = inl refl
  on_alert-Called at (some text) s = elim (Bool-cases (text == "")) [
    | inl e ↦ rw e (inl refl)
    | inr e ↦ rw e (inr (sets_alert (at.accepts text) (plain u text) text, done-manager 400 s _))
  ]

  reset_done-manager : (s : Runtime u) (x : Manager W × Bool) → (reset_done u s x).0.manager ≡ x.0
  unfolding reset_done
  reset_done-manager s (m, true) = refl
  reset_done-manager s (m, false) = refl

  start_done-manager :
      (s : Runtime u) (x : Manager W × Option RunState) → (start_done u s x).0.manager ≡ x.0
  unfolding start_done
  start_done-manager s (m, none) = refl
  start_done-manager s (m, some r) = refl

  hint_done-manager :
      (s : Runtime u) (x : Manager W × Option (List ℕ)) → (hint_done u s x).0.manager ≡ x.0
  unfolding hint_done
  hint_done-manager s (m, none) = refl
  hint_done-manager s (m, some hints) = refl

  respond-Called :
      (e : Endpoint) (at : Moment u) (inputs : Inputs) (s : Runtime u)
      → Called s (respond u e at inputs s).0.manager
  unfolding respond step check_done
  respond-Called scenarios_page at inputs s = inl refl
  respond-Called run_page at inputs s = inl refl
  respond-Called runs_page at inputs s = inl refl
  respond-Called profile_page at inputs s = inl refl
  respond-Called export_page at inputs s = inl refl
  respond-Called check_run at inputs s = inl refl
  respond-Called reset_run at inputs s = inr (resets, reset_done-manager s _)
  respond-Called capacity at inputs s = on_capacity-Called (decode_json inputs.capacity) s
  respond-Called phase at inputs s = on_phase-Called (decode_json inputs.phase) s
  respond-Called intervention at inputs s = on_action-Called (decode_json inputs.action) s
  respond-Called file_evidence at inputs s = on_evidence-Called (decode_json inputs.empty) s
  respond-Called diagnosis at inputs s = on_diagnosis-Called (decode_json inputs.diagnosis) s
  respond-Called alert at inputs s = on_alert-Called at (decode_json inputs.expression) s
  respond-Called (start_run id) at inputs s =
      inr (starts id at.new_id at.now, start_done-manager s _)
  respond-Called hint at inputs s = inr (reveals, hint_done-manager s _)
  respond-Called unknown at inputs s = inl refl

  pub handle_runtime-Inv :
      (method : Method) (path : String) (at : Moment u) (inputs : Inputs) (s : Runtime u)
      → ActiveInv u.catalog s.manager.active
      → ActiveInv u.catalog (handle_runtime u method path at inputs s).0.manager.active
  unfolding handle_runtime
  handle_runtime-Inv method path at inputs s v =
      elim (respond-Called (endpoint method (trim_prefix path "/api/")) at inputs s) [
        | inl e ↦ rw e v
        | inr (c, e) ↦ rw e (step-Inv u.send u.catalog u.policy c s.manager v)
      ]

  is_page-respond :
      (e : Endpoint) (at : Moment u) (inputs : Inputs) (s : Runtime u)
      → is_page e ≡ true
      → (respond u e at inputs s).0 ≡ s
  unfolding respond
  is_page-respond scenarios_page at inputs s h = refl
  is_page-respond run_page at inputs s h = refl
  is_page-respond runs_page at inputs s h = refl
  is_page-respond profile_page at inputs s h = refl
  is_page-respond export_page at inputs s h = refl
  is_page-respond unknown at inputs s h = refl
  is_page-respond _ at inputs s h = cc

  -- A GET changes nothing.
  pub handle_runtime-get :
      (path : String) (at : Moment u) (inputs : Inputs) (s : Runtime u)
      → (handle_runtime u get path at inputs s).0 ≡ s
  unfolding handle_runtime
  handle_runtime-get path at inputs s =
      is_page-respond _ at inputs s (endpoint-get (trim_prefix path "/api/"))
