-- ===== src/Runtime/Api/Learner.antt =====
-- What a request to the runtime does to the learner's profile.
pub mod Earned
use zth_sre.Prelude.{
  ℕ, ◌≡◌, refl, inl, inr, String, String_eq, Bool, true, false, ◌&&◌, ◌||◌, not, Option, none, some,
  List, ◌==◌, Bool-cases, if◌then◌else◌,
}
use zth_sre.Prelude.Int.{ℤ, pos}
use zth_sre.Prelude.Sort.{Sorter}
use zth_sre.Prelude.Strings.{trim_prefix}
use zth_sre.Http.{Method}
use zth_sre.Progression
use zth_sre.Progression.Invariant.{Inv}
use zth_sre.Progression.Awards.{award-Inv}
use zth_sre.Scenario.{not_positive}
use zth_sre.Runtime.State.{RunState, Exercise, diagnosis_correct}
use zth_sre.Runtime.Operations.{Manager}
use zth_sre.Runtime.Grading.{
  Evidence, Stores, check, check_run as graded, rewarded, badges, item_of, achieved, total, score,
}
use zth_sre.Runtime.Api.{
  Inputs, Endpoint, scenarios_page, run_page, runs_page, profile_page, export_page, check_run,
  reset_run, capacity, phase, intervention, file_evidence, diagnosis, alert, start_run, hint,
  unknown, endpoint, decode_json, Runtime, Setup, Moment, done, on_capacity, on_phase, on_action,
  on_evidence, on_diagnosis, on_alert, reset_done, start_done, hint_done, check_done, respond,
  handle_runtime,
}

module _ {F W : Type 0} (u : Setup F W) where
  done-stores :
      (code : ℕ) (s : Runtime u) (x : Manager W × Bool) → (done u code s x).0.stores ≡ s.stores
  unfolding done
  done-stores code s (m, true) = refl
  done-stores code s (m, false) = refl

  capacity-stores : (n : Option ℤ) (s : Runtime u) → (on_capacity u n s).0.stores ≡ s.stores
  unfolding on_capacity
  capacity-stores none s = refl
  capacity-stores (some n) s = elim (Bool-cases (not_positive n)) [
    | inl e ↦ rw e refl
    | inr e ↦ rw e (done-stores 409 s _)
  ]

  phase-stores : (name : Option String) (s : Runtime u) → (on_phase u name s).0.stores ≡ s.stores
  unfolding on_phase
  phase-stores none s = refl
  phase-stores (some name) s = elim (Bool-cases (name == "")) [
    | inl e ↦ rw e refl
    | inr e ↦ rw e (done-stores 409 s _)
  ]

  action-stores : (name : Option String) (s : Runtime u) → (on_action u name s).0.stores ≡ s.stores
  unfolding on_action
  action-stores none s = refl
  action-stores (some name) s = elim (Bool-cases (name == "")) [
    | inl e ↦ rw e refl
    | inr e ↦ rw e (done-stores 409 s _)
  ]

  evidence-stores :
      (nothing : Option (Unit {0})) (s : Runtime u) → (on_evidence u nothing s).0.stores ≡ s.stores
  unfolding on_evidence
  evidence-stores none s = refl
  evidence-stores (some nothing) s = done-stores 409 s _

  diagnosis-stores :
      (input : Option (String × String)) (s : Runtime u)
      → (on_diagnosis u input s).0.stores ≡ s.stores
  unfolding on_diagnosis
  diagnosis-stores none s = refl
  diagnosis-stores (some (name, note)) s = elim (Bool-cases (name == "")) [
    | inl e ↦ rw e refl
    | inr e ↦ rw e (done-stores 409 s _)
  ]

  alert-stores :
      (at : Moment u) (input : Option String) (s : Runtime u)
      → (on_alert u at input s).0.stores ≡ s.stores
  unfolding on_alert
  alert-stores at none s = refl
  alert-stores at (some text) s = elim (Bool-cases (text == "")) [
    | inl e ↦ rw e refl
    | inr e ↦ rw e (done-stores 400 s _)
  ]

  reset-stores : (s : Runtime u) (x : Manager W × Bool) → (reset_done u s x).0.stores ≡ s.stores
  unfolding reset_done
  reset-stores s (m, true) = refl
  reset-stores s (m, false) = refl

  start-stores :
      (s : Runtime u) (x : Manager W × Option RunState) → (start_done u s x).0.stores ≡ s.stores
  unfolding start_done
  start-stores s (m, none) = refl
  start-stores s (m, some r) = refl

  hint-stores :
      (s : Runtime u) (x : Manager W × Option (List ℕ)) → (hint_done u s x).0.stores ≡ s.stores
  unfolding hint_done
  hint-stores s (m, none) = refl
  hint-stores s (m, some hints) = refl

  module _ {R : String → String → Type 0} (o : Sorter String String_eq R)
      (sorted : u.sort ≡ o.sort) where
    Kept : Stores u.fl u.ps u.sort u.hs → Type 0
    Kept st = Inv st.profile.profile

    rewarded-Kept :
        (now points : ℕ) (passed : Bool) (item : Exercise F) (r : RunState)
        (st : Progression.Store (u.ps.Disk))
        → Inv st.profile
        → Inv (rewarded u.fl u.ps u.sort u.hs now passed points item r st).0.profile
    unfolding rewarded
    rewarded-Kept now points passed item r st v =
        let given : Inv
            (Progression.award u.ps u.sort now r.id r.scenario (pos points) (badges item.id r)
              st).0.profile =
          rw sorted (award-Inv u.ps o now r.id r.scenario (pos points) (badges item.id r) st v) in
        elim (Bool-cases (passed && not (item.id == "file-forensics"))) [
          | inl e ↦ rw e given
          | inr e ↦ rw e v
        ]

    check-Kept :
        (now later : ℕ) (e : Evidence F) (active : Option RunState)
        (st : Stores u.fl u.ps u.sort u.hs)
        → Kept st
        → Kept (check u.fl u.ps u.sort u.hs now later e u.catalog active st).0
    unfolding Kept check graded
    check-Kept now later e none st v = v
    check-Kept now later e (some r) st v =
        let item = item_of u.fl (u.catalog r.scenario) in
        let passed = achieved u.fl item e r && diagnosis_correct r in
        let points =
          (if not passed || item.id == "file-forensics" then 0 else total (score u.fl item e r)) in
        rewarded-Kept now points passed item r st.profile v

    respond-Kept :
        (e : Endpoint) (at : Moment u) (inputs : Inputs) (s : Runtime u)
        → Kept s.stores
        → Kept (respond u e at inputs s).0.stores
    unfolding respond check_done
    respond-Kept scenarios_page at inputs s v = v
    respond-Kept run_page at inputs s v = v
    respond-Kept runs_page at inputs s v = v
    respond-Kept profile_page at inputs s v = v
    respond-Kept export_page at inputs s v = v
    respond-Kept check_run at inputs s v =
        check-Kept at.now at.later at.evidence s.manager.active s.stores v
    respond-Kept reset_run at inputs s v = rw (reset-stores s _) v
    respond-Kept capacity at inputs s v = rw (capacity-stores (decode_json inputs.capacity) s) v
    respond-Kept phase at inputs s v = rw (phase-stores (decode_json inputs.phase) s) v
    respond-Kept intervention at inputs s v = rw (action-stores (decode_json inputs.action) s) v
    respond-Kept file_evidence at inputs s v = rw (evidence-stores (decode_json inputs.empty) s) v
    respond-Kept diagnosis at inputs s v = rw (diagnosis-stores (decode_json inputs.diagnosis) s) v
    respond-Kept alert at inputs s v = rw (alert-stores at (decode_json inputs.expression) s) v
    respond-Kept (start_run id) at inputs s v = rw (start-stores s _) v
    respond-Kept hint at inputs s v = rw (hint-stores s _) v
    respond-Kept unknown at inputs s v = v

    pub handle_runtime-Kept :
        (method : Method) (path : String) (at : Moment u) (inputs : Inputs) (s : Runtime u)
        → Inv s.stores.profile.profile
        → Inv (handle_runtime u method path at inputs s).0.stores.profile.profile
    unfolding handle_runtime Kept
    handle_runtime-Kept method path at inputs s v =
        respond-Kept (endpoint method (trim_prefix path "/api/")) at inputs s v
