-- ===== src/Runtime/Api/Learner/Earned.antt =====
-- Which requests to the runtime add to the learner's profile.
use zth_sre.Prelude.{
  ℕ, ◌≡◌, refl, ◌⊎◌, inl, inr, String, String_eq, Bool, true, false, ◌&&◌, ◌||◌, not, Option, none,
  some, ◌==◌, Bool-cases, if◌then◌else◌, eq_iff, arith, if_elim,
}
use zth_sre.Prelude.Strings.{trim_prefix}
use zth_sre.Http.{Method, is_post}
use zth_sre.Progression
use zth_sre.Runtime.State.{RunState, Exercise, diagnosis_correct}
use zth_sre.Runtime.Grading.{
  Evidence, Stores, check, check_run as graded, rewarded, item_of, achieved, total, score,
}
use zth_sre.Runtime.Api.{
  Inputs, Endpoint, scenarios_page, run_page, runs_page, profile_page, export_page, check_run,
  reset_run, capacity, phase, intervention, file_evidence, diagnosis, alert, start_run, hint,
  unknown, command, endpoint, decode_json, Runtime, Setup, Moment, check_done, respond,
  handle_runtime,
}
use zth_sre.Runtime.Api.Learner.{
  capacity-stores, phase-stores, action-stores, evidence-stores, diagnosis-stores, alert-stores,
  reset-stores, start-stores, hint-stores,
}

abbrev is_check : Endpoint → Bool
is_check check_run = true
is_check _ = false

apart : (x : Endpoint) → is_check x ≡ false → x ≡ check_run → ⊥
apart x h e = let k : is_check check_run ≡ false = rw e at h in cc

-- A condition that leads command-check_run.
other :
    (test : Bool) (x : Endpoint) {y : Endpoint}
    → is_check x ≡ false
    → (if test then x else y) ≡ check_run
    → y ≡ check_run
other true x h e = absurd (apart x h e)
other false x h e = e

command-check_run :
    (method : Method) (path : String)
    → (command method path ≡ check_run)
    → (is_post method ≡ true) × (path ≡ "run/check")
unfolding command
command-check_run method path h0 =
    if_elim (path == "run/check" && is_post method) h0
      (λ k e. (ground (arith, k), (eq_iff path "run/check").0 (ground (arith, k))))
      (λ k h1.
        let h2 = other _ reset_run refl h1 in
        let h3 = other _ capacity refl h2 in
        let h4 = other _ phase refl h3 in
        let h5 = other _ intervention refl h4 in
        let h6 = other _ file_evidence refl h5 in
        let h7 = other _ diagnosis refl h6 in
        let h8 = other _ alert refl h7 in
        let h9 = other _ (start_run _) refl h8 in
        let last = other _ hint refl h9 in absurd (apart unknown refl last))

endpoint-check_run :
    (method : Method) (path : String)
    → endpoint method path ≡ check_run
    → (is_post method ≡ true) × (path ≡ "run/check")
unfolding endpoint
endpoint-check_run method path h0 =
    let h1 = other _ scenarios_page refl h0 in
    let h2 = other _ run_page refl h1 in
    let h3 = other _ runs_page refl h2 in
    let h4 = other _ profile_page refl h3 in
    let h5 = other _ export_page refl h4 in command-check_run method path h5

module _ {F W : Type 0} (u : Setup F W) where
  -- The active run has the expected diagnosis and meets what its exercise asks for, and its exercise is
  -- not the one on files.
  abbrev pub Achieved : Evidence F → Option RunState → Type 0
  Achieved e none = ⊥
  Achieved e (some r) =
      (diagnosis_correct r ≡ true)
      × (achieved u.fl (item_of u.fl (u.catalog r.scenario)) e r ≡ true)
      × (((item_of u.fl (u.catalog r.scenario)).id == "file-forensics") ≡ false)

  rewarded-same :
      (now points : ℕ) (passed : Bool) (item : Exercise F) (r : RunState)
      (st : Progression.Store (u.ps.Disk))
      → (passed && not (item.id == "file-forensics")) ≡ false
      → (rewarded u.fl u.ps u.sort u.hs now passed points item r st).0 ≡ st
  unfolding rewarded
  rewarded-same now points passed item r st h = rw h refl

  check-Achieved :
      (now later : ℕ) (e : Evidence F) (active : Option RunState)
      (st : Stores u.fl u.ps u.sort u.hs)
      → ((check u.fl u.ps u.sort u.hs now later e u.catalog active st).0.profile ≡ st.profile)
        ⊎ Achieved e active
  unfolding check graded
  check-Achieved now later e none st = inl refl
  check-Achieved now later e (some r) st =
      let item = item_of u.fl (u.catalog r.scenario) in
      let passed = achieved u.fl item e r && diagnosis_correct r in
      let points =
        (if not passed || item.id == "file-forensics" then 0 else total (score u.fl item e r)) in
      elim (Bool-cases (passed && not (item.id == "file-forensics"))) [
        | inr bad ↦ inl (rewarded-same now points passed item r st.profile bad)
        | inl good ↦ inr (ground (arith, good), ground (arith, good), ground (arith, good))
      ]

  -- The profile in memory and on disk stays, or the endpoint is the check of an achieved run.
  abbrev Earned : Endpoint → Evidence F → Runtime u → Runtime u → Type 0
  Earned e evidence s next =
      (next.stores.profile ≡ s.stores.profile)
      ⊎ ((e ≡ check_run) × Achieved evidence s.manager.active)

  respond-Earned :
      (e : Endpoint) (at : Moment u) (inputs : Inputs) (s : Runtime u)
      → Earned e at.evidence s (respond u e at inputs s).0
  unfolding respond check_done
  respond-Earned scenarios_page at inputs s = inl refl
  respond-Earned run_page at inputs s = inl refl
  respond-Earned runs_page at inputs s = inl refl
  respond-Earned profile_page at inputs s = inl refl
  respond-Earned export_page at inputs s = inl refl
  respond-Earned check_run at inputs s =
      elim (check-Achieved at.now at.later at.evidence s.manager.active s.stores) [
        | inl same ↦ inl same
        | inr done ↦ inr (refl, done)
      ]
  respond-Earned reset_run at inputs s = inl (rw (reset-stores u s _) refl)
  respond-Earned capacity at inputs s =
      inl (rw (capacity-stores u (decode_json inputs.capacity) s) refl)
  respond-Earned phase at inputs s = inl (rw (phase-stores u (decode_json inputs.phase) s) refl)
  respond-Earned intervention at inputs s =
      inl (rw (action-stores u (decode_json inputs.action) s) refl)
  respond-Earned file_evidence at inputs s =
      inl (rw (evidence-stores u (decode_json inputs.empty) s) refl)
  respond-Earned diagnosis at inputs s =
      inl (rw (diagnosis-stores u (decode_json inputs.diagnosis) s) refl)
  respond-Earned alert at inputs s =
      inl (rw (alert-stores u at (decode_json inputs.expression) s) refl)
  respond-Earned (start_run id) at inputs s = inl (rw (start-stores u s _) refl)
  respond-Earned hint at inputs s = inl (rw (hint-stores u s _) refl)
  respond-Earned unknown at inputs s = inl refl

  -- No request to the runtime changes the learner's profile, in memory or on disk, but a POST of
  -- run/check, and that only while the active run has the expected diagnosis on record and meets what
  -- its exercise asks for, and its exercise is not the one on files.
  pub handle_runtime-Earned :
      (method : Method) (path : String) (at : Moment u) (inputs : Inputs) (s : Runtime u)
      → ((handle_runtime u method path at inputs s).0.stores.profile ≡ s.stores.profile)
        ⊎ ((is_post method ≡ true)
            × (trim_prefix path "/api/" ≡ "run/check")
            × Achieved at.evidence s.manager.active)
  unfolding handle_runtime
  handle_runtime-Earned method path at inputs s =
      elim (respond-Earned (endpoint method (trim_prefix path "/api/")) at inputs s) [
        | inl same ↦ inl same
        | inr (e, done) ↦
            let (post, there) = endpoint-check_run method (trim_prefix path "/api/") e in
            inr (post, there, done)
      ]
