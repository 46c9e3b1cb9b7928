-- ===== src/Runtime/Evidence/Outage.antt =====
-- What the runtime concludes while Prometheus does not answer its queries.
use zth_sre.Prelude.{
  ℕ, suc, String, true, false, ◌≡◌, refl, Option, List, ◌==◌, String_eq, arith, Option-cases, inl,
  inr,
}
use zth_sre.Prelude.Map.{lookup}
use zth_sre.Files.{Storage}
use zth_sre.Progression
use zth_sre.History
use zth_sre.Runtime.State.{RunState, Exercise, is_alert}
use zth_sre.Runtime.Operations.{judged}
use zth_sre.Runtime.Solutions.{solution}
use zth_sre.Runtime.Grading.{Evidence, item_of, achieved, Stores, check_run}
use zth_sre.Runtime.Outcome.{failed_lem}
use zth_sre.Runtime.Evidence.{
  Prometheus, is_usable, good_requests, all_requests, scoped, query, service_evidence,
  evaluate_alert,
}

module _ {F W V : Type 0} (p : Prometheus F W V) where
  -- No query succeeds.
  abbrev pub Down : Type 0
  Down = (expression : String) (w : W) → is_usable (p.ask expression w).1 ≡ false

  query-Down :
      (expression : String) (w : W)
      → Down
      → ((query p expression w).1 ≡ p.fl.zero) × ((query p expression w).2 ≡ false)
  unfolding query
  query-Down expression w down = rw (down expression w) (refl, refl)

  evidence-Down :
      (run_id : String) (w : W) → Down → (service_evidence p run_id w).1.requests ≡ p.fl.zero
  unfolding service_evidence
  evidence-Down run_id w down =
      (query-Down (all_requests p run_id) (query p (good_requests p run_id) w).0 down).0

  missed :
      (item : Exercise F) (e : Evidence F) (r : RunState)
      → p.fl.at_least e.requests (p.fl.of_ℕ item.minimum_requests) ≡ false
      → (r.scenario == "file-forensics") ≡ false
      → is_alert r.scenario ≡ false
      → achieved p.fl item e r ≡ false
  unfolding achieved
  missed item e r few f a = elim (Option-cases (lookup r.scenario solution)) [
    | inl k ↦ rw (f, a, k) refl
    | inr (action, k) ↦ rw (f, a, k) (ground (arith, few))
  ]

  alert-Down :
      (expression run_id : String) (w : W) → Down → (evaluate_alert p expression run_id w).1 ≡ false
  unfolding evaluate_alert
  alert-Down expression run_id w down =
      let (_, e) = query-Down (scoped p expression run_id) w down in rw e (ground arith)

  module _ (ps : Storage Progression.Profile) (sort : List String → List String)
      (hs : Storage (List (History.Record F))) where
    -- While Prometheus answers no query, no check passes of an exercise whose mitigation is judged by the
    -- evidence and that requires requests, and the learner's profile stays as it is. A positive number
    -- is above the zero of float64.
    pub blind_lem :
        (now later n : ℕ) (found : Option (Exercise F)) (r : RunState) (st : Stores p.fl ps sort hs)
        (w : W)
        → Down
        → p.fl.at_least p.fl.zero (p.fl.of_ℕ (suc n)) ≡ false
        → (item_of p.fl found).minimum_requests ≡ suc n
        → (r.scenario == "file-forensics") ≡ false
        → is_alert r.scenario ≡ false
        → let e = (service_evidence p r.id w).1 in
          ((check_run p.fl ps sort hs now later e found r st).1.passed ≡ false)
          × ((check_run p.fl ps sort hs now later e found r st).0.profile ≡ st.profile)
    unfolding check_run
    blind_lem now later n found r st w down law least f a =
        let e = (service_evidence p r.id w).1 in
        let item = item_of p.fl found in
        let few : p.fl.at_least e.requests (p.fl.of_ℕ item.minimum_requests) ≡ false =
          rw (evidence-Down r.id w down, least) law in
        let failed : (check_run p.fl ps sort hs now later e found r st).1.passed ≡ false =
          rw (missed item e r few f a) refl in
        (failed, (failed_lem p.fl ps sort hs now later e found r st failed).0)

  -- While Prometheus answers no query, an evaluation of the alert is recorded as quiet: at the baseline
  -- as an observation, in the recovery as an alert that cleared.
  pub quiet_lem :
      (expression run_id : String) (w : W) (r : RunState)
      → Down
      → let fired = (evaluate_alert p expression run_id w).1 in
        ((judged "baseline" fired r).alert_baseline_observed ≡ true)
        × ((judged "baseline" fired r).alert_baseline ≡ false)
        × ((judged "incident" fired r).alert_fired ≡ false)
        × ((judged "recovery" fired r).alert_cleared ≡ true)
  quiet_lem expression run_id w r down =
      rw (alert-Down expression run_id w down) (refl, refl, refl, refl)
