-- ===== src/Runtime/Grading.antt =====
-- The check of an outcome: `check`, `score` and `badges` of internal/server/runtime.go, with the
-- learner's profile and history that it writes. A float64 is a value of `F`, with the comparisons the
-- code makes; `evidence` is the result of `serviceEvidence`, which Evidence models. The fields of
-- the result that only repeat the run or the exercise are left out.
use zth_sre.Prelude.{
  ℕ, ◌+◌, ◌-◌, ◌*◌, String, Bool, false, ◌&&◌, ◌||◌, not, Option, none, some, List, [], ◌∷◌, ◌++◌,
  if◌then◌else◌, ◌==◌, String_eq, ℕ_eq, length,
}
use zth_sre.Prelude.Int.{pos}
use zth_sre.Prelude.Map.{get, lookup}
use zth_sre.Files.{Storage}
use zth_sre.Progression
use zth_sre.History
use zth_sre.Runtime.Solutions.{feedback_of, solution}
use zth_sre.Runtime.State.{RunState, Exercise, is_alert, diagnosis_correct, has_intervention}

pub record Floats (F : Type 0) : Type 0 where
  pub zero : F
  pub of_ℕ : ℕ → F
  -- `>=` and `<=` of float64.
  pub at_least : F → F → Bool
  pub at_most : F → F → Bool

pub record Evidence (F : Type 0) : Type 0 where
  pub availability : F
  pub p95 : F
  pub requests : F

pub record Breakdown : Type 0 where
  pub evidence : ℕ
  pub mitigation : ℕ
  pub verification : ℕ
  pub precision : ℕ

abbrev pub total : Breakdown → ℕ
total b = b.evidence + b.mitigation + b.verification + b.precision

-- The alert was quiet at the baseline, fired, and cleared.
abbrev pub alert_useful : RunState → Bool
alert_useful r =
    r.alert_baseline_observed && (not r.alert_baseline && (r.alert_fired && r.alert_cleared))

abbrev pub unearned : String → String → String → Progression.Badge
unearned id title description = record {
  id = id;
  title = title;
  description = description;
  earned_at = 0;
}

abbrev pub when {ℓ} : {A : Type ℓ} → Bool → A → List A
when b a = if b then a ∷ [] else []

unfoldable pub badges : String → RunState → List Progression.Badge
badges item_id r =
    when (diagnosis_correct r) (
      unearned "evidence-first" "Evidence First"
        "Completed a mission with an evidence-backed diagnosis before mitigation.")
    ++ (when (length r.revealed_hints == 0 && length r.interventions == 1) (
          unearned "narrow-fix" "Narrow Fix"
            "Restored service with one focused intervention and no hints.")
        ++ (when r.recovery_seen (
              unearned "clean-recovery" "Clean Recovery"
                "Verified recovery while the lab continued to observe the system.")
            ++ when (is_alert item_id) (
                unearned "signal-builder" "Signal Builder"
                  "Built an alert that was quiet at baseline, fired during impact, and cleared after recovery.")))

module _ {F : Type 0} (fl : Floats F) where
  open fl use {of_ℕ, at_least, at_most}

  -- `byID` of a scenario that it does not hold is the zero value.
  unfoldable pub item_of : Option (Exercise F) → Exercise F
  item_of none = record {
    id = "";
    hints = [];
    availability = fl.zero;
    p95_latency_ms = 0;
    minimum_requests = 0;
  }
  item_of (some item) = item

  abbrev pub objectives_met : Exercise F → Evidence F → Bool
  objectives_met item e =
      at_least e.availability item.availability
      && (at_most e.p95 (of_ℕ item.p95_latency_ms)
          && at_least e.requests (of_ℕ item.minimum_requests))

  abbrev pub mitigated : Option String → Bool → RunState → Bool
  mitigated none met r = false
  mitigated (some action) met r = has_intervention r action && (r.recovery_seen && met)

  -- `result["passed"]` after the switch.
  unfoldable pub achieved : Exercise F → Evidence F → RunState → Bool
  achieved item e r =
      if r.scenario == "file-forensics"
      then r.file_evidence_seen
      else if is_alert r.scenario
      then not (r.alert_expression == "")
        && (r.incident_seen && (r.recovery_seen && alert_useful r))
      else mitigated (lookup r.scenario solution) (objectives_met item e) r

  unfoldable pub score : Exercise F → Evidence F → RunState → Breakdown
  unfolding diagnosis_correct
  score item e r = record {
    evidence = if diagnosis_correct r then 25 else 0;
    mitigation =
        if r.file_evidence_seen || (not (length r.interventions == 0) || r.recovery_seen)
        then 25
        else 0;
    verification =
        if item.id == "file-forensics" && r.file_evidence_seen
        then 25
        else if is_alert item.id
        then if alert_useful r then 25 else 0
        else if objectives_met item e
        then 25
        else 0;
    precision = 25 - 5 * length r.revealed_hints;
  }

  pub record Result : Type 0 where
    pub passed : Bool
    pub feedback : String
    pub score : ℕ
    pub breakdown : Breakdown
    -- What `Award` returned, where it was called, and whether `Add` succeeded.
    pub award : Option Progression.Reply
    pub history_saved : Bool

  module _ (ps : Storage Progression.Profile) (sort : List String → List String)
      (hs : Storage (List (History.Record F))) where
    -- The stores that the runtime writes.
    pub record Stores : Type 0 where
      pub profile : Progression.Store ps.Disk
      pub history : History.Store hs.Disk F

    -- The award for a check that passed, and whether the profile was saved.
    unfoldable pub rewarded :
        ℕ
        → Bool
        → ℕ
        → Exercise F
        → RunState
        → Progression.Store ps.Disk
        → Progression.Store ps.Disk × Option Progression.Reply × Bool
    unfolding badges
    rewarded now passed points item r st =
        let (st1, reply) =
          Progression.award ps sort now r.id r.scenario (pos points) (badges item.id r) st in
        if passed && not (item.id == "file-forensics")
        then (st1, some reply, reply.saved)
        else (st, none, false)

    -- A check of an active run. `now` and `later` are the two readings of the clock.
    unfoldable pub check_run :
        ℕ → ℕ → Evidence F → Option (Exercise F) → RunState → Stores → Stores × Result
    unfolding rewarded
    check_run now later e found r st =
        let item = item_of found in
        let met = achieved item e r in
        let passed = met && diagnosis_correct r in
        let feedback =
          (if met && not (diagnosis_correct r)
            then "Record an evidence-backed diagnosis before checking the achieved outcome."
            else get "" r.scenario feedback_of) in
        let breakdown = score item e r in
        let points = (if not passed || item.id == "file-forensics" then 0 else total breakdown) in
        let (profile, award, saved) = rewarded now passed points item r st.profile in
        let entry : History.Record F = record {
          run_id = r.id;
          scenario = r.scenario;
          started_at = r.started_at;
          checked_at = later;
          passed = passed;
          feedback = feedback;
          availability = e.availability;
          p95_ms = e.p95;
          score = if saved then points else 0;
        } in
        let (history, kept) = History.add hs entry st.history in
        (
          record { profile = profile; history = history },
          record {
            passed = passed;
            feedback = feedback;
            score = points;
            breakdown = breakdown;
            award = award;
            history_saved = kept;
          },
        )

    -- `check`: none where no exercise is active.
    unfoldable pub check :
        ℕ
        → ℕ
        → Evidence F
        → (String → Option (Exercise F))
        → Option RunState
        → Stores
        → Stores × Option Result
    unfolding check_run
    check now later e catalog none st = (st, none)
    check now later e catalog (some r) st =
        let (st1, result) = check_run now later e (catalog r.scenario) r st in (st1, some result)
