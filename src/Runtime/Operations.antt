-- ===== src/Runtime/Operations.antt =====
-- The methods of `runtimeManager` that change a run. Each holds the manager's mutex from its first
-- line to its last, so each is one step. `catalog` is `byID`, `new_id` the result of `newRunID`,
-- `now` of time.Now, and `accepted` whether Prometheus accepts an expression.
use zth_sre.Prelude.{
  ℕ, String, len, Bool, true, false, ◌&&◌, ◌||◌, not, Option, none, some, List, [], ◌∷◌, ◌++◌,
  if◌then◌else◌, ◌==◌, String_eq, ℕ_eq, ltb, length,
}
use zth_sre.Prelude.Int.{ℤ, pos, negsuc}
use zth_sre.Prelude.Map.{get, lookup}
use zth_sre.Runtime.State.{
  RunState, Exercise, new_run, is_alert, is_some, diagnosed, expected_diagnoses, allowed,
}
use zth_sre.Runtime.Control.{Request, put_balancer, stop_traffic, apply_state, start_run_traffic}

-- A goroutine of `scheduleAlertEvaluation`: its run and phase, and the rounds that it has left.
pub record Evaluation : Type 0 where
  pub run_id : String
  pub phase : String
  pub left : ℕ

-- The manager, the evaluations under way, and the world that its requests act on.
pub record Manager (W : Type 0) : Type 0 where
  pub active : Option RunState
  pub evaluations : List Evaluation
  pub world : W

abbrev pub intervened : String → RunState → RunState
intervened action r = record r {
  phase = "recovery";
  recovery_seen = true;
  interventions = r.interventions ++ action ∷ [];
}

-- The writes of `setPhase` after the phase was applied.
abbrev pub phased : String → RunState → RunState
phased phase r = record r {
  phase = phase;
  incident_seen = phase == "incident" || r.incident_seen;
  recovery_seen = phase == "recovery" || r.recovery_seen;
  interventions =
      if phase == "recovery" && is_alert r.scenario
      then r.interventions ++ "alert-recovery" ∷ []
      else r.interventions;
}

abbrev pub hints_of : {F : Type 0} → Option (Exercise F) → List String
hints_of none = []
hints_of (some item) = item.hints

-- `scheduleAlertEvaluation` starts a goroutine of twelve rounds.
abbrev pub scheduled : String → String → List Evaluation → List Evaluation
scheduled run_id phase evaluations =
    record { run_id = run_id; phase = phase; left = 12 } ∷ evaluations

abbrev pub judged : String → Bool → RunState → RunState
judged phase fired r =
    if phase == "incident"
    then record r { alert_fired = fired }
    else if phase == "recovery"
    then record r { alert_cleared = not fired }
    else record r { alert_baseline = fired; alert_baseline_observed = true }

module _ {F W : Type 0} (send : Request → W → W × Bool) (catalog : String → Option (Exercise F))
    (policy : Bool) where
  -- The last step of `start`, after the run's traffic was asked for.
  unfoldable pub started : RunState → Manager W → W × Bool → Manager W × Option RunState
  started r m (w, true) = (
    record m { active = some (record r { state = "running" }); world = w },
    some (record r { state = "running" }),
  )
  started r m (w, false) =
      (record m { active = none; world = (apply_state send policy "baseline" (some r) w).0 }, none)

  -- The incident of an exercise without an alert is applied before the traffic starts.
  unfoldable pub with_incident : RunState → Manager W → Manager W × Option RunState
  unfolding started
  with_incident r m =
      let (w, ok) =
        (if is_alert r.scenario
          then (m.world, true)
          else apply_state send policy "incident" (some r) m.world) in
      if ok
      then started r m (start_run_traffic send r w)
      else (record m { active = none; world = w }, none)

  unfoldable pub start_found :
      Option (Exercise F) → String → ℕ → Manager W → Manager W × Option RunState
  unfolding with_incident
  start_found none new_id now m = (m, none)
  start_found (some item) new_id now m =
      let (w1, stopped) = send stop_traffic m.world in
      let (w2, baseline) = apply_state send policy "baseline" none w1 in
      if not stopped
      then (record m { world = w1 }, none)
      else if not baseline
      then (record m { world = w2 }, none)
      else with_incident (new_run new_id item.id now) (record m { world = w2 })

  start_idle : Option RunState → String → String → ℕ → Manager W → Manager W × Option RunState
  unfolding start_found
  start_idle (some r) id new_id now m = (m, none)
  start_idle none id new_id now m = start_found (catalog id) new_id now m

  -- `start`: the run as it was started, none for an error.
  unfoldable pub start : String → String → ℕ → Manager W → Manager W × Option RunState
  unfolding start_idle
  start id new_id now m = start_idle m.active id new_id now m

  -- `reset`, and so on below: whether the error is nil.
  unfoldable pub reset : Manager W → Manager W × Bool
  reset m =
      let (w1, stopped) = send stop_traffic m.world in
      let (w2, baseline) = apply_state send policy "baseline" m.active w1 in
      if not stopped
      then (record m { world = w1 }, false)
      else if not baseline
      then (record m { world = w2 }, false)
      else (record m { active = none; world = w2 }, true)

  capacity_set : ℕ → RunState → Manager W → W × Bool → Manager W × Bool
  capacity_set backends r m (w, false) = (record m { world = w }, false)
  capacity_set backends r m (w, true) = (
    record m {
      active = some (if backends == 2 then intervened "horizontal-capacity" r else r);
      world = w;
    },
    true,
  )

  capacity_on : ℤ → Option RunState → Manager W → Manager W × Bool
  unfolding capacity_set
  capacity_on backends none m = (m, false)
  capacity_on (negsuc n) (some r) m = (m, false)
  capacity_on (pos n) (some r) m =
      let done = capacity_set n r m (send (put_balancer n) m.world) in
      if not (r.scenario == "cpu-saturation") && not (r.scenario == "vertical-horizontal")
      then (m, false)
      else if not (diagnosed r)
      then (m, false)
      else if not (n == 1) && not (n == 2)
      then (m, false)
      else done

  unfoldable pub set_capacity : ℤ → Manager W → Manager W × Bool
  unfolding capacity_on
  set_capacity backends m = capacity_on backends m.active m

  intervene_on : String → Option RunState → Manager W → Manager W × Bool
  intervene_on action none m = (m, false)
  intervene_on action (some r) m =
      let (w, ok) = apply_state send policy "recovery" (some r) m.world in
      if not (diagnosed r)
      then (m, false)
      else if not (get "" action allowed == r.scenario)
      then (m, false)
      else if not ok
      then (record m { world = w }, false)
      else (record m { active = some (intervened action r); world = w }, true)

  unfoldable pub intervene : String → Manager W → Manager W × Bool
  unfolding intervene_on
  intervene action m = intervene_on action m.active m

  phase_on : String → Option RunState → Manager W → Manager W × Bool
  phase_on phase none m = (m, false)
  phase_on phase (some r) m =
      let (w, ok) = apply_state send policy phase (some r) m.world in
      if phase == "recovery" && not (diagnosed r)
      then (m, false)
      else if not (phase == "baseline") && (not (phase == "incident") && not (phase == "recovery"))
      then (m, false)
      else if not ok
      then (record m { world = w }, false)
      else (
        record {
          active = some (phased phase r);
          evaluations =
              if phase == "incident" || phase == "recovery"
              then scheduled r.id phase m.evaluations
              else m.evaluations;
          world = w;
        },
        true,
      )

  unfoldable pub set_phase : String → Manager W → Manager W × Bool
  unfolding phase_on
  set_phase phase m = phase_on phase m.active m

  diagnosis_on : String → String → Option RunState → Manager W → Manager W × Bool
  diagnosis_on diagnosis note none m = (m, false)
  diagnosis_on diagnosis note (some r) m =
      if not (is_some (lookup r.scenario expected_diagnoses))
        || (ltb (len note) 10 || ltb 2000 (len note))
      then (m, false)
      else (
        record m { active = some (record r { diagnosis = diagnosis; evidence_note = note }) },
        true,
      )

  unfoldable pub set_diagnosis : String → String → Manager W → Manager W × Bool
  unfolding diagnosis_on
  set_diagnosis diagnosis note m = diagnosis_on diagnosis note m.active m

  hint_on : Option RunState → Manager W → Manager W × Option (List ℕ)
  hint_on none m = (m, none)
  hint_on (some r) m =
      let next = length r.revealed_hints in
      let hints =
        (if ltb next (length (hints_of (catalog r.scenario)))
          then r.revealed_hints ++ next ∷ []
          else r.revealed_hints) in
      (record m { active = some (record r { revealed_hints = hints }) }, some hints)

  -- `revealHint`: the revealed hints, none for an error.
  unfoldable pub reveal_hint : Manager W → Manager W × Option (List ℕ)
  unfolding hint_on
  reveal_hint m = hint_on m.active m

  -- `accepted` is whether Prometheus answers the expression without an error, and `plain` whether it
  -- has none of the characters of ";\n\r".
  alert_on : Bool → Bool → String → Option RunState → Manager W → Manager W × Bool
  alert_on accepted plain expression none m = (m, false)
  alert_on accepted plain expression (some r) m =
      if not (is_alert r.scenario)
      then (m, false)
      else if not (diagnosed r)
      then (m, false)
      else if len expression == 0 || (ltb 500 (len expression) || not plain)
      then (m, false)
      else if not accepted
      then (m, false)
      else (
        record m {
          active = some (record r { alert_expression = expression });
          evaluations =
              if r.phase == "baseline"
              then scheduled r.id "baseline" m.evaluations
              else m.evaluations;
        },
        true,
      )

  unfoldable pub set_alert : Bool → Bool → String → Manager W → Manager W × Bool
  unfolding alert_on
  set_alert accepted plain expression m = alert_on accepted plain expression m.active m

  evidence_on : Option RunState → Manager W → Manager W × Bool
  evidence_on none m = (m, false)
  evidence_on (some r) m =
      if not (r.scenario == "file-forensics")
      then (m, false)
      else if not (diagnosed r)
      then (m, false)
      else (record m { active = some (record r { file_evidence_seen = true }) }, true)

  unfoldable pub mark_file_evidence : Manager W → Manager W × Bool
  unfolding evidence_on
  mark_file_evidence m = evidence_on m.active m

-- The first critical section of a round of an evaluation: the expression, none where it returns.
look_on : Evaluation → Option RunState → Option String
look_on e none = none
look_on e (some r) =
    if not (r.id == e.run_id) || (not (r.phase == e.phase) || r.alert_expression == "")
    then none
    else some r.alert_expression

module _ {W : Type 0} where
  unfoldable pub look : Evaluation → Manager W → Option String
  unfolding look_on
  look e m = look_on e m.active

  judge_on : Evaluation → Bool → Option RunState → Manager W → Manager W
  judge_on e fired none m = m
  judge_on e fired (some r) m =
      if not (r.id == e.run_id) || not (r.phase == e.phase)
      then m
      else record m { active = some (judged e.phase fired r) }

  -- The second critical section: the result of the query is recorded.
  unfoldable pub judge : Evaluation → Bool → Manager W → Manager W
  unfolding judge_on
  judge e fired m = judge_on e fired m.active m
