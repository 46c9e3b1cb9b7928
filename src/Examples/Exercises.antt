-- ===== src/Examples/Exercises.antt =====
-- Runs of the exercise runtime.
use zth_sre.Prelude.{
  ℕ, ◌+◌, ◌-◌, ◌*◌, ◌≡◌, refl, String, String_eq, Bool, true, false, Option, none, some, List, [],
  ◌∷◌, if◌then◌else◌, ◌==◌, leb,
}
use zth_sre.Prelude.Int.{pos}
use zth_sre.Prelude.Map.{lookup}
use zth_sre.Files.{Storage}
use zth_sre.Progression
use zth_sre.History
use zth_sre.Runtime.State.{
  RunState, Exercise, new_run, diagnosed, diagnosis_correct, expected_diagnoses,
}
use zth_sre.Runtime.Control.{Request}
use zth_sre.Runtime.Operations.{
  Manager, set_capacity, intervene, set_phase, set_alert, mark_file_evidence,
}
use zth_sre.Runtime.Invariant.{Call, starts, diagnoses, reveals, intervenes, run, run-Inv}
use zth_sre.Runtime.WellFormed.{ActiveInv}
use zth_sre.Runtime.Gating.{mitigations_gated}
use zth_sre.Runtime.Solutions.{solution}
use zth_sre.Runtime.Grading.{Floats, Evidence, item_of, achieved, Stores, check_run}
use zth_sre.Runtime.Outcome.{passed_lem}
use zth_sre.Examples.Tools.{holding, memory_disk}

abbrev pub exercise : Exercise ℕ
exercise = record {
  id = "latency-slo";
  hints = "Look at the histogram." ∷ [];
  availability = 99;
  p95_latency_ms = 250;
  minimum_requests = 100;
}

abbrev pub catalog : String → Option (Exercise ℕ)
catalog id = if id == "latency-slo" then some exercise else none

-- Every request succeeds, and the world counts them.
abbrev pub send : Request → ℕ → ℕ × Bool
send request n = (n + 1, true)

abbrev pub idle : Manager ℕ
idle = record { active = none; evaluations = []; world = 0 }

abbrev calls : List (Call send catalog false)
calls =
    starts "latency-slo" "run-1" 1
    ∷ reveals
    ∷ diagnoses "latency" "The p95 is above the objective." refl
    ∷ intervenes "latency-budget"
    ∷ []

run-Inv_example : ActiveInv catalog (run send catalog false idle calls).active
run-Inv_example = run-Inv send catalog false idle calls tt

abbrev undiagnosed : Manager ℕ
undiagnosed = record {
  active = some (new_run "run-1" "latency-slo" 1);
  evaluations = [];
  world = 0;
}

mitigations_gated_example :
    (intervene send catalog false "latency-budget" undiagnosed ≡ (undiagnosed, false))
    × (set_capacity send catalog false (pos 2) undiagnosed ≡ (undiagnosed, false))
    × (set_phase send catalog false "recovery" undiagnosed ≡ (undiagnosed, false))
    × (set_alert send catalog false true true "up == 0" undiagnosed ≡ (undiagnosed, false))
    × (mark_file_evidence send catalog false undiagnosed ≡ (undiagnosed, false))
unfolding diagnosed
mitigations_gated_example =
    mitigations_gated send catalog false "latency-budget" "up == 0" (pos 2) true true undiagnosed
      (new_run "run-1" "latency-slo" 1) refl refl

abbrev pub numbers : Floats ℕ
numbers = record { zero = 0; of_ℕ = λ n. n; at_least = λ a b. leb b a; at_most = leb }

abbrev pub evidence : Evidence ℕ
evidence = record { availability = 100; p95 = 200; requests = 500 }

abbrev pub solved : RunState
solved = record (new_run "run-1" "latency-slo" 1) {
  state = "running";
  phase = "recovery";
  revealed_hints = 0 ∷ [];
  recovery_seen = true;
  interventions = "latency-budget" ∷ [];
  diagnosis = "latency";
}

abbrev pub same_texts : List String → List String
same_texts xs = xs

abbrev pub profiles : Storage Progression.Profile
profiles = memory_disk Progression.Profile

abbrev pub history : Storage (List (History.Record ℕ))
history = memory_disk (List (History.Record ℕ))

abbrev pub stores : Stores numbers profiles same_texts history
stores = record {
  profile = record { disk = holding none false; profile = Progression.no_profile };
  history = record { disk = holding none false; records = [] };
}

passed_lem_example :
    (diagnosis_correct solved ≡ true)
    × ((check_run numbers profiles same_texts history 5 6 evidence
          (some exercise)
          solved
          stores).1.score
        ≡ 75 + (25 - 5 * 1))
unfolding item_of check_run achieved solution diagnosis_correct expected_diagnoses lookup
passed_lem_example =
    passed_lem numbers profiles same_texts history 5 6 evidence (some exercise) solved stores refl
      refl
