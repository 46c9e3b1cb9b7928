-- ===== src/Examples/Launching.antt =====
-- A start of an exercise with everything that it starts.
use zth_sre.Prelude.{
  ℕ, ◌≡◌, ◌≢◌, refl, String, String_eq, true, false, none, some, List, [], ◌∷◌, ◌==◌, eq_iff, arith,
}
use zth_sre.Traffic.{Controller, valid_run_id, stop_run, sent}
use zth_sre.Demo.Setup.{request_run_id}
use zth_sre.Runtime.RunId.{new_run_id, new_run_id-valid}
use zth_sre.Runtime.Operations.{Manager}
use zth_sre.Runtime.Operations
use zth_sre.Runtime.Composition.{World, carry}
use zth_sre.Runtime.Launch.{Calls, control, Launched, start_lem}
use zth_sre.Examples.Exercises.{catalog, exercise}
use zth_sre.Examples.Fleet.{fleet}

abbrev bytes : List ℕ
bytes = 0 ∷ 17 ∷ 34 ∷ 51 ∷ 68 ∷ 85 ∷ 171 ∷ 255 ∷ []

new_run_id-valid_example :
    (valid_run_id (new_run_id (some bytes)) ≡ true)
    × (valid_run_id (new_run_id none) ≡ true)
    × (request_run_id (new_run_id (some bytes)) ≡ new_run_id (some bytes))
    × (request_run_id (new_run_id none) ≡ new_run_id none)
new_run_id-valid_example = new_run_id-valid bytes (omega arith)

new_run_id_test : new_run_id (some bytes) ≡ "run-001122334455abff"
unfolding new_run_id
new_run_id_test = refl

abbrev calls : Calls
calls = record {
  spawned = some 4242;
  stop = record { done_before = false; term = sent; done_in_time = true; kill = sent };
}

-- A k6 process is left from an earlier run.
abbrev left_over : World Controller
left_over = record {
  api1 = fleet.api1;
  api2 = fleet.api2;
  dependency = fleet.dependency;
  policy = fleet.policy;
  balancer = fleet.balancer;
  traffic = record {
    active = some (record {
      serial = 0;
      run_id = "run-0";
      scenario = "dns-failure";
      profile = "alert";
      pid = 4241;
    });
    closed = false;
    made = 1;
  };
}

abbrev manager : Manager (World Controller)
manager = record { active = none; evaluations = []; world = left_over }

not_alerting : ◌≢◌ {A = String} "alerting" "latency-slo"
not_alerting h =
    let a : String = "alerting" in
    let b : String = "latency-slo" in let k : (a == b) ≡ true = (eq_iff a b).1 h in cc

start_lem_example :
    Launched catalog calls "latency-slo" "run-1" 7 4242
      (Operations.start (carry (control calls)) catalog true "latency-slo" "run-1" 7 manager)
unfolding valid_run_id stop_run
start_lem_example =
    start_lem catalog calls "latency-slo" "run-1" 7 4242 exercise manager refl refl refl refl
      not_alerting refl refl refl
