-- ===== src/Examples/Fleet.antt =====
-- Runs of the services together: the policy gateway, and the runtime with what it controls.
use zth_sre.Prelude.{
  ℕ, ◌≡◌, ◌⊎◌, refl, String, String_eq, Bool, true, false, ◌&&◌, not, some, [], ◌∷◌, if◌then◌else◌,
  ◌==◌, arith,
}
use zth_sre.Http.{Url, is_get}
use zth_sre.Policy
use zth_sre.Policy.{Request, serve, rules, iptables, failed}
use zth_sre.Policy.Denial.{updating, asking, run, last_update, is_sent, denial_lem}
use zth_sre.ApiLb
use zth_sre.Prelude.Map.{lookup}
use zth_sre.Runtime.State.{RunState, new_run, expected, diagnosis_correct, allowed}
use zth_sre.Runtime.Control as Control
use zth_sre.Runtime.Operations.{Manager, set_diagnosis, intervene}
use zth_sre.Runtime.Grading.{achieved}
use zth_sre.Runtime.Composition.{World, carry, Set, apply_state_lem}
use zth_sre.Runtime.Solvable.{solvable}
use zth_sre.Examples.Faults.{service}
use zth_sre.Examples.Exercises.{numbers, catalog, exercise, evidence}

abbrev dependency_url : Url
dependency_url = record {
  scheme = "http";
  hostname = "dependency";
  host = "dependency:8080";
  user = false;
  path = "";
  raw_path = "";
  raw_query = "";
  force_query = false;
  fragment = "";
  opaque_part = "";
}

abbrev gateway : Policy.Service
gateway = record { upstream = dependency_url; blocked = false }

abbrev request : Request
request = asking "/" (updating false)

denial_lem_example :
    (is_sent (serve request (run gateway (updating true ∷ []))).sent ≡ (
      is_get request.method
      && (request.path == "/" && (not (last_update false (updating true ∷ [])) && request.builds))))
    × ((last_update false (updating true ∷ []) ≡ false)
        ⊎ ((serve (asking "/" request) (run gateway (updating true ∷ []))).reply ≡ failed 504))
    × ((serve (asking "/rules" request) (run gateway (updating true ∷ []))).reply
        ≡ rules (if last_update false (updating true ∷ []) then "drop" else "accept"))
    × ((serve (asking "/iptables" request) (run gateway (updating true ∷ []))).reply
        ≡ iptables (if last_update false (updating true ∷ []) then "DROP" else "ACCEPT"))
denial_lem_example = denial_lem gateway (updating true ∷ []) request

abbrev traffic : Control.Request → ℕ → ℕ × Bool
traffic q n = (n, true)

-- One backend, faulty API servers, and a blocked egress.
abbrev pub fleet : World ℕ
fleet = record {
  api1 = service;
  api2 = service;
  dependency = service;
  policy = record gateway { blocked = true };
  balancer = ApiLb.init;
  traffic = 0;
}

abbrev active : RunState
active = record (new_run "run-1" "latency-slo" 1) { state = "running"; phase = "incident" }

apply_state_lem_example :
    ((Control.apply_state (carry traffic) true "incident" (some active) fleet).1 ≡ true)
    × Set traffic "incident" "latency-slo"
        (Control.apply_state (carry traffic) true "incident" (some active) fleet).0
    × ((Control.apply_state (carry traffic) true "incident" (some active) fleet).0.traffic ≡ 0)
apply_state_lem_example = apply_state_lem traffic "incident" (some active) fleet

abbrev manager : Manager (World ℕ)
manager = record { active = some active; evaluations = []; world = fleet }

abbrev note : String
note = "The p95 is above the objective."

solvable_example :
    let m1 = (set_diagnosis (carry traffic) catalog true (expected "latency-slo") note manager).0 in
    let (m2, done) = intervene (carry traffic) catalog true "latency-budget" m1 in
    (done ≡ true)
    × ((r2 : RunState) × (m2.active ≡ some r2)
        × (achieved numbers exercise evidence r2 ≡ true)
        × (diagnosis_correct r2 ≡ true))
unfolding allowed lookup
solvable_example =
    solvable numbers traffic catalog "latency-budget" note active manager exercise evidence refl
      refl (omega arith) (omega arith) refl
