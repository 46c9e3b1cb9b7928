-- ===== src/Examples/Outages.antt =====
-- The runtime while Prometheus does not answer, and what it asks of a Prometheus that does.
use zth_sre.Prelude.{
  if◌then◌else◌, String_eq, ℕ, ◌+◌, ◌*◌, ◌≡◌, refl, String, true, false, not, Option, none, some,
  [], ◌∷◌, ltb, ℕ_eq, ◌==◌,
}
use Prim.Native.String.{◌++◌}
use zth_sre.Prelude.Strings.{replace_all}
use zth_sre.Runtime.State.{RunState, new_run}
use zth_sre.Runtime.Grading.{check_run, item_of}
use zth_sre.Runtime.Operations.{judged}
use zth_sre.Runtime.Evidence.{Prometheus, Response, query, service_evidence, evaluate_alert, scoped}
use zth_sre.Runtime.Evidence.Outage.{blind_lem, quiet_lem}
use zth_sre.Examples.Exercises.{exercise, numbers, same_texts, profiles, history, stores}

-- The world counts the queries; each is answered by `reply`.
abbrev replying : Option (Response String) → Prometheus ℕ ℕ String
replying reply = record {
  fl = numbers;
  ask = λ expression n. (n + 1, reply);
  text = λ v. some v;
  parse_float = λ raw. if raw == "7" then (7, true) else (0, false);
  quote = λ s. "\"" ++ s ++ "\"";
  positive = λ n. ltb 0 n;
  nonzero = λ n. not (n == 0);
  div = λ a b. 1;
  thousandfold = λ n. 1000 * n;
}

abbrev refused : Option (Response String)
refused = some (record { status = 503; body = none })

abbrev seven : Option (Response String)
seven = some (record { status = 200; body = some ("success", ("1.5" ∷ "7" ∷ []) ∷ []) })

seven_test :
    service_evidence (replying seven) "run-1" 0
    ≡ (3, record { availability = 1; p95 = 7000; requests = 7 })
unfolding service_evidence query
seven_test = refl

fired_test : evaluate_alert (replying seven) "up == 0" "run-1" 0 ≡ (1, true)
unfolding evaluate_alert query
fired_test = refl

scoped_test :
    scoped (replying seven) "rate(sre_lab_http_requests_total{code=\"500\"}[1m]) > 0" "run-1"
    ≡ "rate(sre_lab_http_requests_total{run_id=\"run-1\",code=\"500\"}[1m]) > 0"
unfolding scoped replace_all
scoped_test = refl

abbrev watched : RunState
watched = record (new_run "run-1" "latency-slo" 1) {
  phase = "recovery";
  recovery_seen = true;
  interventions = "latency-budget" ∷ [];
}

blind_lem_example :
    ((check_run numbers profiles same_texts history 5 6
        (service_evidence (replying refused) "run-1" 0).1
        (some exercise)
        watched
        stores).1.passed
      ≡ false)
    × ((check_run numbers profiles same_texts history 5 6
          (service_evidence (replying refused) "run-1" 0).1
          (some exercise)
          watched
          stores).0.profile
        ≡ stores.profile)
unfolding item_of
blind_lem_example =
    blind_lem (replying refused) profiles same_texts history 5 6 99 (some exercise) watched stores 0
      (λ expression n. refl) refl refl refl refl

quiet_lem_example :
    let fired = (evaluate_alert (replying refused) "up == 0" "run-1" 0).1 in
    ((judged "baseline" fired watched).alert_baseline_observed ≡ true)
    × ((judged "baseline" fired watched).alert_baseline ≡ false)
    × ((judged "incident" fired watched).alert_fired ≡ false)
    × ((judged "recovery" fired watched).alert_cleared ≡ true)
quiet_lem_example = quiet_lem (replying refused) "up == 0" "run-1" 0 watched (λ expression n. refl)
