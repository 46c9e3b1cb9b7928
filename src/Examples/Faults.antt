-- ===== src/Examples/Faults.antt =====
-- Runs of the demo service with its fault controls.
use zth_sre.Prelude.{ℕ, zero, refl, Bool, false, [], ◌∷◌, elem, ℕ_eq}
use zth_sre.Demo.{Service, Settings, api, healthy}
use zth_sre.Demo.Dependency.{
  Attempt, unreachable, replied, call_dependency, Decided, call_dependency-Decided,
}
use zth_sre.Demo.Limits.{Flight, arrive, here, next, idle, raise, Counted, Reach, Reach-Counted}

abbrev limited : Settings
limited = record healthy { max_concurrency = 1 }

abbrev pub service : Service
service = record {
  role = api;
  settings = healthy;
  gauges = record {
    cpu_work_metric = 0;
    failure_every_metric = 0;
    latency_metric = 0;
    concurrency_metric = 0;
    memory_metric = 0;
  };
  leak = [];
  request_seq = 0;
  active_count = 0;
}

-- The context is done from round 1500 on.
abbrev cancelled : ℕ → Bool
cancelled i = elem i (2048 ∷ 3072 ∷ [])

abbrev attempts : ℕ → Attempt
attempts zero = unreachable
attempts _ = replied 200 "dependency" false

call_dependency-Decided_example : Decided attempts 0 2 (call_dependency attempts 2)
call_dependency-Decided_example = call_dependency-Decided attempts 2

abbrev two_arrived : Flight
two_arrived = record { service = raise (raise service); arrived = 2; passed = 0; leaving = 0 }

two_arrived-Reach : Reach limited (idle service) two_arrived
two_arrived-Reach = next (next here (arrive refl)) (arrive refl)

Reach-Counted_example : Counted limited two_arrived
Reach-Counted_example = Reach-Counted limited service refl two_arrived-Reach
