-- ===== src/Runtime/Fleet.antt =====
-- What the runtime sends is what the services accept.
use zth_sre.Prelude.{
  leb, leb→le, ◌&&◌, ◌≢◌, ==_ne, ◌≡◌, ◌⊎◌, refl, String, true, false, ◌==◌, String_eq, arith,
  ==_refl, Bool, Bool-cases, inl, inr, ◌||◌,
}
use zth_sre.Prelude.Map.{get, lookup}
use zth_sre.Demo.{Settings, healthy, max_cpu_work, max_failure_every}
use zth_sre.Demo.Admin.{InBounds}
use zth_sre.Traffic.{valid_run_id, valid_request, profiles}
use zth_sre.Runtime.State.{RunState, traffic_profiles}
use zth_sre.Runtime.Control.{
  api_state, dependency_state, backends_for, api_incident, dependency_incident,
}

-- A test for the bounds, by which a constant setting is seen to be within them.
abbrev in_bounds : Settings → Bool
in_bounds c =
    leb c.cpu_work max_cpu_work
    && (leb c.failure_every max_failure_every
        && (leb c.latency_ms 10000
            && (leb c.dependency_failure_every max_failure_every
                && (leb c.retries 10 && (leb c.max_concurrency 1000 && leb c.memory_mb 1024)))))

and_left : (a b : Bool) → (a && b) ≡ true → a ≡ true
and_left true b h = refl
and_left false b h = h

and_right : (a b : Bool) → (a && b) ≡ true → b ≡ true
and_right true b h = h
and_right false b h = cc

in_bounds-InBounds : (c : Settings) → in_bounds c ≡ true → InBounds c
in_bounds-InBounds c h =
    let h1 = and_right _ _ h in
    let h2 = and_right _ _ h1 in
    let h3 = and_right _ _ h2 in
    let h4 = and_right _ _ h3 in
    let h5 = and_right _ _ h4 in
    record {
      cpu_work = leb→le _ _ (and_left _ _ h);
      failure_every = leb→le _ _ (and_left _ _ h1);
      latency_ms = leb→le _ _ (and_left _ _ h2);
      dependency_failure_every = leb→le _ _ (and_left _ _ h3);
      retries = leb→le _ _ (and_left _ _ h4);
      max_concurrency = leb→le _ _ (and_left _ _ h5);
      memory_mb = leb→le _ _ (and_right _ _ h5);
    }

healthy-InBounds : InBounds healthy
healthy-InBounds = in_bounds-InBounds healthy refl

api_incident-InBounds : (scenario : String) → InBounds (api_incident scenario)
unfolding api_incident
api_incident-InBounds scenario =
    elim (Bool-cases (
      scenario == "cpu-saturation"
      || (scenario == "vertical-horizontal" || scenario == "autoscaler-oscillation"))) [
        | inl h ↦ rw h (in_bounds-InBounds _ refl)
        | inr h ↦ rw h (elim (Bool-cases (scenario == "useful-alerts")) [
          | inl h ↦ rw h (in_bounds-InBounds _ refl)
          | inr h ↦ rw h (elim (Bool-cases (scenario == "connection-pool")) [
            | inl h ↦ rw h (in_bounds-InBounds _ refl)
            | inr h ↦ rw h (elim (Bool-cases (scenario == "retry-storm")) [
              | inl h ↦ rw h (in_bounds-InBounds _ refl)
              | inr h ↦ rw h (elim (Bool-cases (scenario == "memory-leak")) [
                | inl h ↦ rw h (in_bounds-InBounds _ refl)
                | inr h ↦ rw h (elim (Bool-cases (scenario == "slo-burn-rate")) [
                  | inl h ↦ rw h (in_bounds-InBounds _ refl)
                  | inr h ↦ rw h (healthy-InBounds)
                ])
              ])
            ])
          ])
        ])
      ]

dependency_incident-InBounds : (scenario : String) → InBounds (dependency_incident scenario)
unfolding dependency_incident
dependency_incident-InBounds scenario =
    elim (Bool-cases (scenario == "dependency-bottleneck" || scenario == "latency-slo")) [
      | inl h ↦ rw h (in_bounds-InBounds _ refl)
      | inr h ↦ rw h (elim (Bool-cases (scenario == "dns-failure")) [
        | inl h ↦ rw h (in_bounds-InBounds _ refl)
        | inr h ↦ rw h (elim (Bool-cases (scenario == "retry-storm")) [
          | inl h ↦ rw h (in_bounds-InBounds _ refl)
          | inr h ↦ rw h (healthy-InBounds)
        ])
      ])
    ]

api_state-InBounds : (phase scenario : String) → InBounds (api_state phase scenario)
unfolding api_state
api_state-InBounds phase scenario = elim (Bool-cases (phase == "incident")) [
  | inl h ↦ rw h (api_incident-InBounds scenario)
  | inr h ↦ rw h healthy-InBounds
]

dependency_state-InBounds : (phase scenario : String) → InBounds (dependency_state phase scenario)
unfolding dependency_state
dependency_state-InBounds phase scenario = elim (Bool-cases (phase == "incident")) [
  | inl h ↦ rw h (dependency_incident-InBounds scenario)
  | inr h ↦ rw h healthy-InBounds
]

-- Whatever the phase and the scenario, the settings that `applyState` sends to the API and to the
-- dependency are within the bounds that these check, and the balancer is sent one or two backends.
pub states_accepted :
    (phase scenario : String)
    → InBounds (api_state phase scenario)
      × InBounds (dependency_state phase scenario)
      × ((backends_for scenario ≡ 1) ⊎ (backends_for scenario ≡ 2))
unfolding backends_for
states_accepted phase scenario =
    (api_state-InBounds phase scenario, dependency_state-InBounds phase scenario, ground arith)

tables_agree :
    (scenario : String)
    → ("alerting" == scenario) ≡ false
    → lookup scenario profiles ≡ lookup scenario traffic_profiles
unfolding profiles traffic_profiles lookup
tables_agree scenario h = rw h refl

-- The request that `startTraffic` makes for a run passes the validation of the traffic controller,
-- where the run's id fits its pattern and its scenario is not "alerting", which only the controller's
-- table has.
pub traffic_accepted :
    (r : RunState)
    → valid_run_id r.id ≡ true
    → "alerting" ≢ r.scenario
    → valid_request (record {
      run_id = r.id;
      scenario = r.scenario;
      profile = get "" r.scenario traffic_profiles;
    })
      ≡ true
unfolding valid_request
traffic_accepted r v a =
    let same = tables_agree r.scenario (==_ne "alerting" r.scenario a) in
    rw (v, same) (==_refl (get "" r.scenario traffic_profiles))
