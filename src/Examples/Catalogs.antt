-- ===== src/Examples/Catalogs.antt =====
-- A catalog of thirteen exercises.
use zth_sre.Prelude.{
  ℕ, ◌<◌, ◌≡◌, ◌↔◌, refl, String, String_eq, true, false, some, List, [], ◌∷◌, map, leb, ltb, ◌==◌,
  ℕ_eq, length, All,
}
use Prim.Native.String
use zth_sre.Prelude.Int.{pos}
use zth_sre.Prelude.Strings.{trim_suffix, ext}
use zth_sre.Scenario.{Scenario, Comparisons, Traffic, FaultConfig, required_ids, blank}
use zth_sre.Scenario.Validity.{Valid}
use zth_sre.Scenario.Catalog.{Content, Entry, end_of_file, load, yaml_paths}
use zth_sre.Scenario.Catalog.Installed.{Read, Complete, load_lem}
use zth_sre.Runtime.State.{Exercise}
use zth_sre.Runtime.Library.{by_id}
use zth_sre.Runtime.Library.Ready.{playable, load-playable}

abbrev pub numbers : Comparisons ℕ
numbers = record {
  zero = 0;
  one = 1;
  max_rate = 1000;
  at_most = leb;
  above = λ a b. ltb b a;
  same = λ a b. a == b;
}

abbrev pub constant : Traffic ℕ
constant = record {
  profile = "constant";
  rps = 10;
  duration = pos 60000000000;
  from_rps = 0;
  to_rps = 0;
  ramp_duration = pos 0;
  hold_duration = pos 0;
  baseline_rps = 0;
  peak_rps = 0;
  before = pos 0;
  spike = pos 0;
  after = pos 0;
}

abbrev pub latency : FaultConfig ℕ
latency = record {
  work_units = pos 0;
  probability = 0;
  latency_ms = pos 300;
  retries = pos 0;
  max_concurrency = pos 0;
  memory_mb = pos 0;
  failure_every = pos 0;
}

abbrev pub lesson : String → Scenario ℕ
lesson id = record {
  schema_version = pos 1;
  id = id;
  title = "T";
  difficulty = "beginner";
  description = "D";
  learning_objectives = "L" ∷ [];
  goal = "G";
  success_criteria = "A" ∷ "B" ∷ [];
  prerequisites = "P" ∷ [];
  required_tools = "R" ∷ [];
  false_hypotheses = "F" ∷ [];
  runtime = "docker";
  topology = "api-dependency";
  traffic = constant;
  faults = record { target = "dependency"; kind = "dependency_latency"; config = latency } ∷ [];
  objectives = record { availability = 1; p95_latency_ms = pos 250 };
  grading = record {
    kind = "service_recovery";
    window = pos 60000000000;
    minimum_requests = pos 100;
    minimum_offered_rps = 5;
  };
  hints = "H" ∷ [];
  diagram = record {
    nodes = record { id = "api"; label = "API"; role = "service" } ∷ [];
    edges = record { from = "api"; to = "dependency"; label = "" } ∷ [];
  };
}

abbrev pub files : String → Content ℕ
files path = record { document = some (lesson (trim_suffix path ".yaml")); rest = end_of_file }

abbrev pub lessons : List Entry
lessons =
    record { path = "notes.md"; is_dir = false }
    ∷ map (λ id. record { path = String.◌++◌ id ".yaml"; is_dir = false }) required_ids

abbrev pub catalog : List (Scenario ℕ)
catalog = map lesson required_ids

abbrev unsorted : List String → List String
unsorted xs = xs

load_lem_example : (load numbers unsorted files (some lessons) ≡ some catalog) ↔ (
    Read numbers files (yaml_paths lessons) catalog
    × All (Valid numbers) catalog
    × Complete numbers catalog)
load_lem_example = load_lem numbers unsorted files lessons catalog

thirteen_exercises : load numbers unsorted files (some lessons) ≡ some catalog
unfolding load required_ids trim_suffix ext blank
thirteen_exercises = refl

load-playable_example :
    ((item : Exercise ℕ) × (by_id catalog "dns-failure" ≡ some item)
      × (item.id ≡ "dns-failure")
      × (0 < length item.hints)
      × (0 < item.p95_latency_ms))
    × (playable "dns-failure" ≡ true)
unfolding required_ids
load-playable_example =
    load-playable numbers unsorted files lessons catalog "dns-failure" thirteen_exercises refl
