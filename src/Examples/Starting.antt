-- ===== src/Examples/Starting.antt =====
-- A server from its start on, and a run of an exercise with everything that it starts.
use zth_sre.Prelude.{
  ℕ, ◌≡◌, ◌↔◌, ◌<◌, ◌+◌, ◌⊎◌, inl, refl, String, String_eq, true, false, Option, none, some, List,
  [], ◌∷◌, if◌then◌else◌,
}
use zth_sre.Prelude.Map.{Map}
use zth_sre.Prelude.Strings.{has_prefix, trim_prefix, trim_suffix, ext, split, has_code}
use zth_sre.Http.{Url, post, is_get}
use zth_sre.Files.{load}
use zth_sre.Progress
use zth_sre.Progression
use zth_sre.History
use zth_sre.Scenario.{required_ids, blank}
use zth_sre.Scenario.Catalog as Catalog
use zth_sre.Runtime.Api.{Setup}
use zth_sre.Server.Origins.{parse_origins, serialized, upstream}
use zth_sre.Server.Origins.Parsed.{Hosts, parse_origins_lem}
use zth_sre.Server.Config.{Settings, with_paths, config_from_env, origins_from_env}
use zth_sre.Server.Handler.{Request, serve}
use zth_sre.Server.Handler.Lasting.{requested, handle_all}
use zth_sre.Server.Startup.{
  Host, absent, Handler, setup_of, optional_runtime, static_root, handler_of, new,
}
use zth_sre.Server.Startup.Lasting.{SoundState, new-Sound}
use zth_sre.Server.Startup.Starts.{Startable, new_starts}
use zth_sre.Server.Startup.Callers.{Sent, Named, new_permitted}
use zth_sre.Examples.Tools.{
  holding, memory_disk, number_sorter, number_order, text_sorter, AnyOrder,
}
use zth_sre.Examples.Exercises.{numbers, profiles, history, evidence}
use zth_sre.Examples.Catalogs.{files, lessons, catalog}
use zth_sre.Examples.Catalogs as Catalogs
use zth_sre.Examples.Serving.{at_host}
use zth_sre.Examples.Serving as Serving

abbrev parse : String → Option Url
parse raw = if has_prefix raw "http://" then some (at_host (trim_prefix raw "http://")) else none

abbrev local : List String
local = "http://localhost" ∷ []

parse_origins_lem_example :
    (parse_origins parse local ≡ some (record { origins = local; hosts = "localhost" ∷ [] }))
    ↔ ((0 < 1) × (local ≡ local) × Hosts parse local ("localhost" ∷ []))
parse_origins_lem_example =
    parse_origins_lem parse local (record { origins = local; hosts = "localhost" ∷ [] })

-- No file was written yet, and the catalog has the required exercises.
abbrev host : Host ℕ ℕ
host = record {
  parse = parse;
  join = λ a b. a;
  dir = λ a. a;
  exists = λ path. true;
  open_root = λ path. absent;
  walk = λ root. some lessons;
  content = files;
  Before = AnyOrder;
  texts = text_sorter;
  order = number_order;
  sorter = number_sorter;
  comparisons = Catalogs.numbers;
  floats = numbers;
  profiles = profiles;
  histories = history;
  checklists = memory_disk (Map Progress.Record);
  profile_at = λ path. holding none false;
  history_at = λ path. holding none false;
  checklists_at = λ path. holding none false;
  request = λ c q n. (n + 1, true);
  world = 0;
}

-- No variable is set.
abbrev unset : String → String
unset key = ""

two_origins :
    (config_from_env unset).origins ≡ "http://localhost:8080" ∷ "http://127.0.0.1:8080" ∷ []
unfolding origins_from_env split
two_origins = refl

abbrev settings : Settings
settings = record (config_from_env unset) { origins = "http://localhost" ∷ [] }

abbrev started : Handler host settings
started =
    handler_of host settings
      (record { origins = "http://localhost" ∷ []; hosts = "localhost" ∷ [] })
      (record { disk = holding none false; records = [] })
      (
        catalog,
        some (record {
          profile = record {
            disk = holding none false;
            profile = Progression.apply_rank Progression.no_profile;
          };
          history = record { disk = holding none false; records = [] };
        }),
      )
      (at_host "toolbox:8080") (at_host "prometheus:9090") none

starts : new host settings ≡ some started
unfolding new parse_origins serialized upstream Progress.open_store load optional_runtime
    static_root Catalog.load required_ids trim_suffix ext blank has_code has_prefix trim_prefix
    History.open_store Progression.open_store
starts = refl

abbrev its_setup : Setup ℕ ℕ
its_setup = setup_of host settings catalog

-- A page of the server starts an exercise.
abbrev starting : Request its_setup Serving.keys Serving.sort host.checklists
starting = record {
  method = post;
  host = "localhost";
  path = "/api/scenarios/dns-failure/start";
  raw_query = "";
  headers = [];
  origins = local;
  websocket = false;
  content_type = "application/json";
  at = record { new_id = "run-1"; now = 1; later = 2; evidence = evidence; accepts = λ text. true };
  inputs = Serving.nothing;
  checklist = Serving.absent;
  probes = record { api = some 200; dependency = some 200; toolbox = none; prometheus = some 200 };
}

new-Sound_example : SoundState host settings catalog (
    handle_all its_setup number_order number_sorter host.checklists text_sorter refl started.config
      (requested starting ∷ [])
      started.server)
unfolding load
new-Sound_example = new-Sound host settings started (requested starting ∷ []) starts (inl refl)

new_permitted_example :
    ((serve its_setup Serving.keys Serving.sort host.checklists started.config starting
        started.server).0
      ≡ started.server)
    ⊎ ((is_get starting.method ≡ false)
        × Sent local starting.origins
        × Named parse local "localhost")
new_permitted_example = new_permitted host settings started started.server starting starts

new_starts_example :
    ((s : Handler host (with_paths host.join settings)) × (new host settings ≡ some s))
    ↔ Startable host (with_paths host.join settings)
new_starts_example = new_starts host settings
