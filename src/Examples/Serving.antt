-- ===== src/Examples/Serving.antt =====
-- Requests to the server.
use zth_sre.Prelude.{ℕ, ◌≡◌, ◌⊎◌, String, String_eq, true, false, none, some, List, [], ◌∷◌}
use zth_sre.Prelude.Map.{Map}
use zth_sre.Prelude.Strings.{trim_prefix}
use zth_sre.Http.{Url, post, get, Body, is_post}
use zth_sre.Files.{Storage}
use zth_sre.Progress
use zth_sre.Progression.{apply_rank, no_profile}
use zth_sre.Runtime.Grading.{Stores}
use zth_sre.Runtime.Api.{Setup, Inputs, Runtime, handle_runtime}
use zth_sre.Runtime.Api.Learner.Earned.{Achieved, handle_runtime-Earned}
use zth_sre.Server.Relay.{Answer, modified}
use zth_sre.Server.Relay.Replies.{Harmless, modified_lem}
use zth_sre.Server.Handler.{Config, Server, Request, serve}
use zth_sre.Server.Handler.Guard.{Guarded, serve-Guarded}
use zth_sre.Examples.Tools.{holding, memory_disk, number_sorter, number_order}
use zth_sre.Examples.Exercises.{
  numbers, same_texts, profiles, history, stores, catalog, send, idle, evidence, solved,
}

abbrev setup : Setup ℕ ℕ
setup = record {
  send = send;
  catalog = catalog;
  policy = false;
  library = [];
  fl = numbers;
  ps = profiles;
  sort = same_texts;
  hs = history;
}

abbrev records : Storage (Map Progress.Record)
records = memory_disk (Map Progress.Record)

abbrev pub keys : List ℕ → List ℕ
keys = number_order.keys

abbrev pub sort : List ℕ → List ℕ
sort = number_sorter.sort

abbrev pub at_host : String → Url
at_host host = record {
  scheme = "http";
  hostname = host;
  host = host;
  user = false;
  path = "";
  raw_path = "";
  raw_query = "";
  force_query = false;
  fragment = "";
  opaque_part = "";
}

abbrev config : Config setup keys sort records
config = record {
  allowed = record { origins = "http://localhost" ∷ []; hosts = "localhost" ∷ [] };
  toolbox = at_host "toolbox:8080";
  prometheus = at_host "prometheus:9090";
  root = none;
}

abbrev fresh : Stores numbers profiles same_texts history
fresh = record stores {
  profile = record { disk = holding none false; profile = apply_rank no_profile };
}

abbrev state : Server setup keys sort records
state = record {
  runtime = some (record { manager = idle; stores = fresh });
  progress = record { disk = holding none false; records = [] };
}

abbrev pub absent : {A : Type 0} → Body A
absent = record { value = none; at_end = true }

abbrev pub nothing : Inputs
nothing = record {
  capacity = absent;
  phase = absent;
  action = absent;
  empty = absent;
  diagnosis = absent;
  expression = absent;
}

-- A start of an exercise, from a page of the server.
abbrev starting : Request setup keys sort records
starting = record {
  method = post;
  host = "localhost";
  path = "/api/scenarios/latency-slo/start";
  raw_query = "";
  headers = [];
  origins = "http://localhost" ∷ [];
  websocket = false;
  content_type = "application/json";
  at = record { new_id = "run-1"; now = 1; later = 2; evidence = evidence; accepts = λ text. true };
  inputs = nothing;
  checklist = absent;
  probes = record { api = some 200; dependency = some 200; toolbox = none; prometheus = some 200 };
}

abbrev querying : Request setup keys sort records
querying = record starting { method = get; path = "/prometheus/api/v1/query" }

serve-Guarded_example :
    Guarded setup keys sort records config querying
      (serve setup keys sort records config querying state).1
serve-Guarded_example = serve-Guarded setup keys sort records config querying state

abbrev redirect : Answer
redirect = record {
  status = 302;
  location = some (record (at_host "prometheus:9090") { path = "/graph" });
  headers = ("Set-Cookie", "a=b") ∷ [];
}

modified_lem_example : Harmless false (modified false (at_host "prometheus:9090") redirect)
modified_lem_example = modified_lem false (at_host "prometheus:9090") redirect

-- A run that is solved, and its check.
abbrev finished : Runtime setup
finished = record { manager = record idle { active = some solved }; stores = fresh }

handle_runtime-Earned_example :
    ((handle_runtime setup post "/api/run/check" starting.at nothing finished).0.stores.profile
      ≡ fresh.profile)
    ⊎ ((is_post post ≡ true)
        × (trim_prefix "/api/run/check" "/api/" ≡ "run/check")
        × Achieved setup evidence (some solved))
handle_runtime-Earned_example =
    handle_runtime-Earned setup post "/api/run/check" starting.at nothing finished
