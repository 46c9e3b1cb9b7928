-- ===== src/Server/Startup.antt =====
-- `New` of internal/server/server.go, up to its handler, and `newRuntime` of
-- internal/server/runtime.go. What they take of the operating system and of other packages is the
-- interface `Host`.
pub mod Lasting
pub mod Callers
pub mod Starts
use zth_sre.Prelude.{
  ℕ, ◌≤◌, ℕ_eq, String, String_eq, Bool, not, Option, none, some, List, [], ◌∷◌, if◌then◌else◌,
  ◌==◌,
}
use zth_sre.Prelude.Map.{Map}
use zth_sre.Prelude.Sort.{Sorter, KeyOrder}
use zth_sre.Prelude.Chain.{◌>>=◌}
use zth_sre.Http.{Url}
use zth_sre.Files.{Storage}
use zth_sre.Progress
use zth_sre.Progression
use zth_sre.History
use zth_sre.Scenario.{Scenario, Comparisons}
use zth_sre.Scenario.Catalog.{Entry, Content, load}
use zth_sre.Runtime.Control as Control
use zth_sre.Runtime.Grading.{Floats, Stores}
use zth_sre.Runtime.Library.{by_id}
use zth_sre.Runtime.Api.{Setup, Runtime}
use zth_sre.Server.Origins.{Allowed, parse_origins, upstream}
use zth_sre.Server.Files.{Root}
use zth_sre.Server.Handler.{Config, Server}
use zth_sre.Server.Config.{Settings, with_paths}

-- `runtimeConfig`
pub record RuntimeConfig : Type 0 where
  pub root : String
  pub traffic_url : String
  pub prom_url : String
  pub lb_url : String
  pub api1_url : String
  pub api2_url : String
  pub dependency_url : String
  pub policy_url : String
  pub history_path : String
  pub profile_path : String

-- os.OpenRoot: the root, an error of os.IsNotExist, or another error.
pub data Opening : Type 0 where
  opened : Root → Opening
  absent denied : Opening

-- The operating system and the libraries: url.Parse, filepath.Join and Dir, os.Stat and OpenRoot, the
-- walk and the files below a scenario root, the disks behind a path, package sort, and the requests of
-- `requestJSON` on the world `W`.
pub record Host (F W : Type 0) : Type 1 where
  pub parse : String → Option Url
  pub join : String → String → String
  pub dir : String → String
  pub exists : String → Bool
  pub open_root : String → Opening
  pub walk : String → Option (List Entry)
  pub content : String → Content F
  pub Before : String → String → Type 0
  pub texts : Sorter String String_eq Before
  pub order : KeyOrder ℕ ℕ_eq
  pub sorter : Sorter ℕ ℕ_eq ◌≤◌
  pub comparisons : Comparisons F
  pub floats : Floats F
  pub profiles : Storage Progression.Profile
  pub histories : Storage (List (History.Record F))
  pub checklists : Storage (Map Progress.Record)
  pub profile_at : String → profiles.Disk
  pub history_at : String → histories.Disk
  pub checklists_at : String → checklists.Disk
  pub request : RuntimeConfig → Control.Request → W → W × Bool
  pub world : W

module _ {F W : Type 0} (h : Host F W) where
  abbrev pub HostStores : Type 0
  HostStores = Stores h.floats h.profiles h.texts.sort h.histories

  abbrev learner_path : RuntimeConfig → String
  learner_path c =
      if c.profile_path == "" then h.join (h.dir c.history_path) "learner.json" else c.profile_path

  pub loaded_root : String → Option (List (Scenario F))
  loaded_root root =
      if root == "" then none else load h.comparisons h.texts.sort h.content (h.walk root)

  -- `newRuntime`: the catalog and the stores, none for an error.
  unfoldable pub new_runtime : RuntimeConfig → Option (List (Scenario F) × HostStores)
  unfolding loaded_root
  new_runtime c = do
    library ← loaded_root c.root
    history ← History.open_store h.histories (h.history_at c.history_path)
    profile ← Progression.open_store h.profiles (h.profile_at (learner_path c))
    some (library, record { profile = profile; history = history })

  unfoldable pub runtime_config : Settings → RuntimeConfig
  runtime_config c = record {
    root = c.scenario_root;
    traffic_url = c.traffic_url;
    prom_url = c.prometheus_url;
    lb_url = c.lb_url;
    api1_url = c.api1_url;
    api2_url = c.api2_url;
    dependency_url = c.dependency_control_url;
    policy_url = c.policy_control_url;
    history_path = c.history_path;
    profile_path = c.profile_path;
  }

  with_stores : List (Scenario F) × HostStores → List (Scenario F) × Option HostStores
  with_stores (library, stores) = (library, some stores)

  -- The runtime of `New`, where the directory of the scenarios is there.
  unfoldable pub optional_runtime : Settings → Option (List (Scenario F) × Option HostStores)
  unfolding new_runtime runtime_config with_stores
  optional_runtime c =
      if h.exists (h.join c.scenario_root "scenarios")
      then new_runtime (runtime_config c) >>= (λ found. some (with_stores found))
      else some ([], none)

  unfoldable pub static_root : Opening → Option (Option Root)
  static_root (opened root) = some (some root)
  static_root absent = some none
  static_root denied = none

  abbrev pub setup_of : Settings → List (Scenario F) → Setup F W
  setup_of c library = record {
    send = h.request (runtime_config c);
    catalog = by_id library;
    policy = not (c.policy_control_url == "");
    library = library;
    fl = h.floats;
    ps = h.profiles;
    sort = h.texts.sort;
    hs = h.histories;
  }

  abbrev pub HandlerConfig : Settings → List (Scenario F) → Type 0
  HandlerConfig c library = Config (setup_of c library) h.order.keys h.sorter.sort h.checklists

  abbrev pub HandlerState : Settings → List (Scenario F) → Type 0
  HandlerState c library = Server (setup_of c library) h.order.keys h.sorter.sort h.checklists

  -- What `New` returns: what the handler reads, and the state that it starts in.
  pub record Handler (c : Settings) : Type 0 where
    pub library : List (Scenario F)
    pub config : HandlerConfig c library
    pub server : HandlerState c library

  abbrev pub runtime_of :
      (c : Settings) (library : List (Scenario F))
      → Option HostStores
      → Option (Runtime (setup_of c library))
  runtime_of c library none = none
  runtime_of c library (some stores) = some (record {
    manager = record { active = none; evaluations = []; world = h.world };
    stores = stores;
  })

  abbrev pub handler_of :
      (c : Settings)
      → Allowed
      → Progress.Store h.checklists.Disk
      → List (Scenario F) × Option HostStores
      → Url
      → Url
      → Option Root
      → Handler c
  handler_of c allowed progress (library, stores) toolbox prometheus root = record {
    library = library;
    config = record { allowed = allowed; toolbox = toolbox; prometheus = prometheus; root = root };
    server = record { runtime = runtime_of c library stores; progress = progress };
  }

  pub built : (c : Settings) → Option (Handler c)
  unfolding optional_runtime static_root
  built c = do
    allowed ← parse_origins h.parse c.origins
    progress ←
        Progress.open_store h.order.keys h.sorter.sort h.checklists
          (h.checklists_at c.progress_path)
    runtime ← optional_runtime c
    api ← upstream (h.parse c.api_url)
    dependency ← upstream (h.parse c.dependency_url)
    toolbox ← upstream (h.parse c.toolbox_url)
    prometheus ← upstream (h.parse c.prometheus_url)
    root ← static_root (h.open_root c.static_dir)
    some (handler_of c allowed progress runtime toolbox prometheus root)

  -- `New`, with none for an error.
  unfoldable pub new : (c : Settings) → Option (Handler (with_paths h.join c))
  unfolding built
  new c = built (with_paths h.join c)
