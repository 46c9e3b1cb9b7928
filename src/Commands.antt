-- ===== src/Commands.antt =====
-- The commands cmd/server/main.go, cmd/toolbox/main.go, cmd/api-lb/main.go, cmd/traffic/main.go,
-- cmd/demo/main.go and cmd/policy/main.go. The first four serve until a signal, and a goroutine of
-- theirs then stops the server. What a call of another package returns is an argument of its step.

pub mod Ordered
pub mod Bounded
use zth_sre.Prelude.{
  ℕ, suc, String, Bool, true, false, ◌&&◌, ◌||◌, not, Option, none, some, List, [], ◌∷◌, ◌++◌,
  if◌then◌else◌, ◌≡◌, map,
}
use zth_sre.Http.{Url}
use zth_sre.Server.Config.{env, origins_from_env, config_from_env, with_paths}
use zth_sre.Server.Origins.{parse_origins}
use zth_sre.Server.Startup.{Host, Handler, new}
use zth_sre.Policy
use zth_sre.ApiLb.Setup as Balancing
use zth_sre.Traffic
use zth_sre.Traffic.Setup as K6

-- What is called at the end: `Close` or `Shutdown` of the handler, and Shutdown of the server, which
-- is first called and later returns.
pub data Call : Type 0 where
  close_handler shutdown shutdown_returns : Call

pub data Event : Type 0 where
  called : Call → Event
  -- `srv.Close()`, after a Shutdown that failed.
  forced : Event

-- What the goroutine does after the signal, what `main` defers, and whether a Shutdown that fails is
-- followed by a Close.
pub record Program : Type 0 where
  pub todo : List Call
  pub deferred : List Call
  pub forces : Bool

unfoldable pub server : Program
server = record {
  todo = close_handler ∷ shutdown ∷ shutdown_returns ∷ [];
  deferred = [];
  forces = true;
}

unfoldable pub toolbox : Program
unfolding server
toolbox = server

unfoldable pub api_lb : Program
api_lb = record {
  todo = shutdown ∷ shutdown_returns ∷ [];
  deferred = close_handler ∷ [];
  forces = true;
}

unfoldable pub traffic : Program
traffic = record {
  todo = shutdown ∷ shutdown_returns ∷ close_handler ∷ [];
  deferred = [];
  forces = false;
}

-- `main`: in ListenAndServe, at the channel that the goroutine closes, at its end, or at log.Fatal.
pub data Main : Type 0 where
  serving waiting returned fatal : Main

pub record Process : Type 0 where
  pub main : Main
  pub signalled : Bool
  -- What is left to the goroutine, and whether it has closed its channel.
  pub todo : List Call
  pub done : Bool
  -- Shutdown of the server was called.
  pub closing : Bool
  pub log : List Event

-- After `New`, which may have failed.
unfoldable pub begin : Program → Bool → Process
begin p created = record {
  main = if created then serving else fatal;
  signalled = false;
  todo = p.todo;
  done = false;
  closing = false;
  log = [];
}

unfoldable pub is_shutdown : Call → Bool
is_shutdown shutdown = true
is_shutdown _ = false

-- A call and what follows on its error.
unfoldable pub events : Bool → Call → Bool → List Event
events forces shutdown_returns failed =
    called shutdown_returns ∷ (if failed && forces then forced ∷ [] else [])
events forces call failed = called call ∷ []

-- The next call of the goroutine.
unfoldable pub acted : Program → Call → List Call → Bool → Process → Process
unfolding is_shutdown events
acted p call rest failed s = record s {
  todo = rest;
  closing = s.closing || is_shutdown call;
  log = s.log ++ events p.forces call failed;
}

unfoldable pub live : Main → Bool
live serving = true
live waiting = true
live returned = false
live fatal = false

-- The moves of the two goroutines, until `main` ends. ListenAndServe fails with ErrServerClosed from
-- the call of Shutdown on.
pub data Step (p : Program) : Process → Process → Type 0 where
  signals :
      (s : Process)
      → live s.main ≡ true
      → s.signalled ≡ false
      → Step p s (record s { signalled = true })
  acts :
      (s : Process) (call : Call) (rest : List Call) (failed : Bool)
      → live s.main ≡ true
      → s.signalled ≡ true
      → s.todo ≡ call ∷ rest
      → Step p s (acted p call rest failed s)
  announces :
      (s : Process)
      → live s.main ≡ true
      → s.signalled ≡ true
      → s.todo ≡ []
      → s.done ≡ false
      → Step p s (record s { done = true })
  fails :
      (s : Process) → s.main ≡ serving → s.closing ≡ false → Step p s (record s { main = fatal })
  closes :
      (s : Process) → s.main ≡ serving → s.closing ≡ true → Step p s (record s { main = waiting })
  returns :
      (s : Process)
      → s.main ≡ waiting
      → s.done ≡ true
      → Step p s (record s { main = returned; log = s.log ++ map called p.deferred })

pub data Reach (p : Program) : Process → Type 0 where
  here : (created : Bool) → Reach p (begin p created)
  there : (s next : Process) → Reach p s → Step p s next → Reach p next

-- A number of moves.
pub data Run (p : Program) : ℕ → Process → Process → Type 0 where
  stop : (s : Process) → Run p 0 s s
  go : (n : ℕ) (s next last : Process) → Step p s next → Run p n next last → Run p (suc n) s last

-- `run` of the demo service: the select and what follows it.
pub data Selected : Type 0 where
  -- ListenAndServe has returned.
  stopped : Selected
  -- The signal came: whether Shutdown succeeds, and whether ListenAndServe then returns
  -- ErrServerClosed.
  interrupted : Bool → Bool → Selected

-- The calls of `run`, and whether it returns no error; `created` is whether `New` succeeds.
pub run : Bool → Selected → List Event × Bool
run false selected = ([], false)
run true stopped = ([], false)
run true (interrupted false closed) =
    (called shutdown ∷ called shutdown_returns ∷ forced ∷ [], false)
run true (interrupted true closed) = (called shutdown ∷ called shutdown_returns ∷ [], closed)

-- The handlers that the commands start with; `getenv` is os.Getenv.
module _ (getenv : String → String) where
  pub server_handler :
      {F W : Type 0} (h : Host F W)
      → Option (Handler h (with_paths h.join (config_from_env getenv)))
  server_handler h = new h (config_from_env getenv)

  pub policy_service : (String → Option Url) → Option Policy.Service
  policy_service parse = Policy.new (parse (env getenv "UPSTREAM" "http://dependency:8080"))

  api_lb_handler : (String → Option Url) → Option Balancing.LoadBalancer
  unfolding Balancing.new Balancing.config_from_env
  api_lb_handler parse = Balancing.new parse (Balancing.config_from_env getenv)

  traffic_controller : K6.Config × Traffic.Controller
  unfolding K6.completed K6.config_from_env Traffic.init
  traffic_controller = (K6.completed (K6.config_from_env getenv), Traffic.init)
