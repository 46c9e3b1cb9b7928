-- ===== src/Terminal/Setup.antt =====
-- `New` of internal/terminal/terminal.go and `OriginsFromEnv`, as cmd/toolbox/main.go joins them.
use zth_sre.Prelude.{String, Bool, Option, none, some, List, if◌then◌else◌}
use zth_sre.Prelude.Chain.{◌>>=◌}
use zth_sre.Http.{Url}
use zth_sre.Server.Origins.{Allowed, parse_origins}
use zth_sre.Server.Config.{origins_from_env}
use zth_sre.Terminal.{Agent, init}

-- An agent with the origins that it allows.
pub record Service : Type 0 where
  pub origins : List String
  pub agent : Agent

-- The agent for what ParseOrigins allows; `root` is whether os.Geteuid is 0.
unfoldable pub with_origins : Bool → Allowed → Option Service
with_origins root allowed =
    if root then none else some (record { origins = allowed.origins; agent = init })

-- `New`, with none for an error; `parse` is url.Parse.
unfoldable pub new : (String → Option Url) → Bool → List String → Option Service
unfolding with_origins
new parse root origins = parse_origins parse origins >>= (λ allowed. with_origins root allowed)

-- The agent of the command; `getenv` is os.Getenv.
pub toolbox_agent : (String → String) → (String → Option Url) → Bool → Option Service
unfolding new
toolbox_agent getenv parse root = new parse root (origins_from_env getenv)
