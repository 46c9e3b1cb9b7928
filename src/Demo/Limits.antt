-- ===== src/Demo/Limits.antt =====
-- `activeCount` and the concurrency limit, for requests that overlap. Each step is one of the atomic
-- parts of `ServeHTTP`: the count is raised on arrival and lowered on return, and is read once, for
-- the comparison with `max_concurrency`.
use zth_sre.Prelude.{ℕ, ◌+◌, ◌-◌, ◌≤◌, ◌<◌, ◌≡◌, ◌⊎◌, inr, true, false, arith}
use zth_sre.Demo.{Settings, Service}
use zth_sre.Demo.Handler.{admissible, Env, wait_latency, work, grow_memory}

-- The service with its requests in flight: those that arrived and were not compared yet, those that
-- passed the comparison, and those that only have to return.
pub record Flight : Type 0 where
  pub service : Service
  pub arrived : ℕ
  pub passed : ℕ
  pub leaving : ℕ

pub raise : Service → Service
raise s = record s { active_count = s.active_count + 1 }

pub lower : Service → Service
lower s = record s { active_count = s.active_count - 1 }

-- The settings `c` stay as they are while the steps are made.
pub data Step (c : Settings) (f : Flight) (g : Flight) : Type 0 where
  arrive : g ≡ record f { service = raise f.service; arrived = f.arrived + 1 } → Step c f g
  -- Another path or method, refused before the comparison.
  bounce :
      0 < f.arrived → g ≡ record f { arrived = f.arrived - 1; leaving = f.leaving + 1 } → Step c f g
  pass :
      0 < f.arrived
      → admissible c f.service ≡ true
      → g ≡ record f { arrived = f.arrived - 1; passed = f.passed + 1 }
      → Step c f g
  refuse :
      0 < f.arrived
      → admissible c f.service ≡ false
      → g ≡ record f { arrived = f.arrived - 1; leaving = f.leaving + 1 }
      → Step c f g
  -- The context is done before the latency is over.
  give_up :
      (env : Env)
      → 0 < f.passed
      → wait_latency env c.latency_ms ≡ false
      → g ≡ record f { passed = f.passed - 1; leaving = f.leaving + 1 }
      → Step c f g
  finish :
      (env : Env)
      → 0 < f.passed
      → wait_latency env c.latency_ms ≡ true
      → g ≡ record f {
        service = (work c env f.service).0;
        passed = f.passed - 1;
        leaving = f.leaving + 1;
      }
      → Step c f g
  leave :
      0 < f.leaving
      → g ≡ record f { service = lower f.service; leaving = f.leaving - 1 }
      → Step c f g

pub data Reach (c : Settings) (f : Flight) : Flight → Type 0 where
  here : Reach c f f
  next : {g h : Flight} → Reach c f g → Step c g h → Reach c f h

-- The count is the number of requests in flight; under a limit, no more than it passed.
pub record Counted (c : Settings) (f : Flight) : Type 0 where
  pub counted : f.service.active_count ≡ f.arrived + f.passed + f.leaving
  pub limited : (c.max_concurrency ≡ 0) ⊎ (f.passed ≤ c.max_concurrency)

active_count-work :
    (c : Settings) (env : Env) (s : Service) → (work c env s).0.active_count ≡ s.active_count
unfolding work grow_memory
active_count-work c env s = ground arith

pub Step-Counted : (c : Settings) (f g : Flight) → Step c f g → Counted c f → Counted c g
unfolding admissible raise lower
Step-Counted c f g (arrive e) v =
    rw e (record { counted = omega (arith, v.counted); limited = v.limited })
Step-Counted c f g (bounce h e) v =
    rw e (record { counted = omega (arith, v.counted); limited = v.limited })
Step-Counted c f g (pass h a e) v =
    rw e (record { counted = omega (arith, v.counted); limited = ground (arith, v.counted) })
Step-Counted c f g (refuse h a e) v =
    rw e (record { counted = omega (arith, v.counted); limited = v.limited })
Step-Counted c f g (give_up env h w e) v =
    rw e (record { counted = omega (arith, v.counted); limited = ground arith })
Step-Counted c f g (finish env h w e) v = rw e (record {
  counted = omega (arith, v.counted, active_count-work c env f.service);
  limited = ground arith;
})
Step-Counted c f g (leave h e) v =
    rw e (record { counted = omega (arith, v.counted); limited = v.limited })

abbrev pub idle : Service → Flight
idle s = record { service = s; arrived = 0; passed = 0; leaving = 0 }

-- From a service that serves nothing, however the requests overlap: its count is the number of
-- requests in flight, and with a limit in force at most that many are past the comparison at once.
pub Reach-Counted :
    (c : Settings) (s : Service) {f : Flight}
    → s.active_count ≡ 0
    → Reach c (idle s) f
    → Counted c f
Reach-Counted c s z here = record { counted = omega arith; limited = inr (omega arith) }
Reach-Counted c s z (next {g} {h} r st) = Step-Counted c g h st (Reach-Counted c s z r)
