-- ===== src/Examples/Sessions.antt =====
-- Runs of the terminal agent.
use zth_sre.Prelude.{◌≡◌, ◌≤◌, ◌⊎◌, refl, String, true, false, List, [], ◌∷◌}
use zth_sre.Http.{get}
use zth_sre.Terminal.{init, serve_http, register, unregister, release, close}
use zth_sre.Terminal.Sessions.{
  World, start, enters, registers, closes, Reach, here, there, Inv, Reach-Bounded,
}
use zth_sre.Terminal.Closing.{pending, Forced, interrupts, departs, Run, stop, go, closed-drains}

abbrev origins : List String
origins = "http://localhost:8080" ∷ []

abbrev entered : World
entered = record {
  agent = record { active = 1; closed = false; sessions = [] };
  upgrading = 1;
  leaving = 0;
  cancelled = [];
}

abbrev serving : World
serving = record entered {
  agent = record { active = 1; closed = false; sessions = 7 ∷ [] };
  upgrading = 0;
}

abbrev closed : World
closed = record serving {
  agent = record { active = 1; closed = true; sessions = 7 ∷ [] };
  cancelled = 7 ∷ [];
}

-- A session is opened, and the agent is closed.
closed-reached : Reach origins closed
unfolding serve_http init register start close
closed-reached =
    there serving closed
      (there entered serving (there start entered here (enters start "/terminal" get origins refl))
        (registers entered 0 7 (record { active = 1; closed = false; sessions = 7 ∷ [] }) refl
          refl))
      (closes serving)

Reach-Bounded_example : Inv closed
Reach-Bounded_example = Reach-Bounded origins closed closed-reached

abbrev interrupted : World
interrupted = record closed {
  agent = record { active = 1; closed = true; sessions = [] };
  leaving = 1;
}

abbrev drained : World
drained = record interrupted {
  agent = record { active = 0; closed = true; sessions = [] };
  leaving = 0;
}

-- The cancelled session ends, and its handler leaves.
draining : Run origins 2 closed drained
unfolding unregister release
draining =
    go 1 closed interrupted drained (interrupts closed [] [] 7 refl refl)
      (go 0 interrupted drained drained (departs interrupted 0 refl) (stop drained))

closed-drains_example :
    (2 ≤ pending closed)
    × ((drained.agent.active ≡ 0) ⊎ ((next : World) × Forced origins drained next))
closed-drains_example = closed-drains origins 2 closed drained closed-reached refl draining
