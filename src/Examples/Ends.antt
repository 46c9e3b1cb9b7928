-- ===== src/Examples/Ends.antt =====
-- The end of a command.
use zth_sre.Prelude.{ℕ, ◌+◌, ◌≤◌, ◌≡◌, refl, Bool, true, false, List, [], ◌∷◌, ◌++◌, map, length}
use zth_sre.Commands.{
  Call, close_handler, shutdown, shutdown_returns, called, forced, Program, api_lb, serving,
  waiting, returned, Process, begin, events, acted, is_shutdown, live, Step, signals, acts,
  announces, closes, returns, Reach, here, there, Run, stop, go,
}
use zth_sre.Commands.Ordered.{logged, calls, returned_in_order}
use zth_sre.Commands.Bounded.{shuts, signal_ends}

abbrev started : Process
started = record {
  main = serving;
  signalled = false;
  todo = shutdown ∷ shutdown_returns ∷ [];
  done = false;
  closing = false;
  log = [];
}

abbrev signalled : Process
signalled = record started { signalled = true }

abbrev closing : Process
closing = record signalled {
  todo = shutdown_returns ∷ [];
  closing = true;
  log = called shutdown ∷ [];
}

abbrev released : Process
released = record closing { main = waiting }

-- The Shutdown fails.
abbrev cut_off : Process
cut_off = record released {
  todo = [];
  log = called shutdown ∷ called shutdown_returns ∷ forced ∷ [];
}

abbrev over : Process
over = record cut_off {
  done = true;
  main = returned;
  log = called shutdown ∷ called shutdown_returns ∷ forced ∷ called close_handler ∷ [];
}

signalled-Reach : Reach api_lb signalled
unfolding api_lb begin live
signalled-Reach = there started signalled (here true) (signals started refl refl)

ending : Run api_lb 5 signalled over
unfolding api_lb acted events is_shutdown live
ending =
    go 4 signalled closing over
      (acts signalled shutdown (shutdown_returns ∷ []) false refl refl refl)
      (go 3 closing released over (closes closing refl refl) (
        go 2 released cut_off over (acts released shutdown_returns [] true refl refl refl) (
          go 1 cut_off (record cut_off { done = true }) over (announces cut_off refl refl refl refl)
            (go 0 (record cut_off { done = true }) over over
              (returns (record cut_off { done = true }) refl refl) (stop over)))))

Reach-Run : {p : Program} {n : ℕ} {s last : Process} → Run p n s last → Reach p s → Reach p last
Reach-Run (stop s) r = r
Reach-Run (go n s next last step run) r = Reach-Run run (there s next r step)

returned_in_order_example :
    (over.signalled ≡ true)
    × ((past : List (Call × Bool)) × (calls past ≡ api_lb.todo)
        × (over.log ≡ logged api_lb.forces past ++ map called api_lb.deferred))
returned_in_order_example = returned_in_order api_lb over (Reach-Run ending signalled-Reach) refl

signal_ends_example :
    (5 ≤ length signalled.todo + 3)
    × (live over.main ≡ true → (next : Process) × Step api_lb over next)
unfolding api_lb shuts is_shutdown
signal_ends_example = signal_ends api_lb signalled over 5 refl signalled-Reach refl ending
