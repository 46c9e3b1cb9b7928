-- ===== src/Examples/TrafficRuns.antt =====
-- Runs of the traffic controller.
use zth_sre.Prelude.{◌≡◌, refl, true, some}
use zth_sre.Http.{Body}
use zth_sre.Traffic.{StartRequest, shut}
use zth_sre.Traffic.Lifecycle.{
  World, start_step, here, next, begin, after_start, Inv, Reach, Reach-Inv, closed-Reach,
}

abbrev request : StartRequest
request = record { run_id = "run-1"; scenario = "latency-slo"; profile = "slo" }

abbrev one_run : World
one_run = after_start request (some 41) begin

abbrev closing : World
closing = record one_run { controller = shut one_run.controller }

one_run-Reach : Reach begin one_run
one_run-Reach = next here (start_step request (some 41) refl)

Reach-Inv_example : Inv one_run
Reach-Inv_example = Reach-Inv one_run-Reach

closed-Reach_example :
    ((after_start request (some 42) closing).controller.closed ≡ true)
    × ((after_start request (some 42) closing).controller.made ≡ closing.controller.made)
unfolding shut
closed-Reach_example =
    closed-Reach {w = closing} (next here (start_step request (some 42) refl)) refl

abbrev body : Body StartRequest
body = record { value = some request; at_end = true }
