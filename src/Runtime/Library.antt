-- ===== src/Runtime/Library.antt =====
-- `newRuntime` of internal/server/runtime.go: the exercises of the loaded catalog, by their ids.
pub mod Ready
use zth_sre.Prelude.{ℕ, String, Option, none, some, List, [], ◌∷◌}
use zth_sre.Prelude.Int.{ℤ, pos, negsuc}
use zth_sre.Prelude.Map.{Map, insert, lookup}
use zth_sre.Scenario.{Scenario}
use zth_sre.Runtime.State.{Exercise}

-- The validation leaves no bound that is not positive.
abbrev pub bound : ℤ → ℕ
bound (pos n) = n
bound (negsuc n) = 0

-- What the methods read of a scenario.
pub exercise_of : {F : Type 0} → Scenario F → Exercise F
exercise_of s = record {
  id = s.id;
  hints = s.hints;
  availability = s.objectives.availability;
  p95_latency_ms = bound s.objectives.p95_latency_ms;
  minimum_requests = bound s.grading.minimum_requests;
}

-- `byID[item.ID] = item`, for each item of the list.
pub index : {F : Type 0} → List (Scenario F) → Map (Exercise F) → Map (Exercise F)
unfolding exercise_of
index [] m = m
index (s ∷ rest) m = index rest (insert s.id (exercise_of s) m)

-- A lookup in `byID`.
pub by_id : {F : Type 0} → List (Scenario F) → String → Option (Exercise F)
unfolding index
by_id scenarios id = lookup id (index scenarios [])
