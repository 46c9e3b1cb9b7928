-- ===== src/Scenario/Types.antt =====
-- internal/scenario/scenario.go: the types of an exercise's definition. A float64 is a value of `F`; a
-- time.Duration is its number of nanoseconds.
use zth_sre.Prelude.{String, Bool, List}
use zth_sre.Prelude.Int.{ℤ}

-- Comparisons of float64. As for a NaN, neither of two values need be `above` the other or `at_most` it.
pub record Comparisons (F : Type 0) : Type 0 where
  pub zero : F
  pub one : F
  -- `maxRate`
  pub max_rate : F
  pub at_most : F → F → Bool
  pub above : F → F → Bool
  pub same : F → F → Bool

pub record Traffic (F : Type 0) : Type 0 where
  pub profile : String
  pub rps : F
  pub duration : ℤ
  pub from_rps : F
  pub to_rps : F
  pub ramp_duration : ℤ
  pub hold_duration : ℤ
  pub baseline_rps : F
  pub peak_rps : F
  pub before : ℤ
  pub spike : ℤ
  pub after : ℤ

pub record FaultConfig (F : Type 0) : Type 0 where
  pub work_units : ℤ
  pub probability : F
  pub latency_ms : ℤ
  pub retries : ℤ
  pub max_concurrency : ℤ
  pub memory_mb : ℤ
  pub failure_every : ℤ

pub record Fault (F : Type 0) : Type 0 where
  pub target : String
  pub kind : String
  pub config : FaultConfig F

pub record Objectives (F : Type 0) : Type 0 where
  pub availability : F
  pub p95_latency_ms : ℤ

pub record Grading (F : Type 0) : Type 0 where
  pub kind : String
  pub window : ℤ
  pub minimum_requests : ℤ
  pub minimum_offered_rps : F

pub record DiagramNode : Type 0 where
  pub id : String
  pub label : String
  pub role : String

pub record DiagramEdge : Type 0 where
  pub from : String
  pub to : String
  pub label : String

pub record Diagram : Type 0 where
  pub nodes : List DiagramNode
  pub edges : List DiagramEdge

pub record Scenario (F : Type 0) : Type 0 where
  pub schema_version : ℤ
  pub id : String
  pub title : String
  pub difficulty : String
  pub description : String
  pub learning_objectives : List String
  pub goal : String
  pub success_criteria : List String
  pub prerequisites : List String
  pub required_tools : List String
  pub false_hypotheses : List String
  pub runtime : String
  pub topology : String
  pub traffic : Traffic F
  pub faults : List (Fault F)
  pub objectives : Objectives F
  pub grading : Grading F
  pub hints : List String
  pub diagram : Diagram
