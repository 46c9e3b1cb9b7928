-- ===== src/Runtime.antt =====
-- internal/server/runtime.go: the exercise runtime of the server. `State` has the data and tables,
-- `Control` what it sends to the other services, `Operations` the methods that change a run,
-- `Grading` the check of an outcome; `Solutions` its tables; the other modules prove.
pub mod State
pub mod Control
pub mod Operations
pub mod WellFormed
pub mod Invariant
pub mod Gating
pub mod Solutions
pub mod Grading
pub mod Outcome
pub mod RunId
pub mod Evidence
pub mod Fleet
pub mod Library
pub mod Composition
pub mod Solvable
pub mod Launch
pub mod Api
