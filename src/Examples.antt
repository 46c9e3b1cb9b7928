-- ===== src/Examples.antt =====
-- Concrete runs of the theorems.
pub mod Tools
pub mod Stores
pub mod Checklists
pub mod TrafficRuns
pub mod Balancing
pub mod Faults
pub mod Exercises
mod Outages
pub mod Catalogs
pub mod Serving
mod Starting
mod Launching
mod Shells
pub mod Sessions
pub mod Fleet
mod Ends
