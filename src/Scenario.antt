-- ===== src/Scenario.antt =====
-- internal/scenario/scenario.go: the rules that the definition of an exercise is checked by.
pub mod Types
pub mod Catalog
pub mod Rules
pub mod Faults
pub mod Goals
pub mod Validity
pub use zth_sre.Scenario.Types.{
  Comparisons, Traffic, FaultConfig, Fault, Objectives, Grading, DiagramNode, DiagramEdge, Diagram,
  Scenario,
}
use zth_sre.Prelude.{
  ℕ, zero, suc, ◌*◌, ◌^◌, String, Bool, true, false, ◌&&◌, ◌||◌, not, Option, none, some, List, [],
  ◌∷◌, if◌then◌else◌, ◌==◌, String_eq, ℕ_eq, ltb, leb, length, elem,
}
use zth_sre.Prelude.Int.{ℤ, pos, negsuc, ℤ_eq, out_of_range}
use zth_sre.Prelude.Text.{codes, all, matches, slug_first, slug_rest}

-- `requiredIDs`
unfoldable pub required_ids : List String
required_ids =
    "cpu-saturation" ∷ "useful-alerts" ∷ "slo-burn-rate" ∷ "vertical-horizontal"
    ∷ "dependency-bottleneck" ∷ "connection-pool" ∷ "latency-slo" ∷ "dns-failure" ∷ "retry-storm"
    ∷ "memory-leak" ∷ "autoscaler-oscillation" ∷ "file-forensics" ∷ "blocked-traffic" ∷ []

-- `validID`: ^[a-z0-9][a-z0-9-]{0,62}$
pub valid_id : String → Bool
valid_id id = matches slug_first slug_rest 62 (codes id)

-- unicode.IsSpace
abbrev is_space : ℕ → Bool
is_space c =
    leb 9 c && leb c 13
    || (c == 32
        || (c == 133
            || (c == 160
                || (c == 5760
                    || (leb 8192 c && leb c 8202
                        || (c == 8232
                            || (c == 8233 || (c == 8239 || (c == 8287 || c == 12288)))))))))

-- `strings.TrimSpace(text) == ""`
unfoldable pub blank : String → Bool
blank text = all is_space (codes text)

-- The errors, without their texts.
pub data Problem : Type 0 where
  wrong_version no_goal wrong_id no_title wrong_difficulty wrong_texts : Problem
  wrong_environment wrong_traffic no_faults wrong_fault wrong_objectives : Problem
  wrong_grading wrong_duration no_diagram : Problem

-- `if test { return problem }`
abbrev pub check : Bool → Problem → Option Problem
check test problem = if test then some problem else none

-- Checks in a row: the first problem is returned.
abbrev pub first : List (Option Problem) → Option Problem
first [] = none
first (some problem ∷ checks) = some problem
first (none ∷ checks) = first checks

-- `maxDuration`, an hour.
pub max_duration : ℕ
max_duration = 3600 * 10 ^ 9

pub validate_duration : ℤ → Option Problem
unfolding max_duration
validate_duration d = check (d == pos 0 || out_of_range max_duration d) wrong_duration

any_blank : List String → Bool
unfolding blank
any_blank [] = false
any_blank (text ∷ texts) = blank text || any_blank texts

pub validate_strings : List String → Option Problem
unfolding any_blank
validate_strings texts =
    first (check (length texts == 0) wrong_texts ∷ check (any_blank texts) wrong_texts ∷ [])

-- An int that is at most 0 or above a bound.
abbrev pub beyond : ℕ → ℤ → Bool
beyond limit n = n == pos 0 || out_of_range limit n

-- `n <= 0`
abbrev pub not_positive : ℤ → Bool
not_positive (pos n) = n == 0
not_positive (negsuc n) = true

abbrev pub nonzero : ℤ → Bool
nonzero n = not (n == pos 0)

module _ {F : Type 0} (fl : Comparisons F) where
  open fl use {one, max_rate, at_most, above, same}

  -- `rate <= 0 || rate > maxRate`
  abbrev pub bad_rate : F → Bool
  bad_rate rate = at_most rate fl.zero || above rate max_rate

  abbrev pub used : F → Bool
  used rate = not (same rate fl.zero)

  validate_constant : Traffic F → Option Problem
  unfolding validate_duration
  validate_constant t = first (
      (check
        (bad_rate t.rps
          || used t.from_rps
          || used t.to_rps
          || used t.baseline_rps
          || used t.peak_rps
          || nonzero t.ramp_duration
          || nonzero t.hold_duration
          || nonzero t.before
          || nonzero t.spike
          || nonzero t.after)
        wrong_traffic)
      ∷ validate_duration t.duration
      ∷ [])

  validate_ramp : Traffic F → Option Problem
  unfolding validate_duration
  validate_ramp t = first (
      (check
        (bad_rate t.from_rps
          || bad_rate t.to_rps
          || used t.rps
          || nonzero t.duration
          || used t.baseline_rps
          || used t.peak_rps
          || nonzero t.before
          || nonzero t.spike
          || nonzero t.after)
        wrong_traffic)
      ∷ validate_duration t.ramp_duration
      ∷ validate_duration t.hold_duration
      ∷ [])

  validate_spike : Traffic F → Option Problem
  unfolding validate_duration
  validate_spike t = first (
      (check
        (bad_rate t.baseline_rps
          || at_most t.peak_rps t.baseline_rps
          || above t.peak_rps max_rate
          || used t.rps
          || nonzero t.duration
          || used t.from_rps
          || used t.to_rps
          || nonzero t.ramp_duration
          || nonzero t.hold_duration)
        wrong_traffic)
      ∷ validate_duration t.before
      ∷ validate_duration t.spike
      ∷ validate_duration t.after
      ∷ [])

  -- `Traffic.validate`
  pub validate_traffic : Traffic F → Option Problem
  unfolding validate_constant validate_ramp validate_spike
  validate_traffic t =
      if t.profile == "constant"
      then validate_constant t
      else if t.profile == "ramp"
      then validate_ramp t
      else if t.profile == "spike"
      then validate_spike t
      else some wrong_traffic

  -- `c != FaultConfig{}`
  pub configured : FaultConfig F → Bool
  configured c =
      nonzero c.work_units
      || used c.probability
      || nonzero c.latency_ms
      || nonzero c.retries
      || nonzero c.max_concurrency
      || nonzero c.memory_mb
      || nonzero c.failure_every

  -- The switch of `Fault.validate`: whether the case of the type refuses it.
  pub refused_as : String → String → FaultConfig F → Bool
  unfolding configured
  refused_as kind target c =
      if kind == "cpu_work"
      then not (target == "api") || not_positive c.work_units || used c.probability
      else if kind == "error_rate"
      then nonzero c.work_units || at_most c.probability fl.zero || above c.probability one
      else if kind == "dependency_latency"
      then not (target == "dependency") || beyond 10000 c.latency_ms
      else if kind == "connection_exhaustion"
      then not (target == "api") || beyond 1000 c.max_concurrency
      else if kind == "dns_failure"
      then not (target == "dependency")
      else if kind == "retry_storm"
      then not (target == "api") || beyond 10 c.retries
      else if kind == "memory_leak"
      then not (target == "api") || beyond 1024 c.memory_mb
      else if kind == "autoscaler_oscillation"
      then not (target == "api")
      else if kind == "file_handle"
      then not (target == "api") || configured c
      else if kind == "network_policy"
      then not (target == "dependency") || configured c
      else true

  -- `Fault.validate`
  pub validate_fault : Fault F → Option Problem
  unfolding refused_as
  validate_fault f = first (
      check (not (f.target == "api") && not (f.target == "dependency")) wrong_fault
      ∷ check (refused_as f.kind f.target f.config) wrong_fault
      ∷ [])

  pub validate_faults : List (Fault F) → Option Problem
  unfolding validate_fault
  validate_faults [] = none
  validate_faults (f ∷ fs) = first (validate_fault f ∷ validate_faults fs ∷ [])

  pub validate_objectives : Objectives F → Option Problem
  validate_objectives o =
      check
        (at_most o.availability fl.zero
          || above o.availability one
          || beyond 60000 o.p95_latency_ms)
        wrong_objectives

  pub validate_grading : Grading F → Option Problem
  unfolding validate_duration
  validate_grading g = first (
      (check
        (not (g.kind == "service_recovery")
          && not (g.kind == "alert_behavior")
          && not (g.kind == "burn_rate_alert")
          && not (g.kind == "file_forensics"))
        wrong_grading)
      ∷ validate_duration g.window
      ∷ check (not_positive g.minimum_requests || bad_rate g.minimum_offered_rps) wrong_grading
      ∷ [])

  -- The map of three lists is walked in one of its orders.
  pub checks : Scenario F → List (Option Problem)
  unfolding required_ids valid_id blank validate_strings validate_traffic validate_faults
      validate_objectives validate_grading
  checks s =
      check (not (s.schema_version == pos 1)) wrong_version
      ∷ check (blank s.goal || ltb (length s.success_criteria) 2) no_goal
      ∷ check (not (valid_id s.id) || not (elem s.id required_ids)) wrong_id
      ∷ check (blank s.title || blank s.description) no_title
      ∷ (check
          (not (s.difficulty == "beginner")
            && not (s.difficulty == "intermediate")
            && not (s.difficulty == "advanced"))
          wrong_difficulty)
      ∷ validate_strings s.learning_objectives
      ∷ validate_strings s.prerequisites
      ∷ validate_strings s.required_tools
      ∷ validate_strings s.false_hypotheses
      ∷ check (not (s.runtime == "docker") || not (s.topology == "api-dependency"))
          wrong_environment
      ∷ validate_traffic s.traffic
      ∷ check (length s.faults == 0) no_faults
      ∷ validate_faults s.faults
      ∷ validate_objectives s.objectives
      ∷ validate_grading s.grading
      ∷ validate_strings s.hints
      ∷ check (length s.diagram.nodes == 0 || length s.diagram.edges == 0) no_diagram
      ∷ []

  -- `Scenario.validate`: none for nil.
  pub validate : Scenario F → Option Problem
  unfolding checks
  validate s = first (checks s)
