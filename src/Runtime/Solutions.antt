-- ===== src/Runtime/Solutions.antt =====
-- The switch of `check` in internal/server/runtime.go as tables.
use zth_sre.Prelude.{String, [], ◌∷◌}
use zth_sre.Prelude.Map.{Map}

-- The feedback of each case of the switch of `check`.
pub feedback_of : Map String
feedback_of =
    (
      "cpu-saturation",
      "Increase API capacity, mark recovery, and sustain the declared availability, latency, and request window.",
    )
    ∷ (
      "useful-alerts",
      "A useful alert must stay quiet in baseline, evaluate during user impact, and clear after recovery.",
    )
    ∷ (
      "slo-burn-rate",
      "Define the valid-request SLI, observe rapid burn, and verify the alert clears after recovery.",
    )
    ∷ (
      "vertical-horizontal",
      "Compare vertical and horizontal capacity, select the healthier API pool, mark recovery, and verify the declared SLO.",
    )
    ∷ (
      "dependency-bottleneck",
      "Confirm dependency latency is the bottleneck, restore the dependency path, then verify the latency objective.",
    )
    ∷ (
      "connection-pool",
      "Identify pool wait or exhaustion, restore usable concurrency, and verify recovery under sustained traffic.",
    )
    ∷ (
      "latency-slo",
      "Separate latency-budget failure from availability failure and verify the declared latency SLO after recovery.",
    )
    ∷ (
      "dns-failure",
      "Use request evidence to distinguish name-resolution failure from application failure, then verify recovery.",
    )
    ∷ (
      "retry-storm",
      "Find retry amplification in request and dependency evidence, stop the amplification, and verify recovery.",
    )
    ∷ (
      "memory-leak",
      "Correlate memory growth with traffic and restart or replace the unhealthy capacity before verifying recovery.",
    )
    ∷ (
      "autoscaler-oscillation",
      "Identify unstable capacity changes, stabilize the policy, mark recovery, and verify the declared SLO.",
    )
    ∷ (
      "file-forensics",
      "Use lsof to identify the open file, then map the file descriptor to the responsible file-reader process.",
    )
    ∷ (
      "blocked-traffic",
      "Prove DNS resolution and transport reachability separately, correct the narrow network policy, and verify the dependency path under sustained traffic.",
    )
    ∷ []

-- The intervention that `check` asks for, in the cases that ask for one.
unfoldable pub solution : Map String
solution =
    ("cpu-saturation", "horizontal-capacity")
    ∷ ("vertical-horizontal", "horizontal-capacity")
    ∷ ("dependency-bottleneck", "dependency-recovery")
    ∷ ("connection-pool", "pool-recovery")
    ∷ ("latency-slo", "latency-budget")
    ∷ ("dns-failure", "dns-recovery")
    ∷ ("retry-storm", "retry-budget")
    ∷ ("memory-leak", "replace-capacity")
    ∷ ("autoscaler-oscillation", "stabilize-policy")
    ∷ ("blocked-traffic", "network-policy-recovery")
    ∷ []
