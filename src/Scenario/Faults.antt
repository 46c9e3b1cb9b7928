-- ===== src/Scenario/Faults.antt =====
-- Which faults of a scenario pass the validation, type by type.
use zth_sre.Prelude.{
  ℕ, ◌≤◌, ◌<◌, ◌≡◌, refl, ◌↔◌, String, Bool, true, false, ◌||◌, not, String_eq, ◌==◌, ℕ_eq, arith,
  eq_iff, if_elim, if◌then◌else◌,
}
use zth_sre.Prelude.Int.{ℤ, pos, negsuc, ℤ_eq}
use zth_sre.Scenario.{
  Comparisons, FaultConfig, beyond, configured, refused_as, not_positive, nonzero,
}
use zth_sre.Scenario.Rules.{nonzero_iff}

-- A number in 1..limit.
abbrev pub InRange : ℕ → ℤ → Type 0
InRange limit (pos n) = (0 < n) × (n ≤ limit)
InRange limit (negsuc n) = ⊥

abbrev pub Positive : ℤ → Type 0
Positive (pos n) = 0 < n
Positive (negsuc n) = ⊥

pub beyond-InRange : (limit : ℕ) (n : ℤ) → (beyond limit n ≡ false) ↔ InRange limit n
beyond-InRange limit (pos n) = (λ h. ground arith, λ h. ground arith)
beyond-InRange limit (negsuc n) = (λ h. ground arith, λ h. ground arith)

pub not_positive-Positive : (n : ℤ) → (not_positive n ≡ false) ↔ Positive n
not_positive-Positive (pos n) = (λ h. ground arith, λ h. ground arith)
not_positive-Positive (negsuc n) = (λ h. ground arith, λ h. ground arith)

module _ {F : Type 0} (fl : Comparisons F) where
  open fl use {one, at_most, above, same}

  -- Every parameter is zero.
  abbrev pub Empty : FaultConfig F → Type 0
  Empty c =
      (c.work_units ≡ pos 0)
      × (same c.probability fl.zero ≡ true)
      × (c.latency_ms ≡ pos 0)
      × (c.retries ≡ pos 0)
      × (c.max_concurrency ≡ pos 0)
      × (c.memory_mb ≡ pos 0)
      × (c.failure_every ≡ pos 0)

  -- What each type of fault asks of its target and its parameters. Parameters that a line does not name
  -- may have any value.
  pub data Kind : String → String → FaultConfig F → Type 0 where
    cpu_work :
        (c : FaultConfig F)
        → Positive c.work_units
        → same c.probability fl.zero ≡ true
        → Kind "cpu_work" "api" c
    error_rate :
        (target : String) (c : FaultConfig F)
        → c.work_units ≡ pos 0
        → at_most c.probability fl.zero ≡ false
        → above c.probability one ≡ false
        → Kind "error_rate" target c
    dependency_latency :
        (c : FaultConfig F) → InRange 10000 c.latency_ms → Kind "dependency_latency" "dependency" c
    connection_exhaustion :
        (c : FaultConfig F) → InRange 1000 c.max_concurrency → Kind "connection_exhaustion" "api" c
    dns_failure : (c : FaultConfig F) → Kind "dns_failure" "dependency" c
    retry_storm : (c : FaultConfig F) → InRange 10 c.retries → Kind "retry_storm" "api" c
    memory_leak : (c : FaultConfig F) → InRange 1024 c.memory_mb → Kind "memory_leak" "api" c
    autoscaler_oscillation : (c : FaultConfig F) → Kind "autoscaler_oscillation" "api" c
    file_handle : (c : FaultConfig F) → Empty c → Kind "file_handle" "api" c
    network_policy : (c : FaultConfig F) → Empty c → Kind "network_policy" "dependency" c

  configured-Empty : (c : FaultConfig F) → (configured fl c ≡ false) ↔ Empty c
  unfolding configured
  configured-Empty c =
      let a = nonzero_iff c.work_units in
      let b = nonzero_iff c.latency_ms in
      let d = nonzero_iff c.retries in
      let e = nonzero_iff c.max_concurrency in
      let f = nonzero_iff c.memory_mb in
      let g = nonzero_iff c.failure_every in
      (λ h. ground (arith, h, a, b, d, e, f, g), λ h. ground (arith, h, a, b, d, e, f, g))

  Kind-passes :
      (kind target : String) (c : FaultConfig F)
      → Kind kind target c
      → refused_as fl kind target c ≡ false
  unfolding refused_as
  Kind-passes _ _ _ (cpu_work c n p) =
      let k = (not_positive-Positive c.work_units).1 n in ground (arith, k, p)
  Kind-passes _ _ _ (error_rate target c n p q) = ground (arith, n, p, q)
  Kind-passes _ _ _ (dependency_latency c n) = (beyond-InRange 10000 c.latency_ms).1 n
  Kind-passes _ _ _ (connection_exhaustion c n) = (beyond-InRange 1000 c.max_concurrency).1 n
  Kind-passes _ _ _ (dns_failure c) = refl
  Kind-passes _ _ _ (retry_storm c n) = (beyond-InRange 10 c.retries).1 n
  Kind-passes _ _ _ (memory_leak c n) = (beyond-InRange 1024 c.memory_mb).1 n
  Kind-passes _ _ _ (autoscaler_oscillation c) = refl
  Kind-passes _ _ _ (file_handle c e) = (configured-Empty c).1 e
  Kind-passes _ _ _ (network_policy c e) = (configured-Empty c).1 e

  -- The case of a type: what its test lets through, and the cases after it.
  passes :
      (name kind target : String) (c : FaultConfig F) (test later : Bool)
      → (test ≡ false → Kind name target c)
      → (later ≡ false → Kind kind target c)
      → (if kind == name then test else later) ≡ false
      → Kind kind target c
  passes name kind target c test later this next h =
      if_elim (kind == name) h (λ k e. let q = (eq_iff kind name).0 k in rw q (this e))
        (λ k e. next e)

  -- A test that begins with the target.
  aimed :
      (name wanted target : String) (c : FaultConfig F) (test : Bool)
      → (test ≡ false → Kind name wanted c)
      → (not (target == wanted) || test) ≡ false
      → Kind name target c
  aimed name wanted target c test this h =
      let k : (target == wanted) ≡ true = ground (arith, h) in
      let q = (eq_iff target wanted).0 k in rw q (this (ground (arith, h)))

  target_of :
      (name wanted target : String) (c : FaultConfig F)
      → Kind name wanted c
      → not (target == wanted) ≡ false
      → Kind name target c
  target_of name wanted target c this h =
      let q = (eq_iff target wanted).0 (ground (arith, h)) in rw q this

  passes-Kind :
      (kind target : String) (c : FaultConfig F)
      → refused_as fl kind target c ≡ false
      → Kind kind target c
  unfolding refused_as
  passes-Kind kind target c =
      passes "cpu_work" kind target c _ _
        (λ h.
          let positive = (not_positive-Positive c.work_units).0 (ground (arith, h)) in
          target_of "cpu_work" "api" target c (cpu_work c positive (ground (arith, h)))
            (ground (arith, h)))
        (passes "error_rate" kind target c
          (nonzero c.work_units || at_most c.probability fl.zero || above c.probability one) _
          (λ h.
            error_rate target c (ground (arith, h, nonzero_iff c.work_units)) (ground (arith, h))
              (ground (arith, h)))
          (passes "dependency_latency" kind target c _ _
            (aimed "dependency_latency" "dependency" target c _
              λ h. dependency_latency c ((beyond-InRange 10000 c.latency_ms).0 h))
            (passes "connection_exhaustion" kind target c _ _
              (aimed "connection_exhaustion" "api" target c _
                λ h. connection_exhaustion c ((beyond-InRange 1000 c.max_concurrency).0 h))
              (passes "dns_failure" kind target c _ _
                (target_of "dns_failure" "dependency" target c (dns_failure c))
                (passes "retry_storm" kind target c _ _
                  (aimed "retry_storm" "api" target c _
                    λ h. retry_storm c ((beyond-InRange 10 c.retries).0 h))
                  (passes "memory_leak" kind target c _ _
                    (aimed "memory_leak" "api" target c _
                      λ h. memory_leak c ((beyond-InRange 1024 c.memory_mb).0 h))
                    (passes "autoscaler_oscillation" kind target c _ _
                      (target_of "autoscaler_oscillation" "api" target c (autoscaler_oscillation c))
                      (passes "file_handle" kind target c _ _
                        (aimed "file_handle" "api" target c _
                          λ h. file_handle c ((configured-Empty c).0 h))
                        (passes "network_policy" kind target c _ true
                          (aimed "network_policy" "dependency" target c _
                            λ h. network_policy c ((configured-Empty c).0 h))
                          (λ h. absurd (cc)))))))))))

  pub refused_as_iff :
      (kind target : String) (c : FaultConfig F)
      → (refused_as fl kind target c ≡ false) ↔ Kind kind target c
  refused_as_iff kind target c = (passes-Kind kind target c, Kind-passes kind target c)
