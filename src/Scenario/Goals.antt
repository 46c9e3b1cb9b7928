-- ===== src/Scenario/Goals.antt =====
-- What the checks of the faults, the objectives and the grading of a scenario mean.
use zth_sre.Prelude.{
  ◌≡◌, refl, ◌↔◌, ◌⊎◌, false, ◌||◌, none, List, [], ◌∷◌, String_eq, ℕ_eq, All, arith, eq_iff,
}
use zth_sre.Prelude.Int.{ℤ_eq}
use zth_sre.Scenario.{
  Comparisons, Fault, Objectives, Grading, check, beyond, validate_duration, validate_fault,
  validate_faults, validate_objectives, validate_grading, wrong_fault, wrong_objectives,
  wrong_grading,
}
use zth_sre.Scenario.Faults.{
  Kind, refused_as_iff, InRange, beyond-InRange, Positive, not_positive-Positive,
}
use zth_sre.Scenario.Rules.{check_iff, first_iff, duration_iff, Rate, InHour}

module _ {F : Type 0} (fl : Comparisons F) where
  open fl use {one, max_rate, at_most, above, same}

  -- A fault of one of the ten types, on a service that it is for, with the parameters that it asks for.
  abbrev pub Allowed : Fault F → Type 0
  Allowed f = ((f.target ≡ "api") ⊎ (f.target ≡ "dependency")) × Kind fl f.kind f.target f.config

  fault_iff : (f : Fault F) → (validate_fault fl f ≡ none) ↔ Allowed f
  unfolding validate_fault
  fault_iff f =
      let parts = first_iff (check _ wrong_fault ∷ check _ wrong_fault ∷ []) in
      let api = eq_iff f.target "api" in
      let dependency = eq_iff f.target "dependency" in
      let kind = refused_as_iff fl f.kind f.target f.config in
      (
        λ h.
            let (a, (b, _)) = parts.0 h in
            let c = (check_iff _ wrong_fault).0 a in
            let d = (check_iff _ wrong_fault).0 b in (ground (arith, api, dependency, c), kind.0 d),
        λ h. parts.1 (
          (check_iff _ wrong_fault).1 (let t = h.0 in ground (arith, t, api, dependency)),
          ((check_iff _ wrong_fault).1 (kind.1 h.1), tt),
        ),
      )

  pub faults_iff : (fs : List (Fault F)) → (validate_faults fl fs ≡ none) ↔ All Allowed fs
  unfolding validate_faults
  faults_iff [] = (λ h. tt, λ h. refl)
  faults_iff (f ∷ fs) =
      let parts = first_iff (validate_fault fl f ∷ validate_faults fl fs ∷ []) in
      let here = fault_iff f in
      let later = faults_iff fs in
      (
        λ h. let (a, (b, _)) = parts.0 h in (here.0 a, later.0 b),
        λ (a, b). parts.1 (here.1 a, (later.1 b, tt)),
      )

  abbrev pub Promised : Objectives F → Type 0
  Promised o =
      (at_most o.availability fl.zero ≡ false)
      × (above o.availability one ≡ false)
      × InRange 60000 o.p95_latency_ms

  pub objectives_iff : (o : Objectives F) → (validate_objectives fl o ≡ none) ↔ Promised o
  unfolding validate_objectives
  objectives_iff o =
      let e =
        check_iff
          (at_most o.availability fl.zero
            || above o.availability one
            || beyond 60000 o.p95_latency_ms)
          wrong_objectives in
      let p95 = beyond-InRange 60000 o.p95_latency_ms in
      (
        λ h. let c = e.0 h in (ground (arith, c), ground (arith, c), p95.0 (ground (arith, c))),
        λ h. let d = p95.1 h.2 in e.1 (ground (arith, h, d)),
      )

  abbrev pub Graded : Grading F → Type 0
  Graded g =
      ((g.kind ≡ "service_recovery")
        ⊎ (g.kind ≡ "alert_behavior")
        ⊎ (g.kind ≡ "burn_rate_alert")
        ⊎ (g.kind ≡ "file_forensics"))
      × InHour g.window
      × Positive g.minimum_requests
      × Rate fl g.minimum_offered_rps

  pub grading_iff : (g : Grading F) → (validate_grading fl g ≡ none) ↔ Graded g
  unfolding validate_grading
  grading_iff g =
      let parts =
        first_iff
          (check _ wrong_grading ∷ validate_duration g.window ∷ check _ wrong_grading ∷ []) in
      let window = duration_iff g.window in
      let positive = not_positive-Positive g.minimum_requests in
      let k1 = eq_iff g.kind "service_recovery" in
      let k2 = eq_iff g.kind "alert_behavior" in
      let k3 = eq_iff g.kind "burn_rate_alert" in
      let k4 = eq_iff g.kind "file_forensics" in
      (
        λ h.
            let (a, (b, (c, _))) = parts.0 h in
            let a1 = (check_iff _ wrong_grading).0 a in
            let b1 = window.0 b in
            let c1 = (check_iff _ wrong_grading).0 c in
            (
              ground (arith, k1, k2, k3, k4, a1),
              b1,
              positive.0 (ground (arith, c1)),
              (ground (arith, c1), ground (arith, c1)),
            ),
        λ h. parts.1 (
          (check_iff _ wrong_grading).1 (ground (arith, h, k1, k2, k3, k4)),
          (
            window.1 (ground (arith, h)),
            ((check_iff _ wrong_grading).1 (let d = positive.1 h.2 in ground (arith, h, d)), tt),
          ),
        ),
      )
