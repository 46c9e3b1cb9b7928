-- ===== src/Runtime/Solvable.antt =====
-- An exercise with a mitigation can be passed: the way from the diagnosis to the outcome.
use zth_sre.Prelude.{
  ◌≤◌, ◌≡◌, refl, inl, inr, String, len, Bool, true, false, Option, some, [], ◌∷◌, ◌++◌, ◌==◌,
  String_eq, ℕ_eq, ltb, elem, elem-append, All, arith, eq_iff, ==_refl, Bool-cases,
}
use mathlib.Core.Path.{subst}
use zth_sre.Prelude.Map.{Map, get, lookup}
use zth_sre.Runtime.State.{
  RunState, Exercise, expected_diagnoses, allowed, is_some, is_alert, expected, diagnosed,
  diagnosis_correct,
}
use zth_sre.Runtime.Control.{Request, apply_state}
use zth_sre.Runtime.Operations.{Manager, set_diagnosis, intervene, intervened}
use zth_sre.Runtime.Solutions.{solution}
use zth_sre.Runtime.Grading.{Floats, Evidence, objectives_met, achieved}
use zth_sre.Runtime.Composition.{World, carry, apply_state_lem}

-- What the tables say of an action and the exercise that it mitigates.
abbrev Fit : String × String → Type 0
Fit (action, scenario) =
    (is_some (lookup scenario expected_diagnoses) ≡ true)
    × ((expected scenario == "") ≡ false)
    × (lookup scenario solution ≡ some action)
    × ((scenario == "file-forensics") ≡ false)
    × (is_alert scenario ≡ false)

allowed-Fit : All Fit allowed
unfolding allowed expected_diagnoses solution lookup
allowed-Fit = (
  (refl, refl, refl, refl, refl),
  (
    (refl, refl, refl, refl, refl),
    (
      (refl, refl, refl, refl, refl),
      (
        (refl, refl, refl, refl, refl),
        (
          (refl, refl, refl, refl, refl),
          (
            (refl, refl, refl, refl, refl),
            ((refl, refl, refl, refl, refl), ((refl, refl, refl, refl, refl), tt)),
          ),
        ),
      ),
    ),
  ),
)

lookup-Fit :
    (table : Map String) (key value : String)
    → All Fit table
    → lookup key table ≡ some value
    → Fit (key, value)
unfolding lookup
lookup-Fit [] key value v h = cc
lookup-Fit ((k, x) ∷ rest) key value (v, vs) h = elim (Bool-cases (k == key)) [
  | inl e ↦
      let q : some x ≡ some value = rw e at h in
      let p : x ≡ value = cc in
      let r : k ≡ key = (eq_iff k key).0 e in
      subst (λ y. Fit (key, y)) p (subst (λ y. Fit (y, x)) r v)
  | inr e ↦ lookup-Fit rest key value vs (rw e at h)
]

-- The active run of a learner who recorded the diagnosis.
abbrev pub diagnosed_run : String → RunState → RunState
diagnosed_run note r = record r { diagnosis = expected r.scenario; evidence_note = note }

module _ {F W : Type 0} (send : Request → W → W × Bool) (catalog : String → Option (Exercise F))
    (policy : Bool) where
  diagnosis-recorded :
      (note : String) (r : RunState) (m : Manager W)
      → m.active ≡ some r
      → is_some (lookup r.scenario expected_diagnoses) ≡ true
      → 10 ≤ len note
      → len note ≤ 2000
      → set_diagnosis send catalog policy (expected r.scenario) note m
        ≡ (record m { active = some (diagnosed_run note r) }, true)
  unfolding set_diagnosis
  diagnosis-recorded note r m e known lo hi =
      let l1 : ltb (len note) 10 ≡ false = ground (arith, lo) in
      let l2 : ltb 2000 (len note) ≡ false = ground (arith, hi) in rw (e, known, l1, l2) refl

  action-applied :
      (action : String) (r : RunState) (m : Manager W)
      → m.active ≡ some r
      → diagnosed r ≡ true
      → get "" action allowed ≡ r.scenario
      → (apply_state send policy "recovery" (some r) m.world).1 ≡ true
      → ((intervene send catalog policy action m).1 ≡ true)
        × ((intervene send catalog policy action m).0.active ≡ some (intervened action r))
  unfolding intervene
  action-applied action r m e d g a =
      let same : (get "" action allowed == r.scenario) ≡ true = rw g (==_refl r.scenario) in
      rw (e, d, same, a) (refl, refl)

diagnosed_lem :
    (note : String) (r : RunState)
    → (expected r.scenario == "") ≡ false
    → (diagnosed (diagnosed_run note r) ≡ true) × (diagnosis_correct (diagnosed_run note r) ≡ true)
unfolding diagnosed diagnosis_correct
diagnosed_lem note r h = let same = ==_refl (expected r.scenario) in (rw (h, same) refl, same)

module _ {F : Type 0} (fl : Floats F) where
  achieved_lem :
      (action : String) (r : RunState) (item : Exercise F) (e : Evidence F)
      → Fit (action, r.scenario)
      → objectives_met fl item e ≡ true
      → achieved fl item e (intervened action r) ≡ true
  unfolding achieved
  achieved_lem action r item e (known, named, solved, no_file, no_alert) met =
      let present : elem action (r.interventions ++ action ∷ []) ≡ true =
        ground (arith, elem-append action r.interventions (action ∷ []), eq_iff action action) in
      rw (no_file, no_alert, solved, present, met) refl

  -- In each of the eight exercises with a mitigation of its own, while its run is active: the learner
  -- who records the expected diagnosis with a note of 10 to 2000 bytes and then applies the mitigation
  -- is let through by the runtime and by the services that it controls, and where the objectives are
  -- met the outcome is then achieved, with the right diagnosis on record.
  pub solvable :
      {T : Type 0} (traffic : Request → T → T × Bool) (catalog : String → Option (Exercise F))
      (action note : String) (r : RunState) (m : Manager (World T)) (item : Exercise F)
      (e : Evidence F)
      → m.active ≡ some r
      → lookup action allowed ≡ some r.scenario
      → 10 ≤ len note
      → len note ≤ 2000
      → objectives_met fl item e ≡ true
      → let m1 = (set_diagnosis (carry traffic) catalog true (expected r.scenario) note m).0 in
        let (m2, done) = intervene (carry traffic) catalog true action m1 in
        (done ≡ true)
        × ((r2 : RunState) × (m2.active ≡ some r2)
            × (achieved fl item e r2 ≡ true)
            × (diagnosis_correct r2 ≡ true))
  unfolding diagnosis_correct
  solvable traffic catalog action note r m item e active entry lo hi met =
      let fit = lookup-Fit allowed action r.scenario allowed-Fit entry in
      let recorded = diagnosis-recorded (carry traffic) catalog true note r m active fit.0 lo hi in
      let r1 = diagnosed_run note r in
      let (diagnosis, right) = diagnosed_lem note r fit.1 in
      let m1 : Manager (World _) = record m { active = some r1 } in
      let g : get "" action allowed ≡ r.scenario = rw entry refl in
      let (ok, next) =
        action-applied (carry traffic) catalog true action r1 m1 refl diagnosis g
          (apply_state_lem traffic "recovery" (some r1) m1.world).0 in
      rw recorded (ok, (intervened action r1, next, achieved_lem action r1 item e fit met, right))
