-- ===== src/Runtime/WellFormed.antt =====
-- When a run is well formed, and what the writes of the methods make of such a run.
use zth_sre.Prelude.{
  ℕ, zero, suc, ◌≤◌, ◌≡◌, ◌∙◌, refl, ◌⊎◌, String, Bool, true, false, ◌&&◌, ◌||◌, not, Option, none,
  some, List, [], ◌∷◌, ◌++◌, ◌==◌, String_eq, ℕ_eq, ltb, length, length-append, arith, ltb→lt,
}
use zth_sre.Runtime.State.{RunState, Exercise, new_run, diagnosed}
use zth_sre.Runtime.Operations.{hints_of, intervened, phased, judged}

-- 0, 1, …, n - 1.
pub count_up : ℕ → List ℕ
count_up zero = []
count_up (suc n) = count_up n ++ n ∷ []

abbrev nonempty {ℓ} : {A : Type ℓ} → List A → Bool
nonempty [] = false
nonempty (x ∷ xs) = true

-- Something was done about the incident.
abbrev pub acted : RunState → Bool
acted r =
    r.recovery_seen
    || (nonempty r.interventions || (r.file_evidence_seen || not (r.alert_expression == "")))

abbrev pub known_phase : String → Bool
known_phase phase = phase == "baseline" || (phase == "incident" || phase == "recovery")

module _ {F : Type 0} (catalog : String → Option (Exercise F)) where
  pub record RunInv (r : RunState) : Type 0 where
    -- No mitigation, recovery, alert or file evidence without a diagnosis on record.
    pub earned : acted r ≡ true → (r.diagnosis == "") ≡ false
    -- The hints are revealed in order, each once, and only those that the exercise has.
    pub in_order : r.revealed_hints ≡ count_up (length r.revealed_hints)
    pub available : length r.revealed_hints ≤ length (hints_of (catalog r.scenario))
    pub in_phase : known_phase r.phase ≡ true

  abbrev pub ActiveInv : Option RunState → Type 0
  ActiveInv none = Unit {0}
  ActiveInv (some r) = RunInv r

  pub new_run-RunInv :
      (id scenario : String) (now : ℕ)
      → RunInv (record (new_run id scenario now) { state = "running" })
  unfolding count_up
  new_run-RunInv id scenario now = record {
    earned = λ h. cc;
    in_order = refl;
    available = omega arith;
    in_phase = refl;
  }

  pub and_false : (a b : Bool) → (a && not b) ≡ false → (a ≡ false) ⊎ (b ≡ true)
  and_false a b h = ground arith

  -- What a mitigation, a phase, and so on, make of a run.
  pub intervened-RunInv :
      (action : String) (r : RunState)
      → diagnosed r ≡ true
      → RunInv r
      → RunInv (intervened action r)
  unfolding diagnosed
  intervened-RunInv action r d v = record {
    earned = λ h. ground arith;
    in_order = v.in_order;
    available = v.available;
    in_phase = refl;
  }

  pub phased-RunInv :
      (phase : String) (r : RunState)
      → known_phase phase ≡ true
      → (phase == "recovery") ≡ false ⊎ (diagnosed r ≡ true)
      → RunInv r
      → RunInv (phased phase r)
  unfolding diagnosed
  phased-RunInv phase r k d v = record {
    earned = λ h. ground (arith, d);
    in_order = v.in_order;
    available = v.available;
    in_phase = k;
  }

  pub judged-RunInv :
      (phase : String) (fired : Bool) (r : RunState) → RunInv r → RunInv (judged phase fired r)
  judged-RunInv phase fired r v = ground arith

  pub has_diagnosis : (r : RunState) → diagnosed r ≡ true → (r.diagnosis == "") ≡ false
  unfolding diagnosed
  has_diagnosis r d = ground arith

  longer : (xs : List ℕ) → length (xs ++ length xs ∷ []) ≡ suc (length xs)
  longer xs = length-append xs (length xs ∷ []) ∙ omega arith

  pub hinted-RunInv :
      (r : RunState)
      → ltb (length r.revealed_hints) (length (hints_of (catalog r.scenario))) ≡ true
      → RunInv r
      → RunInv (record r { revealed_hints = r.revealed_hints ++ length r.revealed_hints ∷ [] })
  unfolding count_up
  hinted-RunInv r h v = record {
    earned = v.earned;
    in_order = rw (longer r.revealed_hints, ← v.in_order) refl;
    available = rw (longer r.revealed_hints) (ltb→lt _ _ h);
    in_phase = v.in_phase;
  }
