-- ===== src/Runtime/Invariant.antt =====
-- What holds of the active run after any calls of the methods, in any order and with any failures of
-- the other services.
use zth_sre.Prelude.{
  ℕ, ◌≡◌, refl, ◌⊎◌, inl, inr, String, Bool, true, false, Option, none, some, List, [], ◌∷◌,
  if◌then◌else◌, ◌==◌, String_eq, ℕ_eq, arith, Bool-cases, Option-cases,
}
use zth_sre.Prelude.Int.{ℤ, pos, negsuc}
use zth_sre.Runtime.State.{RunState, Exercise, new_run, is_alert, diagnosed}
use zth_sre.Runtime.Control.{stop_traffic, put_balancer, Request, apply_state, start_run_traffic}
use zth_sre.Runtime.Operations.{
  Evaluation, Manager, started, with_incident, start_found, start, reset, set_capacity, intervene,
  set_phase, set_diagnosis, reveal_hint, set_alert, mark_file_evidence, judge, intervened, phased,
  judged,
}
use zth_sre.Runtime.WellFormed.{
  known_phase, RunInv, ActiveInv, new_run-RunInv, intervened-RunInv, phased-RunInv, judged-RunInv,
  has_diagnosis, hinted-RunInv,
}

module _ {F W : Type 0} (send : Request → W → W × Bool) (catalog : String → Option (Exercise F))
    (policy : Bool) where
  -- A call of a method, and a round of an evaluation. The HTTP handler lets no empty diagnosis and no
  -- capacity below one through.
  pub data Call : Type 0 where
    starts : String → String → ℕ → Call
    resets : Call
    sets_capacity : ℤ → Call
    intervenes : String → Call
    sets_phase : String → Call
    diagnoses : (diagnosis : String) → String → (diagnosis == "") ≡ false → Call
    reveals : Call
    sets_alert : Bool → Bool → String → Call
    marks_evidence : Call
    judges : Evaluation → Bool → Call

  unfoldable pub step : Call → Manager W → Manager W
  step (starts id new_id now) m = (start send catalog policy id new_id now m).0
  step resets m = (reset send catalog policy m).0
  step (sets_capacity n) m = (set_capacity send catalog policy n m).0
  step (intervenes action) m = (intervene send catalog policy action m).0
  step (sets_phase phase) m = (set_phase send catalog policy phase m).0
  step (diagnoses d note h) m = (set_diagnosis send catalog policy d note m).0
  step reveals m = (reveal_hint send catalog policy m).0
  step (sets_alert accepted plain e) m = (set_alert send catalog policy accepted plain e m).0
  step marks_evidence m = (mark_file_evidence send catalog policy m).0
  step (judges e fired) m = judge e fired m

  pub run : Manager W → List Call → Manager W
  run m [] = m
  run m (c ∷ cs) = run (step c m) cs

  intervene-Inv :
      (action : String) (m : Manager W)
      → ActiveInv catalog m.active
      → ActiveInv catalog (intervene send catalog policy action m).0.active
  unfolding intervene
  intervene-Inv action m v = elim (Option-cases m.active) [
    | inl e ↦ rw e tt
    | inr (r, e) ↦
        let i : RunInv catalog r = rw e at v in
        let next : diagnosed r ≡ true → RunInv catalog (intervened action r) =
          λ d. intervened-RunInv catalog action r d i in
        rw e (ground (arith, i, next))
  ]

  set_capacity-Inv :
      (n : ℤ) (m : Manager W)
      → ActiveInv catalog m.active
      → ActiveInv catalog (set_capacity send catalog policy n m).0.active
  unfolding set_capacity
  set_capacity-Inv (negsuc n) m v = elim (Option-cases m.active) [
    | inl e ↦ rw e tt
    | inr (r, e) ↦ rw e (rw e at v)
  ]
  set_capacity-Inv (pos n) m v = elim (Option-cases m.active) [
    | inl e ↦ rw e tt
    | inr (r, e) ↦
        let i : RunInv catalog r = rw e at v in
        let next : diagnosed r ≡ true → RunInv catalog (intervened "horizontal-capacity" r) =
          λ d. intervened-RunInv catalog "horizontal-capacity" r d i in
        rw e (elim (Bool-cases (send (put_balancer n) m.world).1) [
          | inl h ↦ rw h (ground (arith, i, next))
          | inr h ↦ rw h (ground (arith, i, next))
        ])
  ]

  set_phase-Inv :
      (phase : String) (m : Manager W)
      → ActiveInv catalog m.active
      → ActiveInv catalog (set_phase send catalog policy phase m).0.active
  unfolding set_phase
  set_phase-Inv phase m v = elim (Option-cases m.active) [
    | inl e ↦ rw e tt
    | inr (r, e) ↦
        let i : RunInv catalog r = rw e at v in
        let next : known_phase phase ≡ true
            → (phase == "recovery") ≡ false ⊎ (diagnosed r ≡ true)
            → RunInv catalog (phased phase r) =
          λ k d. phased-RunInv catalog phase r k d i in
        rw e (ground (arith, i, next))
  ]

  set_diagnosis-Inv :
      (d note : String) (m : Manager W)
      → (d == "") ≡ false
      → ActiveInv catalog m.active
      → ActiveInv catalog (set_diagnosis send catalog policy d note m).0.active
  unfolding set_diagnosis
  set_diagnosis-Inv d note m h v = elim (Option-cases m.active) [
    | inl e ↦ rw e tt
    | inr (r, e) ↦
        let i : RunInv catalog r = rw e at v in
        let next : RunInv catalog (record r { diagnosis = d; evidence_note = note }) = record {
          earned = λ _. h;
          in_order = i.in_order;
          available = i.available;
          in_phase = i.in_phase;
        } in
        rw e (ground (arith, i, next))
  ]

  reveal_hint-Inv :
      (m : Manager W)
      → ActiveInv catalog m.active
      → ActiveInv catalog (reveal_hint send catalog policy m).0.active
  unfolding reveal_hint
  reveal_hint-Inv m v = elim (Option-cases m.active) [
    | inl e ↦ rw e tt
    | inr (r, e) ↦
        let i : RunInv catalog r = rw e at v in
        let next = hinted-RunInv catalog r in rw e (ground (arith, i, next))
  ]

  set_alert-Inv :
      (accepted plain : Bool) (expression : String) (m : Manager W)
      → ActiveInv catalog m.active
      → ActiveInv catalog (set_alert send catalog policy accepted plain expression m).0.active
  unfolding set_alert
  set_alert-Inv accepted plain expression m v = elim (Option-cases m.active) [
    | inl e ↦ rw e tt
    | inr (r, e) ↦
        let i : RunInv catalog r = rw e at v in
        let next : diagnosed r ≡ true
            → RunInv catalog (record r { alert_expression = expression }) =
          λ d. record {
            earned = λ _. has_diagnosis catalog r d;
            in_order = i.in_order;
            available = i.available;
            in_phase = i.in_phase;
          } in
        rw e (ground (arith, i, next))
  ]

  mark_file_evidence-Inv :
      (m : Manager W)
      → ActiveInv catalog m.active
      → ActiveInv catalog (mark_file_evidence send catalog policy m).0.active
  unfolding mark_file_evidence
  mark_file_evidence-Inv m v = elim (Option-cases m.active) [
    | inl e ↦ rw e tt
    | inr (r, e) ↦
        let i : RunInv catalog r = rw e at v in
        let next : diagnosed r ≡ true → RunInv catalog (record r { file_evidence_seen = true }) =
          λ d. record {
            earned = λ _. has_diagnosis catalog r d;
            in_order = i.in_order;
            available = i.available;
            in_phase = i.in_phase;
          } in
        rw e (ground (arith, i, next))
  ]

  reset-Inv :
      (m : Manager W)
      → ActiveInv catalog m.active
      → ActiveInv catalog (reset send catalog policy m).0.active
  unfolding reset
  reset-Inv m v = ground (arith, v)

  judge-Inv :
      (e : Evaluation) (fired : Bool) (m : Manager W)
      → ActiveInv catalog m.active
      → ActiveInv catalog (judge e fired m).active
  unfolding judge
  judge-Inv ev fired m v = elim (Option-cases m.active) [
    | inl e ↦ rw e tt
    | inr (r, e) ↦
        let i : RunInv catalog r = rw e at v in
        let next : RunInv catalog (judged ev.phase fired r) =
          judged-RunInv catalog ev.phase fired r i in
        rw e (ground (arith, i, next))
  ]

  started-Inv :
      (r : RunState) (m : Manager W) (answer : W × Bool)
      → RunInv catalog (record r { state = "running" })
      → ActiveInv catalog (started send catalog policy r m answer).0.active
  unfolding started
  started-Inv r m (w, true) v = v
  started-Inv r m (w, false) v = tt

  with_incident-Inv :
      (r : RunState) (m : Manager W)
      → RunInv catalog (record r { state = "running" })
      → ActiveInv catalog (with_incident send catalog policy r m).0.active
  unfolding with_incident
  with_incident-Inv r m v =
      let (w, ok) =
        (if is_alert r.scenario
          then (m.world, true)
          else apply_state send policy "incident" (some r) m.world) in
      elim (Bool-cases ok) [
        | inl h ↦ rw h (started-Inv r m (start_run_traffic send r w) v)
        | inr h ↦ rw h tt
      ]

  start_found-Inv :
      (found : Option (Exercise F)) (new_id : String) (now : ℕ) (m : Manager W)
      → m.active ≡ none
      → ActiveInv catalog (start_found send catalog policy found new_id now m).0.active
  unfolding start_found
  start_found-Inv none new_id now m e = rw e tt
  start_found-Inv (some item) new_id now m e =
      let w1 = (send stop_traffic m.world).0 in
      let w2 = (apply_state send policy "baseline" none w1).0 in
      let idle : ActiveInv catalog m.active = rw e tt in
      let begun =
        with_incident-Inv (new_run new_id item.id now) (record m { world = w2 })
          (new_run-RunInv catalog new_id item.id now) in
      ground (arith, begun, idle)

  start-Inv :
      (id new_id : String) (now : ℕ) (m : Manager W)
      → ActiveInv catalog m.active
      → ActiveInv catalog (start send catalog policy id new_id now m).0.active
  unfolding start
  start-Inv id new_id now m v = elim (Option-cases m.active) [
    | inr (r, e) ↦ rw e (rw e at v)
    | inl e ↦ rw e (start_found-Inv (catalog id) new_id now (record m { active = none }) refl)
  ]

  pub step-Inv :
      (c : Call) (m : Manager W) → ActiveInv catalog m.active → ActiveInv catalog (step c m).active
  unfolding step
  step-Inv (starts id new_id now) m v = start-Inv id new_id now m v
  step-Inv resets m v = reset-Inv m v
  step-Inv (sets_capacity n) m v = set_capacity-Inv n m v
  step-Inv (intervenes action) m v = intervene-Inv action m v
  step-Inv (sets_phase phase) m v = set_phase-Inv phase m v
  step-Inv (diagnoses d note h) m v = set_diagnosis-Inv d note m h v
  step-Inv reveals m v = reveal_hint-Inv m v
  step-Inv (sets_alert accepted plain e) m v = set_alert-Inv accepted plain e m v
  step-Inv marks_evidence m v = mark_file_evidence-Inv m v
  step-Inv (judges e fired) m v = judge-Inv e fired m v

  -- From a manager with no active run, or with one that is well formed, any calls and evaluation
  -- rounds, in any order and whichever requests to the other services fail, leave it so. Well formed
  -- means: an intervention, a recovery, an alert or file evidence stands only beside a diagnosis; the
  -- revealed hints are 0, 1, 2 and so on, no more than the exercise has; and the phase is one of the
  -- three known ones. As in the HTTP handler, no empty diagnosis is recorded.
  pub run-Inv :
      (m : Manager W) (calls : List Call)
      → ActiveInv catalog m.active
      → ActiveInv catalog (run m calls).active
  unfolding run
  run-Inv m [] v = v
  run-Inv m (c ∷ cs) v = run-Inv (step c m) cs (step-Inv c m v)
