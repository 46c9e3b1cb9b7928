-- ===== src/Runtime/Gating.antt =====
-- What a run without the right diagnosis is kept from.
use zth_sre.Prelude.{String, Bool, false, ◌≡◌, refl, Option, some, String_eq, arith}
use zth_sre.Prelude.Int.{ℤ, pos, negsuc}
use zth_sre.Runtime.State.{RunState, Exercise, diagnosed}
use zth_sre.Runtime.Control.{Request}
use zth_sre.Runtime.Operations.{
  Manager, set_capacity, intervene, set_phase, set_alert, mark_file_evidence,
}

module _ {F W : Type 0} (send : Request → W → W × Bool) (catalog : String → Option (Exercise F))
    (policy : Bool) where
  capacity_refused :
      (n : ℤ) (m : Manager W) (r : RunState)
      → m.active ≡ some r
      → diagnosed r ≡ false
      → set_capacity send catalog policy n m ≡ (m, false)
  unfolding set_capacity
  capacity_refused (negsuc n) m r e d = rw e refl
  capacity_refused (pos n) m r e d = rw e (ground (arith, d))

  -- While the diagnosis of the active run is missing or wrong, each of the five calls that mitigate
  -- an incident, complete its evidence or enter the recovery phase is refused: it reports an error, sends no
  -- request to another service, and leaves the manager as it was.
  pub mitigations_gated :
      (action expression : String) (n : ℤ) (accepted plain : Bool) (m : Manager W) (r : RunState)
      → m.active ≡ some r
      → diagnosed r ≡ false
      → (intervene send catalog policy action m ≡ (m, false))
        × (set_capacity send catalog policy n m ≡ (m, false))
        × (set_phase send catalog policy "recovery" m ≡ (m, false))
        × (set_alert send catalog policy accepted plain expression m ≡ (m, false))
        × (mark_file_evidence send catalog policy m ≡ (m, false))
  unfolding intervene set_phase set_alert mark_file_evidence
  mitigations_gated action expression n accepted plain m r e d = (
    rw e (ground (arith, d)),
    capacity_refused n m r e d,
    rw e (ground (arith, d)),
    rw e (ground (arith, d)),
    rw e (ground (arith, d)),
  )
