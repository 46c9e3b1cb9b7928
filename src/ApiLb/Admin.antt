-- ===== src/ApiLb/Admin.antt =====
-- PUT and GET of /admin/state.
use zth_sre.Prelude.{
  Bool-cases, ◌||◌, ℕ, ◌≡◌, refl, ◌⊎◌, inl, inr, Bool, true, false, Option, none, some, ◌==◌, ℕ_eq,
  arith,
}
use zth_sre.Prelude.Int.{ℤ, pos, negsuc}
use zth_sre.Http.{Body, Response, refused, answered, status_of}
use zth_sre.ApiLb.{Balancer, update_state, decoded_state}
use zth_sre.ApiLb.Rotation.{Inv}

-- The bodies that are accepted: the number 1 or 2, and nothing after the object.
abbrev pub Accepts : Bool → Option (Option ℤ) → ℕ → Type 0
Accepts at_end value n = (value ≡ some (some (pos n))) × (at_end ≡ true) × ((n ≡ 1) ⊎ (n ≡ 2))

abbrev pub Handled : Bool → Option (Option ℤ) → Balancer → Balancer × Response ℕ → Type 0
Handled at_end value b r =
    ((n : ℕ) × Accepts at_end value n × (r ≡ (record b { active = n }, answered 200 n)))
    ⊎ (((n : ℕ) → ¬ Accepts at_end value n) × (r ≡ (b, refused 400)))

decoded_state_lem :
    (at_end : Bool) (value : Option (Option ℤ)) (b : Balancer)
    → Handled at_end value b (decoded_state at_end value b)
unfolding decoded_state
decoded_state_lem at_end none b = inr (λ n (e, f, g). cc, refl)
decoded_state_lem at_end (some none) b = inr (λ n (e, f, g). cc, refl)
decoded_state_lem at_end (some (some (negsuc n))) b = inr (λ n (e, f, g). cc, refl)
decoded_state_lem false (some (some (pos n))) b = inr (λ m (e, f, g). cc, ground arith)
decoded_state_lem true (some (some (pos n))) b = elim (Bool-cases (n == 1 || n == 2)) [
  | inl ok ↦ inl (n, (refl, refl, ground arith), ground arith)
  | inr bad ↦ inr (λ m (e, f, g). ground arith, ground arith)
]

-- `updateState` accepts exactly the bodies of one object whose number of backends is 1 or 2: these
-- set the number of active backends, and leave the counter alone. Any other body is refused with
-- 400, and changes nothing.
pub update_state_lem :
    (body : Body (Option ℤ)) (b : Balancer) → Handled body.at_end body.value b (update_state body b)
unfolding update_state
update_state_lem body b = decoded_state_lem body.at_end body.value b

pub update_state-Inv : (body : Body (Option ℤ)) (b : Balancer) → Inv b → Inv (update_state body b).0
unfolding update_state
update_state-Inv body b v = ground arith

-- The body of a number of backends, as the runtime sends it.
pub whole : ℕ → Body (Option ℤ)
whole n = record { value = some (some (pos n)); at_end = true }

pub update_state-whole :
    (n : ℕ) (b : Balancer)
    → (n ≡ 1) ⊎ (n ≡ 2)
    → ((update_state (whole n) b).0.active ≡ n) × (status_of (update_state (whole n) b).1 ≡ 200)
unfolding whole
update_state-whole n b h = elim (update_state_lem (whole n) b) [
  | inl (m, a, e) ↦
      let q : some (some (pos n)) ≡ some (some (pos m)) = a.0 in
      let p : m ≡ n = cc in (rw e p, rw e refl)
  | inr (refuses, e) ↦ absurd (refuses n (refl, refl, h))
]
