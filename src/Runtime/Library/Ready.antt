-- ===== src/Runtime/Library/Ready.antt =====
-- The runtime has what it needs for every exercise of a loaded catalog.
use zth_sre.Prelude.{
  ℕ, ◌<◌, ◌≡◌, refl, ◌⊎◌, inl, inr, String, Bool, true, false, ◌&&◌, ◌||◌, Option, some, List, [],
  ◌∷◌, ◌==◌, String_eq, ℕ_eq, length, elem, elem-of_count, All, All-elem, arith, eq_iff, Bool-cases,
}
use zth_sre.Prelude.Int.{ℤ, pos, negsuc, ℤ_eq, out_of_range}
use zth_sre.Prelude.Map.{Map, insert, lookup, lookup-insert}
use zth_sre.Scenario.{Scenario, Comparisons, required_ids}
use zth_sre.Scenario.Faults.{beyond-InRange}
use zth_sre.Scenario.Validity.{Valid}
use zth_sre.Scenario.Catalog.{Entry, Content, ids, load}
use zth_sre.Scenario.Catalog.Installed.{load_lem}
use zth_sre.Runtime.State.{Exercise, expected_diagnoses, traffic_profiles, is_alert, is_some}
use zth_sre.Runtime.Solutions.{solution}
use zth_sre.Runtime.Library.{exercise_of, index, by_id, bound}

-- An expected diagnosis, a traffic profile, and a way to pass: an alert, the evidence of a file, or an
-- intervention.
pub playable : String → Bool
playable id =
    is_some (lookup id expected_diagnoses)
    && (is_some (lookup id traffic_profiles)
        && (is_alert id || (id == "file-forensics" || is_some (lookup id solution))))

required-playable : All (λ id. playable id ≡ true) required_ids
unfolding required_ids playable expected_diagnoses traffic_profiles solution lookup
required-playable = (
  refl,
  (
    refl,
    (refl, (refl, (refl, (refl, (refl, (refl, (refl, (refl, (refl, (refl, (refl, tt))))))))))),
  ),
)

bound_lem : (limit : ℕ) (n : ℤ) → (n == pos 0 || out_of_range limit n) ≡ false → 0 < bound n
bound_lem limit (pos n) h = ground (arith, h)
bound_lem limit (negsuc n) h = ground (arith, h)

module _ {F : Type 0} (fl : Comparisons F) where
  -- The exercise of an id, with a hint and an objective for the latency.
  Filed : String → Option (Exercise F) → Type 0
  Filed id found =
      (item : Exercise F) × (found ≡ some item)
      × (item.id ≡ id)
      × (0 < length item.hints)
      × (0 < item.p95_latency_ms)

  index-Filed :
      (id : String) (rest : List (Scenario F)) (m : Map (Exercise F))
      → All (Valid fl) rest
      → (elem id (ids rest) ≡ true) ⊎ Filed id (lookup id m)
      → Filed id (lookup id (index rest m))
  unfolding index ids Filed
  index-Filed id [] m v (inl e) = absurd (ground (arith, e))
  index-Filed id [] m v (inr f) = f
  index-Filed id (s ∷ rest) m (v, vs) h =
      index-Filed id rest (insert s.id (exercise_of s) m) vs (elim (Bool-cases (s.id == id)) [
        | inl e ↦
            let q : s.id ≡ id = (eq_iff s.id id).0 e in
            let at : lookup id (insert s.id (exercise_of s) m) ≡ some (exercise_of s) =
              rw (lookup-insert s.id id (exercise_of s) m, e) refl in
            let (a, b, c) = v.objectives in
            let in_range = (beyond-InRange 60000 s.objectives.p95_latency_ms).1 c in
            inr (
              exercise_of s,
              at,
              q,
              v.hints.0,
              bound_lem 60000 s.objectives.p95_latency_ms in_range,
            )
        | inr e ↦
            let at : lookup id (insert s.id (exercise_of s) m) ≡ lookup id m =
              rw (lookup-insert s.id id (exercise_of s) m, e) refl in
            elim h [ inl k ↦ inl (rw e at k) | inr f ↦ inr (rw at f) ]
      ])

  -- Where `Load` succeeds, `byID` has an exercise under each of the thirteen required ids, with that id,
  -- with a hint, and with an objective for the latency; and the runtime's tables have a diagnosis to
  -- expect and a traffic profile for it, and an intervention that it is passed with, unless it is passed
  -- with an alert or the evidence of a file.
  pub load-playable :
      (sort : List String → List String) (files : String → Content F) (entries : List Entry)
      (catalog : List (Scenario F)) (id : String)
      → load fl sort files (some entries) ≡ some catalog
      → elem id required_ids ≡ true
      → ((item : Exercise F) × (by_id catalog id ≡ some item)
          × (item.id ≡ id)
          × (0 < length item.hints)
          × (0 < item.p95_latency_ms))
        × (playable id ≡ true)
  unfolding by_id Filed
  load-playable sort files entries catalog id l r =
      let (read, valid, complete) = (load_lem fl sort files entries catalog).0 l in
      let held : elem id (ids catalog) ≡ true =
        rw (elem-of_count id (ids catalog) required_ids (complete id)) r in
      (
        index-Filed id catalog [] valid (inl held),
        All-elem (λ x. playable x ≡ true) id required_ids required-playable r,
      )
