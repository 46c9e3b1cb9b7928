-- ===== src/Progress/Opened.antt =====
-- Which files the checklists can be opened from.
use zth_sre.Prelude.{
  ℕ, ◌≤◌, ◌≡◌, refl, ◌↔◌, inl, inr, String, ℕ_eq, true, false, Option, none, some, List, [], ◌∷◌,
  length, All, arith, Bool-cases,
}
use zth_sre.Prelude.Int.{ℤ, pos, negsuc}
use zth_sre.Prelude.Map.{Map}
use zth_sre.Prelude.Sort.{Sorter, KeyOrder}
use zth_sre.Prelude.Chain.{Made}
use zth_sre.Files.{Storage, Loaded, missing, unreadable, undecodable, loaded, load}
use zth_sre.Progress.{Record, valid_id, normalize, keep, checked, stored, opened, open_store}
use zth_sre.Progress.Steps.{any_invalid, Normalized, normalize-Normalized}

-- A step in 0..999.
abbrev pub Step : ℤ → Type 0
Step (pos n) = n ≤ 999
Step (negsuc n) = ⊥

-- A record with a proper id, and at most 100 steps.
abbrev pub Proper : String × Record → Type 0
Proper (id, r) =
    (valid_id id ≡ true) × (length r.completed_steps ≤ 100) × All Step r.completed_steps

any_invalid_iff : (steps : List ℤ) → (any_invalid steps ≡ false) ↔ All Step steps
any_invalid_iff [] = (λ h. tt, λ h. refl)
any_invalid_iff (pos n ∷ steps) =
    let rest = any_invalid_iff steps in
    (λ h. (ground (arith, h), rest.0 (ground (arith, h))), λ (a, b). ground (arith, a, rest.1 b))
any_invalid_iff (negsuc n ∷ steps) = (λ h. absurd (ground (arith, h)), λ (a, b). absurd a)

-- The file is missing, or holds proper records.
abbrev pub Openable : Loaded (Map Record) → Type 0
Openable missing = Unit {0}
Openable (loaded m) = All Proper m
Openable _ = ⊥

module _ (order : KeyOrder ℕ ℕ_eq) (sorter : Sorter ℕ ℕ_eq ◌≤◌) where
  open order use {keys}
  open sorter use {sort}

  allowed_steps :
      (steps : List ℤ) (out : Option (List ℤ))
      → Normalized steps out
      → Made out ↔ ((length steps ≤ 100) × All Step steps)
  allowed_steps steps none v = (
    λ (a, e). absurd (cc),
    λ (short, all). absurd (elim v [
      | inl long ↦ omega (arith, short, long)
      | inr bad ↦ let good = (any_invalid_iff steps).1 all in cc
    ]),
  )
  allowed_steps steps (some out) v =
      (λ made. (v.0, (any_invalid_iff steps).0 v.1), λ proper. (out, refl))

  normalize-Made :
      (steps : List ℤ) → Made (normalize keys sort steps) ↔ ((length steps ≤ 100) × All Step steps)
  normalize-Made steps =
      allowed_steps steps (normalize keys sort steps) (normalize-Normalized order sorter steps)

  keep-Made :
      (id : String) (r : Record) (steps : Option (List ℤ)) (rest : Option (Map Record))
      → Made (keep keys sort id r steps rest) ↔ (Made steps × Made rest)
  unfolding keep
  keep-Made id r none rest = (λ (a, e). absurd (cc), λ ((a, e), later). absurd (cc))
  keep-Made id r (some steps) none = (λ (a, e). absurd (cc), λ (here, (a, e)). absurd (cc))
  keep-Made id r (some steps) (some m) = (λ made. ((steps, refl), (m, refl)), λ both. (_, refl))

  checked-Made : (m : Map Record) → Made (checked keys sort m) ↔ All Proper m
  unfolding checked
  checked-Made [] = (λ made. tt, λ all. ([], refl))
  checked-Made ((id, r) ∷ m) =
      let later = checked-Made m in
      let steps = normalize-Made r.completed_steps in
      let both = keep-Made id r (normalize keys sort r.completed_steps) (checked keys sort m) in
      elim (Bool-cases (valid_id id)) [
        | inl good ↦ (
          λ made.
              let (a, b) = both.0 (rw good at made) in
              let (short, all) = steps.0 a in ((good, short, all), later.0 b),
          λ ((good, short, all), rest). rw good (both.1 (steps.1 (short, all), later.1 rest)),
        )
        | inr bad ↦ (
          λ made. let (a, e) = rw bad at made in absurd (cc),
          λ ((good, short, all), rest). absurd (cc),
        )
      ]

  stored-Made :
      {D : Type 0} (d : D) (m : Option (Map Record)) → Made (stored keys sort d m) ↔ Made m
  unfolding stored
  stored-Made d none = (λ (a, e). absurd (cc), λ (a, e). absurd (cc))
  stored-Made d (some m) = (λ made. (m, refl), λ made. (_, refl))

  opened-Made :
      {D : Type 0} (d : D) (l : Loaded (Map Record)) → Made (opened keys sort d l) ↔ Openable l
  unfolding opened
  opened-Made d missing = (λ made. tt, λ u. (_, refl))
  opened-Made d unreadable = (λ (a, e). absurd (cc), λ u. absurd u)
  opened-Made d undecodable = (λ (a, e). absurd (cc), λ u. absurd u)
  opened-Made d (loaded m) =
      let a = stored-Made d (checked keys sort m) in
      let b = checked-Made m in (λ made. b.0 (a.0 made), λ all. a.1 (b.1 all))

  pub open_store-Made :
      (s : Storage (Map Record)) (d : s.Disk)
      → Made (open_store keys sort s d) ↔ Openable (load s d)
  unfolding open_store
  open_store-Made s d = opened-Made d (load s d)
