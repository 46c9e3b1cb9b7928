-- ===== src/Progression/Invariant.antt =====
-- What holds of every profile that `Store.Award` writes.
use zth_sre.Prelude.{
  ℕ, ◌+◌, ◌≡◌, refl, String, false, List, [], ◌∷◌, ◌++◌, map, ltb, ◌==◌, String_eq, if◌then◌else◌,
  elem, Distinct, Distinct-snoc, arith, eq_iff, Bool-cases, inl, inr, elem-of_count,
  Distinct-of_count, count-le_of_Distinct, elem-append,
}
use zth_sre.Prelude.Map.{Map, get, insert, lookup, lookup-insert}
use zth_sre.Prelude.Sort.{Sorter}
use zth_sre.Progression.{
  no_profile, Badge, Award, Profile, apply_rank, has_badge, has_run, add_badges, awarded,
}

-- The points of a best-score table.
abbrev pub total : Map ℕ → ℕ
total [] = 0
total ((k, v) ∷ m) = v + total m

-- The best score among the awards of a scenario.
pub best_of : String → List Award → ℕ
best_of id [] = 0
best_of id (a ∷ rest) =
    let m = best_of id rest in
    if a.scenario == id then (if ltb a.score m then m else a.score) else m

abbrev pub run_ids : List Award → List String
run_ids = map λ a. a.run_id

abbrev pub scenarios : List Award → List String
scenarios = map λ a. a.scenario

abbrev pub badge_ids : List Badge → List String
badge_ids = map λ b. b.id

pub record Inv (p : Profile) : Type 0 where
  pub points : p.xp ≡ total p.best_scores
  pub best : (id : String) → get 0 id p.best_scores ≡ best_of id p.awards
  pub ranked : apply_rank p ≡ p
  pub once : Distinct (run_ids p.awards)
  pub badges_once : Distinct (badge_ids p.badges)
  pub completed_once : Distinct p.completed_ids
  pub completed : (id : String) → elem id p.completed_ids ≡ elem id (scenarios p.awards)

pub has_run_lem : (l : List Award) (id : String) → has_run l id ≡ elem id (run_ids l)
unfolding has_run
has_run_lem [] id = refl
has_run_lem (a ∷ rest) id = ground (arith, has_run_lem rest id)

pub has_badge_lem : (l : List Badge) (id : String) → has_badge l id ≡ elem id (badge_ids l)
unfolding has_badge
has_badge_lem [] id = refl
has_badge_lem (b ∷ rest) id = ground (arith, has_badge_lem rest id)

pub total-insert : (k : String) (v : ℕ) (m : Map ℕ) → total (insert k v m) + get 0 k m ≡ total m + v
unfolding insert lookup
total-insert k v [] = omega arith
total-insert k v ((j, w) ∷ m) = ground (arith, total-insert k v m)

best_of-append :
    (id : String) (l : List Award) (a : Award)
    → best_of id (l ++ a ∷ []) ≡ (
        if a.scenario == id
        then (if ltb (best_of id l) a.score then a.score else best_of id l)
        else best_of id l)
unfolding best_of
best_of-append id [] a = ground arith
best_of-append id (x ∷ l) a = ground (arith, best_of-append id l a)

map-snoc {ℓ κ} :
    {A : Type ℓ} {B : Type κ} (f : A → B) (l : List A) (a : A)
    → map f (l ++ a ∷ []) ≡ map f l ++ f a ∷ []
map-snoc f [] a = refl
map-snoc f (x ∷ l) a = rw (map-snoc f l a) refl

badge_ids-add_badges :
    (now : ℕ) (owned bs : List Badge)
    → Distinct (badge_ids owned)
    → Distinct (badge_ids (add_badges now owned bs))
unfolding add_badges
badge_ids-add_badges now owned [] d = d
badge_ids-add_badges now owned (b ∷ bs) d = elim (Bool-cases (has_badge owned b.id)) [
  | inl old ↦ rw old (badge_ids-add_badges now owned bs d)
  | inr new ↦ rw new (
      badge_ids-add_badges now (owned ++ record b { earned_at = now } ∷ []) bs (
        rw (map-snoc (λ (c : Badge). c.id) owned (record b { earned_at = now }))
          (Distinct-snoc (badge_ids owned) b.id d (ground (arith, has_badge_lem owned b.id)))))
]

module _ {R : String → String → Type 0} (o : Sorter String String_eq R) where
  open o use {sort, count-sort}

  completed_once-sort :
      (l : List String) (id : String)
      → Distinct l
      → elem id l ≡ false
      → Distinct (sort (l ++ id ∷ []))
  completed_once-sort l id d h = Distinct-of_count (sort (l ++ id ∷ [])) λ a.
      rw (count-sort a (l ++ id ∷ []))
        (count-le_of_Distinct a (l ++ id ∷ []) (Distinct-snoc l id d h))

  module _ (now : ℕ) (run_id scenario : String) (score : ℕ) (badges : List Badge) (p : Profile)
      (v : Inv p) where
    after : Profile
    after = (awarded sort now run_id scenario score badges p).0

    points_awarded : after.xp ≡ total after.best_scores
    unfolding after awarded
    points_awarded = ground (arith, v.points, total-insert scenario score p.best_scores)

    best_awarded : (id : String) → get 0 id after.best_scores ≡ best_of id after.awards
    unfolding after awarded
    best_awarded id =
        let won : Award = record {
          run_id = run_id;
          scenario = scenario;
          score = score;
          earned_at = now;
        } in
        ground (
          arith,
          v.best id,
          v.best scenario,
          best_of-append id p.awards won,
          lookup-insert scenario id score p.best_scores,
          eq_iff scenario id,
        )

    completed_once_awarded : Distinct after.completed_ids
    unfolding after awarded
    completed_once_awarded = elim (Bool-cases (elem scenario p.completed_ids)) [
      | inl old ↦ rw old v.completed_once
      | inr new ↦ rw new (completed_once-sort p.completed_ids scenario v.completed_once new)
    ]

    completed_awarded :
        (id : String) → elem id after.completed_ids ≡ elem id (scenarios after.awards)
    unfolding after awarded
    completed_awarded id =
        let won : Award = record {
          run_id = run_id;
          scenario = scenario;
          score = score;
          earned_at = now;
        } in
        ground (
          arith,
          v.completed id,
          v.completed scenario,
          eq_iff scenario id,
          map-snoc (λ (a : Award). a.scenario) p.awards won,
          elem-append id (scenarios p.awards) (scenario ∷ []),
          elem-append id p.completed_ids (scenario ∷ []),
          elem-of_count id (sort (p.completed_ids ++ scenario ∷ []))
              (p.completed_ids ++ scenario ∷ []) (count-sort id (p.completed_ids ++ scenario ∷ [])),
        )

    once_awarded : has_run p.awards run_id ≡ false → Distinct (run_ids after.awards)
    unfolding after awarded
    once_awarded h = rw (map-snoc (λ (a : Award). a.run_id) p.awards) (
        Distinct-snoc (run_ids p.awards) run_id v.once
          (ground (arith, has_run_lem p.awards run_id)))

    badges_once_awarded : Distinct (badge_ids after.badges)
    unfolding after awarded
    badges_once_awarded = badge_ids-add_badges now p.badges badges v.badges_once

    ranked_awarded : apply_rank after ≡ after
    unfolding after awarded apply_rank
    ranked_awarded = refl

    -- The new profile of a run that was not awarded before.
    pub awarded-Inv :
        has_run p.awards run_id ≡ false → Inv (awarded sort now run_id scenario score badges p).0
    unfolding after
    awarded-Inv h = record {
      points = points_awarded;
      best = best_awarded;
      ranked = ranked_awarded;
      once = once_awarded h;
      badges_once = badges_once_awarded;
      completed_once = completed_once_awarded;
      completed = completed_awarded;
    }

pub apply_rank-Inv : (p : Profile) → Inv p → Inv (apply_rank p)
apply_rank-Inv p v = rw v.ranked v

pub no_profile-Inv : Inv (apply_rank no_profile)
unfolding apply_rank lookup best_of
no_profile-Inv = record {
  points = refl;
  best = λ id. refl;
  ranked = refl;
  once = tt;
  badges_once = tt;
  completed_once = tt;
  completed = λ id. refl;
}
