-- ===== src/Progression.antt =====
-- internal/progression/progression.go: experience points, ranks, badges and awards of the learner.
-- A slice is a list (nil and empty are one), a map an association list, a time a number. The values
-- that this store writes are never negative, since a score is clamped first: `XP` and the scores in
-- the profile are natural numbers, the score that a caller passes is an integer.
pub mod Ranks
pub mod Invariant
pub mod Awards
pub mod Session
use zth_sre.Prelude.{
  ℕ, zero, suc, ◌+◌, ◌-◌, String, Bool, true, false, ◌||◌, Option, none, some, List, [], ◌∷◌, ◌++◌,
  ltb, ◌==◌, String_eq, if◌then◌else◌, elem,
}
use zth_sre.Prelude.Int.{ℤ, pos, negsuc}
use zth_sre.Prelude.Map.{Map, get, insert}
use zth_sre.Files.{Storage, Loaded, missing, unreadable, undecodable, loaded, load, persist}

pub record Badge : Type 0 where
  pub id : String
  pub title : String
  pub description : String
  pub earned_at : ℕ

pub record Award : Type 0 where
  pub run_id : String
  pub scenario : String
  pub score : ℕ
  pub earned_at : ℕ

pub record Profile : Type 0 where
  pub xp : ℕ
  pub rank : String
  pub next_rank : String
  pub next_rank_xp : ℕ
  pub badges : List Badge
  pub awards : List Award
  pub completed_ids : List String
  pub best_scores : Map ℕ

pub rank_for : ℕ → String × String × ℕ
rank_for xp =
    if ltb xp 250
    then ("Observer", "Investigator", 250)
    else if ltb xp 750
    then ("Investigator", "Responder", 750)
    else if ltb xp 1500
    then ("Responder", "Incident Commander", 1500)
    else ("Incident Commander", "", 0)

unfoldable pub apply_rank : Profile → Profile
unfolding rank_for
apply_rank p =
    let (rank, next_rank, next_rank_xp) = rank_for p.xp in
    record p { rank = rank; next_rank = next_rank; next_rank_xp = next_rank_xp }

abbrev pub contains : List String → String → Bool
contains items value = elem value items

unfoldable pub has_badge : List Badge → String → Bool
has_badge [] id = false
has_badge (b ∷ bs) id = (b.id == id) || has_badge bs id

-- The loop over `next.Awards` that looks for the run.
unfoldable pub has_run : List Award → String → Bool
has_run [] run_id = false
has_run (a ∷ rest) run_id = (a.run_id == run_id) || has_run rest run_id

pub clamp_score : ℤ → ℕ
clamp_score (negsuc n) = 0
clamp_score (pos n) = if ltb 100 n then 100 else n

-- The loop over the badges that a mission earns.
pub add_badges : ℕ → List Badge → List Badge → List Badge
unfolding has_badge
add_badges now owned [] = owned
add_badges now owned (b ∷ bs) =
    add_badges now
      (if has_badge owned b.id then owned else owned ++ record b { earned_at = now } ∷ []) bs

-- The profile that `Store.Award` is about to save, and the points that the run adds.
pub awarded :
    (List String → List String) → ℕ → String → String → ℕ → List Badge → Profile → Profile × ℕ
unfolding clamp_score add_badges apply_rank
awarded sort now run_id scenario score badges p =
    let previous = get 0 scenario p.best_scores in
    let xp = score - previous in
    let won : Award = record {
      run_id = run_id;
      scenario = scenario;
      score = score;
      earned_at = now;
    } in
    let next : Profile = record p {
      xp = p.xp + xp;
      awards = p.awards ++ won ∷ [];
      best_scores =
          if ltb previous score then insert scenario score p.best_scores else p.best_scores;
      completed_ids =
          if contains p.completed_ids scenario
          then p.completed_ids
          else sort (p.completed_ids ++ scenario ∷ []);
      badges = add_badges now p.badges badges;
    } in
    (apply_rank next, xp)

pub record Store (D : Type 0) : Type 0 where
  pub disk : D
  pub profile : Profile

-- The three results of `Store.Award`: the profile, the points added, and whether `err` is nil.
pub record Reply : Type 0 where
  pub profile : Profile
  pub xp_awarded : ℕ
  pub saved : Bool

module _ (s : Storage Profile) (sort : List String → List String) where
  saving : Profile → ℕ → Store s.Disk → s.Disk × Bool → Store s.Disk × Reply
  saving next xp st (disk, true) = (
    record { disk = disk; profile = next },
    record { profile = next; xp_awarded = xp; saved = true },
  )
  saving next xp st (disk, false) =
      (record st { disk = disk }, record { profile = st.profile; xp_awarded = 0; saved = false })

  unfoldable pub award : ℕ → String → String → ℤ → List Badge → Store s.Disk → Store s.Disk × Reply
  unfolding saving has_run
  award now run_id scenario score badges st =
      let fresh =
        (let (next, xp) = awarded sort now run_id scenario (clamp_score score) badges st.profile in
          saving next xp st (persist s next st.disk)) in
      if has_run st.profile.awards run_id
      then (st, record { profile = st.profile; xp_awarded = 0; saved = true })
      else fresh

abbrev pub no_profile : Profile
no_profile = record {
  xp = 0;
  rank = "";
  next_rank = "";
  next_rank_xp = 0;
  badges = [];
  awards = [];
  completed_ids = [];
  best_scores = [];
}

pub opened : {D : Type 0} → D → Loaded Profile → Option (Store D)
unfolding apply_rank
opened d missing = some (record { disk = d; profile = apply_rank no_profile })
opened d unreadable = none
opened d undecodable = none
opened d (loaded p) = some (record { disk = d; profile = apply_rank p })

-- `Open`, with none for an error.
unfoldable pub open_store : (s : Storage Profile) → s.Disk → Option (Store s.Disk)
unfolding opened
open_store s d = opened d (load s d)
