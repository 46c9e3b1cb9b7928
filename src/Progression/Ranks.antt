-- ===== src/Progression/Ranks.antt =====
-- The ranks of `rankFor`.
use zth_sre.Prelude.{ℕ, ◌≤◌, ◌<◌, ◌≡◌, String, arith, ◌⊎◌}
use zth_sre.Progression.{rank_for}

-- The position of a rank's title on the ladder.
abbrev pub Ladder : ℕ → String × String × ℕ → Type 0
Ladder xp r =
    ((r ≡ ("Observer", "Investigator", 250)) × (xp < 250))
    ⊎ ((r ≡ ("Investigator", "Responder", 750)) × (250 ≤ xp) × (xp < 750))
    ⊎ ((r ≡ ("Responder", "Incident Commander", 1500)) × (750 ≤ xp) × (xp < 1500))
    ⊎ ((r ≡ ("Incident Commander", "", 0)) × (1500 ≤ xp))

-- Each band of points has its own rank and shows the next threshold; the top rank shows none.
pub rank_for-Ladder : (xp : ℕ) → Ladder xp (rank_for xp)
unfolding rank_for
rank_for-Ladder xp = ground arith

-- Below the top rank, the points that the profile shows as the next threshold are exactly where the
-- next rank begins.
pub rank_for_threshold : (xp : ℕ) → xp < 1500 → (rank_for (rank_for xp).2).0 ≡ (rank_for xp).1
unfolding rank_for
rank_for_threshold xp h = ground arith

pub rank_for_next : (xp : ℕ) → xp < 1500 → xp < (rank_for xp).2
unfolding rank_for
rank_for_next xp h = ground arith
