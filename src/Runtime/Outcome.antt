-- ===== src/Runtime/Outcome.antt =====
-- What a check of an active run awards.
use zth_sre.Prelude.{
  if◌then◌else◌, ℕ, ◌+◌, ◌-◌, ◌*◌, String, true, false, ◌≡◌, refl, Option, List, ◌==◌, String_eq,
  ℕ_eq, length, arith, Option-cases, inl, inr,
}
use zth_sre.Prelude.Map.{lookup}
use zth_sre.Files.{Storage}
use zth_sre.Progression
use zth_sre.History
use zth_sre.Runtime.State.{RunState, Exercise, diagnosis_correct}
use zth_sre.Runtime.Solutions.{solution}
use zth_sre.Runtime.Grading.{Floats, Evidence, total, item_of, achieved, score, Stores, check_run}

module _ {F : Type 0} (fl : Floats F) where
  achieved_scores :
      (item : Exercise F) (e : Evidence F) (r : RunState)
      → (item.id == r.scenario) ≡ true
      → (r.scenario == "file-forensics") ≡ false
      → achieved fl item e r ≡ true
      → diagnosis_correct r ≡ true
      → total (score fl item e r) ≡ 75 + (25 - 5 * length r.revealed_hints)
  unfolding achieved score
  achieved_scores item e r same f h d =
      let q : item.id ≡ r.scenario = (String_eq.same_iff item.id r.scenario).0 same in
      elim (Option-cases (lookup r.scenario solution)) [
        | inl n ↦ rw q (let h1 = rw n at h in ground (arith, h1, f, d))
        | inr (action, n) ↦ rw q (let h1 = rw n at h in ground (arith, h1, f, d))
      ]

  module _ (ps : Storage Progression.Profile) (sort : List String → List String)
      (hs : Storage (List (History.Record F))) where
    -- Where a check passes, the diagnosis on record is the expected one. Its score is then 0 in
    -- file-forensics, and elsewhere 75 points and what the revealed hints leave of 25, at five for each.
    -- The catalog files the exercise under its own id.
    pub passed_lem :
        (now later : ℕ) (e : Evidence F) (found : Option (Exercise F)) (r : RunState)
        (st : Stores fl ps sort hs)
        → ((item_of fl found).id == r.scenario) ≡ true
        → (check_run fl ps sort hs now later e found r st).1.passed ≡ true
        → (diagnosis_correct r ≡ true)
          × ((check_run fl ps sort hs now later e found r st).1.score ≡ (
              if r.scenario == "file-forensics"
              then 0
              else 75 + (25 - 5 * length r.revealed_hints)))
    unfolding check_run
    passed_lem now later e found r st same h =
        let item = item_of fl found in
        let scores = achieved_scores item e r same in
        let q : item.id ≡ r.scenario = (String_eq.same_iff item.id r.scenario).0 same in
        let other : (r.scenario == "file-forensics") ≡ false
            → (item.id == "file-forensics") ≡ false =
          λ f. rw q f in
        ground (arith, h, scores, other)

    -- A check that fails adds no points and leaves the learner's profile, in memory and in the file, as it was.
    pub failed_lem :
        (now later : ℕ) (e : Evidence F) (found : Option (Exercise F)) (r : RunState)
        (st : Stores fl ps sort hs)
        → (check_run fl ps sort hs now later e found r st).1.passed ≡ false
        → ((check_run fl ps sort hs now later e found r st).0.profile ≡ st.profile)
          × ((check_run fl ps sort hs now later e found r st).1.score ≡ 0)
    unfolding check_run
    failed_lem now later e found r st h = rw h (refl, refl)
