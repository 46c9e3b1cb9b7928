-- ===== src/Progression/Awards.antt =====
-- `Store.Award` and `Open`, on every branch.
use zth_sre.Prelude.{
  ℕ, ◌+◌, ◌≤◌, ◌≡◌, refl, ap, String, Bool, true, false, List, [], ◌∷◌, ◌++◌, ◌⊎◌, String_eq,
  if◌then◌else◌, arith, Bool-cases, inl, inr, ==_refl,
}
use zth_sre.Prelude.Int.{ℤ, pos, negsuc}
use zth_sre.Prelude.Sort.{Sorter}
use zth_sre.Files.{Storage, persist, Holds}
use zth_sre.Files.Atomic.{persist-Holds, persist_fails}
use zth_sre.Progression.{
  Badge, Award, Profile, Store, Reply, apply_rank, has_run, awarded, award, saving, clamp_score,
}
use zth_sre.Progression.Invariant.{Inv, awarded-Inv}

pub clamp_score_le : (n : ℤ) → clamp_score n ≤ 100
unfolding clamp_score
clamp_score_le (pos n) = ground arith
clamp_score_le (negsuc n) = omega arith

has_run-snoc : (a : Award) (l : List Award) → has_run (l ++ a ∷ []) a.run_id ≡ true
unfolding has_run
has_run-snoc a [] = rw (==_refl a.run_id) refl
has_run-snoc a (x ∷ l) = ground (arith, has_run-snoc a l)

has_run-append :
    (l rest : List Award) (run_id : String)
    → has_run l run_id ≡ true
    → has_run (l ++ rest) run_id ≡ true
unfolding has_run
has_run-append [] rest run_id h = absurd (cc)
has_run-append (x ∷ l) rest run_id h = ground (arith, h, has_run-append l rest run_id)

if_Inv : (b : Bool) {p q : Profile} → Inv p → Inv q → Inv (if b then p else q)
if_Inv true v w = v
if_Inv false v w = w

module _ (s : Storage Profile) {R : String → String → Type 0} (o : Sorter String String_eq R) where
  saving_profile :
      (next : Profile) (xp : ℕ) (st : Store s.Disk) (r : s.Disk × Bool)
      → (saving s o.sort next xp st r).0.profile ≡ (if r.1 then next else st.profile)
  unfolding saving
  saving_profile next xp st (d, true) = refl
  saving_profile next xp st (d, false) = refl

  saving_cases :
      (next : Profile) (xp : ℕ) (st : Store s.Disk) (r : s.Disk × Bool)
      → ((r.1 ≡ true)
          × (saving s o.sort next xp st r ≡ (
            record { disk = r.0; profile = next },
            record { profile = next; xp_awarded = xp; saved = true },
          )))
        ⊎ ((r.1 ≡ false)
            × (saving s o.sort next xp st r ≡ (
              record st { disk = r.0 },
              record { profile = st.profile; xp_awarded = 0; saved = false },
            )))
  unfolding saving
  saving_cases next xp st (d, true) = inl (refl, refl)
  saving_cases next xp st (d, false) = inr (refl, refl)

  -- A call of `Award` keeps a well-formed profile well formed, whatever its arguments, on a replayed
  -- run and on a failed save too: the points are the sum of the best scores, each best score is the
  -- greatest among the awards of its scenario, the rank is that of the points, no run, badge or
  -- completed scenario stands twice, and the completed scenarios are those with an award.
  pub award-Inv :
      (now : ℕ) (run_id scenario : String) (score : ℤ) (badges : List Badge) (st : Store s.Disk)
      → Inv st.profile
      → Inv (award s o.sort now run_id scenario score badges st).0.profile
  unfolding award
  award-Inv now run_id scenario score badges st v =
      let next = (awarded o.sort now run_id scenario (clamp_score score) badges st.profile).0 in
      elim (Bool-cases (has_run st.profile.awards run_id)) [
        | inl old ↦ rw old v
        | inr new ↦
            rw (new, saving_profile next _ st (persist s next st.disk))
              (if_Inv (persist s next st.disk).1
                (awarded-Inv o now run_id scenario (clamp_score score) badges st.profile v new) v)
      ]

  -- A run that was awarded before changes nothing, neither in memory nor on disk, and adds no points.
  pub award_replayed :
      (now : ℕ) (run_id scenario : String) (score : ℤ) (badges : List Badge) (st : Store s.Disk)
      → has_run st.profile.awards run_id ≡ true
      → award s o.sort now run_id scenario score badges st
        ≡ (st, record { profile = st.profile; xp_awarded = 0; saved = true })
  unfolding award
  award_replayed now run_id scenario score badges st h = rw h refl

  -- What a first award reports and does.
  abbrev pub Outcome :
      ℕ → String → String → ℤ → List Badge → Store s.Disk → Store s.Disk × Reply → Type 0
  Outcome now run_id scenario score badges st (st', reply) =
      let (next, xp) = awarded o.sort now run_id scenario (clamp_score score) badges st.profile in
      ((reply ≡ record { profile = next; xp_awarded = xp; saved = true })
        × (st'.profile ≡ next)
        × Holds s st'.disk next)
      ⊎ ((reply ≡ record { profile = st.profile; xp_awarded = 0; saved = false })
          × (st'.profile ≡ st.profile)
          × (s.contents st'.disk ≡ s.contents st.disk))

  -- The first award of a run: either it is saved, and then the reply, the memory and the file agree
  -- on the new profile; or an error is reported, and then the reply shows the old profile and no
  -- points, and memory and file are as they were.
  pub award-Outcome :
      (now : ℕ) (run_id scenario : String) (score : ℤ) (badges : List Badge) (st : Store s.Disk)
      → has_run st.profile.awards run_id ≡ false
      → Outcome now run_id scenario score badges st
          (award s o.sort now run_id scenario score badges st)
  unfolding award
  award-Outcome now run_id scenario score badges st h =
      let next = (awarded o.sort now run_id scenario (clamp_score score) badges st.profile).0 in
      let xp = (awarded o.sort now run_id scenario (clamp_score score) badges st.profile).1 in
      rw h (elim (saving_cases next xp st (persist s next st.disk)) [
        | inl (e, f) ↦ rw f (inl (refl, refl, persist-Holds s next st.disk e))
        | inr (e, f) ↦ rw f (inr (refl, refl, persist_fails s next st.disk e))
      ])

  awarded_points :
      (now : ℕ) (run_id scenario : String) (score : ℤ) (badges : List Badge) (p : Profile)
      → let (next, xp) = awarded o.sort now run_id scenario (clamp_score score) badges p in
        (next.xp ≡ p.xp + xp) × (xp ≤ 100)
  unfolding awarded apply_rank
  awarded_points now run_id scenario score badges p = omega (arith, clamp_score_le score)

  has_run-awarded :
      (now : ℕ) (run_id scenario : String) (score : ℕ) (badges : List Badge) (p : Profile)
      → has_run (awarded o.sort now run_id scenario score badges p).0.awards run_id ≡ true
  unfolding awarded apply_rank
  has_run-awarded now run_id scenario score badges p =
      let won : Award = record {
        run_id = run_id;
        scenario = scenario;
        score = score;
        earned_at = now;
      } in
      has_run-snoc won p.awards

  pub award_recorded :
      (now : ℕ) (run_id scenario : String) (score : ℤ) (badges : List Badge) (st : Store s.Disk)
      → (award s o.sort now run_id scenario score badges st).1.saved ≡ true
      → has_run (award s o.sort now run_id scenario score badges st).0.profile.awards run_id ≡ true
  unfolding award
  award_recorded now run_id scenario score badges st h =
      let next = (awarded o.sort now run_id scenario (clamp_score score) badges st.profile).0 in
      let xp = (awarded o.sort now run_id scenario (clamp_score score) badges st.profile).1 in
      elim (Bool-cases (has_run st.profile.awards run_id)) [
        | inl old ↦ rw old old
        | inr new ↦ elim (saving_cases next xp st (persist s next st.disk)) [
          | inl (e, f) ↦
              rw (new, f)
                (has_run-awarded now run_id scenario (clamp_score score) badges st.profile)
          | inr (e, f) ↦ cc (ap (λ (r : Store s.Disk × Reply). r.1.saved) f, rw new at h)
        ]
      ]

  awarded-has_run :
      (now : ℕ) (run_id scenario : String) (score : ℕ) (badges : List Badge) (p : Profile)
      (other : String)
      → has_run p.awards other ≡ true
      → has_run (awarded o.sort now run_id scenario score badges p).0.awards other ≡ true
  unfolding awarded apply_rank
  awarded-has_run now run_id scenario score badges p other h = has_run-append p.awards _ other h

  -- A call of `Award` forgets no run.
  pub award-has_run :
      (now : ℕ) (run_id scenario : String) (score : ℤ) (badges : List Badge) (st : Store s.Disk)
      (other : String)
      → has_run st.profile.awards other ≡ true
      → has_run (award s o.sort now run_id scenario score badges st).0.profile.awards other ≡ true
  unfolding award
  award-has_run now run_id scenario score badges st other h =
      let next = (awarded o.sort now run_id scenario (clamp_score score) badges st.profile).0 in
      let xp = (awarded o.sort now run_id scenario (clamp_score score) badges st.profile).1 in
      elim (Bool-cases (has_run st.profile.awards run_id)) [
        | inl old ↦ rw old h
        | inr new ↦ elim (saving_cases next xp st (persist s next st.disk)) [
          | inl (e, f) ↦
              rw (new, f)
                (awarded-has_run now run_id scenario (clamp_score score) badges st.profile other h)
          | inr (e, f) ↦ rw (new, f) h
        ]
      ]

  -- The points that a call reports are the points that the profile gains, and are at most 100.
  pub award_points :
      (now : ℕ) (run_id scenario : String) (score : ℤ) (badges : List Badge) (st : Store s.Disk)
      → let (st', reply) = award s o.sort now run_id scenario score badges st in
        (st'.profile.xp ≡ st.profile.xp + reply.xp_awarded) × (reply.xp_awarded ≤ 100)
  unfolding award
  award_points now run_id scenario score badges st =
      let next = (awarded o.sort now run_id scenario (clamp_score score) badges st.profile).0 in
      let xp = (awarded o.sort now run_id scenario (clamp_score score) badges st.profile).1 in
      elim (Bool-cases (has_run st.profile.awards run_id)) [
        | inl old ↦ rw old (omega arith)
        | inr new ↦ elim (saving_cases next xp st (persist s next st.disk)) [
          | inl (e, f) ↦ rw (new, f) (awarded_points now run_id scenario score badges st.profile)
          | inr (e, f) ↦ rw (new, f) (omega arith)
        ]
      ]
