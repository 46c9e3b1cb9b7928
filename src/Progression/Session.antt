-- ===== src/Progression/Session.antt =====
-- A learner's history: awards in sequence, from the file that `Open` finds.
use zth_sre.Prelude.{◌↔◌, ℕ, ◌+◌, ◌≡◌, refl, String, some, List, [], ◌∷◌, arith, true}
use zth_sre.Prelude.Int.{ℤ}
use zth_sre.Prelude.Sort.{Sorter}
use zth_sre.Prelude.{String_eq}
use zth_sre.Files.{Storage, Loaded, missing, unreadable, undecodable, loaded, load, Readable}
use zth_sre.Prelude.Chain.{Made}
use zth_sre.Progression.{
  Badge, Profile, Store, Reply, no_profile, apply_rank, award, has_run, open_store, opened,
}
use zth_sre.Progression.Invariant.{Inv, no_profile-Inv}
use zth_sre.Progression.Awards.{
  award-Inv, award_points, award-has_run, award_recorded, award_replayed,
}

pub record Call : Type 0 where
  pub now : ℕ
  pub run_id : String
  pub scenario : String
  pub score : ℤ
  pub badges : List Badge

module _ (s : Storage Profile) {R : String → String → Type 0} (o : Sorter String String_eq R) where
  unfoldable pub serve : Store s.Disk → Call → Store s.Disk × Reply
  serve st c = award s o.sort c.now c.run_id c.scenario c.score c.badges st

  -- The store after the calls, and the points that their replies reported.
  pub session : Store s.Disk → List Call → Store s.Disk × ℕ
  session st [] = (st, 0)
  session st (c ∷ cs) =
      let (st', reply) = serve st c in
      let (last, gained) = session st' cs in (last, reply.xp_awarded + gained)

  serve-Inv : (st : Store s.Disk) (c : Call) → Inv st.profile → Inv (serve st c).0.profile
  unfolding serve
  serve-Inv st c v = award-Inv s o c.now c.run_id c.scenario c.score c.badges st v

  session-Inv :
      (st : Store s.Disk) (cs : List Call) → Inv st.profile → Inv (session st cs).0.profile
  unfolding session
  session-Inv st [] v = v
  session-Inv st (c ∷ cs) v = session-Inv (serve st c).0 cs (serve-Inv st c v)

  session_points :
      (st : Store s.Disk) (cs : List Call)
      → (session st cs).0.profile.xp ≡ st.profile.xp + (session st cs).1
  unfolding session serve
  session_points st [] = omega arith
  session_points st (c ∷ cs) = omega (
    arith,
    session_points (serve st c).0 cs,
    award_points s o c.now c.run_id c.scenario c.score c.badges st,
  )

  serve-has_run :
      (st : Store s.Disk) (c : Call) (run_id : String)
      → has_run st.profile.awards run_id ≡ true
      → has_run (serve st c).0.profile.awards run_id ≡ true
  unfolding serve
  serve-has_run st c run_id h =
      award-has_run s o c.now c.run_id c.scenario c.score c.badges st run_id h

  session-has_run :
      (st : Store s.Disk) (cs : List Call) (run_id : String)
      → has_run st.profile.awards run_id ≡ true
      → has_run (session st cs).0.profile.awards run_id ≡ true
  unfolding session
  session-has_run st [] run_id h = h
  session-has_run st (c ∷ cs) run_id h =
      session-has_run (serve st c).0 cs run_id (serve-has_run st c run_id h)

  -- Once an award is saved, a later award of the same run changes neither memory nor file and adds no
  -- points, whatever scenario, score and badges it comes with, and whatever calls of `Award`, of this
  -- run and of others, saved or not, came in between.
  pub awarded_once :
      (st : Store s.Disk) (first : Call) (between : List Call) (again : Call)
      → (serve st first).1.saved ≡ true
      → again.run_id ≡ first.run_id
      → let st' = (session (serve st first).0 between).0 in
        serve st' again ≡ (st', record { profile = st'.profile; xp_awarded = 0; saved = true })
  unfolding serve
  awarded_once st first between again h e =
      let recorded =
        award_recorded s o first.now first.run_id first.scenario first.score first.badges st h in
      let kept = session-has_run (serve st first).0 between first.run_id recorded in
      award_replayed s o again.now again.run_id again.scenario again.score again.badges
        (session (serve st first).0 between).0 (rw e kept)

  abbrev pub fresh : s.Disk → Store s.Disk
  fresh d = record { disk = d; profile = apply_rank no_profile }

  -- Where no profile file exists, `Open` succeeds, and after any calls from there (replays, failed
  -- saves and scores out of range included) the profile is well formed, and its points are those
  -- that the replies reported.
  pub session_from_missing :
      (d : s.Disk) (cs : List Call)
      → load s d ≡ missing
      → (open_store s d ≡ some (fresh d))
        × Inv (session (fresh d) cs).0.profile
        × ((session (fresh d) cs).0.profile.xp ≡ (session (fresh d) cs).1)
  unfolding open_store opened apply_rank
  session_from_missing d cs m = (
    rw (m, opened) refl,
    session-Inv (fresh d) cs no_profile-Inv,
    omega (arith, session_points (fresh d) cs),
  )

  -- Where the file holds a well-formed profile, `Open` returns a store with exactly that profile.
  pub open_store_loaded :
      (d : s.Disk) (p : Profile)
      → Inv p
      → load s d ≡ loaded p
      → open_store s d ≡ some (record { disk = d; profile = p })
  unfolding open_store opened
  open_store_loaded d p v e = rw (e, opened, v.ranked) refl

module _ (s : Storage Profile) where
  opened-Made : (d : s.Disk) (l : Loaded Profile) → Made (opened d l) ↔ Readable l
  unfolding opened
  opened-Made d missing = (λ made. tt, λ u. (_, refl))
  opened-Made d unreadable = (λ (a, e). absurd (cc), λ u. absurd u)
  opened-Made d undecodable = (λ (a, e). absurd (cc), λ u. absurd u)
  opened-Made d (loaded a) = (λ made. tt, λ u. (_, refl))

  -- `Open` succeeds exactly if the file is missing or decodes.
  pub open_store-Made : (d : s.Disk) → Made (open_store s d) ↔ Readable (load s d)
  unfolding open_store
  open_store-Made d = opened-Made d (load s d)
