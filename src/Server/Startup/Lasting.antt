-- ===== src/Server/Startup/Lasting.antt =====
-- What holds of a server from its start on.
use zth_sre.Prelude.{
  ◌≡◌, refl, ap, ◌∙◌, ◌⊎◌, inl, inr, String, Option, none, some, List, [], Bool-cases,
}
use mathlib.Core.Path.{subst}
use zth_sre.Prelude.Chain.{>>=-elim}
use zth_sre.Files.{load, missing, loaded}
use zth_sre.History
use zth_sre.Progression
use zth_sre.Progression.{apply_rank, no_profile}
use zth_sre.Progression.Invariant.{Inv, no_profile-Inv}
use zth_sre.Progression.Session.{session_from_missing, open_store_loaded}
use zth_sre.Progress
use zth_sre.Progress.Records.{open_store-Valid}
use zth_sre.Scenario.{Scenario}
use zth_sre.Server.Origins.{parse_origins, upstream}
use zth_sre.Server.Config.{Settings, with_paths}
use zth_sre.Server.Handler.Lasting.{Running, Sound, Event, handle_all, handle_all-Sound}
use zth_sre.Server.Startup.{
  Host, HostStores, learner_path, new_runtime, runtime_config, optional_runtime, static_root,
  Handler, HandlerState, loaded_root, setup_of, runtime_of, handler_of, built, new,
}

module _ {F W : Type 0} (h : Host F W) where
  -- No file, or one with a well-formed profile.
  abbrev pub Fine : h.profiles.Disk → Type 0
  Fine d =
      (load h.profiles d ≡ missing)
      ⊎ ((p : Progression.Profile) × Inv p × (load h.profiles d ≡ loaded p))

  opened-Inv :
      (d : h.profiles.Disk) (st : Progression.Store h.profiles.Disk)
      → Fine d
      → Progression.open_store h.profiles d ≡ some st
      → Inv st.profile
  opened-Inv d st (inl m) e =
      let (fresh, inv, points) = session_from_missing h.profiles h.texts d [] m in
      let f : Progression.Store h.profiles.Disk = record {
        disk = d;
        profile = apply_rank no_profile;
      } in
      let q : f ≡ st = let k : some f ≡ some st = rw fresh at e in cc in
      subst (λ x. Inv x.profile) q no_profile-Inv
  opened-Inv d st (inr (p, v, l)) e =
      let f : Progression.Store h.profiles.Disk = record { disk = d; profile = p } in
      let k : some f ≡ some st = rw (open_store_loaded h.profiles h.texts d p v l) at e in
      let q : f ≡ st = cc in subst (λ x. Inv x.profile) q v

  -- What the state starts with.
  pub record Begins (c : Settings) (s : Handler h c) : Type 0 where
    pub allowed : parse_origins h.parse c.origins ≡ some s.config.allowed
    progress :
        Progress.open_store h.order.keys h.sorter.sort h.checklists
          (h.checklists_at c.progress_path)
        ≡ some s.server.progress
    stores : Option (HostStores h)
    found : optional_runtime h c ≡ some (s.library, stores)
    runtime : s.server.runtime ≡ runtime_of h c s.library stores

  pub built-Begins : (c : Settings) (s : Handler h c) → built h c ≡ some s → Begins c s
  unfolding built
  built-Begins c s e0 = >>=-elim (parse_origins h.parse c.origins) _ e0 λ allowed a e1.
      >>=-elim
        (Progress.open_store h.order.keys h.sorter.sort h.checklists
          (h.checklists_at c.progress_path))
        _ e1
        λ progress p e2. >>=-elim (optional_runtime h c) _ e2 λ found f e3.
          >>=-elim (upstream (h.parse c.api_url)) _ e3 λ api x e4.
            >>=-elim (upstream (h.parse c.dependency_url)) _ e4 λ dependency x e5.
              >>=-elim (upstream (h.parse c.toolbox_url)) _ e5 λ toolbox x e6.
                >>=-elim (upstream (h.parse c.prometheus_url)) _ e6 λ prometheus x e7.
                  >>=-elim (static_root h (h.open_root c.static_dir)) _ e7 λ root x e8.
                    let start = handler_of h c allowed progress found toolbox prometheus root in
                    let q : start ≡ s = cc in
                    subst (λ x. Begins c x) q
                      (record {
                        allowed = a;
                        progress = p;
                        stores = found.1;
                        found = f;
                        runtime = refl;
                      })

  -- The path of the profile, with the defaults for paths that are not given.
  abbrev pub profile_path : Settings → String
  profile_path c = learner_path h (runtime_config h (with_paths h.join c))

  -- The profile of a runtime that is there.
  abbrev Learner : Option (HostStores h) → Type 0
  Learner none = Unit {0}
  Learner (some stores) = Inv stores.profile.profile

  new_runtime-Learner :
      (c : Settings) (library : List (Scenario F)) (stores : HostStores h)
      → Fine (h.profile_at (learner_path h (runtime_config h c)))
      → new_runtime h (runtime_config h c) ≡ some (library, stores)
      → Inv stores.profile.profile
  unfolding new_runtime runtime_config
  new_runtime-Learner c library stores fine e0 =
      >>=-elim (loaded_root h c.scenario_root) _ e0 λ loaded l e1.
        >>=-elim (History.open_store h.histories (h.history_at c.history_path)) _ e1 λ history r e2.
          >>=-elim
            (Progression.open_store h.profiles (h.profile_at (learner_path h (runtime_config h c))))
            _ e2
            λ profile p e3.
              let both : HostStores h = record { profile = profile; history = history } in
              let k : some (loaded, both) ≡ some (library, stores) = e3 in
              let q : both ≡ stores = cc in
              subst (λ x. Inv x.profile.profile) q (opened-Inv _ profile fine p)

  optional_runtime-Learner :
      (c : Settings) (library : List (Scenario F)) (stores : Option (HostStores h))
      → Fine (h.profile_at (learner_path h (runtime_config h c)))
      → optional_runtime h c ≡ some (library, stores)
      → Learner stores
  unfolding optional_runtime
  optional_runtime-Learner c library none fine e = tt
  optional_runtime-Learner c library (some stores) fine e =
      elim (Bool-cases (h.exists (h.join c.scenario_root "scenarios"))) [
        | inr gone ↦
            let empty : List (Scenario F) × Option (HostStores h) = ([], none) in
            let k : some empty ≡ some (library, some stores) = rw gone at e in cc
        | inl there ↦ >>=-elim (new_runtime h (runtime_config h c)) _ (rw there at e) (λ found f e1.
            let k : some (found.0, some found.1) ≡ some (library, some stores) = e1 in
            let q : found ≡ (library, stores) = cc in
            new_runtime-Learner c library stores fine (f ∙ ap some q))
      ]

  abbrev pub SoundState :
      (c : Settings) (library : List (Scenario F)) → HandlerState h c library → Type 0
  SoundState c library s = Sound (setup_of h c library) h.order h.sorter h.checklists h.texts refl s

  runtime_of-Running :
      (c : Settings) (library : List (Scenario F)) (stores : Option (HostStores h))
      → Learner stores
      → Running
          (setup_of h c library)
          h.order
          h.sorter
          h.checklists
          h.texts
          refl
          (runtime_of h c library stores)
  runtime_of-Running c library none v = tt
  runtime_of-Running c library (some stores) v = (tt, v)

  Begins-Sound :
      (c : Settings) (s : Handler h c)
      → Fine (h.profile_at (learner_path h (runtime_config h c)))
      → Begins c s
      → SoundState c s.library s.server
  Begins-Sound c s fine b = record {
    runtime = rw b.runtime (
        runtime_of-Running c s.library b.stores
          (optional_runtime-Learner c s.library b.stores fine b.found));
    checklists = open_store-Valid h.order h.sorter h.checklists _ s.server.progress b.progress;
  }

  -- A server that `New` returned, for any configuration, is well formed through any requests and
  -- evaluation rounds: its active run, the learner's profile, and its checklists, whatever files they were
  -- read from. Of the profile's file it is assumed that it is missing or holds a well-formed profile.
  pub new-Sound :
      (c : Settings) (s : Handler h (with_paths h.join c))
      (es : List (
        Event
          (setup_of h (with_paths h.join c) s.library)
          h.order
          h.sorter
          h.checklists
          h.texts
          refl))
      → new h c ≡ some s
      → Fine (h.profile_at (profile_path c))
      → SoundState (with_paths h.join c) s.library (
          handle_all
            (setup_of h (with_paths h.join c) s.library)
            h.order
            h.sorter
            h.checklists
            h.texts
            refl
            s.config
            es
            s.server)
  unfolding new
  new-Sound c s es e fine =
      handle_all-Sound _ h.order h.sorter h.checklists h.texts refl s.config es s.server
        (Begins-Sound (with_paths h.join c) s fine (built-Begins (with_paths h.join c) s e))
