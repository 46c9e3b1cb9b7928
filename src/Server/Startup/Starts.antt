-- ===== src/Server/Startup/Starts.antt =====
-- When `New` of internal/server/server.go succeeds.
use zth_sre.Prelude.{
  ◌<◌, ◌≡◌, refl, false, Bool-cases, ◌↔◌, ◌⊎◌, inl, inr, String, String_eq, ◌==◌, some, length, All,
}
use zth_sre.Prelude.Chain.{Made, >>=-Made, last-Made}
use zth_sre.Files.{Readable, load}
use zth_sre.Progression
use zth_sre.History
use zth_sre.Progress
use zth_sre.Progress.Opened.{Openable, open_store-Made}
use zth_sre.Scenario.Catalog as Catalog
use zth_sre.History.Window as Window
use zth_sre.Progression.Session as Session
use zth_sre.Server.Origins.{parse_origins, upstream}
use zth_sre.Server.Origins.Upstreams.{Upstream, upstream-Made, Serialized, origins-Made}
use zth_sre.Server.Config.{Settings, with_paths}
use zth_sre.Server.Startup.{
  Host, RuntimeConfig, Opening, opened, absent, denied, learner_path, loaded_root, new_runtime,
  runtime_config, with_stores, optional_runtime, static_root, built, new, Handler,
}

module _ {F W : Type 0} (h : Host F W) where
  -- What the runtime of a configuration needs: a root, a catalog below it, and files of the history and of
  -- the learner's profile that are missing or decode.
  abbrev pub Playable : RuntimeConfig → Type 0
  Playable c =
      ((c.root == "") ≡ false)
      × (Made (Catalog.load h.comparisons h.texts.sort h.content (h.walk c.root))
          × (Readable (load h.histories (h.history_at c.history_path))
              × Readable (load h.profiles (h.profile_at (learner_path h c)))))

  pub record Startable (c : Settings) : Type 0 where
    pub some_origin : 0 < length c.origins
    pub origins : All (Serialized h.parse) c.origins
    pub checklists : Openable (load h.checklists (h.checklists_at c.progress_path))
    pub runtime :
        (h.exists (h.join c.scenario_root "scenarios") ≡ false) ⊎ Playable (runtime_config h c)
    pub api : Upstream (h.parse c.api_url)
    pub dependency : Upstream (h.parse c.dependency_url)
    pub toolbox : Upstream (h.parse c.toolbox_url)
    pub prometheus : Upstream (h.parse c.prometheus_url)
    pub static : h.open_root c.static_dir ≡ denied → ⊥

  loaded_root-Made :
      (root : String)
      → Made (loaded_root h root) ↔ (
          ((root == "") ≡ false)
          × Made (Catalog.load h.comparisons h.texts.sort h.content (h.walk root)))
  unfolding loaded_root
  loaded_root-Made root = elim (Bool-cases (root == "")) [
    | inl e ↦ (λ made. let (a, k) = rw e at made in absurd (cc), λ (k, made). absurd (cc))
    | inr e ↦ (λ made. (e, rw e at made), λ (k, made). rw e made)
  ]

  new_runtime-Made : (c : RuntimeConfig) → Made (new_runtime h c) ↔ Playable c
  unfolding new_runtime
  new_runtime-Made c =
      let steps = >>=-Made (loaded_root h c.root) _ (loaded_root-Made c.root) λ library.
        >>=-Made (History.open_store h.histories (h.history_at c.history_path)) _
          (Window.open_store-Made h.histories (h.history_at c.history_path))
          λ history.
            last-Made (Progression.open_store h.profiles (h.profile_at (learner_path h c))) _
              (Session.open_store-Made h.profiles (h.profile_at (learner_path h c))) in
      (
        λ made. let ((root, list), files) = steps.0 made in (root, (list, files)),
        λ (root, (list, files)). steps.1 ((root, list), files),
      )

  runtime-Made :
      (c : Settings)
      → Made (optional_runtime h c)
        ↔ ((h.exists (h.join c.scenario_root "scenarios") ≡ false) ⊎ Playable (runtime_config h c))
  unfolding optional_runtime
  runtime-Made c = elim (Bool-cases (h.exists (h.join c.scenario_root "scenarios"))) [
    | inl there ↦
        let parts =
          last-Made (new_runtime h (runtime_config h c)) (with_stores h)
            (new_runtime-Made (runtime_config h c)) in
        (
          λ made. inr (parts.0 (rw there at made)),
          λ found. elim found [
            | inl gone ↦ absurd (cc)
            | inr playable ↦ rw there (parts.1 playable)
          ],
        )
    | inr gone ↦ (λ made. inl gone, λ found. rw gone (_, refl))
  ]

  root-Made : (o : Opening) → Made (static_root h o) ↔ (o ≡ denied → ⊥)
  unfolding static_root
  root-Made (opened root) = (λ made e. absurd (cc), λ k. (_, refl))
  root-Made absent = (λ made e. absurd (cc), λ k. (_, refl))
  root-Made denied = (λ (a, e). absurd (cc), λ k. absurd (k refl))

  all_steps :
      (c : Settings)
      → Made (built h c) ↔ (
          (((0 < length c.origins) × All (Serialized h.parse) c.origins))
          × (Openable (load h.checklists (h.checklists_at c.progress_path))
              × (((h.exists (h.join c.scenario_root "scenarios") ≡ false)
                    ⊎ Playable (runtime_config h c))
                  × (Upstream (h.parse c.api_url)
                      × (Upstream (h.parse c.dependency_url)
                          × (Upstream (h.parse c.toolbox_url)
                              × (Upstream (h.parse c.prometheus_url)
                                  × (h.open_root c.static_dir ≡ denied → ⊥))))))))
  unfolding built
  all_steps c = >>=-Made (parse_origins h.parse c.origins) _ (origins-Made h.parse c.origins) λ a.
      >>=-Made
        (Progress.open_store h.order.keys h.sorter.sort h.checklists
          (h.checklists_at c.progress_path))
        _ (open_store-Made h.order h.sorter h.checklists (h.checklists_at c.progress_path))
        λ progress. >>=-Made (optional_runtime h c) _ (runtime-Made c) λ found.
          >>=-Made (upstream (h.parse c.api_url)) _ (upstream-Made (h.parse c.api_url)) λ api.
            >>=-Made (upstream (h.parse c.dependency_url)) _
              (upstream-Made (h.parse c.dependency_url))
              λ dependency.
                >>=-Made (upstream (h.parse c.toolbox_url)) _
                  (upstream-Made (h.parse c.toolbox_url))
                  λ toolbox.
                    >>=-Made (upstream (h.parse c.prometheus_url)) _
                      (upstream-Made (h.parse c.prometheus_url))
                      λ prometheus.
                        last-Made (static_root h (h.open_root c.static_dir)) _
                          (root-Made (h.open_root c.static_dir))

  built-Startable : (c : Settings) → Made (built h c) ↔ Startable c
  built-Startable c =
      let steps = all_steps c in
      (
        λ made.
            let ((n, o), (p, (r, (a, (d, (t, (m, s))))))) = steps.0 made in
            record {
              some_origin = n;
              origins = o;
              checklists = p;
              runtime = r;
              api = a;
              dependency = d;
              toolbox = t;
              prometheus = m;
              static = s;
            },
        λ v. steps.1 (
          (v.some_origin, v.origins),
          (
            v.checklists,
            (v.runtime, (v.api, (v.dependency, (v.toolbox, (v.prometheus, v.static))))),
          ),
        ),
      )

  -- `New` succeeds exactly if: there is an origin and all are serialized HTTP origins; the file of the
  -- checklists is missing, or decodes to records with proper ids and at most 100 steps in 0..999 each;
  -- there is no directory of scenarios, or it loads as a catalog and the files of the history and the
  -- profile are missing or decode; each of the four URLs is an HTTP URL of a host without credentials,
  -- path, query and fragment; and the directory of the static files is missing or can be opened.
  pub new_starts :
      (c : Settings)
      → ((s : Handler h (with_paths h.join c)) × (new h c ≡ some s))
        ↔ Startable (with_paths h.join c)
  unfolding new
  new_starts c = built-Startable (with_paths h.join c)
