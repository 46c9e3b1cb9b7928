-- ===== src/Scenario/Catalog/Installed.antt =====
-- Which catalogs `Load` returns.
use zth_sre.Prelude.{
  ◌≡◌, refl, sym, ◌↔◌, inl, inr, String, Bool, true, false, ◌&&◌, not, Option, none, some, List, [],
  ◌∷◌, ◌==◌, String_eq, ℕ_eq, elem, count, Distinct, All, arith, eq_iff, Bool-cases, elem-count,
  count-le_of_Distinct, Distinct-of_count, elem-of_count,
}
use mathlib.Core.Path.{subst}
use zth_sre.Scenario.{Scenario, Comparisons, validate, required_ids, Problem}
use zth_sre.Scenario.Catalog.{
  Entry, Content, decode, ids, yaml_paths, all_seen, accepted, extended, load_all, complete,
  load_paths, load, id_of, is_nil,
}
use zth_sre.Scenario.Validity.{Valid, validate_lem}

all_seen_iff :
    (xs seen : List String)
    → (all_seen xs seen ≡ true) ↔ ((id : String) → elem id xs ≡ true → elem id seen ≡ true)
unfolding all_seen
all_seen_iff [] seen = (λ h id k. absurd (ground (arith, k)), λ h. refl)
all_seen_iff (x ∷ xs) seen =
    let later = all_seen_iff xs seen in
    (
      λ h id k. elim (Bool-cases (x == id)) [
        | inl e ↦
            let q : x ≡ id = (eq_iff x id).0 e in
            let found : elem x seen ≡ true = ground (arith, h) in rw q at found
        | inr e ↦ later.0 (ground (arith, h)) id (rw e at k)
      ],
      λ h.
          let here : elem x seen ≡ true = h x (ground (arith, eq_iff x x)) in
          let rest : all_seen xs seen ≡ true = later.1 (λ id k. h id (ground (arith, k))) in
          rw (here, rest) refl,
    )

is_nil_iff : (o : Option Problem) → (is_nil o ≡ true) ↔ (o ≡ none)
is_nil_iff none = (λ h. refl, λ h. refl)
is_nil_iff (some problem) = (λ h. cc, λ h. cc)

and_not : (a b : Bool) → (a && not b) ≡ true → (a ≡ true) × (b ≡ false)
and_not a b h = ground (arith, h)

required-Distinct : Distinct required_ids
unfolding required_ids
required-Distinct = (
  refl,
  (
    refl,
    (refl, (refl, (refl, (refl, (refl, (refl, (refl, (refl, (refl, (refl, (refl, tt))))))))))),
  ),
)

module _ {F : Type 0} (fl : Comparisons F) where
  -- The scenarios are those that the files hold.
  abbrev pub Read : (String → Content F) → List String → List (Scenario F) → Type 0
  Read files [] [] = Unit
  Read files [] (s ∷ rest) = ⊥
  Read files (path ∷ paths) [] = ⊥
  Read files (path ∷ paths) (s ∷ rest) = (decode (files path) ≡ some s) × Read files paths rest

  -- No id is among the seen ones or occurs twice.
  Fresh : List String → List (Scenario F) → Type 0
  Fresh seen [] = Unit
  Fresh seen (s ∷ rest) = (elem s.id seen ≡ false) × Fresh (s.id ∷ seen) rest

  accepted_iff :
      (seen : List String) (found : Option (Scenario F)) (s : Scenario F)
      → (accepted fl seen found ≡ some s)
        ↔ ((found ≡ some s) × Valid fl s × (elem s.id seen ≡ false))
  unfolding accepted
  accepted_iff seen none s = (λ h. cc, λ (h, v, f). cc)
  accepted_iff seen (some t) s =
      let (nil, problem) = is_nil_iff (validate fl t) in
      let (valid, passes) = validate_lem fl t in
      (
        λ h. elim (Bool-cases (is_nil (validate fl t) && not (elem t.id seen))) [
          | inl e ↦
              let q : some t ≡ some s = rw e at h in
              let v : Valid fl t = valid (nil (and_not _ _ e).0) in
              let p : t ≡ s = cc in
              (
                q,
                subst (λ x. Valid fl x) p v,
                subst (λ x. elem x.id seen ≡ false) p (and_not _ _ e).1,
              )
          | inr e ↦ let k : none ≡ some s = rw e at h in cc
        ],
        λ (q, v, f).
            let p : s ≡ t = cc in
            let nil : is_nil (validate fl t) ≡ true =
              problem (passes (subst (λ x. Valid fl x) p v)) in
            let fresh : elem t.id seen ≡ false = subst (λ x. elem x.id seen ≡ false) p f in
            rw (nil, fresh) q,
      )

  extended_iff :
      (found : Option (Scenario F)) (later : Option (List (Scenario F))) (s : Scenario F)
      (rest : List (Scenario F))
      → (extended fl found later ≡ some (s ∷ rest)) ↔ ((found ≡ some s) × (later ≡ some rest))
  unfolding extended
  extended_iff none later s rest = (λ h. cc, λ (h, k). cc)
  extended_iff (some t) none s rest = (λ h. cc, λ (h, k). cc)
  extended_iff (some t) (some ts) s rest = (λ h. (cc, cc), λ (h, k). cc)

  extended-cons :
      (found : Option (Scenario F)) (later : Option (List (Scenario F)))
      → extended fl found later ≡ some []
      → ⊥
  unfolding extended
  extended-cons none later h = cc
  extended-cons (some t) none h = cc
  extended-cons (some t) (some ts) h = cc

  load_all_iff :
      (files : String → Content F) (seen paths : List String) (catalog : List (Scenario F))
      → (load_all fl files seen paths ≡ some catalog)
        ↔ (Read files paths catalog × All (Valid fl) catalog × Fresh seen catalog)
  unfolding load_all Fresh
  load_all_iff files seen [] [] = (λ h. (tt, tt, tt), λ h. refl)
  load_all_iff files seen [] (s ∷ rest) = (λ h. cc, λ (h, v, f). absurd h)
  load_all_iff files seen (path ∷ paths) [] =
      (λ h. absurd (extended-cons _ _ h), λ (h, v, f). absurd h)
  load_all_iff files seen (path ∷ paths) (s ∷ rest) =
      let found = accepted fl seen (decode (files path)) in
      let both = extended_iff found (load_all fl files (id_of fl found ∷ seen) paths) s rest in
      let here = accepted_iff seen (decode (files path)) s in
      let later = load_all_iff files (s.id ∷ seen) paths rest in
      (
        λ h.
            let (a, b) = both.0 h in
            let (d, v, f) = here.0 a in
            let (r, vs, fs) =
              later.0 (subst (λ x. load_all fl files (id_of fl x ∷ seen) paths ≡ some rest) a b) in
            ((d, r), (v, vs), (f, fs)),
        λ ((d, r), (v, vs), (f, fs)).
            let a : found ≡ some s = here.1 (d, v, f) in
            let b = later.1 (r, vs, fs) in
            both.1
              (a, subst (λ x. load_all fl files (id_of fl x ∷ seen) paths ≡ some rest) (sym a) b),
      )

  -- Of the ids of fresh scenarios, none is among the seen ones, and none occurs twice.
  Fresh-iff :
      (seen : List String) (catalog : List (Scenario F))
      → Fresh seen catalog ↔ (
          Distinct (ids catalog)
          × ((id : String) → elem id (ids catalog) ≡ true → elem id seen ≡ false))
  unfolding Fresh ids
  Fresh-iff seen [] = (λ h. (tt, λ id k. absurd (ground (arith, k))), λ h. tt)
  Fresh-iff seen (s ∷ rest) =
      let (later, earlier) = Fresh-iff (s.id ∷ seen) rest in
      (
        λ (f, fs).
            let (d, apart) = later fs in
            let alone : elem s.id (ids rest) ≡ false = elim (Bool-cases (elem s.id (ids rest))) [
              | inl e ↦ let k = apart s.id e in absurd (ground (arith, k, eq_iff s.id s.id))
              | inr e ↦ e
            ] in
            (
              (alone, d),
              λ id k. elim (Bool-cases (s.id == id)) [
                | inl e ↦ let q : s.id ≡ id = (eq_iff s.id id).0 e in rw q at f
                | inr e ↦ let j = apart id (rw e at k) in ground (arith, j)
              ],
            ),
        λ ((alone, d), apart). (
          apart s.id (ground (arith, eq_iff s.id s.id)),
          earlier (
            d,
            λ id k. elim (Bool-cases (s.id == id)) [
              | inl e ↦
                  let q : s.id ≡ id = (eq_iff s.id id).0 e in
                  let j : elem id (ids rest) ≡ false = rw q at alone in
                  absurd (ground (arith, j, k))
              | inr e ↦ let j = apart id (ground (arith, k)) in ground (arith, e, j)
            ],
          ),
        ),
      )

  Valid-required :
      (catalog : List (Scenario F)) (id : String)
      → All (Valid fl) catalog
      → elem id (ids catalog) ≡ true
      → elem id required_ids ≡ true
  unfolding ids
  Valid-required [] id v h = absurd (ground (arith, h))
  Valid-required (s ∷ rest) id (v, vs) h = elim (Bool-cases (s.id == id)) [
    | inl e ↦ let q : s.id ≡ id = (eq_iff s.id id).0 e in let k = v.required in rw q at k
    | inr e ↦ Valid-required rest id vs (rw e at h)
  ]

  -- Each of the thirteen ids once, and no other.
  abbrev pub Complete : List (Scenario F) → Type 0
  Complete catalog = (id : String) → count id (ids catalog) ≡ count id required_ids

  Complete-iff :
      (catalog : List (Scenario F))
      → All (Valid fl) catalog
      → (Distinct (ids catalog) × (all_seen required_ids (ids catalog) ≡ true)) ↔ Complete catalog
  Complete-iff catalog v = (
    λ (d, present) id.
        let seen = (all_seen_iff required_ids (ids catalog)).0 present id in
        let wanted = Valid-required catalog id v in
        let once = count-le_of_Distinct id (ids catalog) d in
        let once' = count-le_of_Distinct id required_ids required-Distinct in
        let e1 = elem-count id (ids catalog) in
        let e2 = elem-count id required_ids in ground (arith, seen, wanted, once, once', e1, e2),
    λ h. (
      Distinct-of_count (ids catalog)
          (λ id. rw (h id) (count-le_of_Distinct id required_ids required-Distinct)),
      (all_seen_iff required_ids (ids catalog)).1
          (λ id k. rw (elem-of_count id (ids catalog) required_ids (h id)) k),
    ),
  )

  complete_iff :
      (found : Option (List (Scenario F))) (catalog : List (Scenario F))
      → (complete fl found ≡ some catalog)
        ↔ ((found ≡ some catalog) × (all_seen required_ids (ids catalog) ≡ true))
  unfolding complete
  complete_iff none catalog = (λ h. cc, λ (h, k). cc)
  complete_iff (some scenarios) catalog = (
    λ h. elim (Bool-cases (all_seen required_ids (ids scenarios))) [
      | inl e ↦
          let q : some scenarios ≡ some catalog = rw e at h in
          let p : scenarios ≡ catalog = cc in
          (q, subst (λ x. all_seen required_ids (ids x) ≡ true) p e)
      | inr e ↦ let k : none ≡ some catalog = rw e at h in cc
    ],
    λ (q, k).
        let p : catalog ≡ scenarios = cc in
        let e : all_seen required_ids (ids scenarios) ≡ true =
          subst (λ x. all_seen required_ids (ids x) ≡ true) p k in
        rw e q,
  )

  empty-Complete :
      (files : String → Content F) (catalog : List (Scenario F))
      → Read files [] catalog
      → Complete catalog
      → ⊥
  unfolding ids required_ids
  empty-Complete files [] r h = let k = h "cpu-saturation" in ground (arith, k)
  empty-Complete files (s ∷ rest) r h = r

  load_paths_iff :
      (files : String → Content F) (paths : List String) (catalog : List (Scenario F))
      → (load_paths fl files paths ≡ some catalog)
        ↔ (Read files paths catalog × All (Valid fl) catalog × Complete catalog)
  unfolding load_paths
  load_paths_iff files [] catalog =
      (λ h. cc, λ (r, v, c). absurd (empty-Complete files catalog r c))
  load_paths_iff files (path ∷ paths) catalog =
      let both = complete_iff (load_all fl files [] (path ∷ paths)) catalog in
      let loop = load_all_iff files [] (path ∷ paths) catalog in
      let fresh = Fresh-iff [] catalog in
      (
        λ h.
            let (l, present) = both.0 h in
            let (r, v, f) = loop.0 l in (r, v, (Complete-iff catalog v).0 ((fresh.0 f).0, present)),
        λ (r, v, c).
            let (d, present) = (Complete-iff catalog v).1 c in
            both.1 (loop.1 (r, v, fresh.1 (d, λ id k. refl)), present),
      )

  -- `Load` succeeds exactly if every file of the walk with the extension ".yaml" or ".yml" holds one
  -- document that decodes, each of them is valid, and each of the thirteen required ids is the id of
  -- exactly one. It then returns the scenarios in the order of the sorted paths.
  pub load_lem :
      (sort : List String → List String) (files : String → Content F) (entries : List Entry)
      (catalog : List (Scenario F))
      → (load fl sort files (some entries) ≡ some catalog) ↔ (
          Read files (sort (yaml_paths entries)) catalog
          × All (Valid fl) catalog
          × Complete catalog)
  unfolding load
  load_lem sort files entries catalog = load_paths_iff files (sort (yaml_paths entries)) catalog
