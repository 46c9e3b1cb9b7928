-- ===== src/Scenario/Validity.antt =====
-- Which scenarios pass the validation.
use zth_sre.Prelude.{
  ℕ, ◌≤◌, ◌<◌, ◌≡◌, refl, ◌↔◌, ◌⊎◌, String, Bool, true, false, ◌&&◌, ◌||◌, not, none, ◌==◌,
  String_eq, ℕ_eq, ltb, length, elem, All, arith, eq_iff, All-elem,
}
use zth_sre.Prelude.Int.{ℤ, pos, ℤ_eq}
use zth_sre.Scenario.{
  Scenario, Comparisons, blank, checks, validate, wrong_version, no_goal, wrong_id, no_title,
  wrong_difficulty, wrong_environment, no_faults, no_diagram, required_ids, valid_id,
}
use zth_sre.Scenario.Rules.{check_iff, first_iff, Texts, strings_iff, Profiled, traffic_iff}
use zth_sre.Scenario.Goals.{Allowed, faults_iff, Promised, objectives_iff, Graded, grading_iff}

-- Every required id fits the pattern.
required-valid : All (λ id. valid_id id ≡ true) required_ids
unfolding required_ids valid_id
required-valid = (
  refl,
  (
    refl,
    (refl, (refl, (refl, (refl, (refl, (refl, (refl, (refl, (refl, (refl, (refl, tt))))))))))),
  ),
)

id_iff :
    (id : String)
    → ((not (valid_id id) || not (elem id required_ids)) ≡ false) ↔ (elem id required_ids ≡ true)
id_iff id = (
  λ h. ground (arith, h),
  λ h.
      let v = All-elem (λ x. valid_id x ≡ true) id required_ids required-valid h in
      ground (arith, v, h),
)

neither_iff : (a b : Bool) → ((a || b) ≡ false) ↔ ((a ≡ false) × (b ≡ false))
neither_iff a b = (λ h. ground (arith, h), λ h. ground (arith, h))

version_iff : (n : ℤ) → (not (n == pos 1) ≡ false) ↔ (n ≡ pos 1)
version_iff n = let e = ℤ_eq.same_iff n (pos 1) in (λ h. ground (arith, e), λ h. ground (arith, e))

text_iff : (a b : String) → (not (a == b) ≡ false) ↔ (a ≡ b)
text_iff a b = let e = eq_iff a b in (λ h. ground (arith, e), λ h. ground (arith, e))

few_iff : (n : ℕ) → (ltb n 2 ≡ false) ↔ (2 ≤ n)
few_iff n = (λ h. ground arith, λ h. ground arith)

nonempty_iff : (n : ℕ) → ((n == 0) ≡ false) ↔ (0 < n)
nonempty_iff n = (λ h. ground arith, λ h. ground arith)

difficulty_iff :
    (d : String)
    → ((not (d == "beginner") && not (d == "intermediate") && not (d == "advanced")) ≡ false)
      ↔ ((d ≡ "beginner") ⊎ (d ≡ "intermediate") ⊎ (d ≡ "advanced"))
difficulty_iff d =
    let e1 = eq_iff d "beginner" in
    let e2 = eq_iff d "intermediate" in
    let e3 = eq_iff d "advanced" in
    (λ h. ground (arith, e1, e2, e3), λ h. ground (arith, e1, e2, e3))

module _ {F : Type 0} (fl : Comparisons F) where
  pub record Valid (s : Scenario F) : Type 0 where
    pub version : s.schema_version ≡ pos 1
    pub goal : blank s.goal ≡ false
    pub criteria : 2 ≤ length s.success_criteria
    -- The id is one of the thirteen.
    pub required : elem s.id required_ids ≡ true
    pub title : blank s.title ≡ false
    pub description : blank s.description ≡ false
    pub difficulty :
        (s.difficulty ≡ "beginner") ⊎ (s.difficulty ≡ "intermediate") ⊎ (s.difficulty ≡ "advanced")
    pub learning_objectives : Texts s.learning_objectives
    pub prerequisites : Texts s.prerequisites
    pub required_tools : Texts s.required_tools
    pub false_hypotheses : Texts s.false_hypotheses
    pub runtime : s.runtime ≡ "docker"
    pub topology : s.topology ≡ "api-dependency"
    pub traffic : Profiled fl s.traffic
    pub some_fault : 0 < length s.faults
    pub faults : All (Allowed fl) s.faults
    pub objectives : Promised fl s.objectives
    pub grading : Graded fl s.grading
    pub hints : Texts s.hints
    pub nodes : 0 < length s.diagram.nodes
    pub edges : 0 < length s.diagram.edges

  validate-Valid : (s : Scenario F) → validate fl s ≡ none → Valid s
  unfolding validate checks
  validate-Valid s h =
      let (
        a1,
        (
          a2,
          (
            a3,
            (a4, (a5, (a6, (a7, (a8, (a9, (b1, (b2, (b3, (b4, (b5, (b6, (b7, (b8, _)))))))))))))),
          ),
        ),
      ) =
        (first_iff (checks fl s)).0 h in
      let (goal, criteria) = (neither_iff _ _).0 ((check_iff _ no_goal).0 a2) in
      let (title, description) = (neither_iff _ _).0 ((check_iff _ no_title).0 a4) in
      let (docker, topology) = (neither_iff _ _).0 ((check_iff _ wrong_environment).0 b1) in
      let (nodes, edges) = (neither_iff _ _).0 ((check_iff _ no_diagram).0 b8) in
      record {
        version = (version_iff _).0 ((check_iff _ wrong_version).0 a1);
        goal = goal;
        criteria = (few_iff _).0 criteria;
        required = (id_iff s.id).0 ((check_iff _ wrong_id).0 a3);
        title = title;
        description = description;
        difficulty = (difficulty_iff _).0 ((check_iff _ wrong_difficulty).0 a5);
        learning_objectives = (strings_iff _).0 a6;
        prerequisites = (strings_iff _).0 a7;
        required_tools = (strings_iff _).0 a8;
        false_hypotheses = (strings_iff _).0 a9;
        runtime = (text_iff _ _).0 docker;
        topology = (text_iff _ _).0 topology;
        traffic = (traffic_iff fl _).0 b2;
        some_fault = (nonempty_iff _).0 ((check_iff _ no_faults).0 b3);
        faults = (faults_iff fl _).0 b4;
        objectives = (objectives_iff fl s.objectives).0 b5;
        grading = (grading_iff fl s.grading).0 b6;
        hints = (strings_iff _).0 b7;
        nodes = (nonempty_iff _).0 nodes;
        edges = (nonempty_iff _).0 edges;
      }

  Valid-validate : (s : Scenario F) → Valid s → validate fl s ≡ none
  unfolding validate checks
  Valid-validate s v =
      let goal = (neither_iff _ _).1 (v.goal, (few_iff _).1 v.criteria) in
      let title = (neither_iff _ _).1 (v.title, v.description) in
      let environment =
        (neither_iff _ _).1 ((text_iff _ _).1 v.runtime, (text_iff _ _).1 v.topology) in
      let diagram = (neither_iff _ _).1 ((nonempty_iff _).1 v.nodes, (nonempty_iff _).1 v.edges) in
      (first_iff (checks fl s)).1 (
        (check_iff _ wrong_version).1 ((version_iff _).1 v.version),
        (
          (check_iff _ no_goal).1 goal,
          (
            (check_iff _ wrong_id).1 ((id_iff s.id).1 v.required),
            (
              (check_iff _ no_title).1 title,
              (
                (check_iff _ wrong_difficulty).1 ((difficulty_iff _).1 v.difficulty),
                (
                  (strings_iff _).1 v.learning_objectives,
                  (
                    (strings_iff _).1 v.prerequisites,
                    (
                      (strings_iff _).1 v.required_tools,
                      (
                        (strings_iff _).1 v.false_hypotheses,
                        (
                          (check_iff _ wrong_environment).1 environment,
                          (
                            (traffic_iff fl _).1 v.traffic,
                            (
                              (check_iff _ no_faults).1 ((nonempty_iff _).1 v.some_fault),
                              (
                                (faults_iff fl _).1 v.faults,
                                (
                                  (objectives_iff fl s.objectives).1 v.objectives,
                                  (
                                    (grading_iff fl s.grading).1 v.grading,
                                    (
                                      (strings_iff _).1 v.hints,
                                      ((check_iff _ no_diagram).1 diagram, tt),
                                    ),
                                  ),
                                ),
                              ),
                            ),
                          ),
                        ),
                      ),
                    ),
                  ),
                ),
              ),
            ),
          ),
        ),
      )

  pub validate_lem : (s : Scenario F) → (validate fl s ≡ none) ↔ Valid s
  validate_lem s = (validate-Valid s, Valid-validate s)
