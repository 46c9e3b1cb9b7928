-- ===== src/Scenario/Rules.antt =====
-- What the checks of the texts, the durations and the traffic of a scenario mean.
use zth_sre.Prelude.{
  ◌≤◌, ◌<◌, ◌≡◌, refl, sym, ◌∙◌, ◌↔◌, ◌⊎◌, inl, inr, String, Bool, true, false, Option, none, some,
  List, [], ◌∷◌, ◌==◌, String_eq, ℕ_eq, length, All, arith, eq_iff, Bool-cases,
}
use zth_sre.Prelude.Int.{ℤ, pos, negsuc, ℤ_eq}
use zth_sre.Scenario.{
  Comparisons, Traffic, Problem, check, first, blank, max_duration, validate_duration,
  validate_strings, any_blank, validate_traffic, validate_constant, validate_ramp, validate_spike,
  wrong_texts, wrong_traffic, nonzero,
}

pub check_iff : (test : Bool) (problem : Problem) → (check test problem ≡ none) ↔ (test ≡ false)
check_iff true problem = (λ h. cc, λ h. cc)
check_iff false problem = (λ h. refl, λ h. refl)

abbrev pub Passed : Option Problem → Type 0
Passed c = c ≡ none

pub first_iff : (checks : List (Option Problem)) → (first checks ≡ none) ↔ All Passed checks
first_iff [] = (λ h. tt, λ h. refl)
first_iff (some problem ∷ checks) = (λ h. cc, λ h. cc)
first_iff (none ∷ checks) = let rest = first_iff checks in (λ h. (refl, rest.0 h), λ h. rest.1 h.1)

-- In (0, 1h].
abbrev pub InHour : ℤ → Type 0
InHour (pos n) = (0 < n) × (n ≤ max_duration)
InHour (negsuc n) = ⊥

-- At least one text, and none is blank.
abbrev pub Texts : List String → Type 0
Texts texts = (0 < length texts) × All (λ text. blank text ≡ false) texts

pub duration_iff : (d : ℤ) → (validate_duration d ≡ none) ↔ InHour d
unfolding validate_duration
duration_iff (pos n) = (λ h. ground arith, λ h. ground arith)
duration_iff (negsuc n) = (λ h. ground arith, λ h. ground arith)

pub nonzero_iff : (n : ℤ) → (nonzero n ≡ false) ↔ (n ≡ pos 0)
nonzero_iff n = (λ h. ground arith, λ h. ground arith)

any_blank_iff :
    (texts : List String) → (any_blank texts ≡ false) ↔ All (λ text. blank text ≡ false) texts
unfolding any_blank
any_blank_iff [] = (λ h. tt, λ h. refl)
any_blank_iff (text ∷ texts) =
    let rest = any_blank_iff texts in
    (λ h. (ground (arith, h), rest.0 (ground (arith, h))), λ (h, k). ground (arith, h, rest.1 k))

pub strings_iff : (texts : List String) → (validate_strings texts ≡ none) ↔ Texts texts
unfolding validate_strings
strings_iff texts =
    let parts =
      first_iff
        (check (length texts == 0) wrong_texts ∷ check (any_blank texts) wrong_texts ∷ []) in
    let e1 = check_iff (length texts == 0) wrong_texts in
    let e2 = check_iff (any_blank texts) wrong_texts in
    let e3 = any_blank_iff texts in
    (
      λ h. let (a, (b, _)) = parts.0 h in (ground (arith, e1.0 a), e3.0 (e2.0 b)),
      λ (a, b). parts.1 (e1.1 (ground (arith, a)), (e2.1 (e3.1 b), tt)),
    )

pub denied : (x a : String) → (x == a) ≡ false → x ≡ a → ⊥
denied x a h e = ground (arith, eq_iff x a, h, e)

pub differ : (x a b : String) → (a == b) ≡ false → x ≡ a → x ≡ b → ⊥
differ x a b h e f = denied a b h (sym e ∙ f)

module _ {F : Type 0} (fl : Comparisons F) where
  open fl use {one, max_rate, at_most, above, same}

  -- Neither at most 0 nor above 1000.
  abbrev pub Rate : F → Type 0
  Rate rate = (at_most rate fl.zero ≡ false) × (above rate max_rate ≡ false)

  abbrev pub Unused : F → Type 0
  Unused rate = same rate fl.zero ≡ true

  abbrev pub Constant : Traffic F → Type 0
  Constant t =
      Rate t.rps
      × Unused t.from_rps
      × Unused t.to_rps
      × Unused t.baseline_rps
      × Unused t.peak_rps
      × (t.ramp_duration ≡ pos 0)
      × (t.hold_duration ≡ pos 0)
      × (t.before ≡ pos 0)
      × (t.spike ≡ pos 0)
      × (t.after ≡ pos 0)
      × InHour t.duration

  abbrev pub Ramp : Traffic F → Type 0
  Ramp t =
      Rate t.from_rps
      × Rate t.to_rps
      × Unused t.rps
      × (t.duration ≡ pos 0)
      × Unused t.baseline_rps
      × Unused t.peak_rps
      × (t.before ≡ pos 0)
      × (t.spike ≡ pos 0)
      × (t.after ≡ pos 0)
      × InHour t.ramp_duration
      × InHour t.hold_duration

  abbrev pub Spike : Traffic F → Type 0
  Spike t =
      Rate t.baseline_rps
      × (at_most t.peak_rps t.baseline_rps ≡ false)
      × (above t.peak_rps max_rate ≡ false)
      × Unused t.rps
      × (t.duration ≡ pos 0)
      × Unused t.from_rps
      × Unused t.to_rps
      × (t.ramp_duration ≡ pos 0)
      × (t.hold_duration ≡ pos 0)
      × InHour t.before
      × InHour t.spike
      × InHour t.after

  -- One of the three profiles, with its own fields and no other.
  abbrev pub Profiled : Traffic F → Type 0
  Profiled t =
      ((t.profile ≡ "constant") × Constant t)
      ⊎ ((t.profile ≡ "ramp") × Ramp t)
      ⊎ ((t.profile ≡ "spike") × Spike t)

  validate_constant-Constant : (t : Traffic F) → (validate_constant fl t ≡ none) ↔ Constant t
  unfolding validate_constant
  validate_constant-Constant t =
      let parts = first_iff (check _ wrong_traffic ∷ validate_duration t.duration ∷ []) in
      let e1 = duration_iff t.duration in
      let n1 = nonzero_iff t.ramp_duration in
      let n2 = nonzero_iff t.hold_duration in
      let n3 = nonzero_iff t.before in
      let n4 = nonzero_iff t.spike in
      let n5 = nonzero_iff t.after in
      (
        λ h.
            let (a, (b1, _)) = parts.0 h in
            let c = (check_iff _ wrong_traffic).0 a in
            let d1 = e1.0 b1 in ground (arith, c, n1, n2, n3, n4, n5, d1),
        λ h. parts.1 (
          (check_iff _ wrong_traffic).1 (ground (arith, h, n1, n2, n3, n4, n5)),
          (e1.1 (ground (arith, h)), tt),
        ),
      )

  validate_ramp-Ramp : (t : Traffic F) → (validate_ramp fl t ≡ none) ↔ Ramp t
  unfolding validate_ramp
  validate_ramp-Ramp t =
      let parts = first_iff (
        check _ wrong_traffic
        ∷ validate_duration t.ramp_duration
        ∷ validate_duration t.hold_duration
        ∷ []) in
      let e1 = duration_iff t.ramp_duration in
      let e2 = duration_iff t.hold_duration in
      let n1 = nonzero_iff t.duration in
      let n2 = nonzero_iff t.before in
      let n3 = nonzero_iff t.spike in
      let n4 = nonzero_iff t.after in
      (
        λ h.
            let (a, (b1, (b2, _))) = parts.0 h in
            let c = (check_iff _ wrong_traffic).0 a in
            let d1 = e1.0 b1 in let d2 = e2.0 b2 in ground (arith, c, n1, n2, n3, n4, d1, d2),
        λ h. parts.1 (
          (check_iff _ wrong_traffic).1 (ground (arith, h, n1, n2, n3, n4)),
          (e1.1 (ground (arith, h)), (e2.1 (ground (arith, h)), tt)),
        ),
      )

  validate_spike-Spike : (t : Traffic F) → (validate_spike fl t ≡ none) ↔ Spike t
  unfolding validate_spike
  validate_spike-Spike t =
      let parts = first_iff (
        check _ wrong_traffic
        ∷ validate_duration t.before
        ∷ validate_duration t.spike
        ∷ validate_duration t.after
        ∷ []) in
      let e1 = duration_iff t.before in
      let e2 = duration_iff t.spike in
      let e3 = duration_iff t.after in
      let n1 = nonzero_iff t.duration in
      let n2 = nonzero_iff t.ramp_duration in
      let n3 = nonzero_iff t.hold_duration in
      (
        λ h.
            let (a, (b1, (b2, (b3, _)))) = parts.0 h in
            let c = (check_iff _ wrong_traffic).0 a in
            let d1 = e1.0 b1 in
            let d2 = e2.0 b2 in let d3 = e3.0 b3 in ground (arith, c, n1, n2, n3, d1, d2, d3),
        λ h. parts.1 (
          (check_iff _ wrong_traffic).1 (ground (arith, h, n1, n2, n3)),
          (e1.1 (ground (arith, h)), (e2.1 (ground (arith, h)), (e3.1 (ground (arith, h)), tt))),
        ),
      )

  pub traffic_iff : (t : Traffic F) → (validate_traffic fl t ≡ none) ↔ Profiled t
  unfolding validate_traffic
  traffic_iff t = elim (Bool-cases (t.profile == "constant")) [
    | inl e ↦
        let p : t.profile ≡ "constant" = (eq_iff t.profile "constant").0 e in
        (
          λ h. inl (p, (validate_constant-Constant t).0 (rw e at h)),
          λ h. rw e (
              (validate_constant-Constant t).1 (elim h [
                | inl (q, c) ↦ c
                | inr (inl (q, c)) ↦ absurd (differ t.profile "constant" "ramp" refl p q)
                | inr (inr (q, c)) ↦ absurd (differ t.profile "constant" "spike" refl p q)
              ])),
        )
    | inr e ↦ elim (Bool-cases (t.profile == "ramp")) [
      | inl e2 ↦
          let p : t.profile ≡ "ramp" = (eq_iff t.profile "ramp").0 e2 in
          (
            λ h. inr (inl (p, (validate_ramp-Ramp t).0 (rw (e, e2) at h))),
            λ h.
                rw (e, e2)
                  ((validate_ramp-Ramp t).1 (elim h [
                    | inl (q, c) ↦ absurd (differ t.profile "ramp" "constant" refl p q)
                    | inr (inl (q, c)) ↦ c
                    | inr (inr (q, c)) ↦ absurd (differ t.profile "ramp" "spike" refl p q)
                  ])),
          )
      | inr e2 ↦ elim (Bool-cases (t.profile == "spike")) [
        | inl e3 ↦
            let p : t.profile ≡ "spike" = (eq_iff t.profile "spike").0 e3 in
            (
              λ h. inr (inr (p, (validate_spike-Spike t).0 (rw (e, e2, e3) at h))),
              λ h.
                  rw (e, e2, e3)
                    ((validate_spike-Spike t).1 (elim h [
                      | inl (q, c) ↦ absurd (differ t.profile "spike" "constant" refl p q)
                      | inr (inl (q, c)) ↦ absurd (differ t.profile "spike" "ramp" refl p q)
                      | inr (inr (q, c)) ↦ c
                    ])),
            )
        | inr e3 ↦ (
          λ h. let k : some wrong_traffic ≡ none = rw (e, e2, e3) at h in cc,
          λ h. elim h [
            | inl (q, c) ↦ absurd (denied t.profile "constant" e q)
            | inr (inl (q, c)) ↦ absurd (denied t.profile "ramp" e2 q)
            | inr (inr (q, c)) ↦ absurd (denied t.profile "spike" e3 q)
          ],
        )
      ]
    ]
  ]
