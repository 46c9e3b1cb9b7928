-- ===== src/Demo/Dependency.antt =====
-- `callDependency`: the retries of an API request to its dependency.
use zth_sre.Prelude.{
  ℕ, zero, suc, ◌+◌, ◌≤◌, ◌<◌, ◌≡◌, refl, sym, ◌⊎◌, inl, inr, String, Bool, true, false, ◌&&◌, not,
  if◌then◌else◌, ◌==◌, String_eq, ℕ_eq, arith, Bool-cases,
}
use native.Mathlib.Decide.{dec_lt}

-- What one round of the loop meets.
pub data Attempt : Type 0 where
  -- http.NewRequestWithContext fails: the loop returns.
  no_request : Attempt
  -- The client's `Do`, or reading or decoding the body, fails, or the body is over the limit.
  unreachable unreadable oversized undecodable : Attempt
  -- The status, and the body as decoded: its role and whether it names a dependency.
  replied : ℕ → String → Bool → Attempt

pub good : Attempt → Bool
good (replied status role has_dependency) =
    status == 200 && (role == "dependency" && not has_dependency)
good _ = false

abbrev pub aborts : Attempt → Bool
aborts no_request = true
aborts _ = false

-- Rounds left after this one, the attempt's number, and whether the call succeeds, with the number
-- of the last attempt that was made.
attempt_from : (ℕ → Attempt) → ℕ → ℕ → Bool × ℕ
unfolding good
attempt_from attempts zero n = (good (attempts n), n)
attempt_from attempts (suc left) n =
    let rest = attempt_from attempts left (n + 1) in
    if good (attempts n) then (true, n) else if aborts (attempts n) then (false, n) else rest

-- Whether `err` is nil, and the last attempt.
pub call_dependency : (ℕ → Attempt) → ℕ → Bool × ℕ
unfolding attempt_from
call_dependency attempts retries = attempt_from attempts retries 0

-- Attempt `last` decides the call: the earlier ones failed without ending the loop, and it is good,
-- or ends the loop, or is the last that the retries allow.
pub record Decided (attempts : ℕ → Attempt) (from retries : ℕ) (r : Bool × ℕ) : Type 0 where
  pub reached : from ≤ r.1
  pub within : r.1 ≤ from + retries
  pub result : r.0 ≡ good (attempts r.1)
  pub earlier :
      (i : ℕ) → from ≤ i → i < r.1 → (good (attempts i) ≡ false) × (aborts (attempts i) ≡ false)
  pub ended : (good (attempts r.1) ≡ true) ⊎ (aborts (attempts r.1) ≡ true) ⊎ (r.1 ≡ from + retries)

later :
    (attempts : ℕ → Attempt) (left n : ℕ) {r : Bool × ℕ}
    → good (attempts n) ≡ false
    → aborts (attempts n) ≡ false
    → Decided attempts (n + 1) left r
    → Decided attempts n (suc left) r
later attempts left n {r} failed retry d = record {
  reached = omega (arith, d.reached);
  within = omega (arith, d.within);
  result = d.result;
  earlier = λ i l u. elim (dec_lt n i) [
    | yes after ↦ d.earlier i (omega arith) u
    | no here ↦ let e : i ≡ n = omega arith in rw e (failed, retry)
  ];
  ended = elim d.ended [
    | inl a ↦ inl a
    | inr (inl a) ↦ inr (inl a)
    | inr (inr a) ↦ inr (inr (omega arith))
  ];
}

attempt_from-Decided :
    (attempts : ℕ → Attempt) (left n : ℕ) → Decided attempts n left (attempt_from attempts left n)
unfolding attempt_from
attempt_from-Decided attempts zero n = record {
  reached = omega arith;
  within = omega arith;
  result = refl;
  earlier = λ i l u. absurd (omega arith);
  ended = inr (inr (omega arith));
}
attempt_from-Decided attempts (suc left) n = elim (Bool-cases (good (attempts n))) [
  | inl done ↦ rw done (record {
    reached = omega arith;
    within = omega arith;
    result = sym done;
    earlier = λ i l u. absurd (omega arith);
    ended = inl done;
  })
  | inr failed ↦ elim (Bool-cases (aborts (attempts n))) [
    | inl abort ↦
        rw (failed, abort)
          (record {
            reached = omega arith;
            within = omega arith;
            result = sym failed;
            earlier = λ i l u. absurd (omega arith);
            ended = inr (inl abort);
          })
    | inr retry ↦
        rw (failed, retry)
          (later attempts left n failed retry (attempt_from-Decided attempts left (n + 1)))
  ]
]

-- The call ends with one of its first `retries` + 1 attempts, and succeeds exactly if that one is good.
-- No attempt before it was good or had no request, and it is good itself, or has no request, or is the
-- last that the retries allow.
pub call_dependency-Decided :
    (attempts : ℕ → Attempt) (retries : ℕ)
    → Decided attempts 0 retries (call_dependency attempts retries)
unfolding call_dependency
call_dependency-Decided attempts retries = attempt_from-Decided attempts retries 0
