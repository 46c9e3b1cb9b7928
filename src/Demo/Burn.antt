-- ===== src/Demo/Burn.antt =====
-- `burnCPU`: the workload loop over a 64-bit value.
use zth_sre.Prelude.{
  ℕ, zero, suc, ◌+◌, ◌*◌, ◌%◌, ◌^◌, ◌≤◌, ◌<◌, ◌≡◌, refl, ◌⊎◌, inl, inr, Bool, true, ◌&&◌, Option,
  none, some, if◌then◌else◌, ◌==◌, ℕ_eq, arith, Bool-cases,
}
use native.Mathlib.Decide.{dec_lt}

abbrev pub u64_mod : ℕ
u64_mod = 2 ^ 64

pub scramble : ℕ → ℕ
scramble value = (value * 6364136223846793005 + 1442695040888963407) % u64_mod

-- The rounds left, the loop's counter and the value; `cancelled i` is whether ctx is done when the
-- loop looks at it in round i.
burn_loop : (ℕ → Bool) → ℕ → ℕ → ℕ → Option ℕ
unfolding scramble
burn_loop cancelled zero i value = some value
burn_loop cancelled (suc left) i value =
    let rest = burn_loop cancelled left (i + 1) (scramble value) in
    if i % 1024 == 0 && cancelled i then none else rest

-- The value that is added to the sink, or none for the context's error.
unfoldable pub burn_cpu : (ℕ → Bool) → ℕ → Option ℕ
unfolding burn_loop
burn_cpu cancelled work = burn_loop cancelled work 0 1

pub iterate : ℕ → ℕ → ℕ
iterate zero value = value
iterate (suc n) value = iterate n (scramble value)

-- A round before `work` in which the loop sees the cancellation.
abbrev pub Noticed : (ℕ → Bool) → ℕ → ℕ → ℕ → Type 0
Noticed cancelled from work i =
    (from ≤ i) × (i < from + work) × (i % 1024 ≡ 0) × (cancelled i ≡ true)

Noticed-here :
    (cancelled : ℕ → Bool) (left i : ℕ)
    → (i % 1024 == 0 && cancelled i) ≡ true
    → Noticed cancelled i (suc left) i
Noticed-here cancelled left i h = (omega arith, omega arith, ground arith, ground arith)

seen :
    (cancelled : ℕ → Bool) (i : ℕ)
    → i % 1024 ≡ 0
    → cancelled i ≡ true
    → (i % 1024 == 0 && cancelled i) ≡ true
seen cancelled i m c = rw (m, c) refl

Noticed-cases :
    (cancelled : ℕ → Bool) (left i j : ℕ)
    → Noticed cancelled i (suc left) j
    → ((i % 1024 == 0 && cancelled i) ≡ true) ⊎ Noticed cancelled (i + 1) left j
Noticed-cases cancelled left i j (l, u, m, c) = elim (dec_lt i j) [
  | yes later ↦ inr (omega arith, omega arith, m, c)
  | no here ↦ let e : j ≡ i = omega arith in inl (seen cancelled i (rw e at m) (rw e at c))
]

burn_loop_lem :
    (cancelled : ℕ → Bool) (left i value : ℕ)
    → ((burn_loop cancelled left i value ≡ some (iterate left value))
        × ((j : ℕ) → ¬ Noticed cancelled i left j))
      ⊎ ((burn_loop cancelled left i value ≡ none) × ((j : ℕ) × Noticed cancelled i left j))
unfolding burn_loop iterate
burn_loop_lem cancelled zero i value = inl (refl, λ j n. omega arith)
burn_loop_lem cancelled (suc left) i value = elim (Bool-cases (i % 1024 == 0 && cancelled i)) [
  | inl stop ↦ rw stop (inr (refl, (i, Noticed-here cancelled left i stop)))
  | inr go ↦ rw go (elim (burn_loop_lem cancelled left (i + 1) (scramble value)) [
    | inl (e, never) ↦ inl (
      e,
      λ j n. elim (Noticed-cases cancelled left i j n) [ inl now ↦ cc | inr later ↦ never j later ],
    )
    | inr (e, (j, n)) ↦ inr (e, (j, (omega (arith, n.0), omega (arith, n.1), n.2, n.3)))
  ])
]

-- Either the context is not done at any of the looks, one every 1024 rounds, and the loop runs all its
-- rounds; or it is done at one of them, and the loop stops with an error.
pub burn_cpu_lem :
    (cancelled : ℕ → Bool) (work : ℕ)
    → ((burn_cpu cancelled work ≡ some (iterate work 1)) × ((i : ℕ) → ¬ Noticed cancelled 0 work i))
      ⊎ ((burn_cpu cancelled work ≡ none) × ((i : ℕ) × Noticed cancelled 0 work i))
unfolding burn_cpu
burn_cpu_lem cancelled work = burn_loop_lem cancelled work 0 1
