-- ===== src/Prelude/Order.antt =====
-- Ascending lists of numbers: without repetition they ascend strictly, and the numbers that an
-- ascending list holds determine it.
use Prim.Native.Nat.{ℕ, ◌≤◌, ◌<◌}
use mathlib.Core.Path.{◌≡◌, refl, ap₂}
use mathlib.Core.Logic.{inl, inr}
use mathlib.Core.Bool.{true, false}
use mathlib.Core.List.{List, [], ◌∷◌}
use native.Mathlib.Omega.{arith}
use zth_sre.Prelude.Tests.{if◌then◌else◌, ◌==◌, ℕ_eq, nat_eq_iff, Bool-cases, ==_refl}
use zth_sre.Prelude.Lists.{All, elem, count, Distinct, elem-count, count-le_of_Distinct}
use zth_sre.Prelude.Sort.{Ascending}

pub All-elem {ℓ} : (P : ℕ → Type ℓ) (a : ℕ) (xs : List ℕ) → All P xs → elem a xs ≡ true → P a
All-elem P a [] h m = cc
All-elem P a (x ∷ xs) h m = elim (Bool-cases (x == a)) [
  | inl e ↦ let p : x ≡ a = (nat_eq_iff x a).0 e in rw p at h.0
  | inr e ↦ All-elem P a xs h.1 (ground arith)
]

All-lt_of_le : (x : ℕ) (xs : List ℕ) → All (λ y. x ≤ y) xs → elem x xs ≡ false → All (λ y. x < y) xs
All-lt_of_le x [] h m = tt
All-lt_of_le x (y ∷ xs) h m = (ground (arith, nat_eq_iff y x), All-lt_of_le x xs h.1 (ground arith))

pub Ascending-strict : (xs : List ℕ) → Ascending ◌≤◌ xs → Distinct xs → Ascending ◌<◌ xs
Ascending-strict [] h d = tt
Ascending-strict (x ∷ xs) h d = (All-lt_of_le x xs h.0 d.0, Ascending-strict xs h.1 d.1)

pub Distinct-of_strict : (xs : List ℕ) → Ascending ◌<◌ xs → Distinct xs
Distinct-of_strict [] h = tt
Distinct-of_strict (x ∷ xs) h = (above xs h.0, Distinct-of_strict xs h.1)
  where
    above : (ys : List ℕ) → All (λ y. x < y) ys → elem x ys ≡ false
    above ys k = elim (Bool-cases (elem x ys)) [
      | inl t ↦ absurd (let l : x < x = All-elem (λ z. x < z) x ys k t in omega arith)
      | inr f ↦ f
    ]

-- The least entry stands first.
head_le : (x y : ℕ) (xs ys : List ℕ) → All (λ z. y ≤ z) ys → elem x (y ∷ ys) ≡ true → y ≤ x
head_le x y xs ys h m = elim (Bool-cases (y == x)) [
  | inl e ↦ ground (arith, nat_eq_iff y x)
  | inr e ↦ All-elem (λ z. y ≤ z) x ys h (ground arith)
]

pub Ascending-unique :
    (xs ys : List ℕ)
    → Ascending ◌≤◌ xs
    → Ascending ◌≤◌ ys
    → ((a : ℕ) → count a xs ≡ count a ys)
    → xs ≡ ys
Ascending-unique [] [] p q h = refl
Ascending-unique [] (y ∷ ys) p q h = absurd (ground (arith, h y, ==_refl y))
Ascending-unique (x ∷ xs) [] p q h = absurd (ground (arith, h x, ==_refl x))
Ascending-unique (x ∷ xs) (y ∷ ys) p q h =
    let e : x ≡ y = omega (
      arith,
      head_le x y xs ys q.0 (ground (arith, h x, ==_refl x, elem-count x (y ∷ ys))),
      head_le y x ys xs p.0 (ground (arith, h y, ==_refl y, elem-count y (x ∷ xs))),
    ) in
    ap₂ ◌∷◌ e (Ascending-unique xs ys p.1 q.1 (λ a. ground (arith, h a, e)))

pub count_of_Distinct :
    (a : ℕ) (xs : List ℕ) → Distinct xs → count a xs ≡ (if elem a xs then 1 else 0)
count_of_Distinct a xs d = ground (arith, count-le_of_Distinct a xs d, elem-count a xs)
