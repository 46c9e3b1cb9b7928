-- ===== src/Prelude/Lists.antt =====
-- Lists measured by native numbers, under the library's names, and membership tests.
use Prim.Native.Nat.{ℕ, zero, suc, ◌+◌, ◌-◌, ◌≤◌}
use mathlib.Core.Path.{◌≡◌, refl, sym, ap}
use mathlib.Core.Bool.{Bool, true, false, ◌||◌}
use mathlib.Core.List.{List, [], ◌∷◌, ◌++◌}
use native.Mathlib.Omega.{arith}
use mathlib.Core.Logic.{inl, inr}
use mathlib.Core.Path.{subst}
use zth_sre.Prelude.Tests.{Bool-cases, Eq, ◌==◌, ltb, if◌then◌else◌, ==_refl}

module _ {ℓ} {A : Type ℓ} where
  abbrev pub length : List A → ℕ
  length [] = 0
  length (x ∷ xs) = suc (length xs)

  abbrev pub drop : ℕ → List A → List A
  drop zero xs = xs
  drop (suc n) [] = []
  drop (suc n) (x ∷ xs) = drop n xs

  abbrev pub replicate : ℕ → A → List A
  replicate zero a = []
  replicate (suc n) a = a ∷ replicate n a

  pub length-append : (xs ys : List A) → length (xs ++ ys) ≡ length xs + length ys
  length-append [] ys = omega arith
  length-append (x ∷ xs) ys = omega (arith, length-append xs ys)

  pub length-drop : (n : ℕ) (xs : List A) → length (drop n xs) ≡ length xs - n
  length-drop zero xs = omega arith
  length-drop (suc n) [] = omega arith
  length-drop (suc n) (x ∷ xs) = omega (arith, length-drop n xs)

  drop-nil : (n : ℕ) → drop n [] ≡ []
  drop-nil zero = refl
  drop-nil (suc n) = refl

  pub drop-drop : (m n : ℕ) (xs : List A) → drop m (drop n xs) ≡ drop (n + m) xs
  drop-drop m zero xs = let e : 0 + m ≡ m = omega arith in ap (λ k. drop k xs) (sym e)
  drop-drop m (suc n) [] = rw (drop-nil m, drop-nil (suc n + m)) refl
  drop-drop m (suc n) (x ∷ xs) =
      let e : suc n + m ≡ suc (n + m) = omega arith in rw e (drop-drop m n xs)

  pub drop-append : (n : ℕ) (xs ys : List A) → n ≤ length xs → drop n (xs ++ ys) ≡ drop n xs ++ ys
  drop-append zero xs ys h = refl
  drop-append (suc n) [] ys h = absurd (omega arith)
  drop-append (suc n) (x ∷ xs) ys h = drop-append n xs ys (omega arith)

abbrev pub All {ℓ κ} : {A : Type ℓ} → (A → Type κ) → List A → Type κ
All Holds [] = Unit
All Holds (item ∷ rest) = Holds item × All Holds rest

pub All-append {ℓ κ} :
    {A : Type ℓ} (Holds : A → Type κ) (front back : List A)
    → All Holds front
    → All Holds back
    → All Holds (front ++ back)
All-append Holds [] back left right = right
All-append Holds (item ∷ front) back (here, left) right =
    (here, All-append Holds front back left right)

-- The loop `for _, item := range items { if item == value { return true } }`.
module _ {ℓ} {A : Type ℓ} ⦃e : Eq A⦄ where
  abbrev pub elem : A → List A → Bool
  elem a [] = false
  elem a (x ∷ xs) = (x == a) || elem a xs

  pub elem-append : (a : A) (xs ys : List A) → elem a (xs ++ ys) ≡ (elem a xs || elem a ys)
  elem-append a [] ys = refl
  elem-append a (x ∷ xs) ys = ground (arith, elem-append a xs ys)

  -- No entry twice, by the test.
  abbrev pub Distinct : List A → Type 0
  Distinct [] = Unit {0}
  Distinct (x ∷ xs) = (elem x xs ≡ false) × Distinct xs

  pub Distinct-snoc :
      (xs : List A) (a : A) → Distinct xs → elem a xs ≡ false → Distinct (xs ++ a ∷ [])
  Distinct-snoc [] a d h = (refl, tt)
  Distinct-snoc (x ∷ xs) a d h = (
    ground (arith, elem-append x xs (a ∷ []), e.same_iff a x, e.same_iff x a),
    Distinct-snoc xs a d.1 (ground arith),
  )

  abbrev pub count : A → List A → ℕ
  count a [] = 0
  count a (x ∷ xs) = let rest = count a xs in if x == a then suc rest else rest

  pub elem-count : (a : A) (xs : List A) → elem a xs ≡ ltb 0 (count a xs)
  elem-count a [] = refl
  elem-count a (x ∷ xs) = ground (arith, elem-count a xs)

  pub count-append : (a : A) (xs ys : List A) → count a (xs ++ ys) ≡ count a xs + count a ys
  count-append a [] ys = omega arith
  count-append a (x ∷ xs) ys = ground (arith, count-append a xs ys)

  -- Two lists that hold the same items as often pass the same tests.
  pub elem-of_count : (a : A) (xs ys : List A) → count a xs ≡ count a ys → elem a xs ≡ elem a ys
  elem-of_count a xs ys h = rw (elem-count a xs, elem-count a ys, h) refl

  pub count-le_of_Distinct : (a : A) (xs : List A) → Distinct xs → count a xs ≤ 1
  count-le_of_Distinct a [] d = omega arith
  count-le_of_Distinct a (x ∷ xs) d =
      ground (arith, count-le_of_Distinct a xs d.1, elem-count a xs, e.same_iff x a)

  pub Distinct-of_count : (xs : List A) → ((a : A) → count a xs ≤ 1) → Distinct xs
  Distinct-of_count [] h = tt
  Distinct-of_count (x ∷ xs) h = (
    ground (arith, h x, elem-count x xs, ==_refl x),
    Distinct-of_count xs (λ a. ground (arith, h a)),
  )

  -- What holds of every entry holds of one that the test finds.
  pub All-elem {κ} :
      (Holds : A → Type κ) (a : A) (xs : List A) → All Holds xs → elem a xs ≡ true → Holds a
  All-elem Holds a [] v h = absurd (ground (arith, h))
  All-elem Holds a (x ∷ xs) v h = elim (Bool-cases (x == a)) [
    | inl found ↦ subst (λ y. Holds y) ((e.same_iff x a).0 found) v.0
    | inr other ↦ All-elem Holds a xs v.1 (rw other at h)
  ]
