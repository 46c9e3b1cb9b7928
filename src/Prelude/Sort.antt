-- ===== src/Prelude/Sort.antt =====
-- Package sort: what the stores rely on of `sort.Strings` and `sort.Ints`.
use mathlib.Core.Path.{◌≡◌}
use mathlib.Core.List.{List, [], ◌∷◌}
use zth_sre.Prelude.Tests.{Eq}
use zth_sre.Prelude.Lists.{All, count, length}

abbrev pub Ascending : {A : Type 0} → (A → A → Type 0) → List A → Type 0
Ascending R [] = Unit {0}
Ascending R (x ∷ xs) = All (R x) xs × Ascending R xs

-- The result holds the same items, as often, in ascending order.
pub record Sorter (A : Type 0) (e : Eq A) (R : A → A → Type 0) : Type 0 where
  pub sort : List A → List A
  pub count-sort : (a : A) (xs : List A) → count ⦃e = e⦄ a (sort xs) ≡ count ⦃e = e⦄ a xs
  pub length-sort : (xs : List A) → length (sort xs) ≡ length xs
  pub sort-Ascending : (xs : List A) → Ascending R (sort xs)

-- `for k := range m`: the keys of a map, in an order that the language leaves open.
pub record KeyOrder (A : Type 0) (e : Eq A) : Type 0 where
  pub keys : List A → List A
  pub count-keys : (a : A) (xs : List A) → count ⦃e = e⦄ a (keys xs) ≡ count ⦃e = e⦄ a xs
  pub length-keys : (xs : List A) → length (keys xs) ≡ length xs
