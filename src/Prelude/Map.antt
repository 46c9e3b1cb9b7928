-- ===== src/Prelude/Map.antt =====
-- Go maps with text keys as association lists. A lookup of a missing key is `none`; the source's
-- zero value is an argument of `get`. Iteration order is never observed.
use Prim.Native.String.{String}
use mathlib.Core.Path.{◌≡◌, refl}
use mathlib.Core.Option.{Option, none, some}
use mathlib.Core.List.{List, [], ◌∷◌}
use native.Mathlib.Omega.{arith}
use text.Mathlib.TextEquality.{eq_iff}
use zth_sre.Prelude.Tests.{◌==◌, String_eq, if◌then◌else◌}

abbrev pub Map {ℓ} : Type ℓ → Type ℓ
Map V = List (String × V)

module _ {ℓ} {V : Type ℓ} where
  unfoldable pub lookup : String → Map V → Option V
  lookup key [] = none
  lookup key ((k, value) ∷ rest) = if k == key then some value else lookup key rest

  unfoldable pub insert : String → V → Map V → Map V
  insert key new [] = (key, new) ∷ []
  insert key new ((k, value) ∷ rest) =
      let others = insert key new rest in
      if k == key then (key, new) ∷ rest else (k, value) ∷ others

  abbrev pub or_zero : V → Option V → V
  or_zero z none = z
  or_zero z (some v) = v

  -- `m[k]`, with the zero value of the element type.
  abbrev pub get : V → String → Map V → V
  get z k m = or_zero z (lookup k m)

  -- A read after a write, under the written key and under any other.
  pub lookup-insert :
      (written read : String) (new : V) (m : Map V)
      → lookup read (insert written new m) ≡ (if written == read then some new else lookup read m)
  unfolding lookup insert
  lookup-insert written read new [] = refl
  lookup-insert written read new ((k, value) ∷ rest) =
      let later = lookup-insert written read new rest in
      ground (arith, later, eq_iff k written, eq_iff written read, eq_iff k read)
