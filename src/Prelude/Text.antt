-- ===== src/Prelude/Text.antt =====
-- Texts as lists of code points, and the shape of the identifier patterns.
use Prim.Native.Nat.{ℕ}
use Prim.Native.Char.{code}
use Prim.Native.String.{String}
use Prim.Native.String
use Prim.Native.String.append
use mathlib.Core.Path.{◌≡◌, refl, ap, ◌∙◌}
use mathlib.Core.Bool.{Bool, true, false, ◌&&◌, ◌||◌}
use mathlib.Core.List.{List, [], ◌∷◌, ◌++◌}
use native.Mathlib.Omega.{arith}
use zth_sre.Prelude.Tests.{leb, nat_eq}
use zth_sre.Prelude.Lists.{length}

abbrev pub codes : String → List ℕ
codes String.[] = []
codes (String.◌∷◌ c s) = code c ∷ codes s

abbrev pub all {ℓ} : {A : Type ℓ} → (A → Bool) → List A → Bool
all p [] = true
all p (c ∷ cs) = p c && all p cs

abbrev pub is_digit : ℕ → Bool
is_digit c = leb b'0' c && leb c b'9'

abbrev pub is_lower : ℕ → Bool
is_lower c = leb b'a' c && leb c b'z'

abbrev pub is_upper : ℕ → Bool
is_upper c = leb b'A' c && leb c b'Z'

-- The pattern `^[first][rest]{0,limit}$`.
abbrev pub matches : (ℕ → Bool) → (ℕ → Bool) → ℕ → List ℕ → Bool
matches first rest limit [] = false
matches first rest limit (c ∷ cs) = first c && (all rest cs && leb (length cs) limit)

-- `[a-z0-9]` and `[a-z0-9-]`.
abbrev pub slug_first : ℕ → Bool
slug_first c = is_lower c || is_digit c

abbrev pub slug_rest : ℕ → Bool
slug_rest c = is_lower c || (is_digit c || nat_eq c b'-')

-- `[A-Za-z0-9]` and `[A-Za-z0-9_-]`.
abbrev pub word_first : ℕ → Bool
word_first c = is_upper c || (is_lower c || is_digit c)

abbrev pub word_rest : ℕ → Bool
word_rest c = is_upper c || (is_lower c || (is_digit c || (nat_eq c b'_' || nat_eq c b'-')))

pub all-append : (p : ℕ → Bool) (xs ys : List ℕ) → all p (xs ++ ys) ≡ (all p xs && all p ys)
all-append p [] ys = refl
all-append p (x ∷ xs) ys = ground (arith, all-append p xs ys)

pub codes-append : (s t : String) → codes (String.◌++◌ s t) ≡ codes s ++ codes t
codes-append String.[] t = ap codes (append.nil t)
codes-append (String.◌∷◌ c s) t =
    ap codes (append.cons c s t) ∙ ap (λ l. code c ∷ l) (codes-append s t)
