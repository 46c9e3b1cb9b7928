-- ===== src/Prelude/Strings.antt =====
-- The functions of package strings that the handlers use, with Go's argument order.
use Prim.Native.Nat.{ℕ, zero, suc, ◌-◌}
use Prim.Native.Char.{Char, code}
use Prim.Native.String.{String, [], ◌∷◌, ◌++◌, len}
use mathlib.Core.Path.{◌≡◌, refl}
use mathlib.Core.Bool.{Bool, true, false, ◌&&◌, ◌||◌, not}
use mathlib.Core.Option.{Option, none, some}
use mathlib.Core.List.{List, [], ◌∷◌}
use native.Mathlib.Omega.{arith}
use zth_sre.Prelude.Tests.{if◌then◌else◌, ◌==◌, String_eq, ℕ_eq, nat_eq}

-- What follows a prefix, none where the text does not start with it.
strip : String → String → Option String
strip s [] = some s
strip [] (p ∷ ps) = none
strip (c ∷ s) (p ∷ ps) = if nat_eq (code c) (code p) then strip s ps else none

unfoldable pub has_prefix : String → String → Bool
has_prefix s [] = true
has_prefix [] (p ∷ ps) = false
has_prefix (c ∷ s) (p ∷ ps) = nat_eq (code c) (code p) && has_prefix s ps

abbrev or_text : String → Option String → String
or_text s none = s
or_text s (some t) = t

unfoldable pub trim_prefix : String → String → String
unfolding strip
trim_prefix s p = or_text s (strip s p)

unfoldable pub has_suffix : String → String → Bool
has_suffix [] t = t == ""
has_suffix (c ∷ s) t = (c ∷ s) == t || has_suffix s t

unfoldable pub trim_suffix : String → String → String
trim_suffix [] t = []
trim_suffix (c ∷ s) t = let rest = trim_suffix s t in if (c ∷ s) == t then "" else c ∷ rest

unfoldable pub contains : String → String → Bool
unfolding has_prefix
contains [] t = t == ""
contains (c ∷ s) t = has_prefix (c ∷ s) t || contains s t

-- Whether a code point occurs, as in strings.ContainsAny.
unfoldable pub has_code : String → ℕ → Bool
has_code [] n = false
has_code (c ∷ s) n = nat_eq (code c) n || has_code s n

abbrev extended : Char → List String → List String
extended c [] = (c ∷ []) ∷ []
extended c (part ∷ parts) = (c ∷ part) ∷ parts

-- filepath.Ext and path.Ext.
unfoldable pub ext : String → String
unfolding has_code
ext [] = []
ext (c ∷ path) =
    let later = ext path in
    if nat_eq (code c) b'.' && (not (has_code path b'/') && not (has_code path b'.'))
    then c ∷ path
    else later

-- strings.Split at a single character.
unfoldable pub split : String → ℕ → List String
split [] n = "" ∷ []
split (c ∷ s) n =
    let parts = split s n in if nat_eq (code c) n then "" ∷ parts else extended c parts

-- The text after its first characters, which are those of an earlier match, are skipped.
replace_from : String → String → ℕ → String → String
unfolding has_prefix
replace_from old new n [] = []
replace_from old new (suc n) (c ∷ s) = replace_from old new n s
replace_from old new zero (c ∷ s) =
    let matches = has_prefix (c ∷ s) old in
    let rest = replace_from old new (if matches then len old - 1 else 0) s in
    if matches then new ++ rest else c ∷ rest

-- `strings.ReplaceAll` of a text that is not empty: the old one, the new one, and where.
unfoldable pub replace_all : String → String → String → String
unfolding replace_from
replace_all old new s = replace_from old new 0 s

-- Of two prefixes of one text, one is a prefix of the other.
pub prefixes_lem :
    (s p q : String)
    → has_prefix s p ≡ true
    → has_prefix s q ≡ true
    → (has_prefix p q || has_prefix q p) ≡ true
unfolding has_prefix
prefixes_lem s [] [] h k = refl
prefixes_lem s [] (d ∷ q) h k = refl
prefixes_lem s (c ∷ p) [] h k = refl
prefixes_lem [] (c ∷ p) (d ∷ q) h k = absurd (ground (arith, h))
prefixes_lem (e ∷ s) (c ∷ p) (d ∷ q) h k = ground (arith, prefixes_lem s p q, h, k)

-- A prefix of a prefix is one.
pub has_prefix_trans :
    (s p q : String) → has_prefix s p ≡ true → has_prefix p q ≡ true → has_prefix s q ≡ true
unfolding has_prefix
has_prefix_trans s p [] h k = refl
has_prefix_trans s [] (d ∷ q) h k = absurd (ground (arith, k))
has_prefix_trans [] (c ∷ p) (d ∷ q) h k = absurd (ground (arith, h))
has_prefix_trans (b ∷ s) (c ∷ p) (d ∷ q) h k =
    let rest = has_prefix_trans s p q (ground (arith, h)) (ground (arith, k)) in
    ground (arith, h, k, rest)
