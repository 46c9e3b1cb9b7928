-- ===== src/Prelude/Int.antt =====
-- Go's signed `int`: what the handlers decode may be negative.
use Prim.Native.Nat.{ℕ}
use mathlib.Core.Bool.{Bool, true, false}
use mathlib.Core.Path.{◌≡◌}
use mathlib.Core.Logic.{◌↔◌}
use native.Mathlib.Omega.{arith}
use zth_sre.Prelude.Tests.{Eq, ltb, nat_eq}

-- `negsuc n` is -(n + 1).
pub data ℤ : Type 0 where
  pos : ℕ → ℤ
  negsuc : ℕ → ℤ

abbrev pub is_negative : ℤ → Bool
is_negative (pos n) = false
is_negative (negsuc n) = true

-- `lo < 0 || lo > limit` of the source, for a limit that is not negative.
abbrev pub out_of_range : ℕ → ℤ → Bool
out_of_range limit (pos n) = ltb limit n
out_of_range limit (negsuc n) = true

-- The number itself where it is not negative.
abbrev pub to_ℕ : ℤ → ℕ
to_ℕ (pos n) = n
to_ℕ (negsuc n) = 0

abbrev pub int_eq : ℤ → ℤ → Bool
int_eq (pos a) (pos b) = nat_eq a b
int_eq (pos a) (negsuc b) = false
int_eq (negsuc a) (pos b) = false
int_eq (negsuc a) (negsuc b) = nat_eq a b

pub int_eq_iff : (a b : ℤ) → (int_eq a b ≡ true) ↔ (a ≡ b)
int_eq_iff a b = (λ h. ground arith, λ h. ground arith)

instance abbrev pub ℤ_eq : Eq ℤ
ℤ_eq = record { same = int_eq; same_iff = int_eq_iff }
