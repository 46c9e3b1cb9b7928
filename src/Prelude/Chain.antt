-- ===== src/Prelude/Chain.antt =====
-- Steps in a row of which each may fail, as a `do` block.
use mathlib.Core.Path.{◌≡◌, refl}
use mathlib.Core.Option.{Option, none, some}
use mathlib.Core.Logic.{◌↔◌}

infixl 5 ◌>>=◌
abbrev pub ◌>>=◌ {ℓ κ} : {A : Type ℓ} {B : Type κ} → Option A → (A → Option B) → Option B
none >>= f = none
some a >>= f = f a

-- Where all steps succeed, the first did, and the rest from its result.
pub >>=-elim {ℓ κ μ} :
    {A : Type ℓ} {B : Type κ} {C : Type μ} (m : Option A) (f : A → Option B) {b : B}
    → (m >>= f) ≡ some b
    → ((a : A) → m ≡ some a → f a ≡ some b → C)
    → C
>>=-elim none f h k = absurd (cc)
>>=-elim (some a) f h k = k a refl h

-- A step succeeds.
abbrev pub Made {ℓ} : {A : Type ℓ} → Option A → Type ℓ
Made {A} m = (a : A) × (m ≡ some a)

pub iff_refl {ℓ} : {A : Type ℓ} → A ↔ A
iff_refl = (λ e. e, λ e. e)

-- A step and the rest succeed exactly if the step does and the rest, which does alike from every result.
pub >>=-Made {ℓ κ μ ν} :
    {A : Type ℓ} {B : Type κ} {Here : Type μ} {Later : Type ν} (m : Option A) (f : A → Option B)
    → Made m ↔ Here
    → ((a : A) → Made (f a) ↔ Later)
    → Made (m >>= f) ↔ (Here × Later)
>>=-Made none f h k = (λ (b, e). absurd (cc), λ (here, later). let (a, e) = h.1 here in absurd (cc))
>>=-Made (some a) f h k = (λ made. (h.0 (a, refl), (k a).0 made), λ (here, later). (k a).1 later)

-- The last step.
pub last-Made {ℓ κ μ} :
    {A : Type ℓ} {B : Type κ} {Here : Type μ} (m : Option A) (f : A → B)
    → Made m ↔ Here
    → Made (m >>= (λ a. some (f a))) ↔ Here
last-Made none f h = (λ (b, e). absurd (cc), λ here. let (a, e) = h.1 here in absurd (cc))
last-Made (some a) f h = (λ made. h.0 (a, refl), λ here. (f a, refl))
