-- ===== src/Server/Paths/Reach.antt =====
-- What of Prometheus the allowed paths reach.
use zth_sre.Prelude.{
  ◌≡◌, refl, inl, inr, String, Bool, true, false, ◌&&◌, ◌||◌, not, List, [], ◌∷◌, ◌==◌, String_eq,
  elem, arith, Bool-cases, eq_iff,
}
use zth_sre.Prelude.Strings.{has_prefix, prefixes_lem}
use zth_sre.Server.Paths.{pages, prometheus_path}

-- The prefixes of the endpoints that change or stop Prometheus, or hand out its whole data: lifecycle,
-- TSDB admin, remote write, remote read, federation, and its profiler.
pub guarded : List String
guarded =
    "/-/" ∷ "/api/v1/admin" ∷ "/api/v1/write" ∷ "/api/v1/read" ∷ "/api/v1/otlp" ∷ "/federate"
    ∷ "/debug/" ∷ []

-- No text has both prefixes.
pub apart :
    (p a b : String)
    → (has_prefix a b || has_prefix b a) ≡ false
    → has_prefix p a ≡ true
    → has_prefix p b ≡ false
apart p a b h k = elim (Bool-cases (has_prefix p b)) [
  | inr e ↦ e
  | inl e ↦ let c = prefixes_lem p a b k e in absurd (ground (arith, h, c))
]

-- Whether a path starts with none of some prefixes.
pub clear : List String → String → Bool
clear [] p = true
clear (q ∷ qs) p = not (has_prefix p q) && clear qs p

all_clear : List String → List String → Bool
all_clear qs [] = true
all_clear qs (p ∷ ps) = clear qs p && all_clear qs ps

all_clear-elem :
    (qs ps : List String) (p : String)
    → all_clear qs ps ≡ true
    → elem p ps ≡ true
    → clear qs p ≡ true
unfolding all_clear
all_clear-elem qs [] p h k = absurd (ground (arith, k))
all_clear-elem qs (x ∷ xs) p h k = elim (Bool-cases (x == p)) [
  | inl e ↦
      let q : x ≡ p = (eq_iff x p).0 e in let c : clear qs x ≡ true = ground (arith, h) in rw q at c
  | inr e ↦ all_clear-elem qs xs p (ground (arith, h)) (rw e at k)
]

-- Whether no text has both `a` and one of some prefixes.
unrelated : String → List String → Bool
unrelated a [] = true
unrelated a (q ∷ qs) = not (has_prefix a q || has_prefix q a) && unrelated a qs

unrelated-clear :
    (p a : String) (qs : List String)
    → unrelated a qs ≡ true
    → has_prefix p a ≡ true
    → clear qs p ≡ true
unfolding unrelated clear
unrelated-clear p a [] h k = refl
unrelated-clear p a (q ∷ qs) h k =
    let here : has_prefix p q ≡ false = apart p a q (ground (arith, h)) k in
    let rest = unrelated-clear p a qs (ground (arith, h)) k in rw (here, rest) refl

pages-clear : all_clear guarded pages ≡ true
unfolding all_clear clear guarded pages has_prefix
pages-clear = refl

-- A path that is allowed starts with none of the guarded prefixes.
pub prometheus_path_lem : (p : String) → prometheus_path p ≡ true → clear guarded p ≡ true
unfolding prometheus_path unrelated guarded has_prefix
prometheus_path_lem p h = elim (Bool-cases (elem p pages)) [
  | inl e ↦ all_clear-elem guarded pages p pages-clear e
  | inr e1 ↦ elim (Bool-cases (has_prefix p "/assets/")) [
    | inl e ↦ unrelated-clear p "/assets/" guarded refl e
    | inr e2 ↦ elim (Bool-cases (has_prefix p "/static/")) [
      | inl e ↦ unrelated-clear p "/static/" guarded refl e
      | inr e3 ↦ elim (Bool-cases (has_prefix p "/api/v1/label/")) [
        | inl e ↦ unrelated-clear p "/api/v1/label/" guarded refl e
        | inr e4 ↦ let k : false ≡ true = rw (e1, e2, e3, e4) at h in cc
      ]
    ]
  ]
]
