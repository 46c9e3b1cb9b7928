-- ===== src/Server/Paths/Resolved.antt =====
-- What a safe path names.
use zth_sre.Prelude.{
  ◌≡◌, refl, inl, inr, String, true, false, ◌||◌, not, List, [], ◌∷◌, ◌==◌, String_eq, arith,
  Bool-cases, if◌then◌else◌,
}
use zth_sre.Prelude.Strings.{has_code, contains, split}
use zth_sre.Server.Paths.{safe_path, no_dots}

-- The parent of a directory, given by its names, the last one first; that of the root is the root.
parent : List String → List String
parent [] = []
parent (name ∷ names) = names

-- Where the parts of a path lead from a directory: an empty part and "." stay, ".." goes up, and any
-- other part is a name below.
pub resolve : List String → List String → List String
unfolding parent
resolve at [] = at
resolve at (part ∷ parts) =
    if part == "" || part == "."
    then resolve at parts
    else if part == ".."
    then resolve (parent at) parts
    else resolve (part ∷ at) parts

-- The names of a path below a directory, with no part left out but the empty ones.
pub below : List String → List String → List String
below at [] = at
below at (part ∷ parts) = if part == "" then below at parts else below (part ∷ at) parts

no_dots-resolve :
    (at parts : List String) → no_dots parts ≡ true → resolve at parts ≡ below at parts
unfolding no_dots resolve below
no_dots-resolve at [] h = refl
no_dots-resolve at (part ∷ parts) h =
    let here = no_dots-resolve at parts in
    let under = no_dots-resolve (part ∷ at) parts in ground (arith, here, under, h)

-- A safe path has no backslash, no NUL and no two slashes in a row, and wherever it starts it leads to
-- the directory or file below that its parts name, never to a parent.
pub safe_path_lem :
    (p : String) (at : List String)
    → safe_path p ≡ true
    → (has_code p 92 ≡ false)
      × (has_code p 0 ≡ false)
      × (contains p "//" ≡ false)
      × (resolve at (split p b'/') ≡ below at (split p b'/'))
unfolding safe_path
safe_path_lem p at h = elim (Bool-cases (has_code p 92)) [
  | inl e ↦ let k : false ≡ true = rw e at h in cc
  | inr e1 ↦ elim (Bool-cases (has_code p 0)) [
    | inl e ↦ let k : false ≡ true = rw (e1, e) at h in cc
    | inr e2 ↦ elim (Bool-cases (no_dots (split p b'/'))) [
      | inr e ↦ let k : false ≡ true = rw (e1, e2, e) at h in cc
      | inl e3 ↦
          let k : not (contains p "//") ≡ true = rw (e1, e2, e3) at h in
          (e1, e2, ground (arith, k), no_dots-resolve at (split p b'/') e3)
    ]
  ]
]
