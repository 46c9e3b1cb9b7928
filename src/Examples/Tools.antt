-- ===== src/Examples/Tools.antt =====
-- A disk, and the sorting of lists, that the examples run on.
use zth_sre.Prelude.{
  ℕ, suc, ◌≤◌, ◌≡◌, refl, sym, String, Bool, true, false, Option, none, some, List, [], ◌∷◌,
  if◌then◌else◌, ℕ_eq, String_eq, leb, All, length, count, arith, Bool-cases, inl, inr,
}
use zth_sre.Prelude.Sort.{Sorter, KeyOrder, Ascending}
use zth_sre.Files.{Storage}

-- A disk on which renaming fails where `full` is set.
pub record Disk (A : Type 0) : Type 0 where
  pub contents : Option A
  pub temporary : Option A
  pub full : Bool

abbrev pub holding : {A : Type 0} → Option A → Bool → Disk A
holding contents full = record { contents = contents; temporary = none; full = full }

abbrev pub moved : {A : Type 0} → Disk A → Bool → Disk A × Bool
moved d true = (d, false)
moved d false = (record d { contents = d.temporary; temporary = none }, true)

pub contents-moved :
    {A : Type 0} (d : Disk A) (full : Bool)
    → (moved d full).1 ≡ true
    → (moved d full).0.contents ≡ d.temporary
contents-moved d true h = cc
contents-moved d false h = refl

pub contents-stuck :
    {A : Type 0} (d : Disk A) (full : Bool)
    → (moved d full).1 ≡ false
    → (moved d full).0.contents ≡ d.contents
contents-stuck d true h = refl
contents-stuck d false h = cc

-- Encoding keeps the value as it is.
abbrev pub memory_disk : (A : Type 0) → Storage A
memory_disk A = record {
  Disk = Disk A;
  Bytes = A;
  encode = some;
  decode = some;
  contents = λ d. d.contents;
  temporary = λ d. d.temporary;
  readable = λ d. true;
  mkdir_all = λ d. (d, true);
  create_temp = λ d. (record d { temporary = none }, true);
  chmod = λ d. (d, true);
  write = λ b d. (record d { temporary = some b }, true);
  close = λ d. (d, true);
  rename = λ d. moved d d.full;
  remove = λ d. record d { temporary = none };
  decode-encode = λ a b e. sym e;
  contents-mkdir_all = λ d. refl;
  contents-create_temp = λ d. refl;
  contents-chmod = λ d. refl;
  contents-write = λ b d. refl;
  contents-close = λ d. refl;
  contents-remove = λ d. refl;
  temporary-write = λ b d h. refl;
  temporary-close = λ d. refl;
  contents-rename = λ d h. contents-moved d d.full h;
  contents-rename_fails = λ d h. contents-stuck d d.full h;
}

abbrev pub insert_sorted : ℕ → List ℕ → List ℕ
insert_sorted x [] = x ∷ []
insert_sorted x (y ∷ ys) = let rest = insert_sorted x ys in if leb x y then x ∷ y ∷ ys else y ∷ rest

abbrev pub sort_list : List ℕ → List ℕ
sort_list [] = []
sort_list (x ∷ xs) = insert_sorted x (sort_list xs)

count-insert_sorted : (a x : ℕ) (xs : List ℕ) → count a (insert_sorted x xs) ≡ count a (x ∷ xs)
count-insert_sorted a x [] = refl
count-insert_sorted a x (y ∷ ys) = ground (arith, count-insert_sorted a x ys)

pub count-sort_list : (a : ℕ) (xs : List ℕ) → count a (sort_list xs) ≡ count a xs
count-sort_list a [] = refl
count-sort_list a (x ∷ xs) =
    ground (arith, count-insert_sorted a x (sort_list xs), count-sort_list a xs)

length-insert_sorted : (x : ℕ) (xs : List ℕ) → length (insert_sorted x xs) ≡ suc (length xs)
length-insert_sorted x [] = refl
length-insert_sorted x (y ∷ ys) = ground (arith, length-insert_sorted x ys)

pub length-sort_list : (xs : List ℕ) → length (sort_list xs) ≡ length xs
length-sort_list [] = refl
length-sort_list (x ∷ xs) =
    ground (arith, length-insert_sorted x (sort_list xs), length-sort_list xs)

All-insert_sorted :
    (z x : ℕ) (xs : List ℕ) → z ≤ x → All (λ y. z ≤ y) xs → All (λ y. z ≤ y) (insert_sorted x xs)
All-insert_sorted z x [] h l = (h, tt)
All-insert_sorted z x (y ∷ ys) h l = elim (Bool-cases (leb x y)) [
  | inl c ↦ rw c (h, l)
  | inr c ↦ rw c (l.0, All-insert_sorted z x ys h l.1)
]

All-weaken : (x y : ℕ) (ys : List ℕ) → x ≤ y → All (λ z. y ≤ z) ys → All (λ z. x ≤ z) ys
All-weaken x y [] h l = tt
All-weaken x y (z ∷ zs) h l = (omega (arith, l.0), All-weaken x y zs h l.1)

Ascending-insert_sorted :
    (x : ℕ) (xs : List ℕ) → Ascending ◌≤◌ xs → Ascending ◌≤◌ (insert_sorted x xs)
Ascending-insert_sorted x [] l = (tt, tt)
Ascending-insert_sorted x (y ∷ ys) l = elim (Bool-cases (leb x y)) [
  | inl c ↦ rw c ((ground arith, All-weaken x y ys (ground arith) l.0), l)
  | inr c ↦ rw c (All-insert_sorted y x ys (ground arith) l.0, Ascending-insert_sorted x ys l.1)
]

pub Ascending-sort_list : (xs : List ℕ) → Ascending ◌≤◌ (sort_list xs)
Ascending-sort_list [] = tt
Ascending-sort_list (x ∷ xs) = Ascending-insert_sorted x (sort_list xs) (Ascending-sort_list xs)

abbrev pub number_sorter : Sorter ℕ ℕ_eq ◌≤◌
number_sorter = record {
  sort = sort_list;
  count-sort = count-sort_list;
  length-sort = length-sort_list;
  sort-Ascending = Ascending-sort_list;
}

abbrev pub number_order : KeyOrder ℕ ℕ_eq
number_order = record { keys = λ xs. xs; count-keys = λ a xs. refl; length-keys = λ xs. refl }

-- Any order of texts will do.
abbrev pub AnyOrder : String → String → Type 0
AnyOrder a b = Unit {0}

All-anything : (x : String) (xs : List String) → All (AnyOrder x) xs
All-anything x [] = tt
All-anything x (y ∷ ys) = (tt, All-anything x ys)

pub Ascending-anything : (xs : List String) → Ascending AnyOrder xs
Ascending-anything [] = tt
Ascending-anything (x ∷ xs) = (All-anything x xs, Ascending-anything xs)

abbrev pub text_sorter : Sorter String String_eq AnyOrder
text_sorter = record {
  sort = λ xs. xs;
  count-sort = λ a xs. refl;
  length-sort = λ xs. refl;
  sort-Ascending = Ascending-anything;
}
