-- ===== src/Progress/Steps.antt =====
-- `normalize`: what becomes of the checked steps.
use zth_sre.Prelude.{
  ℕ, suc, ◌+◌, ◌≤◌, ◌<◌, ◌≡◌, ◌∙◌, refl, sym, ap, Bool, true, false, ◌||◌, Option, none, some, List,
  [], ◌∷◌, map, ltb, ◌⊎◌, length, elem, count, All, Distinct, Distinct-of_count,
  count-le_of_Distinct, elem-of_count, if◌then◌else◌, arith, Bool-cases, inl, inr, ℕ_eq, ==_refl,
  nat_eq_iff,
}
use zth_sre.Prelude.Int.{ℤ, pos, negsuc, out_of_range, to_ℕ, ℤ_eq}
use zth_sre.Prelude.Sort.{Sorter, KeyOrder, Ascending}
use zth_sre.Prelude.Order.{
  All-elem, Ascending-strict, Ascending-unique, count_of_Distinct, Distinct-of_strict,
}
use zth_sre.Progress.{collect, normalize}

abbrev pub any_invalid : List ℤ → Bool
any_invalid [] = false
any_invalid (step ∷ steps) = out_of_range 999 step || any_invalid steps

collected : List ℕ → List ℤ → List ℕ
collected set [] = set
collected set (step ∷ steps) =
    collected (if elem (to_ℕ step) set then set else to_ℕ step ∷ set) steps

collect_lem :
    (steps : List ℤ) (set : List ℕ)
    → collect set steps ≡ (if any_invalid steps then none else some (collected set steps))
unfolding collect collected
collect_lem [] set = refl
collect_lem (step ∷ steps) set =
    ground (arith, collect_lem steps (if elem (to_ℕ step) set then set else to_ℕ step ∷ set))

Distinct-collected : (steps : List ℤ) (set : List ℕ) → Distinct set → Distinct (collected set steps)
unfolding collected
Distinct-collected [] set d = d
Distinct-collected (step ∷ steps) set d = elim (Bool-cases (elem (to_ℕ step) set)) [
  | inl old ↦ rw old (Distinct-collected steps set d)
  | inr new ↦ rw new (Distinct-collected steps (to_ℕ step ∷ set) (new, d))
]

length-collected :
    (steps : List ℤ) (set : List ℕ) → length (collected set steps) ≤ length set + length steps
unfolding collected
length-collected [] set = omega arith
length-collected (step ∷ steps) set = elim (Bool-cases (elem (to_ℕ step) set)) [
  | inl old ↦ rw old (omega (arith, length-collected steps set))
  | inr new ↦ rw new (omega (arith, length-collected steps (to_ℕ step ∷ set)))
]

elem-collected :
    (n : ℕ) (steps : List ℤ) (set : List ℕ)
    → any_invalid steps ≡ false
    → elem n (collected set steps) ≡ (elem n set || elem (pos n) steps)
unfolding collected
elem-collected n [] set h = ground arith
elem-collected n (pos k ∷ steps) set h = elim (Bool-cases (elem k set)) [
  | inl old ↦ rw old (ground (arith, elem-collected n steps set, nat_eq_iff k n))
  | inr new ↦ rw new (ground (arith, elem-collected n steps (k ∷ set)))
]
elem-collected n (negsuc k ∷ steps) set h = cc

All-collected :
    (steps : List ℤ) (set : List ℕ)
    → any_invalid steps ≡ false
    → All (λ n. n ≤ 999) set
    → All (λ n. n ≤ 999) (collected set steps)
unfolding collected
All-collected [] set h b = b
All-collected (pos k ∷ steps) set h b = elim (Bool-cases (elem k set)) [
  | inl old ↦ rw old (All-collected steps set (ground arith) b)
  | inr new ↦ rw new (All-collected steps (k ∷ set) (ground arith) (ground arith, b))
]
All-collected (negsuc k ∷ steps) set h b = cc

any_invalid-map_pos : (ns : List ℕ) → All (λ n. n ≤ 999) ns → any_invalid (map pos ns) ≡ false
any_invalid-map_pos [] h = refl
any_invalid-map_pos (n ∷ ns) h = ground (arith, any_invalid-map_pos ns h.1)

elem-map_pos : (n : ℕ) (ns : List ℕ) → elem (pos n) (map pos ns) ≡ elem n ns
elem-map_pos n [] = refl
elem-map_pos n (k ∷ ns) = ground (arith, elem-map_pos n ns)

length-map_pos : (ns : List ℕ) → length (map pos ns) ≡ length ns
length-map_pos [] = refl
length-map_pos (n ∷ ns) = ap suc (length-map_pos ns)

All-of_elem : (P : ℕ → Type 0) (xs : List ℕ) → ((a : ℕ) → elem a xs ≡ true → P a) → All P xs
All-of_elem P [] h = tt
All-of_elem P (x ∷ xs) h =
    (h x (ground (arith, ==_refl x)), All-of_elem P xs (λ a m. h a (ground arith)))

weaken_All : (x : ℕ) (xs : List ℕ) → All (λ y. x < y) xs → All (λ y. x ≤ y) xs
weaken_All x [] h = tt
weaken_All x (y ∷ xs) h = (omega arith, weaken_All x xs h.1)

weaken : (xs : List ℕ) → Ascending ◌<◌ xs → Ascending ◌≤◌ xs
weaken [] h = tt
weaken (x ∷ xs) h = (weaken_All x xs h.0, weaken xs h.1)

-- The checked steps, each once and in ascending order.
abbrev pub Normal : List ℤ → List ℕ → Type 0
Normal steps ns =
    Ascending ◌<◌ ns
    × ((n : ℕ) → elem n ns ≡ elem (pos n) steps)
    × All (λ n. n ≤ 999) ns
    × (length ns ≤ length steps)

abbrev pub Normalized : List ℤ → Option (List ℤ) → Type 0
Normalized steps none = (100 < length steps) ⊎ (any_invalid steps ≡ true)
Normalized steps (some out) =
    (length steps ≤ 100)
    × (any_invalid steps ≡ false)
    × ((ns : List ℕ) × (out ≡ map pos ns) × Normal steps ns)

module _ (order : KeyOrder ℕ ℕ_eq) (sorter : Sorter ℕ ℕ_eq ◌≤◌) where
  open order use {keys, count-keys, length-keys}
  open sorter use {sort, count-sort, length-sort, sort-Ascending}

  sorted_set : List ℤ → List ℕ
  sorted_set steps = sort (keys (collected [] steps))

  count-sorted_set :
      (a : ℕ) (steps : List ℤ) → count a (sorted_set steps) ≡ count a (collected [] steps)
  unfolding sorted_set
  count-sorted_set a steps =
      count-sort a (keys (collected [] steps)) ∙ count-keys a (collected [] steps)

  sorted_set-Normal : (steps : List ℤ) → any_invalid steps ≡ false → Normal steps (sorted_set steps)
  unfolding sorted_set
  sorted_set-Normal steps h =
      let distinct = Distinct-collected steps [] tt in
      let member = λ (n : ℕ).
        elem-of_count n (sorted_set steps) (collected [] steps) (count-sorted_set n steps) in
      (
        Ascending-strict (sorted_set steps) (sort-Ascending (keys (collected [] steps))) (
            Distinct-of_count (sorted_set steps) (λ a.
              rw (count-sorted_set a steps)
                (count-le_of_Distinct a (collected [] steps) distinct))),
        λ n. member n ∙ elem-collected n steps [] h,
        All-of_elem (λ n. n ≤ 999) (sorted_set steps)
            (λ a m.
              All-elem (λ n. n ≤ 999) a (collected [] steps) (All-collected steps [] h tt)
                (sym (member a) ∙ m)),
        omega (
          arith,
          length-sort (keys (collected [] steps)),
          length-keys (collected [] steps),
          length-collected steps [],
        ),
      )

  normalize_eq :
      (steps : List ℤ)
      → normalize keys sort steps ≡ (
          if ltb 100 (length steps)
          then none
          else (if any_invalid steps then none else some (map pos (sorted_set steps))))
  unfolding normalize sorted_set
  normalize_eq steps = ground (arith, collect_lem steps [])

  -- Whatever order the map of the steps is walked in: `normalize` refuses a list only if it is longer
  -- than 100 or has a step out of 0..999, and otherwise returns its steps, each once, in ascending order.
  pub normalize-Normalized : (steps : List ℤ) → Normalized steps (normalize keys sort steps)
  normalize-Normalized steps = rw (normalize_eq steps) (elim (Bool-cases (ltb 100 (length steps))) [
    | inl long ↦ rw long (inl (ground arith))
    | inr short ↦ rw short (elim (Bool-cases (any_invalid steps)) [
      | inl bad ↦ rw bad (inr bad)
      | inr good ↦
          rw good (ground arith, good, (sorted_set steps, refl, sorted_set-Normal steps good))
    ])
  ])

  sorted_set-fixed :
      (ns : List ℕ) → Ascending ◌<◌ ns → All (λ n. n ≤ 999) ns → sorted_set (map pos ns) ≡ ns
  sorted_set-fixed ns up b =
      let valid = any_invalid-map_pos ns b in
      let set = sorted_set (map pos ns) in
      let normal = sorted_set-Normal (map pos ns) valid in
      Ascending-unique set ns (weaken set normal.0) (weaken ns up) (λ a.
        rw
          (
            count_of_Distinct a set (Distinct-of_strict set normal.0),
            count_of_Distinct a ns (Distinct-of_strict ns up),
            normal.1 a,
            elem-map_pos a ns,
          )
          refl)

  -- A list that is in normal form already is accepted as it is.
  normalize-fixed :
      (ns : List ℕ)
      → Ascending ◌<◌ ns
      → All (λ n. n ≤ 999) ns
      → length ns ≤ 100
      → normalize keys sort (map pos ns) ≡ some (map pos ns)
  normalize-fixed ns up b l =
      rw
        (
          normalize_eq (map pos ns),
          length-map_pos ns,
          any_invalid-map_pos ns b,
          sorted_set-fixed ns up b,
        )
        (ground (arith, l))

  -- Normalizing what `normalize` returned changes nothing.
  pub normalize_idem :
      (steps : List ℤ) {out : List ℤ}
      → normalize keys sort steps ≡ some out
      → normalize keys sort out ≡ some out
  normalize_idem steps {out} h =
      let (few, valid, (ns, e, (up, member, b, l))) =
        (let n : Normalized steps (some out) = rw h at (normalize-Normalized steps) in n) in
      rw e (normalize-fixed ns up b (omega arith))
