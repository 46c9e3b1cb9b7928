-- ===== src/History/Window.antt =====
-- The history is a sliding window over all the records ever added.
use zth_sre.Prelude.{
  ◌↔◌, ◌⊎◌, ◌-◌, ◌≤◌, ◌≡◌, ◌∙◌, refl, sym, ap, true, false, some, List, [], ◌∷◌, ◌++◌, ltb,
  append_assoc, append-nil, length, drop, drop-drop, drop-append, length-append, length-drop, arith,
  Bool-cases, inl, inr,
}
use zth_sre.Files.{Storage, Loaded, missing, unreadable, undecodable, loaded, load, Readable, Holds}
use zth_sre.Prelude.Chain.{Made}
use zth_sre.Files.Atomic.{persist_atomic}
use zth_sre.History.{Record, Store, max_records, trim, add, open_store, opened}

-- The last hundred of a list.
abbrev pub last_records {ℓ} : {A : Type ℓ} → List A → List A
last_records xs = drop (length xs - max_records) xs

module _ {ℓ} {A : Type ℓ} where
  pub trim_lem : (xs : List A) → trim xs ≡ last_records xs
  unfolding trim
  trim_lem xs = elim (Bool-cases (ltb max_records (length xs))) [
    | inl long ↦ rw long refl
    | inr short ↦ let e : length xs - max_records ≡ 0 = ground arith in rw (short, e) refl
  ]

  pub length-trim : (xs : List A) → length (trim xs) ≤ max_records
  length-trim xs = rw trim_lem (omega (arith, length-drop (length xs - max_records) xs))

  -- Trimming what is already trimmed, with more added, is trimming once.
  pub trim-append_trim : (xs ys : List A) → trim (trim xs ++ ys) ≡ trim (xs ++ ys)
  trim-append_trim xs ys =
      let k = length xs - max_records in
      let n = length (drop k (xs ++ ys)) - max_records in
      rw
        (
          trim_lem (trim xs ++ ys),
          trim_lem (xs ++ ys),
          trim_lem xs,
          ← drop-append k xs ys (omega arith),
        )
        (rw (drop-drop n k (xs ++ ys)) (
          ap (λ m. drop m (xs ++ ys))
            (omega (arith, length-drop k (xs ++ ys), length-append xs ys))))

  trim_idem : (xs : List A) → trim (trim xs) ≡ trim xs
  trim_idem xs = rw (append-nil (trim xs), append-nil xs) at (trim-append_trim xs [])

module _ {F : Type 0} (s : Storage (List (Record F))) where
  pub add_all : List (Record F) → Store s.Disk F → Store s.Disk F
  add_all [] st = st
  add_all (r ∷ rs) st = add_all rs (add s r st).0

  records-add_all :
      (rs : List (Record F)) (st : Store s.Disk F)
      → trim st.records ≡ st.records
      → (add_all rs st).records ≡ trim (st.records ++ rs)
  unfolding add_all add
  records-add_all [] st h = rw (append-nil st.records) (sym h)
  records-add_all (r ∷ rs) st h =
      records-add_all rs (add s r st).0 (trim_idem (st.records ++ r ∷ []))
      ∙ trim-append_trim (st.records ++ r ∷ []) rs
      ∙ ap trim (append_assoc st.records (r ∷ []) rs)

  -- Where the file can be decoded, `Open` succeeds, and after any additions, however many saves failed,
  -- the store holds exactly the last hundred of the records that were read and those that were added,
  -- in order, and never more than a hundred.
  pub add_all_window :
      (d : s.Disk) (rs old : List (Record F))
      → load s d ≡ loaded old
      → let st : Store s.Disk F = record { disk = d; records = trim old } in
        (open_store s d ≡ some st)
        × ((add_all rs st).records ≡ last_records (old ++ rs))
        × (length (add_all rs st).records ≤ max_records)
  unfolding open_store opened
  add_all_window d rs old l =
      let st : Store s.Disk F = record { disk = d; records = trim old } in
      let window = records-add_all rs st (trim_idem old) ∙ trim-append_trim old rs in
      (rw (l, opened) refl, window ∙ trim_lem (old ++ rs), rw window (length-trim (old ++ rs)))

  -- After `Add` the memory holds the last hundred of its records with the new one, whether or not
  -- they could be saved: either success is reported and the file holds all of them, or an error is
  -- reported and the file holds what it held.
  pub add_lem :
      (r : Record F) (st : Store s.Disk F)
      → let (st', saved) = add s r st in
        (st'.records ≡ last_records (st.records ++ r ∷ []))
        × (((saved ≡ true) × Holds s st'.disk st'.records)
            ⊎ ((saved ≡ false) × (s.contents st'.disk ≡ s.contents st.disk)))
  unfolding add
  add_lem r st =
      let kept = trim (st.records ++ r ∷ []) in
      (trim_lem (st.records ++ r ∷ []), persist_atomic s kept st.disk)

module _ {F : Type 0} (s : Storage (List (Record F))) where
  opened-Made : (d : s.Disk) (l : Loaded (List (Record F))) → Made (opened s d l) ↔ Readable l
  unfolding opened
  opened-Made d missing = (λ made. tt, λ u. (_, refl))
  opened-Made d unreadable = (λ (a, e). absurd (cc), λ u. absurd u)
  opened-Made d undecodable = (λ (a, e). absurd (cc), λ u. absurd u)
  opened-Made d (loaded a) = (λ made. tt, λ u. (_, refl))

  -- `Open` succeeds exactly if the file is missing or decodes.
  pub open_store-Made : (d : s.Disk) → Made (open_store s d) ↔ Readable (load s d)
  unfolding open_store
  open_store-Made d = opened-Made d (load s d)
