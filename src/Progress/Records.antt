-- ===== src/Progress/Records.antt =====
-- `Store.Put`, `Get` and `Open`: what is stored, what is refused and what a restart reads back.
use zth_sre.Prelude.{
  ℕ, ◌≤◌, ◌<◌, ◌≡◌, refl, ap, String, len, Bool, true, false, Option, none, some, List, [], ◌∷◌,
  ◌⊎◌, ltb, if◌then◌else◌, arith, Bool-cases, Option-cases, inl, inr, ◌==◌, String_eq, ℕ_eq,
}
use zth_sre.Prelude.Int.{ℤ}
use zth_sre.Prelude.Map.{Map, insert, lookup-insert}
use zth_sre.Prelude.Sort.{Sorter, KeyOrder}
use zth_sre.Files.{
  Storage, Loaded, missing, unreadable, undecodable, loaded, load, save, Holds, written_whole,
}
use zth_sre.Files.Atomic.{save-Holds, save_fails, load-Holds}
use zth_sre.Progress.{
  Record, Store, valid_id, normalize, put, put_steps, replaced, get_record, keep, checked, stored,
  opened, open_store,
}
use zth_sre.Progress.Steps.{normalize_idem}

module _ (order : KeyOrder ℕ ℕ_eq) (sorter : Sorter ℕ ℕ_eq ◌≤◌) (s : Storage (Map Record)) where
  open order use {keys}
  open sorter use {sort}

  -- Every exercise id fits the pattern, and every list of steps is in normal form.
  abbrev pub Valid : Map Record → Type 0
  Valid [] = Unit {0}
  Valid ((id, r) ∷ m) =
      (valid_id id ≡ true)
      × (normalize keys sort r.completed_steps ≡ some r.completed_steps)
      × Valid m

  abbrev ValidOption : Option (Map Record) → Type 0
  ValidOption none = Unit {0}
  ValidOption (some m) = Valid m

  keep-ValidOption :
      (id : String) (r : Record) (steps : Option (List ℤ)) (rest : Option (Map Record))
      → valid_id id ≡ true
      → ((out : List ℤ) → steps ≡ some out → normalize keys sort out ≡ some out)
      → ValidOption rest
      → ValidOption (keep keys sort id r steps rest)
  unfolding keep
  keep-ValidOption id r none rest i n v = tt
  keep-ValidOption id r (some steps) none i n v = tt
  keep-ValidOption id r (some steps) (some m) i n v = (i, n steps refl, v)

  checked-ValidOption : (m : Map Record) → ValidOption (checked keys sort m)
  unfolding checked
  checked-ValidOption [] = tt
  checked-ValidOption ((id, r) ∷ m) = elim (Bool-cases (valid_id id)) [
    | inl i ↦ rw i (
        keep-ValidOption id r (normalize keys sort r.completed_steps) (checked keys sort m) i
          (λ out e. normalize_idem order sorter r.completed_steps e) (checked-ValidOption m))
    | inr i ↦ rw i tt
  ]

  checked-fixed : (m : Map Record) → Valid m → checked keys sort m ≡ some m
  unfolding checked keep
  checked-fixed [] v = refl
  checked-fixed ((id, r) ∷ m) v = rw (v.0, v.1, checked-fixed m v.2) refl

  insert-Valid :
      (id : String) (r : Record) (m : Map Record)
      → valid_id id ≡ true
      → normalize keys sort r.completed_steps ≡ some r.completed_steps
      → Valid m
      → Valid (insert id r m)
  unfolding insert
  insert-Valid id r [] i n v = (i, n, tt)
  insert-Valid id r ((j, q) ∷ m) i n v = ground (arith, insert-Valid id r m i n v.2)

  -- The records of a store that was opened.
  abbrev records_or : Map Record → Option (Store s.Disk) → Map Record
  records_or m none = m
  records_or m (some st) = st.records

  stored-Valid :
      (d : s.Disk) (o : Option (Map Record)) (st : Store s.Disk)
      → ValidOption o
      → stored keys sort d o ≡ some st
      → Valid st.records
  unfolding stored
  stored-Valid d none st v e = cc
  stored-Valid d (some m) st v e = let r : m ≡ st.records = ap (records_or m) e in rw r at v

  opened-Valid :
      (d : s.Disk) (l : Loaded (Map Record)) (st : Store s.Disk)
      → opened keys sort d l ≡ some st
      → Valid st.records
  unfolding opened
  opened-Valid d missing st e = let r : [] ≡ st.records = ap (records_or []) e in rw (← r) tt
  opened-Valid d unreadable st e = cc
  opened-Valid d undecodable st e = cc
  opened-Valid d (loaded m) st e = stored-Valid d (checked keys sort m) st (checked-ValidOption m) e

  -- Whatever a file holds, in a store that `Open` returns every id fits the pattern and every list of
  -- steps is in normal form.
  pub open_store-Valid :
      (d : s.Disk) (st : Store s.Disk) → open_store keys sort s d ≡ some st → Valid st.records
  unfolding open_store
  open_store-Valid d st e = opened-Valid d (load s d) st e

  -- What `Put` does with a request that it accepts.
  abbrev pub Written : String → Record → Store s.Disk → Store s.Disk × Option Record → Type 0
  Written id r st (st', reply) =
      ((reply ≡ some r)
        × ((j : String) → get_record j st' ≡ (if id == j then some r else get_record j st))
        × (Holds s st'.disk st'.records ⊎ (written_whole s st'.records st.disk ≡ false)))
      ⊎ ((reply ≡ none) × (st'.records ≡ st.records) × (s.contents st'.disk ≡ s.contents st.disk))

  replaced_cases :
      (next : Map Record) (r : Record) (st : Store s.Disk) (w : s.Disk × Bool)
      → ((w.1 ≡ true)
          × (replaced keys sort s next r st w ≡ (record { disk = w.0; records = next }, some r)))
        ⊎ ((w.1 ≡ false) × (replaced keys sort s next r st w ≡ (record st { disk = w.0 }, none)))
  unfolding replaced
  replaced_cases next r st (d, true) = inl (refl, refl)
  replaced_cases next r st (d, false) = inr (refl, refl)

  held :
      (next : Map Record) (d : s.Disk)
      → (save s false next d).1 ≡ true
      → Holds s (save s false next d).0 next ⊎ (written_whole s next d ≡ false)
  held next d e = elim (Bool-cases (written_whole s next d)) [
    | inl w ↦ inl (save-Holds s false next d w e)
    | inr lost ↦ inr lost
  ]

  replaced-Written :
      (id : String) (r : Record) (st : Store s.Disk)
      → Written id r st (
          replaced keys sort s
            (insert id r st.records)
            r
            st
            (save s false (insert id r st.records) st.disk))
  unfolding get_record
  replaced-Written id r st =
      let next = insert id r st.records in
      elim (replaced_cases next r st (save s false next st.disk)) [
        | inl (e, f) ↦ rw f (inl (refl, λ j. lookup-insert id j r st.records, held next st.disk e))
        | inr (e, f) ↦ rw f (inr (refl, refl, save_fails s false next st.disk e))
      ]

  replaced-Valid :
      (next : Map Record) (r : Record) (st : Store s.Disk) (w : s.Disk × Bool)
      → Valid next
      → Valid st.records
      → Valid (replaced keys sort s next r st w).0.records
  unfolding replaced
  replaced-Valid next r st (d, true) v u = v
  replaced-Valid next r st (d, false) v u = u

  -- Every branch of `Put`.
  abbrev pub PutCases :
      ℕ → String → List ℤ → String → Store s.Disk → Store s.Disk × Option Record → Type 0
  PutCases now id steps notes st r =
      ((r ≡ (st, none))
        × ((valid_id id ≡ false) ⊎ (normalize keys sort steps ≡ none) ⊎ (16000 < len notes)))
      ⊎ ((out : List ℤ) × (valid_id id ≡ true)
          × (normalize keys sort steps ≡ some out)
          × (len notes ≤ 16000)
          × Written id (record { completed_steps = out; notes = notes; updated_at = now }) st r)

  -- A call of `Put` is refused without any effect where the id does not fit the pattern, the steps do
  -- not normalize, or the notes are longer than 16000 bytes. Otherwise either the reply and the memory agree
  -- on the new record, with the steps in normal form, no other record changes, and the file holds the
  -- records unless Chmod or Write failed; or an error is reported, and memory and file are as they were.
  pub put_cases :
      (now : ℕ) (id : String) (steps : List ℤ) (notes : String) (st : Store s.Disk)
      → PutCases now id steps notes st (put keys sort s now id steps notes st)
  unfolding put
  put_cases now id steps notes st = elim (Bool-cases (valid_id id)) [
    | inr bad ↦ rw bad (inl (refl, inl refl))
    | inl good ↦ elim (Option-cases (normalize keys sort steps)) [
      | inl e ↦ rw (good, e, put_steps) (inl (refl, inr (inl refl)))
      | inr (out, e) ↦ elim (Bool-cases (ltb 16000 (len notes))) [
        | inl long ↦ rw (good, e, put_steps, long) (inl (refl, inr (inr (ground arith))))
        | inr short ↦
            rw (good, e, put_steps, short)
              (inr (
                out,
                refl,
                refl,
                ground arith,
                replaced-Written id
                    (record { completed_steps = out; notes = notes; updated_at = now }) st,
              ))
      ]
    ]
  ]

  -- A call of `Put`, with any arguments and any outcome, keeps the records well formed: every id fits
  -- the pattern and every list of steps is in normal form.
  pub put-Valid :
      (now : ℕ) (id : String) (steps : List ℤ) (notes : String) (st : Store s.Disk)
      → Valid st.records
      → Valid (put keys sort s now id steps notes st).0.records
  unfolding put
  put-Valid now id steps notes st v = elim (Bool-cases (valid_id id)) [
    | inr bad ↦ rw bad v
    | inl good ↦ elim (Option-cases (normalize keys sort steps)) [
      | inl e ↦ rw (good, e, put_steps) v
      | inr (out, e) ↦ elim (Bool-cases (ltb 16000 (len notes))) [
        | inl long ↦ rw (good, e, put_steps, long) v
        | inr short ↦
            let r : Record = record { completed_steps = out; notes = notes; updated_at = now } in
            rw (good, e, put_steps, short)
              (replaced-Valid (insert id r st.records) r st
                (save s false (insert id r st.records) st.disk)
                (insert-Valid id r st.records good (normalize_idem order sorter steps e) v) v)
      ]
    ]
  ]

  -- An accepted request whose save succeeded is one where `Put` returns a record.
  saved_load :
      (now : ℕ) (id : String) (steps : List ℤ) (notes : String) (st st' : Store s.Disk)
      → (r : Record) (reply : Option Record) → PutCases now id steps notes st (st', reply)
      → reply ≡ some r
      → written_whole s st'.records st.disk ≡ true
      → s.readable st'.disk ≡ true
      → load s st'.disk ≡ loaded st'.records
  saved_load now id steps notes st st' r reply (inl (e, _)) f w h =
      cc (ap (λ (q : Store s.Disk × Option Record). q.1) e)
  saved_load now id steps notes st st' r reply (inr (out, i, n, l, inl (e, g, inl k))) f w h =
      load-Holds s st'.records st'.disk k h
  saved_load now id steps notes st st' r reply (inr (out, i, n, l, inl (e, g, inr k))) f w h = cc
  saved_load now id steps notes st st' r reply (inr (out, i, n, l, inr (e, g, k))) f w h = cc

  -- Where a `Put` on well-formed records is answered with a record, Chmod and Write of the new records
  -- succeed, and the file can be read, `Open` returns the store as that `Put` left it.
  pub open_store-put :
      (now : ℕ) (id : String) (steps : List ℤ) (notes : String) (st : Store s.Disk) {r : Record}
      → Valid st.records
      → (put keys sort s now id steps notes st).1 ≡ some r
      → written_whole s (put keys sort s now id steps notes st).0.records st.disk ≡ true
      → s.readable (put keys sort s now id steps notes st).0.disk ≡ true
      → open_store keys sort s (put keys sort s now id steps notes st).0.disk
        ≡ some (put keys sort s now id steps notes st).0
  unfolding open_store opened stored
  open_store-put now id steps notes st {r} v e w h =
      let st' = (put keys sort s now id steps notes st).0 in
      let l =
        saved_load now id steps notes st st' r (put keys sort s now id steps notes st).1
          (put_cases now id steps notes st) e w h in
      rw (l, opened, checked-fixed st'.records (put-Valid now id steps notes st v), stored) refl
