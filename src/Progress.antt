-- ===== src/Progress.antt =====
-- internal/progress/store.go: the learner's checklists, one record for each exercise. `Put` saves with
-- `save` unchecked: its errors of Chmod and Write are lost.
pub mod Steps
pub mod Records
pub mod Opened
pub mod Loss
use zth_sre.Prelude.{
  ℕ, String, len, Bool, true, false, ◌&&◌, ◌||◌, not, Option, none, some, List, [], ◌∷◌, map, ◌++◌,
  length, elem, ltb, if◌then◌else◌, ℕ_eq, ◌==◌,
}
use zth_sre.Prelude.Int.{ℤ, pos, negsuc, out_of_range, to_ℕ}
use zth_sre.Prelude.Map.{Map, lookup, insert}
use zth_sre.Prelude.Sort.{Sorter, KeyOrder}
use zth_sre.Prelude.Text.{codes, matches, slug_first, slug_rest}
use zth_sre.Files.{Storage, Loaded, missing, unreadable, undecodable, loaded, load, save}

-- `validID`: ^[a-z0-9][a-z0-9-]{0,62}$
unfoldable pub valid_id : String → Bool
valid_id id = matches slug_first slug_rest 62 (codes id)

pub record Record : Type 0 where
  pub completed_steps : List ℤ
  pub notes : String
  pub updated_at : ℕ

-- The loop that fills the set: none at the first step out of 0..999. The set is a list that
-- holds each step once.
collect : List ℕ → List ℤ → Option (List ℕ)
collect set [] = some set
collect set (step ∷ steps) =
    let rest = collect (if elem (to_ℕ step) set then set else to_ℕ step ∷ set) steps in
    if out_of_range 999 step then none else rest

pub record Store (D : Type 0) : Type 0 where
  pub disk : D
  pub records : Map Record

module _ (order : List ℕ → List ℕ) (sort : List ℕ → List ℕ) where
  sorted_keys : Option (List ℕ) → Option (List ℤ)
  sorted_keys none = none
  sorted_keys (some set) = some (map pos (sort (order set)))

  unfoldable pub normalize : List ℤ → Option (List ℤ)
  unfolding collect sorted_keys
  normalize steps = if ltb 100 (length steps) then none else sorted_keys (collect [] steps)

  module _ (s : Storage (Map Record)) where
    replaced : Map Record → Record → Store s.Disk → s.Disk × Bool → Store s.Disk × Option Record
    replaced next r st (disk, true) = (record { disk = disk; records = next }, some r)
    replaced next r st (disk, false) = (record st { disk = disk }, none)

    put_steps : ℕ → String → Option (List ℤ) → String → Store s.Disk → Store s.Disk × Option Record
    unfolding replaced
    put_steps now id none notes st = (st, none)
    put_steps now id (some steps) notes st =
        let r : Record = record { completed_steps = steps; notes = notes; updated_at = now } in
        let next = insert id r st.records in
        if ltb 16000 (len notes) then (st, none) else replaced next r st (save s false next st.disk)

    -- `Store.Put`, with none for an error.
    unfoldable pub put : ℕ → String → List ℤ → String → Store s.Disk → Store s.Disk × Option Record
    unfolding put_steps
    put now id steps notes st =
        if valid_id id then put_steps now id (normalize steps) notes st else (st, none)

  keep : String → Record → Option (List ℤ) → Option (Map Record) → Option (Map Record)
  keep id r none rest = none
  keep id r (some steps) none = none
  keep id r (some steps) (some m) = some ((id, record r { completed_steps = steps }) ∷ m)

  -- The loop of `Open` over the records of the file.
  checked : Map Record → Option (Map Record)
  unfolding keep
  checked [] = some []
  checked ((id, r) ∷ m) =
      let rest = checked m in
      if valid_id id then keep id r (normalize r.completed_steps) rest else none

  stored : {D : Type 0} → D → Option (Map Record) → Option (Store D)
  stored d none = none
  stored d (some m) = some (record { disk = d; records = m })

  opened : {D : Type 0} → D → Loaded (Map Record) → Option (Store D)
  unfolding checked stored
  opened d missing = some (record { disk = d; records = [] })
  opened d unreadable = none
  opened d undecodable = none
  opened d (loaded m) = stored d (checked m)

  -- `Open`, with none for an error.
  unfoldable pub open_store : (s : Storage (Map Record)) → s.Disk → Option (Store s.Disk)
  unfolding opened
  open_store s d = opened d (load s d)

-- `Store.Get`
unfoldable pub get_record : {D : Type 0} → String → Store D → Option Record
get_record id st = lookup id st.records
