-- ===== src/History.antt =====
-- internal/history/history.go: the run history, the last hundred checks of the learner.
-- A float64 of a record is a value of the parameter `F`; the history only stores it.
pub mod Window
use zth_sre.Prelude.{
  ℕ, ◌-◌, String, Bool, true, false, Option, none, some, List, [], ◌∷◌, ◌++◌, length, drop, ltb,
  if◌then◌else◌,
}
use zth_sre.Files.{Storage, Loaded, missing, unreadable, undecodable, loaded, load, persist}

pub record Record (F : Type 0) : Type 0 where
  pub run_id : String
  pub scenario : String
  pub started_at : ℕ
  pub checked_at : ℕ
  pub passed : Bool
  pub feedback : String
  pub availability : F
  pub p95_ms : F
  pub score : ℕ

abbrev pub max_records : ℕ
max_records = 100

-- `if len(records) > 100 { records = records[len(records)-100:] }`.
pub trim {ℓ} : {A : Type ℓ} → List A → List A
trim rs = if ltb max_records (length rs) then drop (length rs - max_records) rs else rs

pub record Store (D : Type 0) (F : Type 0) : Type 0 where
  pub disk : D
  pub records : List (Record F)

module _ {F : Type 0} (s : Storage (List (Record F))) where
  opened : s.Disk → Loaded (List (Record F)) → Option (Store s.Disk F)
  unfolding trim
  opened d missing = some (record { disk = d; records = [] })
  opened d unreadable = none
  opened d undecodable = none
  opened d (loaded rs) = some (record { disk = d; records = trim rs })

  -- `Open`, with none for an error.
  unfoldable pub open_store : s.Disk → Option (Store s.Disk F)
  unfolding opened
  open_store d = opened d (load s d)

  -- `Store.Add` returns whether `err` is nil. The memory is changed before the file is written.
  unfoldable pub add : Record F → Store s.Disk F → Store s.Disk F × Bool
  add r st =
      let kept = trim (st.records ++ r ∷ []) in
      let (disk, saved) = persist s kept st.disk in (record { disk = disk; records = kept }, saved)
