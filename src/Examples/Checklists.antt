-- ===== src/Examples/Checklists.antt =====
-- Runs of the checklists of internal/progress/store.go.
use zth_sre.Prelude.{ℕ, ◌≡◌, refl, false, none, some, List, [], ◌∷◌}
use zth_sre.Prelude.Int.{ℤ, pos}
use zth_sre.Prelude.Map.{Map}
use zth_sre.Files.{Storage, save, written_whole}
use zth_sre.Progress.{Record, Store, normalize, put, open_store, valid_id}
use zth_sre.Progress.Records.{open_store-put}
use zth_sre.Examples.Tools.{Disk, holding, memory_disk, number_sorter, number_order}

abbrev records : Storage (Map Record)
records = memory_disk (Map Record)

abbrev empty : Store (Disk (Map Record))
empty = record { disk = holding none false; records = [] }

abbrev steps : List ℤ
steps = pos 7 ∷ pos 2 ∷ pos 7 ∷ []

abbrev keys : List ℕ → List ℕ
keys = number_order.keys

abbrev sort : List ℕ → List ℕ
sort = number_sorter.sort

abbrev saved : Record
saved = record { completed_steps = pos 2 ∷ pos 7 ∷ []; notes = "the cause"; updated_at = 5 }

open_store-put_example :
    open_store keys sort records
      (put keys sort records 5 "latency-slo" steps "the cause" empty).0.disk
    ≡ some (put keys sort records 5 "latency-slo" steps "the cause" empty).0
unfolding put normalize valid_id save written_whole
open_store-put_example =
    open_store-put number_order number_sorter records 5 "latency-slo" steps "the cause" empty
      {r = saved} tt refl refl refl
