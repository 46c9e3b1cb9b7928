-- ===== src/Examples/Stores.antt =====
-- Runs of the stores: the profile, the history, and the progress records.
use zth_sre.Prelude.{ℕ, ◌≤◌, ◌≡◌, ◌⊎◌, refl, true, false, none, some, List, [], ◌∷◌, length}
use zth_sre.Prelude.Int.{pos}
use zth_sre.Files.{Storage, load, persist, save, Holds}
use zth_sre.Files.Atomic.{persist_atomic}
use zth_sre.Progression.{
  Badge, Profile, Reply, rank_for, award, awarded, apply_rank, no_profile, open_store, has_run,
}
use zth_sre.Progression
use zth_sre.Progression.Invariant.{Inv, no_profile-Inv}
use zth_sre.Progression.Awards.{award-Inv, award-Outcome, Outcome}
use zth_sre.Progression.Session.{Call, serve, session, fresh, awarded_once, session_from_missing}
use zth_sre.History
use zth_sre.History.Window.{add_all, add_all_window, last_records}
use zth_sre.Examples.Tools.{Disk, holding, memory_disk, text_sorter}

abbrev profiles : Storage Profile
profiles = memory_disk Profile

abbrev empty : Progression.Store (Disk Profile)
empty = record { disk = holding none false; profile = apply_rank no_profile }

abbrev badge : Badge
badge = record { id = "clean-recovery"; title = "Clean Recovery"; description = ""; earned_at = 0 }

persist_atomic_example :
    (((persist (memory_disk ℕ) 7 (holding none false)).1 ≡ true)
      × Holds (memory_disk ℕ) (persist (memory_disk ℕ) 7 (holding none false)).0 7)
    ⊎ (((persist (memory_disk ℕ) 7 (holding none false)).1 ≡ false)
        × ((persist (memory_disk ℕ) 7 (holding none false)).0.contents ≡ none))
persist_atomic_example = persist_atomic (memory_disk ℕ) 7 (holding none false)

award-Inv_example :
    Inv
      (award profiles text_sorter.sort 5 "run-1" "latency-slo"
        (pos 90)
        (badge ∷ [])
        empty).0.profile
award-Inv_example =
    award-Inv profiles text_sorter 5 "run-1" "latency-slo" (pos 90) (badge ∷ []) empty
      no_profile-Inv

award-Outcome_example :
    Outcome profiles text_sorter 5 "run-1" "latency-slo"
      (pos 90)
      (badge ∷ [])
      empty
      (award profiles text_sorter.sort 5 "run-1" "latency-slo" (pos 90) (badge ∷ []) empty)
unfolding has_run apply_rank
award-Outcome_example =
    award-Outcome profiles text_sorter 5 "run-1" "latency-slo" (pos 90) (badge ∷ []) empty refl

abbrev first_call : Call
first_call = record {
  now = 5;
  run_id = "run-1";
  scenario = "latency-slo";
  score = pos 90;
  badges = [];
}

abbrev other_call : Call
other_call = record first_call { now = 6; run_id = "run-2"; scenario = "dns-failure" }

abbrev again : Call
again = record first_call {
  now = 8;
  scenario = "dns-failure";
  score = pos 100;
  badges = badge ∷ [];
}

abbrev after_calls : Progression.Store (Disk Profile)
after_calls =
    (session profiles text_sorter (serve profiles text_sorter empty first_call).0
      (other_call ∷ [])).0

awarded_once_example :
    serve profiles text_sorter after_calls again
    ≡ (after_calls, record { profile = after_calls.profile; xp_awarded = 0; saved = true })
unfolding serve award persist save apply_rank
awarded_once_example =
    awarded_once profiles text_sorter empty first_call (other_call ∷ []) again refl refl

abbrev calls : List Call
calls =
    record {
      now = 5;
      run_id = "run-1";
      scenario = "latency-slo";
      score = pos 120;
      badges = badge ∷ [];
    }
    ∷ record { now = 6; run_id = "run-1"; scenario = "latency-slo"; score = pos 90; badges = [] }
    ∷ []

session_from_missing_example :
    (open_store profiles (holding none true)
      ≡ some (fresh profiles text_sorter (holding none true)))
    × Inv
        (session profiles text_sorter
          (fresh profiles text_sorter (holding none true))
          calls).0.profile
    × ((session profiles text_sorter
          (fresh profiles text_sorter (holding none true))
          calls).0.profile.xp
        ≡ (session profiles text_sorter (fresh profiles text_sorter (holding none true)) calls).1)
unfolding load
session_from_missing_example =
    session_from_missing profiles text_sorter (holding none true) calls refl

abbrev history : Storage (List (History.Record ℕ))
history = memory_disk (List (History.Record ℕ))

abbrev checked : History.Record ℕ
checked = record {
  run_id = "run-1";
  scenario = "latency-slo";
  started_at = 1;
  checked_at = 5;
  passed = true;
  feedback = "";
  availability = 1;
  p95_ms = 90;
  score = 90;
}

abbrev old_history : History.Store (Disk (List (History.Record ℕ))) ℕ
old_history = record { disk = holding (some (checked ∷ [])) true; records = checked ∷ [] }

add_all_window_example :
    (History.open_store history old_history.disk
      ≡ some (record { disk = old_history.disk; records = History.trim (checked ∷ []) }))
    × ((add_all history
          (checked ∷ checked ∷ [])
          (record { disk = old_history.disk; records = History.trim (checked ∷ []) })).records
        ≡ last_records (checked ∷ checked ∷ checked ∷ []))
    × (length
          (add_all history
            (checked ∷ checked ∷ [])
            (record { disk = old_history.disk; records = History.trim (checked ∷ []) })).records
        ≤ 100)
unfolding load
add_all_window_example =
    add_all_window history old_history.disk (checked ∷ checked ∷ []) (checked ∷ []) refl
