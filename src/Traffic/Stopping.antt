-- ===== src/Traffic/Stopping.antt =====
-- `handleStart` and `handleStop`.
use zth_sre.Prelude.{
  ◌↔◌, ℕ, ◌+◌, ◌≡◌, ◌≢◌, refl, ap, ◌∙◌, ◌⊎◌, inl, inr, String, Bool, true, false, ◌&&◌, Option,
  none, some, List, [], ◌∷◌, ◌==◌, String_eq, ℕ_eq, arith, elem, Bool-cases, eq_iff,
}
use zth_sre.Http.{Body}
use zth_sre.Traffic.{
  StartRequest, valid_request, Run, Controller, status, start, start_valid, start_reply,
  StartResult, started, run_active, closed_error, spawn_error, handle_start, Reply, error, json,
  same_run, kill_error, Signal, sigterm, sigkill, StopEnv, stop_run, handle_stop,
}
use zth_sre.Traffic.Lifecycle.{World, Reach, begin, Reach-Inv, start_shape, run_for}

-- A JSON request that passes the validation.
abbrev pub Acceptable : Option String → Body StartRequest → StartRequest → Type 0
Acceptable media body request =
    (media ≡ some "application/json")
    × (body.value ≡ some request)
    × (body.at_end ≡ true)
    × (valid_request request ≡ true)

abbrev pub StartOutcome :
    Option String → Body StartRequest → Controller → Controller × Reply → Type 0
StartOutcome media body c (c', reply) =
    (c' ≡ c)
    ⊎ ((request : StartRequest) × (pid : ℕ) × Acceptable media body request
        × (c.closed ≡ false)
        × (c.active ≡ none)
        × (c' ≡ record c { active = some (run_for request c.made pid); made = c.made + 1 })
        × (reply ≡ json 201 (status c')))

start_reply_keeps : (r : Controller × StartResult) → (start_reply r).0 ≡ r.0
unfolding start_reply
start_reply_keeps (c, started s) = refl
start_reply_keeps (c, run_active s) = refl
start_reply_keeps (c, closed_error) = refl
start_reply_keeps (c, spawn_error) = refl

start_json :
    (request : StartRequest) (spawned : Option ℕ) (c : Controller)
    → ((start_reply (start request spawned c)).0 ≡ c)
      ⊎ ((pid : ℕ) × (c.closed ≡ false)
          × (c.active ≡ none)
          × ((start_reply (start request spawned c)).0
              ≡ record c { active = some (run_for request c.made pid); made = c.made + 1 })
          × ((start_reply (start request spawned c)).1
              ≡ json 201 (status (start_reply (start request spawned c)).0)))
unfolding start_reply status
start_json request spawned c = elim (start_shape request spawned c) [
  | inl same ↦ inl (start_reply_keeps (start request spawned c) ∙ same)
  | inr (pid, open_now, free, new) ↦ inr (pid, open_now, free, rw new refl, rw new refl)
]

start_valid_lem :
    (media : String) (body : Body StartRequest) (at_end : Bool) (value : Option StartRequest)
    → body.at_end ≡ at_end
    → body.value ≡ value
    → media ≡ "application/json"
    → (spawned : Option ℕ) (c : Controller)
    → StartOutcome (some media) body c (start_valid at_end value spawned c)
unfolding start_valid
start_valid_lem media body at_end none ea ev m spawned c = inl refl
start_valid_lem media body at_end (some request) ea ev m spawned c =
    elim (Bool-cases (at_end && valid_request request)) [
      | inr bad ↦ rw bad (inl refl)
      | inl good ↦ rw good (elim (start_json request spawned c) [
        | inl same ↦ inl same
        | inr (pid, open_now, free, new, reply) ↦ inr (
          request,
          pid,
          (ap some m, ev, ground (arith, ea), ground arith),
          open_now,
          free,
          new,
          reply,
        )
      ])
    ]

-- `handleStart` either leaves the controller as it was, or makes the requested run: the latter only for
-- a JSON request that passes the validation, in an open controller with no active run, and then it
-- answers 201 with the new status.
pub handle_start_lem :
    (media : Option String) (body : Body StartRequest) (spawned : Option ℕ) (c : Controller)
    → StartOutcome media body c (handle_start media body spawned c)
unfolding handle_start
handle_start_lem none body spawned c = inl refl
handle_start_lem (some media) body spawned c = elim (Bool-cases (media == "application/json")) [
  | inr other ↦ rw other (inl refl)
  | inl is_json ↦
      let e : media ≡ "application/json" = (eq_iff media "application/json").0 is_json in
      rw is_json (start_valid_lem media body body.at_end body.value refl refl e spawned c)
]

abbrev pub killed : List Signal → Bool
killed [] = false
killed (sigterm ∷ l) = killed l
killed (sigkill ∷ l) = true

-- `stopRun` fails exactly if a signal that it sends fails for another reason than that the process
-- group is gone, and it sends SIGKILL exactly if the
-- run was not done at the start, SIGTERM did not fail, and the run did not end in time.
pub stop_run_lem :
    (e : StopEnv)
    → (((stop_run e).0 ≡ false) ↔ (
        (e.done_before ≡ false)
        × ((e.term ≡ kill_error) ⊎ ((e.done_in_time ≡ false) × (e.kill ≡ kill_error)))))
      × ((killed (stop_run e).1 ≡ true)
          ↔ ((e.done_before ≡ false) × (e.term ≢ kill_error) × (e.done_in_time ≡ false)))
unfolding stop_run
stop_run_lem e = ((λ h. ground arith, λ h. ground arith), (λ h. ground arith, λ h. ground arith))

-- In a controller that was reached from the start, a stop of a run answers 500, or answers 200 with
-- the controller's status, and then that run is not active any more. The hypothesis is what a receive
-- from a channel means: where `stopRun` returns nil, the run's channel is closed.
pub handle_stop_lem :
    {w : World} (r : Run) (e : StopEnv)
    → Reach begin w
    → ((stop_run e).0 ≡ true → elem r.serial w.done ≡ true)
    → (handle_stop (some r) e w.controller ≡ error 500)
      ⊎ ((handle_stop (some r) e w.controller ≡ json 200 (status w.controller))
          × (same_run r.serial w.controller.active ≡ false))
unfolding handle_stop
handle_stop_lem {w} r e reach received = elim (Bool-cases (stop_run e).0) [
  | inl ok ↦ inr (rw ok refl, (Reach-Inv reach).gone r.serial (received ok))
  | inr failed ↦ inl (rw failed refl)
]
