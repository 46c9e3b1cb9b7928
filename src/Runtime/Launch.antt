-- ===== src/Runtime/Launch.antt =====
-- A start of an exercise with everything that it starts: the runtime of internal/server/runtime.go, the
-- services that it sets, and the handlers of traffic/controller.go.
use zth_sre.Prelude.{
  ℕ, ◌≡◌, ◌≢◌, refl, String, Bool, true, false, Option, none, some, if◌then◌else◌, String_eq, ℕ_eq,
  ==_refl, Bool-cases, inl, inr,
}
use zth_sre.Prelude.Map.{get}
use zth_sre.Http.{Body}
use zth_sre.Traffic
use zth_sre.Traffic.{
  StartRequest, Run, Controller, valid_run_id, valid_request, StopEnv, stop_run, reap, same_run,
  handle_start, handle_stop, start, status, json, error,
}
use zth_sre.Traffic.Lifecycle.{run_for}
use zth_sre.Runtime.State.{RunState, Exercise, new_run, is_alert, traffic_profiles}
use zth_sre.Runtime.Control.{Request, start_traffic, stop_traffic, apply_state, start_run_traffic}
use zth_sre.Runtime.Operations.{Manager}
use zth_sre.Runtime.Operations
use zth_sre.Runtime.Fleet.{traffic_accepted}
use zth_sre.Runtime.Composition.{World, carry, is_2xx, Set, apply_state_lem}

-- What the controller's calls meet: the process id of a k6 that starts, and the signals and waits of a
-- stop.
pub record Calls : Type 0 where
  pub spawned : Option ℕ
  pub stop : StopEnv

abbrev pub reply_status : Traffic.Reply → ℕ
reply_status (error code) = code
reply_status (json code s) = code

abbrev pub request_for : String → String → String → StartRequest
request_for id scenario profile = record { run_id = id; scenario = scenario; profile = profile }

abbrev pub posted : StartRequest → Body StartRequest
posted request = record { value = some request; at_end = true }

-- `handleStop` with a run: a `stopRun` that returns nil has received from the channel that `reap`
-- closes after its critical section.
pub stop_active : Option Run → StopEnv → Controller → Controller × Bool
stop_active none e c = (c, is_2xx (reply_status (handle_stop none e c)))
stop_active (some r) e c =
    let later = (if (stop_run e).0 then reap r c else c) in
    (later, is_2xx (reply_status (handle_stop (some r) e later)))

-- The controller at the other end of `startTraffic` and `stopTraffic`.
pub control : Calls → Request → Controller → Controller × Bool
unfolding stop_active
control e (start_traffic id scenario profile) c =
    let (c', reply) =
      handle_start (some "application/json") (posted (request_for id scenario profile)) e.spawned
        c in
    (c', is_2xx (reply_status reply))
control e stop_traffic c = stop_active c.active e.stop c
control e _ c = (c, false)

-- A stop that finds its signals sent leaves an open controller without a run.
record Stopped (c : Controller) (r : Controller × Bool) : Type 0 where
  told : r.1 ≡ true
  free : r.0.active ≡ none
  as_open : r.0.closed ≡ c.closed

stop_active-Stopped :
    (active : Option Run) (e : StopEnv) (c : Controller)
    → c.active ≡ active
    → (stop_run e).0 ≡ true
    → Stopped c (stop_active active e c)
unfolding stop_active handle_stop reap
stop_active-Stopped none e c a h = record { told = refl; free = a; as_open = refl }
stop_active-Stopped (some r) e c a h =
    rw (h, a, ==_refl r.serial) (record { told = refl; free = refl; as_open = refl })

-- A start that is valid makes the run.
handle_start-run :
    (request : StartRequest) (pid : ℕ) (c : Controller)
    → valid_request request ≡ true
    → c.active ≡ none
    → c.closed ≡ false
    → (let out = handle_start (some "application/json") (posted request) (some pid) c in
        (out.0.active ≡ some (run_for request c.made pid)) × (is_2xx (reply_status out.1) ≡ true))
unfolding handle_start start
handle_start-run request pid c v a o = rw (v, o, a) (refl, refl)

module _ {F : Type 0} (catalog : String → Option (Exercise F)) (e : Calls) where
  abbrev send : Request → World Controller → World Controller × Bool
  send = carry (control e)

  -- The run, and what it runs on: the services set for it, and a k6 process with its id.
  pub record Launched (id new_id : String) (now pid : ℕ)
      (out : Manager (World Controller) × Option RunState) : Type 0 where
    pub reply : out.1 ≡ some (record (new_run new_id id now) { state = "running" })
    pub active : out.0.active ≡ out.1
    pub services :
        Set
          (control e)
          (if is_alert id then "baseline" else "incident")
          (if is_alert id then "" else id)
          out.0.world
    pub traffic :
        (made : ℕ) × (out.0.world.traffic.active
          ≡ some (run_for (request_for new_id id (get "" id traffic_profiles)) made pid))

  launched :
      (id new_id : String) (now pid : ℕ) (m : Manager (World Controller)) (w : World Controller)
      → valid_run_id new_id ≡ true
      → "alerting" ≢ id
      → e.spawned ≡ some pid
      → w.traffic.active ≡ none
      → w.traffic.closed ≡ false
      → Set
          (control e)
          (if is_alert id then "baseline" else "incident")
          (if is_alert id then "" else id)
          w
      → Launched id new_id now pid (
          Operations.started send catalog true
            (new_run new_id id now)
            m
            (start_run_traffic send (new_run new_id id now) w))
  unfolding Operations.started start_run_traffic carry control
  launched id new_id now pid m w v a s free opened set =
      let request = request_for new_id id (get "" id traffic_profiles) in
      let valid = traffic_accepted (new_run new_id id now) v a in
      let (t, d) = handle_start-run request pid w.traffic valid free opened in
      rw (s, d)
        (record {
          reply = refl;
          active = refl;
          services = record {
            api1 = set.api1;
            api2 = set.api2;
            dependency = set.dependency;
            policy = set.policy;
            balancer = set.balancer;
          };
          traffic = (w.traffic.made, t);
        })

  send_stop :
      (w : World Controller)
      → (stop_run e.stop).0 ≡ true
      → ((send stop_traffic w).1 ≡ true)
        × ((send stop_traffic w).0.traffic.active ≡ none)
        × ((send stop_traffic w).0.traffic.closed ≡ w.traffic.closed)
  unfolding carry control
  send_stop w h =
      let v = stop_active-Stopped w.traffic.active e.stop w.traffic refl h in
      (v.told, v.free, v.as_open)

  -- An exercise of the catalog, under its own id and with a free manager, starts: the services accept
  -- what they are sent, and k6 runs with the new id. The incident is applied at once, except in the
  -- exercises in which the learner writes an alert first. The id of the run fits the controller's
  -- pattern, the id of the exercise is not "alerting", the controller is open, a stop's signals are
  -- sent, and k6 starts.
  pub start_lem :
      (id new_id : String) (now pid : ℕ) (item : Exercise F) (m : Manager (World Controller))
      → m.active ≡ none
      → catalog id ≡ some item
      → item.id ≡ id
      → valid_run_id new_id ≡ true
      → "alerting" ≢ id
      → e.spawned ≡ some pid
      → (stop_run e.stop).0 ≡ true
      → m.world.traffic.closed ≡ false
      → Launched id new_id now pid (Operations.start send catalog true id new_id now m)
  unfolding Operations.start Operations.start_found Operations.with_incident
  start_lem id new_id now pid item m idle found own v a s stops opened =
      let w1 = (send stop_traffic m.world).0 in
      let w2 = (apply_state send true "baseline" none w1).0 in
      let (told, free, closed) = send_stop m.world stops in
      let (ok1, set1, kept1) = apply_state_lem (control e) "baseline" none w1 in
      let free2 : w2.traffic.active ≡ none = rw kept1 free in
      let opened2 : w2.traffic.closed ≡ false = rw (kept1, closed) opened in
      let r = new_run new_id id now in
      let m2 : Manager (World Controller) = record m { world = w2 } in
      rw (idle, found, told, ok1, own)
        (elim (Bool-cases (is_alert id)) [
          | inl alert ↦
              rw alert (launched id new_id now pid m2 w2 v a s free2 opened2 (rw alert set1))
          | inr plain ↦
              let w3 = (apply_state send true "incident" (some r) w2).0 in
              let (ok2, set2, kept2) = apply_state_lem (control e) "incident" (some r) w2 in
              let free3 : w3.traffic.active ≡ none = rw kept2 free2 in
              let opened3 : w3.traffic.closed ≡ false = rw kept2 opened2 in
              rw (plain, ok2) (launched id new_id now pid m2 w3 v a s free3 opened3 (rw plain set2))
        ])
