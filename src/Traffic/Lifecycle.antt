-- ===== src/Traffic/Lifecycle.antt =====
-- The life of the k6 process under requests, exits and shutdown that come in any order. Each step is
-- one critical section of the controller's mutex; closing `r.done` follows `reap`'s at once, and no
-- other code waits in between.
use zth_sre.Prelude.{
  ℕ, ◌+◌, ◌≤◌, ◌<◌, ◌≡◌, refl, sym, ◌∙◌, ◌⊎◌, inl, inr, true, false, Option, none, some, List, [],
  ◌∷◌, ◌++◌, if◌then◌else◌, ◌==◌, String_eq, ℕ_eq, arith, nat_eq_iff, Bool-cases, Option-cases,
  elem, All, ==_refl,
}
use zth_sre.Traffic.{
  StartRequest, Run, Controller, init, start, start_open, same_run, reap, shut, started, running,
}

-- `live` are the runs whose process was started and not reaped, `done` those whose channel is closed.
pub record World : Type 0 where
  pub controller : Controller
  pub live : List Run
  pub done : List ℕ

-- The runs that a call of `start` made.
abbrev pub made_by : ℕ → ℕ → Option Run → List Run → List Run
made_by before after none live = live
made_by before after (some r) live = if before == after then live else r ∷ live

unfoldable pub after_start : StartRequest → Option ℕ → World → World
after_start request spawned w =
    let c = (start request spawned w.controller).0 in
    record w { controller = c; live = made_by w.controller.made c.made c.active w.live }

pub data Step (w : World) (v : World) : Type 0 where
  start_step :
      (request : StartRequest) (spawned : Option ℕ) → v ≡ after_start request spawned w → Step w v
  -- The process of a live run ends, and its `reap` runs.
  reap_step :
      (r : Run) (before after : List Run)
      → w.live ≡ before ++ r ∷ after
      → v ≡ record {
        controller = reap r w.controller;
        live = before ++ after;
        done = r.serial ∷ w.done;
      }
      → Step w v
  shut_step : v ≡ record w { controller = shut w.controller } → Step w v

pub data Reach (w : World) : World → Type 0 where
  here : Reach w w
  next : {u v : World} → Reach w u → Step u v → Reach w v

abbrev pub to_list : Option Run → List Run
to_list none = []
to_list (some r) = r ∷ []

abbrev pub SerialBelow : ℕ → Option Run → Type 0
SerialBelow n none = Unit {0}
SerialBelow n (some r) = r.serial < n

pub record Inv (w : World) : Type 0 where
  -- The active run is the one live process; with none active there is none.
  pub one : w.live ≡ to_list w.controller.active
  pub fresh : SerialBelow w.controller.made w.controller.active
  pub past : All (λ n. n < w.controller.made) w.done
  -- A run whose channel is closed is not the active one.
  pub gone : (serial : ℕ) → elem serial w.done ≡ true → same_run serial w.controller.active ≡ false

unfoldable pub begin : World
begin = record { controller = init; live = []; done = [] }

pub begin-Inv : Inv begin
unfolding begin init
begin-Inv = record { one = refl; fresh = tt; past = tt; gone = λ serial h. cc }

abbrev pub run_for : StartRequest → ℕ → ℕ → Run
run_for request serial pid = record {
  serial = serial;
  run_id = request.run_id;
  scenario = request.scenario;
  profile = request.profile;
  pid = pid;
}

-- A call of `start` leaves the controller as it is, or makes a run where none is active and the
-- controller is open.
pub start_shape :
    (request : StartRequest) (spawned : Option ℕ) (c : Controller)
    → ((start request spawned c).0 ≡ c)
      ⊎ ((pid : ℕ) × (c.closed ≡ false)
          × (c.active ≡ none)
          × (start request spawned c ≡ (
            record c { active = some (run_for request c.made pid); made = c.made + 1 },
            started (running request.run_id request.scenario request.profile pid),
          )))
unfolding start
start_shape request none c = inl (ground arith)
start_shape request (some pid) c = elim (Bool-cases c.closed) [
  | inl shut_down ↦ rw shut_down (inl refl)
  | inr open_now ↦ elim (Option-cases c.active) [
    | inl free ↦ inr (pid, open_now, free, rw (open_now, free, start_open) refl)
    | inr (r, busy) ↦ rw (open_now, busy, start_open) (inl refl)
  ]
]

All-lt_mono : (n m : ℕ) (l : List ℕ) → n ≤ m → All (λ k. k < n) l → All (λ k. k < m) l
All-lt_mono n m [] h a = tt
All-lt_mono n m (k ∷ l) h a = (omega arith, All-lt_mono n m l h a.1)

not_elem_of_below : (n : ℕ) (l : List ℕ) → All (λ k. k < n) l → elem n l ≡ false
not_elem_of_below n [] a = refl
not_elem_of_below n (k ∷ l) a = ground (arith, nat_eq_iff k n, not_elem_of_below n l a.1)

start_step-Inv :
    (request : StartRequest) (spawned : Option ℕ) (w : World)
    → Inv w
    → Inv (after_start request spawned w)
unfolding after_start
start_step-Inv request spawned w v = elim (start_shape request spawned w.controller) [
  | inl same ↦ rw same (record {
    one = kept w.controller.made w.controller.active w.live ∙ v.one;
    fresh = v.fresh;
    past = v.past;
    gone = v.gone;
  })
  | inr (pid, open_now, free, new) ↦ rw new (record {
    one = ground (arith, v.one, free, nat_eq_iff w.controller.made (w.controller.made + 1));
    fresh = omega arith;
    past = All-lt_mono w.controller.made (w.controller.made + 1) w.done (omega arith) v.past;
    gone = λ serial h. fresh_serial serial (w.controller.made) w.done h v.past;
  })
]
  where
    kept : (n : ℕ) (o : Option Run) (l : List Run) → made_by n n o l ≡ l
    kept n none l = refl
    kept n (some r) l = rw (==_refl n) refl

    fresh_serial :
        (serial n : ℕ) (l : List ℕ)
        → elem serial l ≡ true
        → All (λ k. k < n) l
        → (n == serial) ≡ false
    fresh_serial serial n l h a = elim (Bool-cases (n == serial)) [
      | inr ne ↦ ne
      | inl eq ↦
          let e : n ≡ serial = (nat_eq_iff n serial).0 eq in
          cc (rw e at (not_elem_of_below n l a), h)
    ]

-- Where the live runs are those of one slot, a live run is the one in it.
single :
    (r : Run) (before after : List Run) (o : Option Run)
    → to_list o ≡ before ++ r ∷ after
    → (o ≡ some r) × (before ≡ []) × (after ≡ [])
single r [] after none e = cc
single r [] after (some q) e = (cc, refl, cc)
single r (x ∷ before) after none e = cc
single r (x ∷ []) after (some q) e = cc
single r (x ∷ y ∷ before) after (some q) e = cc

reap_step-Inv :
    (r : Run) (before after : List Run) (w : World)
    → w.live ≡ before ++ r ∷ after
    → Inv w
    → Inv (record {
      controller = reap r w.controller;
      live = before ++ after;
      done = r.serial ∷ w.done;
    })
unfolding reap
reap_step-Inv r before after w e v =
    let (is_r, no_before, no_after) = single r before after w.controller.active (sym v.one ∙ e) in
    let below : r.serial < w.controller.made =
      (let f : SerialBelow w.controller.made (some r) = rw is_r at v.fresh in f) in
    rw (is_r, no_before, no_after, ==_refl r.serial)
      (record { one = refl; fresh = tt; past = (below, v.past); gone = λ serial h. refl })

pub Step-Inv : (w v : World) → Step w v → Inv w → Inv v
unfolding shut
Step-Inv w v (start_step request spawned e) i = rw e (start_step-Inv request spawned w i)
Step-Inv w v (reap_step r before after l e) i = rw e (reap_step-Inv r before after w l i)
Step-Inv w v (shut_step e) i =
    rw e (record { one = i.one; fresh = i.fresh; past = i.past; gone = i.gone })

-- After any starts, reaps and shutdowns, in any order: the active run is the one k6 process that was
-- started and not reaped, and where none is active there is no such process; a run whose channel is
-- closed is not the active one.
pub Reach-Inv : {w : World} → Reach begin w → Inv w
Reach-Inv here = begin-Inv
Reach-Inv (next {u} {v} r st) = Step-Inv u v st (Reach-Inv r)

closed-Step :
    (u v : World)
    → Step u v
    → u.controller.closed ≡ true
    → (v.controller.closed ≡ true) × (v.controller.made ≡ u.controller.made)
unfolding after_start reap shut start
closed-Step u v (start_step request spawned e) h = rw (e, h) (refl, refl)
closed-Step u v (reap_step r before after l e) h = ground arith
closed-Step u v (shut_step e) h = rw e (refl, refl)

-- Once the controller is closed it stays closed and makes no further run, whatever steps follow.
pub closed-Reach :
    {w v : World}
    → Reach w v
    → w.controller.closed ≡ true
    → (v.controller.closed ≡ true) × (v.controller.made ≡ w.controller.made)
closed-Reach here h = (h, refl)
closed-Reach (next {u} {v} r st) h =
    let (c, m) = closed-Reach r h in let (c', m') = closed-Step u v st c in (c', m' ∙ m)
