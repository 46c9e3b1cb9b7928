-- ===== src/Terminal/Shell/Ending.antt =====
-- A session that nobody uses comes to its end.
use zth_sre.Prelude.{
  ℕ, suc, ◌+◌, ◌-◌, ◌≤◌, ◌<◌, ◌≡◌, refl, ◌⊎◌, inl, inr, Bool, true, false, none, leb, arith,
  Bool-cases,
}
use zth_sre.Terminal.Shell.{
  Stage, serving, stopping, ended, Shell, Chunk, copy_output, copy_input, watch, tear_down, finish,
  idle_timeout, Step, outputs, inputs, ticks, leaves, tears_down, finishes, Reach, there,
}
use zth_sre.Terminal.Shell.Held.{AtStage, Reach-AtStage}

-- A Read of a closed descriptor.
abbrev failing : Chunk
failing = record { bytes = ""; failed = true; sent = false }

-- What the goroutines do from a time on while neither the client nor the shell does anything, and no
-- context is cancelled from outside: a Read and a ReadMessage come back only where the PTY or the
-- connection was closed.
pub data Alone (now : ℕ) : Shell → Shell → Type 0 where
  drains :
      (s : Shell) (time : ℕ)
      → s.output ≡ true
      → s.master ≡ false
      → Alone now s (copy_output time failing s)
  hangs_up :
      (s : Shell) (time : ℕ)
      → s.input ≡ true
      → s.conn ≡ false
      → Alone now s (copy_input time false none s)
  looks : (s : Shell) (time : ℕ) → now ≤ time → s.watcher ≡ true → Alone now s (watch time s)
  follows :
      (s : Shell)
      → s.watcher ≡ true
      → s.cancelled ≡ true
      → Alone now s (record s { watcher = false })
  stops : (s : Shell) → s.stage ≡ serving → s.cancelled ≡ true → Alone now s (tear_down s)
  returns :
      (s : Shell)
      → s.stage ≡ stopping
      → s.output ≡ false
      → s.input ≡ false
      → s.watcher ≡ false
      → Alone now s (finish s)

-- A number of such moves.
pub data Run (now : ℕ) : ℕ → Shell → Shell → Type 0 where
  stop : (s : Shell) → Run now 0 s s
  go :
      (n : ℕ) (s next last : Shell)
      → Alone now s next
      → Run now n next last
      → Run now (suc n) s last

Alone-Step : (now : ℕ) (s next : Shell) → Alone now s next → Step s next
Alone-Step now _ _ (drains s time o m) = outputs s time failing o (λ c. (refl, refl)) (λ c. refl)
Alone-Step now _ _ (hangs_up s time i c) = inputs s time false none i (λ k. refl)
Alone-Step now _ _ (looks s time l w) = ticks s time w
Alone-Step now _ _ (follows s w c) = leaves s w c
Alone-Step now _ _ (stops s e c) = tears_down s e c
Alone-Step now _ _ (returns s e o i w) = finishes s e o i w

-- No activity for 15 minutes.
abbrev Idle : ℕ → Shell → Type 0
Idle now s = s.last_activity + idle_timeout ≤ now

Alone-Idle : (now : ℕ) (s next : Shell) → Alone now s next → Idle now s → Idle now next
unfolding copy_output copy_input watch tear_down finish
Alone-Idle now _ _ (drains s time o m) h = h
Alone-Idle now _ _ (hangs_up s time i c) h = h
Alone-Idle now _ _ (looks s time l w) h = ground (arith, h)
Alone-Idle now _ _ (follows s w c) h = h
Alone-Idle now _ _ (stops s e c) h = h
Alone-Idle now _ _ (returns s e o i w) h = h

abbrev bit : Bool → ℕ
bit true = 1
bit false = 0

abbrev rank : Stage → ℕ
rank serving = 2
rank stopping = 1
rank ended = 0

-- The moves that are left at most.
abbrev left : Shell → ℕ
left s = bit s.output + bit s.input + bit s.watcher + rank s.stage

left_le : (s : Shell) → left s ≤ 5
left_le s = ground arith

looks_decreases :
    (now time : ℕ) (s : Shell)
    → now ≤ time
    → s.watcher ≡ true
    → Idle now s
    → left (watch time s) < left s
unfolding watch
looks_decreases now time s l w h =
    let enough : leb idle_timeout (time - s.last_activity) ≡ true = ground (arith, h, l) in
    rw (enough, w) (omega arith)

decreases : (now : ℕ) (s next : Shell) → Alone now s next → Idle now s → left next < left s
unfolding copy_output copy_input tear_down finish
decreases now _ _ (drains s time o m) h = rw o (omega arith)
decreases now _ _ (hangs_up s time i c) h = rw i (omega arith)
decreases now _ _ (looks s time l w) h = looks_decreases now time s l w h
decreases now _ _ (follows s w c) h = rw w (omega arith)
decreases now _ _ (stops s e c) h = rw e (omega arith)
decreases now _ _ (returns s e o i w) h = rw e (omega arith)

abbrev Next : ℕ → Shell → Type 0
Next now s = (next : Shell) × Alone now s next

stopping_moves : (now : ℕ) (s : Shell) → s.stage ≡ stopping → AtStage stopping s → Next now s
stopping_moves now s e (p, m, c, k) = elim (Bool-cases s.output) [
  | inl o ↦ (_, drains s now o m)
  | inr o ↦ elim (Bool-cases s.input) [
    | inl i ↦ (_, hangs_up s now i c)
    | inr i ↦ elim (Bool-cases s.watcher) [
      | inl w ↦ (_, follows s w k)
      | inr w ↦ (_, returns s e o i w)
    ]
  ]
]

progress :
    (now : ℕ) (s : Shell) (stage : Stage)
    → s.stage ≡ stage
    → AtStage stage s
    → (stage ≡ ended) ⊎ Next now s
progress now s serving e (p, m, c, inl k) = inr (_, stops s e k)
progress now s serving e (p, m, c, inr (o, i, w)) = inr (_, looks s now (omega arith) w)
progress now s stopping e v = inr (stopping_moves now s e v)
progress now s ended e v = inl refl

run_ends :
    (now n : ℕ) (s last : Shell)
    → Run now n s last
    → Reach s
    → Idle now s
    → (n + left last ≤ left s) × ((last.stage ≡ ended) ⊎ Next now last)
run_ends now _ _ _ (stop s) r h = (omega arith, progress now s s.stage refl (Reach-AtStage s r))
run_ends now _ _ _ (go n s next last move run) r h =
    let fewer = decreases now s next move h in
    let reached = there s next r (Alone-Step now s next move) in
    let (bound, more) = run_ends now n next last run reached (Alone-Idle now s next move h) in
    (omega (arith, fewer, bound), more)

-- From 15 minutes after the last activity of a session on, if neither the client nor the shell does
-- anything and nothing is cancelled from outside, its goroutines make at most five moves more,
-- in whatever order they come, and as long as the session has not ended one of them can move.
pub idle_ends :
    (now n : ℕ) (s last : Shell)
    → Reach s
    → s.last_activity + idle_timeout ≤ now
    → Run now n s last
    → (n ≤ 5) × ((last.stage ≡ ended) ⊎ ((next : Shell) × Alone now last next))
idle_ends now n s last r h run =
    let (bound, more) = run_ends now n s last run r h in (omega (arith, bound, left_le s), more)
