-- ===== src/Terminal/Shell/Held.antt =====
-- What holds of a session in any order of the moves of its goroutines.
use zth_sre.Prelude.{
  ℕ, ◌≡◌, refl, ◌⊎◌, inl, inr, Bool, true, false, ◌&&◌, ◌||◌, not, Option, none, some, String_eq,
  arith,
}
use zth_sre.Terminal.{Message, Frame, decode_message}
use zth_sre.Terminal.Shell.{
  Process, unborn, running, exited, killed, waited, Stage, serving, stopping, ended, Shell, Opening,
  open_shell, Chunk, copy_output, end_input, apply_message, copy_input, watch, tear_down, finish,
  Step, outputs, inputs, ticks, leaves, cancels, closes, exits, tears_down, finishes, Reach, here,
  there,
}

abbrev pub gone : Process → Bool
gone unborn = true
gone waited = true
gone _ = false

-- What a session holds of the machine at each stage.
abbrev pub AtStage : Stage → Shell → Type 0
AtStage serving s =
    ((s.process ≡ running) ⊎ (s.process ≡ exited))
    × (s.master ≡ true)
    × ((s.conn ≡ true) ⊎ (s.cancelled ≡ true))
    × ((s.cancelled ≡ true) ⊎ ((s.output ≡ true) × (s.input ≡ true) × (s.watcher ≡ true)))
AtStage stopping s =
    (s.process ≡ killed) × (s.master ≡ false) × (s.conn ≡ false) × (s.cancelled ≡ true)
AtStage ended s =
    (gone s.process ≡ true)
    × (s.master ≡ false)
    × (s.conn ≡ false)
    × (s.output ≡ false)
    × (s.input ≡ false)
    × (s.watcher ≡ false)

-- The same, as a test.
abbrev is_started : Process → Bool
is_started running = true
is_started exited = true
is_started _ = false

abbrev is_killed : Process → Bool
is_killed killed = true
is_killed _ = false

abbrev all_run : Shell → Bool
all_run s = s.output && s.input && s.watcher

abbrev none_runs : Shell → Bool
none_runs s = not s.output && not s.input && not s.watcher

abbrev held_at : Stage → Shell → Bool
held_at serving s =
    is_started s.process && s.master && (s.conn || s.cancelled) && (s.cancelled || all_run s)
held_at stopping s = is_killed s.process && not s.master && not s.conn && s.cancelled
held_at ended s = gone s.process && not s.master && not s.conn && none_runs s

started_cases : (p : Process) → is_started p ≡ true → (p ≡ running) ⊎ (p ≡ exited)
started_cases unborn h = absurd (cc)
started_cases running h = inl refl
started_cases exited h = inr refl
started_cases killed h = absurd (cc)
started_cases waited h = absurd (cc)

held-AtStage : (stage : Stage) (s : Shell) → held_at stage s ≡ true → AtStage stage s
held-AtStage serving s h = (
  started_cases s.process (ground (arith, h)),
  ground (arith, h),
  ground (arith, h),
  ground (arith, h),
)
held-AtStage stopping s h =
    (ground (arith, h), ground (arith, h), ground (arith, h), ground (arith, h))
held-AtStage ended s h = (
  ground (arith, h),
  ground (arith, h),
  ground (arith, h),
  ground (arith, h),
  ground (arith, h),
  ground (arith, h),
)

open_shell-held : (o : Opening) → held_at (open_shell o).stage (open_shell o) ≡ true
unfolding open_shell
open_shell-held o = ground arith

copy_output-held :
    (stage : Stage) (s : Shell) (now : ℕ) (r : Chunk)
    → s.stage ≡ stage
    → s.output ≡ true
    → held_at stage s ≡ true
    → held_at (copy_output now r s).stage (copy_output now r s) ≡ true
unfolding copy_output
copy_output-held serving s now r e runs h = ground (arith, h, e, runs)
copy_output-held stopping s now r e runs h = ground (arith, h, e, runs)
copy_output-held ended s now r e runs h = absurd (ground (arith, h, e, runs))

apply_message-held :
    (stage : Stage) (s : Shell) (now : ℕ) (done : Bool) (m : Option Message)
    → s.stage ≡ stage
    → s.input ≡ true
    → held_at stage s ≡ true
    → held_at (apply_message now done m s).stage (apply_message now done m s) ≡ true
unfolding apply_message
apply_message-held serving s now done none e runs h = ground (arith, h, e, runs)
apply_message-held serving s now done (some m) e runs h = ground (arith, h, e, runs)
apply_message-held stopping s now done none e runs h = ground (arith, h, e, runs)
apply_message-held stopping s now done (some m) e runs h = ground (arith, h, e, runs)
apply_message-held ended s now done m e runs h = absurd (ground (arith, h, e, runs))

end_input-held :
    (stage : Stage) (s : Shell)
    → s.stage ≡ stage
    → s.input ≡ true
    → held_at stage s ≡ true
    → held_at s.stage (end_input s) ≡ true
end_input-held serving s e runs h = ground (arith, h, e, runs)
end_input-held stopping s e runs h = ground (arith, h, e, runs)
end_input-held ended s e runs h = absurd (ground (arith, h, e, runs))

copy_input-held :
    (s : Shell) (now : ℕ) (done : Bool) (f : Option Frame)
    → s.input ≡ true
    → held_at s.stage s ≡ true
    → held_at (copy_input now done f s).stage (copy_input now done f s) ≡ true
unfolding copy_input
copy_input-held s now done none runs h = end_input-held s.stage s refl runs h
copy_input-held s now done (some f) runs h =
    apply_message-held s.stage s now done (decode_message f) refl runs h

watch-held :
    (stage : Stage) (s : Shell) (now : ℕ)
    → s.stage ≡ stage
    → s.watcher ≡ true
    → held_at stage s ≡ true
    → held_at (watch now s).stage (watch now s) ≡ true
unfolding watch
watch-held serving s now e runs h = ground (arith, h, e, runs)
watch-held stopping s now e runs h = ground (arith, h, e, runs)
watch-held ended s now e runs h = absurd (ground (arith, h, e, runs))

leaves-held :
    (stage : Stage) (s : Shell)
    → s.stage ≡ stage
    → s.cancelled ≡ true
    → held_at stage s ≡ true
    → held_at s.stage (record s { watcher = false }) ≡ true
leaves-held serving s e c h = ground (arith, h, e, c)
leaves-held stopping s e c h = ground (arith, h, e, c)
leaves-held ended s e c h = ground (arith, h, e, c)

cancels-held :
    (stage : Stage) (s : Shell)
    → s.stage ≡ stage
    → held_at stage s ≡ true
    → held_at s.stage (record s { cancelled = true }) ≡ true
cancels-held serving s e h = ground (arith, h, e)
cancels-held stopping s e h = ground (arith, h, e)
cancels-held ended s e h = ground (arith, h, e)

closes-held :
    (stage : Stage) (s : Shell)
    → s.stage ≡ stage
    → held_at stage s ≡ true
    → held_at s.stage (record s { cancelled = true; conn = false }) ≡ true
closes-held serving s e h = ground (arith, h, e)
closes-held stopping s e h = ground (arith, h, e)
closes-held ended s e h = ground (arith, h, e)

exits-held :
    (stage : Stage) (s : Shell)
    → s.stage ≡ stage
    → s.process ≡ running
    → held_at stage s ≡ true
    → held_at s.stage (record s { process = exited }) ≡ true
exits-held serving s e p h = ground (arith, h, e)
exits-held stopping s e p h = absurd (ground (arith, h, p))
exits-held ended s e p h = absurd (ground (arith, h, p))

step-held :
    (s next : Shell) → Step s next → held_at s.stage s ≡ true → held_at next.stage next ≡ true
unfolding tear_down finish
step-held _ _ (outputs s now r runs law unsent) h = copy_output-held s.stage s now r refl runs h
step-held _ _ (inputs s now done f runs law) h = copy_input-held s now done f runs h
step-held _ _ (ticks s now runs) h = watch-held s.stage s now refl runs h
step-held _ _ (leaves s runs c) h = leaves-held s.stage s refl c h
step-held _ _ (cancels s) h = cancels-held s.stage s refl h
step-held _ _ (closes s) h = closes-held s.stage s refl h
step-held _ _ (exits s p) h = exits-held s.stage s refl p h
step-held _ _ (tears_down s e c) h = ground (arith, c)
step-held _ _ (finishes s e a b c) h =
    let k : held_at stopping s ≡ true = rw e at h in ground (arith, k, a, b, c)

Reach-held : (s : Shell) → Reach s → held_at s.stage s ≡ true
Reach-held _ (here o) = open_shell-held o
Reach-held _ (there s next r st) = step-held s next st (Reach-held s r)

-- Whatever the order of the moves of the goroutines, of `Close` and of the shell's own end, and whatever
-- fails: while a session is served its shell was started and not waited for, the PTY is open, and unless
-- its context is done the connection is open and its three goroutines run. Once it is torn down the shell
-- is killed, or over before, both are closed, and the context is done. When it has ended no goroutine
-- runs, and the shell was waited for, unless it could not be started.
pub Reach-AtStage : (s : Shell) → Reach s → AtStage s.stage s
Reach-AtStage s r = held-AtStage s.stage s (Reach-held s r)
