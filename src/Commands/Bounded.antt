-- ===== src/Commands/Bounded.antt =====
-- The moves of a command after a signal.
use zth_sre.Prelude.{
  ℕ, ◌+◌, ◌≤◌, ◌<◌, ◌≡◌, refl, arith, Bool, true, false, ◌||◌, List, [], ◌∷◌, length, Bool-cases,
  inl, inr, ◌⊎◌,
}
use zth_sre.Commands.{
  Call, Program, Main, serving, waiting, returned, fatal, Process, begin, acted, is_shutdown, live,
  Step, signals, acts, announces, fails, closes, returns, Reach, here, there, Run, stop, go,
}

-- How far `main` is from its end.
unfoldable rank : Main → ℕ
rank serving = 2
rank waiting = 1
rank returned = 0
rank fatal = 0

unfoldable missing : Bool → ℕ
missing true = 0
missing false = 1

missing_le : (b : Bool) → missing b ≤ 1
unfolding missing
missing_le b = ground arith

rank_le : (m : Main) → rank m ≤ 2
unfolding rank
rank_le m = ground arith

-- The moves that are left at most.
abbrev moves_left : Process → ℕ
moves_left s = length s.todo + (missing s.done + missing s.signalled) + rank s.main

step_decreases : (p : Program) (s next : Process) → Step p s next → moves_left next < moves_left s
unfolding rank missing acted
step_decreases p _ _ (signals s l e) = rw e (omega arith)
step_decreases p _ _ (acts s call rest failed l g e) = rw e (omega arith)
step_decreases p _ _ (announces s l g e d) = rw d (omega arith)
step_decreases p _ _ (fails s e c) = rw e (omega arith)
step_decreases p _ _ (closes s e c) = rw e (omega arith)
step_decreases p _ _ (returns s e d) = rw e (omega arith)

run_decreases :
    (p : Program) (n : ℕ) (s last : Process) → Run p n s last → n + moves_left last ≤ moves_left s
run_decreases p _ _ _ (stop s) = omega arith
run_decreases p _ _ _ (go n s next last step run) =
    let a = step_decreases p s next step in
    let b = run_decreases p n next last run in omega (arith, a, b)

-- A call of Shutdown is among the calls.
unfoldable pub shuts : List Call → Bool
shuts [] = false
shuts (call ∷ rest) = is_shutdown call || shuts rest

-- Shutdown was called, or will be.
abbrev Shutting : Process → Type 0
Shutting s = (s.closing ≡ true) ⊎ (shuts s.todo ≡ true)

acted-Shutting :
    (p : Program) (s : Process) (call : Call) (rest : List Call) (failed : Bool)
    → s.todo ≡ call ∷ rest
    → Shutting s
    → Shutting (acted p call rest failed s)
unfolding acted shuts
acted-Shutting p s call rest failed e (inl c) = inl (rw c refl)
acted-Shutting p s call rest failed e (inr h) = elim (Bool-cases (is_shutdown call)) [
  | inl k ↦ inl (ground arith)
  | inr k ↦ inr (ground arith)
]

step-Shutting : (p : Program) (s next : Process) → Step p s next → Shutting s → Shutting next
step-Shutting p _ _ (signals s l e) h = h
step-Shutting p _ _ (acts s call rest failed l g e) h = acted-Shutting p s call rest failed e h
step-Shutting p _ _ (announces s l g e d) h = h
step-Shutting p _ _ (fails s e c) h = h
step-Shutting p _ _ (closes s e c) h = h
step-Shutting p _ _ (returns s e d) h = h

Reach-Shutting : (p : Program) (s : Process) → shuts p.todo ≡ true → Reach p s → Shutting s
unfolding begin
Reach-Shutting p _ h (here created) = inr h
Reach-Shutting p _ h (there s next r step) = step-Shutting p s next step (Reach-Shutting p s h r)

abbrev Next : Program → Process → Type 0
Next p s = (next : Process) × Step p s next

at_end :
    (p : Program) (s : Process) (main : Main)
    → s.main ≡ main
    → live s.main ≡ true
    → s.done ≡ true
    → s.closing ≡ true
    → Next p s
unfolding live
at_end p s serving e l d c = (record s { main = waiting }, closes s e c)
at_end p s waiting e l d c = (_, returns s e d)
at_end p s returned e l d c = absurd (ground (arith, e, l))
at_end p s fatal e l d c = absurd (ground (arith, e, l))

moves :
    (p : Program) (s : Process) (todo : List Call)
    → s.todo ≡ todo
    → live s.main ≡ true
    → s.signalled ≡ true
    → Shutting s
    → Next p s
unfolding shuts
moves p s (call ∷ rest) e l g h = (acted p call rest false s, acts s call rest false l g e)
moves p s [] e l g (inr h) = absurd (let k : shuts [] ≡ true = rw e at h in cc)
moves p s [] e l g (inl c) = elim (Bool-cases s.done) [
  | inl d ↦ at_end p s s.main refl l d c
  | inr d ↦ (record s { done = true }, announces s l g e d)
]

step-Signalled :
    (p : Program) (s next : Process) → Step p s next → s.signalled ≡ true → next.signalled ≡ true
unfolding acted
step-Signalled p _ _ (signals s l e) h = refl
step-Signalled p _ _ (acts s call rest failed l g e) h = h
step-Signalled p _ _ (announces s l g e d) h = h
step-Signalled p _ _ (fails s e c) h = h
step-Signalled p _ _ (closes s e c) h = h
step-Signalled p _ _ (returns s e d) h = h

run_moves :
    (p : Program) (n : ℕ) (s last : Process)
    → Run p n s last
    → s.signalled ≡ true
    → Shutting s
    → live last.main ≡ true
    → Next p last
run_moves p _ _ _ (stop s) g h l = moves p s s.todo refl l g h
run_moves p _ _ _ (go n s next last step run) g h l =
    run_moves p n next last run (step-Signalled p s next step g) (step-Shutting p s next step h) l

-- In a command whose goroutine calls Shutdown, the two goroutines make at most three moves more
-- after a signal than there are calls left, in whatever order they come and whichever calls fail; and
-- they can always go on until `main` has ended. Every call is taken to return.
pub signal_ends :
    (p : Program) (s last : Process) (n : ℕ)
    → shuts p.todo ≡ true
    → Reach p s
    → s.signalled ≡ true
    → Run p n s last
    → (n ≤ length s.todo + 3) × (live last.main ≡ true → (next : Process) × Step p last next)
unfolding missing
signal_ends p s last n h r g run =
    let a = run_decreases p n s last run in
    let b : missing s.signalled ≡ 0 = rw g refl in
    (
      omega (arith, a, b, missing_le s.done, rank_le s.main),
      run_moves p n s last run g (Reach-Shutting p s h r),
    )
