-- ===== src/Commands/Ordered.antt =====
-- The order of the end of a command.
use zth_sre.Prelude.{
  ◌≡◌, refl, sym, ap, ◌∙◌, arith, Bool, true, false, List, [], ◌∷◌, ◌++◌, map, append_assoc,
  append-nil,
}
use zth_sre.Commands.{
  Call, Event, called, Program, Main, serving, waiting, returned, fatal, Process, begin, events,
  acted, live, Step, signals, acts, announces, fails, closes, returns, Reach, here, there,
}

-- The calls of the goroutine with what they left in the log.
unfoldable pub logged : Bool → List (Call × Bool) → List Event
logged forces [] = []
logged forces ((call, failed) ∷ past) = events forces call failed ++ logged forces past

unfoldable pub calls : List (Call × Bool) → List Call
calls [] = []
calls ((call, failed) ∷ past) = call ∷ calls past

logged_snoc :
    (forces : Bool) (past : List (Call × Bool)) (call : Call) (failed : Bool)
    → logged forces (past ++ (call, failed) ∷ []) ≡ logged forces past ++ events forces call failed
unfolding logged
logged_snoc forces [] call failed = append-nil (events forces call failed)
logged_snoc forces ((c, f) ∷ past) call failed =
    rw (logged_snoc forces past call failed)
      (sym (append_assoc (events forces c f) (logged forces past) (events forces call failed)))

calls_snoc :
    (past : List (Call × Bool)) (call : Call) (failed : Bool) (rest : List Call)
    → calls (past ++ (call, failed) ∷ []) ++ rest ≡ calls past ++ call ∷ rest
unfolding calls
calls_snoc [] call failed rest = refl
calls_snoc ((c, f) ∷ past) call failed rest = ap (λ l. c ∷ l) (calls_snoc past call failed rest)

-- The deferred calls, where `main` has returned.
abbrev ending : Program → Main → List Event
ending p returned = map called p.deferred
ending p _ = []

record Inv (p : Program) (s : Process) : Type 0 where
  past : List (Call × Bool)
  in_order : calls past ++ s.todo ≡ p.todo
  kept : s.log ≡ logged p.forces past ++ ending p s.main
  -- The channel is closed last, and `main` waits for it.
  last : s.done ≡ true → (s.todo ≡ []) × (s.signalled ≡ true)
  waits : s.main ≡ returned → s.done ≡ true

live-ending : (p : Program) (m : Main) → live m ≡ true → ending p m ≡ []
unfolding live
live-ending p serving h = refl
live-ending p waiting h = refl
live-ending p returned h = absurd (ground arith)
live-ending p fatal h = refl

live_unreturned : (m : Main) → live m ≡ true → m ≡ returned → ⊥
unfolding live
live_unreturned m h e = ground (arith, h, e)

acted-Inv :
    (p : Program) (s : Process) (call : Call) (rest : List Call) (failed : Bool)
    → live s.main ≡ true
    → s.todo ≡ call ∷ rest
    → Inv p s
    → Inv p (acted p call rest failed s)
unfolding acted
acted-Inv p s call rest failed l e v =
    let open_log : ending p s.main ≡ [] = live-ending p s.main l in
    let same : s.log ≡ logged p.forces v.past = simp (v.kept, open_log, append-nil) in
    record {
      past = v.past ++ (call, failed) ∷ [];
      in_order = rw (calls_snoc v.past call failed rest) (rw e at v.in_order);
      kept =
          rw (logged_snoc p.forces v.past call failed, open_log, same)
            (sym (append-nil (logged p.forces v.past ++ events p.forces call failed)));
      last = λ d. let (t, g) = v.last d in cc;
      waits = v.waits;
    }

step-Inv : (p : Program) (s next : Process) → Step p s next → Inv p s → Inv p next
step-Inv p _ _ (signals s l e) v = record {
  past = v.past;
  in_order = v.in_order;
  kept = v.kept;
  last = λ d. ((v.last d).0, refl);
  waits = v.waits;
}
step-Inv p _ _ (acts s call rest failed l g e) v = acted-Inv p s call rest failed l e v
step-Inv p _ _ (announces s l g e d) v = record {
  past = v.past;
  in_order = v.in_order;
  kept = v.kept;
  last = λ k. (e, g);
  waits = λ k. refl;
}
step-Inv p _ _ (fails s e c) v = record {
  past = v.past;
  in_order = v.in_order;
  kept = rw e at v.kept;
  last = v.last;
  waits = λ k. cc;
}
step-Inv p _ _ (closes s e c) v = record {
  past = v.past;
  in_order = v.in_order;
  kept = rw e at v.kept;
  last = v.last;
  waits = λ k. cc;
}
step-Inv p _ _ (returns s e d) v =
    let same : s.log ≡ logged p.forces v.past = simp (v.kept, e, append-nil) in
    record {
      past = v.past;
      in_order = v.in_order;
      kept = rw same refl;
      last = v.last;
      waits = λ k. d;
    }

begin-Inv : (p : Program) (created : Bool) → Inv p (begin p created)
unfolding begin calls logged
begin-Inv p true = record {
  past = [];
  in_order = refl;
  kept = refl;
  last = λ d. cc;
  waits = λ k. cc;
}
begin-Inv p false = record {
  past = [];
  in_order = refl;
  kept = refl;
  last = λ d. cc;
  waits = λ k. cc;
}

Reach-Inv : (p : Program) (s : Process) → Reach p s → Inv p s
Reach-Inv p _ (here created) = begin-Inv p created
Reach-Inv p _ (there s next r step) = step-Inv p s next step (Reach-Inv p s r)

abbrev Finished : Program → Process → Type 0
Finished p s =
    (s.signalled ≡ true)
    × ((past : List (Call × Bool)) × (calls past ≡ p.todo)
        × (s.log ≡ logged p.forces past ++ map called p.deferred))

finished : (p : Program) (s : Process) → s.main ≡ returned → Inv p s → Finished p s
finished p s e v =
    let (t, g) = v.last (v.waits e) in
    let all_made : calls v.past ≡ p.todo = sym (append-nil (calls v.past)) ∙ (rw t at v.in_order) in
    (g, (v.past, all_made, rw e at v.kept))

-- A command ends without log.Fatal only after a signal, and only when its goroutine has made every one
-- of its calls, each once, in order, and each with what follows on its error; the deferred calls come
-- last.
pub returned_in_order :
    (p : Program) (s : Process)
    → Reach p s
    → s.main ≡ returned
    → (s.signalled ≡ true)
      × ((past : List (Call × Bool)) × (calls past ≡ p.todo)
          × (s.log ≡ logged p.forces past ++ map called p.deferred))
returned_in_order p s r e = finished p s e (Reach-Inv p s r)
