-- ===== src/Terminal/Shell.antt =====
-- A session of internal/terminal/terminal.go, from the start of its shell on: the rest of `ServeHTTP`
-- with its three goroutines. What the PTY, the WebSocket and the system calls answer are arguments; a
-- write that fails counts as not done.
pub mod Held
pub mod Bounds
pub mod Ending
use zth_sre.Prelude.{
  ℕ, ◌*◌, ◌^◌, ◌-◌, String, Bool, true, false, ◌||◌, not, Option, none, some, List, [], ◌∷◌, ◌++◌,
  if◌then◌else◌, ◌==◌, String_eq, leb, ◌≡◌,
}
use zth_sre.Terminal.{Message, Frame, decode_message, winsize}

-- The shell's process: not started, running, over by itself, killed, or waited for.
pub data Process : Type 0 where
  unborn running exited killed waited : Process

-- `ServeHTTP` before `<-ctx.Done()`, between there and the end of `workers.Wait()`, and after its
-- deferred calls.
pub data Stage : Type 0 where
  serving stopping ended : Stage

-- The close frames that are written.
pub data Closing : Type 0 where
  internal_error policy_violation : Closing

pub record Shell : Type 0 where
  pub stage : Stage
  pub process : Process
  -- The PTY's descriptor and the connection are open.
  pub master : Bool
  pub conn : Bool
  -- `ctx` is done.
  pub cancelled : Bool
  -- The goroutines that copy the output and the input, and the one that watches the activity.
  pub output : Bool
  pub input : Bool
  pub watcher : Bool
  -- Nanoseconds.
  pub last_activity : ℕ
  -- What was written to the PTY, the sizes that were set, and what was written to the connection.
  pub typed : List String
  pub sizes : List (ℕ × ℕ)
  pub shown : List String
  pub closings : List Closing

-- `IdleTimeout`, 15 minutes.
unfoldable pub idle_timeout : ℕ
idle_timeout = 15 * 60 * 10 ^ 9

-- Whether pty.StartWithSize, Dup with SetNonblock, and the first write succeed, and the time.
pub record Opening : Type 0 where
  pub started : Bool
  pub nonblocking : Bool
  pub greeted : Bool
  pub now : ℕ

abbrev pub over : Process → List Closing → Shell
over process closings = record {
  stage = ended;
  process = process;
  master = false;
  conn = false;
  cancelled = true;
  output = false;
  input = false;
  watcher = false;
  last_activity = 0;
  typed = [];
  sizes = [];
  shown = [];
  closings = closings;
}

-- From the start of the shell to that of the goroutines.
unfoldable pub open_shell : Opening → Shell
open_shell o =
    if not o.started
    then over unborn (internal_error ∷ [])
    else if not o.nonblocking || not o.greeted
    then over waited []
    else record {
      stage = serving;
      process = running;
      master = true;
      conn = true;
      cancelled = false;
      output = true;
      input = true;
      watcher = true;
      last_activity = o.now;
      typed = "set +m\n" ∷ [];
      sizes = (24, 80) ∷ [];
      shown = [];
      closings = [];
    }

-- The deferred calls of the first two goroutines.
abbrev pub end_output : Shell → Shell
end_output s = record s { output = false; cancelled = true }

abbrev pub end_input : Shell → Shell
end_input s = record s { input = false; cancelled = true }

-- What a Read of the PTY gives: the bytes, and whether it fails; and whether they can be sent.
pub record Chunk : Type 0 where
  pub bytes : String
  pub failed : Bool
  pub sent : Bool

-- A round of the first goroutine.
pub copy_output : ℕ → Chunk → Shell → Shell
copy_output now r s =
    if r.bytes == ""
    then (if r.failed then end_output s else s)
    else if not r.sent
    then end_output (record s { last_activity = now })
    else let s1 = record s { last_activity = now; shown = s.shown ++ r.bytes ∷ [] } in
      if r.failed then end_output s1 else s1

-- The part of a round of the second goroutine after `decodeMessage`; `done` is whether the resize or
-- the write succeeds.
apply_message : ℕ → Bool → Option Message → Shell → Shell
unfolding winsize
apply_message now done none s =
    end_input (record s { closings = s.closings ++ policy_violation ∷ [] })
apply_message now done (some m) s =
    if not done
    then end_input (record s { last_activity = now })
    else if m.kind == "resize"
    then record s { last_activity = now; sizes = s.sizes ++ winsize m ∷ [] }
    else record s { last_activity = now; typed = s.typed ++ m.content ∷ [] }

-- A round of the second goroutine, with what `ReadMessage` gives, none for an error.
unfoldable pub copy_input : ℕ → Bool → Option Frame → Shell → Shell
unfolding apply_message
copy_input now done none s = end_input s
copy_input now done (some f) s = apply_message now done (decode_message f) s

-- A tick of the third goroutine.
unfoldable pub watch : ℕ → Shell → Shell
unfolding idle_timeout
watch now s =
    if leb idle_timeout (now - s.last_activity)
    then record s { cancelled = true; watcher = false }
    else s

-- The lines after `<-ctx.Done()`. A process that is over already is not there to be killed, and both are
-- still to be waited for.
unfoldable pub tear_down : Shell → Shell
tear_down s = record s { stage = stopping; conn = false; master = false; process = killed }

-- `workers.Wait()` is over: the deferred calls.
pub finish : Shell → Shell
finish s = record s { stage = ended; process = waited }

-- A goroutine makes its next move, the context is cancelled, the agent is closed, or the shell ends. A Read of a closed descriptor, and a
-- ReadMessage and a WriteMessage of a closed connection, fail.
pub data Step : Shell → Shell → Type 0 where
  outputs :
      (s : Shell) (now : ℕ) (r : Chunk)
      → s.output ≡ true
      → (s.master ≡ false → (r.bytes ≡ "") × (r.failed ≡ true))
      → (s.conn ≡ false → r.sent ≡ false)
      → Step s (copy_output now r s)
  inputs :
      (s : Shell) (now : ℕ) (done : Bool) (f : Option Frame)
      → s.input ≡ true
      → (s.conn ≡ false → f ≡ none)
      → Step s (copy_input now done f s)
  ticks : (s : Shell) (now : ℕ) → s.watcher ≡ true → Step s (watch now s)
  -- The third goroutine sees that the context is done.
  leaves :
      (s : Shell) → s.watcher ≡ true → s.cancelled ≡ true → Step s (record s { watcher = false })
  -- The end of the lifetime, or of the request.
  cancels : (s : Shell) → Step s (record s { cancelled = true })
  -- `Agent.Close`, for a session that is still in the map.
  closes : (s : Shell) → Step s (record s { cancelled = true; conn = false })
  exits : (s : Shell) → s.process ≡ running → Step s (record s { process = exited })
  tears_down : (s : Shell) → s.stage ≡ serving → s.cancelled ≡ true → Step s (tear_down s)
  finishes :
      (s : Shell)
      → s.stage ≡ stopping
      → s.output ≡ false
      → s.input ≡ false
      → s.watcher ≡ false
      → Step s (finish s)

pub data Reach : Shell → Type 0 where
  here : (o : Opening) → Reach (open_shell o)
  there : (s next : Shell) → Reach s → Step s next → Reach next
