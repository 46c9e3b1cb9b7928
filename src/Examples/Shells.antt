-- ===== src/Examples/Shells.antt =====
-- Sessions of a terminal from the start of their shell on.
use zth_sre.Prelude.{◌≡◌, ◌≤◌, ◌⊎◌, refl, String_eq, true, some, [], ◌∷◌, arith}
use zth_sre.Prelude.Int.{pos}
use zth_sre.Terminal.{Frame, decode_message, refused, winsize}
use zth_sre.Terminal.Shell.{
  Shell, Opening, open_shell, copy_input, watch, tear_down, idle_timeout, inputs, cancels,
  tears_down, Reach, here, there, ended, stopping,
}
use zth_sre.Terminal.Shell.Held.{AtStage, Reach-AtStage}
use zth_sre.Terminal.Shell.Bounds.{Within, Reach-Within}
use zth_sre.Terminal.Shell.Ending.{Alone, looks, stops, Run, stop, go, idle_ends}

abbrev opening : Opening
opening = record { started = true; nonblocking = true; greeted = true; now = 100 }

abbrev resizing : Frame
resizing = record {
  is_text = true;
  size = 40;
  json = record {
    value = some (record { kind = "resize"; content = ""; cols = pos 120; rows = pos 40 });
    at_end = true;
  };
}

abbrev first : Shell
first = open_shell opening

abbrev resized : Shell
resized = copy_input 200 true (some resizing) first

resized-Reach : Reach resized
unfolding open_shell
resized-Reach =
    there first resized (here opening) (inputs first 200 true (some resizing) refl (λ c. cc))

resized_test : resized.sizes ≡ (24, 80) ∷ (40, 120) ∷ []
unfolding open_shell copy_input decode_message refused winsize
resized_test = refl

Reach-Within_example : Within resized
Reach-Within_example = Reach-Within resized resized-Reach

abbrev cancelled : Shell
cancelled = record first { cancelled = true }

abbrev torn : Shell
torn = tear_down cancelled

torn-Reach : Reach torn
unfolding open_shell
torn-Reach =
    there cancelled torn (there first cancelled (here opening) (cancels first))
      (tears_down cancelled refl refl)

Reach-AtStage_example : AtStage stopping torn
unfolding tear_down
Reach-AtStage_example = Reach-AtStage torn torn-Reach

abbrev noticed : Shell
noticed = watch 900000000100 first

abbrev dropped : Shell
dropped = tear_down noticed

-- The watcher finds 15 minutes over, and the session is torn down.
dropping : Run 900000000100 2 first dropped
unfolding open_shell watch idle_timeout
dropping =
    go 1 first noticed dropped (looks first 900000000100 (omega arith) refl)
      (go 0 noticed dropped dropped (stops noticed refl refl) (stop dropped))

idle_ends_example :
    (2 ≤ 5) × ((dropped.stage ≡ ended) ⊎ ((next : Shell) × Alone 900000000100 dropped next))
unfolding open_shell idle_timeout
idle_ends_example = idle_ends 900000000100 2 first dropped (here opening) (omega arith) dropping
