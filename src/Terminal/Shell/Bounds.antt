-- ===== src/Terminal/Shell/Bounds.antt =====
-- What reaches the shell.
use zth_sre.Prelude.{
  ℕ, ◌<◌, ◌≤◌, ◌≡◌, refl, sym, inl, inr, String, len, Bool, true, false, ◌||◌, not, Option, none,
  some, [], ◌∷◌, ◌==◌, String_eq, arith, eq_iff, All, All-append, Bool-cases,
}
use mathlib.Core.Path.{subst}
use zth_sre.Prelude.Int.{pos}
use zth_sre.Terminal.{Message, Frame, decode_message, winsize, max_input_bytes, max_rows, max_cols}
use zth_sre.Terminal.Messages.{Between, decode_message_lem, winsize_lem}
use zth_sre.Terminal.Shell.{
  Shell, Opening, open_shell, Chunk, copy_output, apply_message, copy_input, watch, tear_down,
  finish, Step, outputs, inputs, ticks, leaves, cancels, closes, exits, tears_down, finishes, Reach,
  here, there,
}

abbrev pub Sized : ℕ × ℕ → Type 0
Sized (rows, cols) = (0 < rows) × (rows ≤ max_rows) × (0 < cols) × (cols ≤ max_cols)

abbrev pub Short : String → Type 0
Short text = len text ≤ max_input_bytes

-- Every text that was written to the PTY is of at most 16 KiB, and every size that was set is one of
-- 1..200 rows and 1..500 columns.
pub record Within (s : Shell) : Type 0 where
  pub typed : All Short s.typed
  pub sizes : All Sized s.sizes

open_shell-Within : (o : Opening) → Within (open_shell o)
unfolding open_shell
open_shell-Within o = elim (Bool-cases o.started) [
  | inr bad ↦ rw bad (record { typed = tt; sizes = tt })
  | inl ok ↦ elim (Bool-cases (not o.nonblocking || not o.greeted)) [
    | inl bad ↦ rw (ok, bad) (record { typed = tt; sizes = tt })
    | inr good ↦ rw (ok, good) (record { typed = (omega arith, tt); sizes = (omega arith, tt) })
  ]
]

copy_output-Within : (s : Shell) (now : ℕ) (r : Chunk) → Within s → Within (copy_output now r s)
unfolding copy_output
copy_output-Within s now r v =
    let same : (copy_output now r s).typed ≡ s.typed = ground arith in
    let as_before : (copy_output now r s).sizes ≡ s.sizes = ground arith in
    record { typed = rw same v.typed; sizes = rw as_before v.sizes }

differs : (kind : String) → kind ≡ "input" → kind ≡ "resize" → ⊥
differs kind a b =
    let input : String = "input" in
    let resize : String = "resize" in
    let k : (input == resize) ≡ true = (eq_iff input resize).1 (cc) in cc

-- What decoding leaves of a message of a kind.
decoded_size :
    (f : Frame) (m : Message)
    → decode_message f ≡ some m
    → (m.kind == "resize") ≡ true
    → Sized (winsize m)
decoded_size f m h k =
    let (t, n, v, e, proper) = (decode_message_lem f m).0 h in
    let (rows, cols) = winsize_lem f m h in
    elim proper [
      | inl (q, size, c, r) ↦ absurd (differs m.kind q ((eq_iff m.kind "resize").0 k))
      | inr (q, c, r, empty) ↦
          let c1 : Between max_cols (pos (winsize m).1) =
            subst (λ x. Between max_cols x) (sym cols) c in
          let r1 : Between max_rows (pos (winsize m).0) =
            subst (λ x. Between max_rows x) (sym rows) r in
          (r1.0, r1.1, c1.0, c1.1)
    ]

decoded_input :
    (f : Frame) (m : Message)
    → decode_message f ≡ some m
    → (m.kind == "resize") ≡ false
    → len m.content ≤ max_input_bytes
decoded_input f m h k =
    let (t, n, v, e, proper) = (decode_message_lem f m).0 h in
    elim proper [
      | inl (q, size, c, r) ↦ size
      | inr (q, c, r, empty) ↦ let x = (eq_iff m.kind "resize").1 q in absurd (ground (arith, x, k))
    ]

apply_message-Within :
    (f : Frame) (s : Shell) (now : ℕ) (done : Bool) (m : Option Message)
    → decode_message f ≡ m
    → Within s
    → Within (apply_message now done m s)
unfolding apply_message
apply_message-Within f s now done none e v = record { typed = v.typed; sizes = v.sizes }
apply_message-Within f s now false (some m) e v = record { typed = v.typed; sizes = v.sizes }
apply_message-Within f s now true (some m) e v = elim (Bool-cases (m.kind == "resize")) [
  | inl k ↦ rw k (record {
    typed = v.typed;
    sizes = All-append Sized s.sizes (winsize m ∷ []) v.sizes (decoded_size f m e k, tt);
  })
  | inr k ↦ rw k (record {
    typed = All-append Short s.typed (m.content ∷ []) v.typed (decoded_input f m e k, tt);
    sizes = v.sizes;
  })
]

watch-Within : (s : Shell) (now : ℕ) → Within s → Within (watch now s)
unfolding watch
watch-Within s now v =
    let same : (watch now s).typed ≡ s.typed = ground arith in
    let as_before : (watch now s).sizes ≡ s.sizes = ground arith in
    record { typed = rw same v.typed; sizes = rw as_before v.sizes }

step-Within : (s next : Shell) → Step s next → Within s → Within next
unfolding tear_down finish copy_input
step-Within _ _ (outputs s now r runs law unsent) v = copy_output-Within s now r v
step-Within _ _ (inputs s now done none runs law) v = record { typed = v.typed; sizes = v.sizes }
step-Within _ _ (inputs s now done (some f) runs law) v =
    apply_message-Within f s now done (decode_message f) refl v
step-Within _ _ (ticks s now runs) v = watch-Within s now v
step-Within _ _ (leaves s runs c) v = record { typed = v.typed; sizes = v.sizes }
step-Within _ _ (cancels s) v = record { typed = v.typed; sizes = v.sizes }
step-Within _ _ (closes s) v = record { typed = v.typed; sizes = v.sizes }
step-Within _ _ (exits s p) v = record { typed = v.typed; sizes = v.sizes }
step-Within _ _ (tears_down s e c) v = record { typed = v.typed; sizes = v.sizes }
step-Within _ _ (finishes s e a b c) v = record { typed = v.typed; sizes = v.sizes }

-- Whatever a client sends, and in any order of the moves of the goroutines: no text of more than 16 KiB
-- is written to the PTY at once, and every size that is set has 1..200 rows and 1..500 columns.
pub Reach-Within : (s : Shell) → Reach s → Within s
Reach-Within _ (here o) = open_shell-Within o
Reach-Within _ (there s next r st) = step-Within s next st (Reach-Within s r)
