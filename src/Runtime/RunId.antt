-- ===== src/Runtime/RunId.antt =====
-- `newRunID` of internal/server/runtime.go.
use Prim.Native.String.{◌++◌}
use zth_sre.Prelude.{
  ℕ, suc, Bool, ◌&&◌, ◌==◌, ◌*◌, ◌≤◌, ◌≡◌, refl, ◌/◌, ◌%◌, String, true, Option, none, some, List,
  [], ◌∷◌, eq_iff, Bool-cases, inl, inr, ap, false, String_eq, ℕ_eq, length, length-append, arith,
  zero, ◌<◌,
}
use zth_sre.Prelude.Text.{codes, all, all-append, codes-append, word_first, word_rest, matches}
use zth_sre.Traffic.{valid_run_id}
use zth_sre.Demo.Setup.{request_run_id}

-- The digits of `hex.EncodeToString`.
abbrev digits : List String
digits =
    "0" ∷ "1" ∷ "2" ∷ "3" ∷ "4" ∷ "5" ∷ "6" ∷ "7" ∷ "8" ∷ "9" ∷ "a" ∷ "b" ∷ "c" ∷ "d" ∷ "e" ∷ "f"
    ∷ []

entry : List String → ℕ → String
entry [] n = ""
entry (s ∷ rest) zero = s
entry (s ∷ rest) (suc n) = entry rest n

-- A byte is a number modulo 256.
unfoldable pub hex : List ℕ → String
unfolding entry
hex [] = ""
hex (byte ∷ bytes) = entry digits (byte / 16 % 16) ++ (entry digits (byte % 16) ++ hex bytes)

-- `newRunID`, with the bytes that crypto/rand gives, none for an error.
unfoldable pub new_run_id : Option (List ℕ) → String
unfolding hex
new_run_id none = "run-local"
new_run_id (some bytes) = "run-" ++ hex bytes

-- One character that the pattern of the traffic controller has.
abbrev is_digit : String → Bool
is_digit s = all word_rest (codes s) && length (codes s) == 1

record Word (s : String) : Type 0 where
  word : all word_rest (codes s) ≡ true
  one : length (codes s) ≡ 1

entry-Word :
    (table : List String) (n : ℕ)
    → all is_digit table ≡ true
    → n < length table
    → Word (entry table n)
unfolding entry
entry-Word [] n v h = absurd (omega arith)
entry-Word (s ∷ rest) zero v h = record { word = ground arith; one = ground arith }
entry-Word (s ∷ rest) (suc n) v h = entry-Word rest n (ground arith) (omega arith)

digit-Word : (n : ℕ) → n < 16 → Word (entry digits n)
digit-Word n h = entry-Word digits n refl h

hex_word : (bytes : List ℕ) → all word_rest (codes (hex bytes)) ≡ true
unfolding hex
hex_word [] = refl
hex_word (byte ∷ bytes) =
    let high = digit-Word (byte / 16 % 16) (omega arith) in
    let low = digit-Word (byte % 16) (omega arith) in
    rw (codes-append, codes-append, all-append, all-append, high.word, low.word) (hex_word bytes)

length-hex : (bytes : List ℕ) → length (codes (hex bytes)) ≡ 2 * length bytes
unfolding hex
length-hex [] = refl
length-hex (byte ∷ bytes) =
    let high = digit-Word (byte / 16 % 16) (omega arith) in
    let low = digit-Word (byte % 16) (omega arith) in
    rw (codes-append, codes-append)
      (omega (arith, length-append {0}, high.one, low.one, length-hex bytes))

named : (rest : String) → ("run-" ++ rest == "") ≡ false
named rest = elim (Bool-cases ("run-" ++ rest == "")) [
  | inr e ↦ e
  | inl e ↦
      let none_left : codes ("run-" ++ rest) ≡ [] = ap codes ((eq_iff ("run-" ++ rest) "").0 e) in
      absurd (let k = rw codes-append at none_left in cc)
]

-- The ids of runs that `newRunID` draws, and the one that it falls back to, fit the pattern that the
-- traffic controller checks, and the demo services count the requests of k6 under just these, where at
-- most 14 bytes were read; the code reads 8.
pub new_run_id-valid :
    (bytes : List ℕ)
    → length bytes ≤ 14
    → (valid_run_id (new_run_id (some bytes)) ≡ true)
      × (valid_run_id (new_run_id none) ≡ true)
      × (request_run_id (new_run_id (some bytes)) ≡ new_run_id (some bytes))
      × (request_run_id (new_run_id none) ≡ new_run_id none)
unfolding new_run_id valid_run_id request_run_id
new_run_id-valid bytes h =
    let fits : (limit : ℕ)
        → 31 ≤ limit
        → matches word_first word_rest limit (codes ("run-" ++ hex bytes)) ≡ true =
      λ limit l. rw (codes-append) (ground (arith, hex_word bytes, length-hex bytes)) in
    (fits 63 (omega arith), refl, rw (fits 31 (omega arith)) (rw (named (hex bytes)) refl), refl)
