-- ===== src/Terminal/Messages.antt =====
-- Which messages are accepted, and what is set by them.
use zth_sre.Prelude.{
  ℕ, ◌≤◌, ◌<◌, ◌≡◌, refl, ◌↔◌, ◌⊎◌, inl, inr, String, len, Bool, true, false, ◌||◌, not, Option,
  none, some, ◌==◌, String_eq, ℕ_eq, ltb, arith, eq_iff, Bool-cases, ◌%◌, ◌^◌,
}
use mathlib.Core.Path.{subst}
use zth_sre.Prelude.Int.{ℤ, pos, negsuc, ℤ_eq, out_of_range}
use zth_sre.Terminal.{
  Message, Frame, refused, found, decode_message, uint16, winsize, max_input_bytes,
  max_message_bytes, max_cols, max_rows,
}

-- In 1..limit.
abbrev pub Between : ℕ → ℤ → Type 0
Between limit (pos n) = (0 < n) × (n ≤ limit)
Between limit (negsuc n) = ⊥

-- An input without a geometry, or a geometry without an input.
abbrev pub Proper : Message → Type 0
Proper m =
    ((m.kind ≡ "input") × (len m.content ≤ max_input_bytes) × (m.cols ≡ pos 0) × (m.rows ≡ pos 0))
    ⊎ ((m.kind ≡ "resize") × Between max_cols m.cols × Between max_rows m.rows × (m.content ≡ ""))

beyond_iff : (limit : ℕ) (n : ℤ) → ((n == pos 0 || out_of_range limit n) ≡ false) ↔ Between limit n
beyond_iff limit (pos n) = (λ h. ground (arith, h), λ h. ground (arith, h))
beyond_iff limit (negsuc n) = (λ h. ground (arith, h), λ h. ground (arith, h))

input_iff :
    (n : ℕ) (cols rows : ℤ)
    → ((ltb max_input_bytes n || not (cols == pos 0) || not (rows == pos 0)) ≡ false)
      ↔ ((n ≤ max_input_bytes) × (cols ≡ pos 0) × (rows ≡ pos 0))
input_iff n cols rows =
    let c = ℤ_eq.same_iff cols (pos 0) in
    let r = ℤ_eq.same_iff rows (pos 0) in
    (λ h. ground (arith, h, c, r), λ h. ground (arith, h, c, r))

resize_iff :
    (cols rows : ℤ) (text : String)
    → ((cols == pos 0
          || out_of_range max_cols cols
          || (rows == pos 0 || out_of_range max_rows rows)
          || not (text == ""))
        ≡ false)
      ↔ (Between max_cols cols × Between max_rows rows × (text ≡ ""))
resize_iff cols rows text =
    let c = beyond_iff max_cols cols in
    let r = beyond_iff max_rows rows in
    let t = eq_iff text "" in
    (
      λ h. (c.0 (ground (arith, h)), r.0 (ground (arith, h)), t.0 (ground (arith, h))),
      λ (a, b, e). let a1 = c.1 a in let b1 = r.1 b in let e1 = t.1 e in ground (arith, a1, b1, e1),
    )

differ : (x a b : String) → (a == b) ≡ false → x ≡ a → x ≡ b → ⊥
differ x a b h e f = let k = eq_iff a b in let q : a ≡ b = cc in absurd (ground (arith, h, k, q))

refused_iff : (m : Message) → (refused m ≡ false) ↔ Proper m
unfolding refused
refused_iff m = elim (Bool-cases (m.kind == "input")) [
  | inl e ↦
      let p : m.kind ≡ "input" = (eq_iff m.kind "input").0 e in
      let meaning = input_iff (len m.content) m.cols m.rows in
      (
        λ h. let (n, c, r) = meaning.0 (rw e at h) in inl (p, n, c, r),
        λ h. elim h [
          | inl (q, n, c, r) ↦ rw e (meaning.1 (n, c, r))
          | inr x ↦ absurd (differ m.kind "input" "resize" refl p x.0)
        ],
      )
  | inr e1 ↦ elim (Bool-cases (m.kind == "resize")) [
    | inl e ↦
        let p : m.kind ≡ "resize" = (eq_iff m.kind "resize").0 e in
        let meaning = resize_iff m.cols m.rows m.content in
        (
          λ h. let (c, r, t) = meaning.0 (rw (e1, e) at h) in inr (p, c, r, t),
          λ h. elim h [
            | inl x ↦ absurd (differ m.kind "resize" "input" refl p x.0)
            | inr (q, c, r, t) ↦ rw (e1, e) (meaning.1 (c, r, t))
          ],
        )
    | inr e2 ↦ (
      λ h. let k : true ≡ false = rw (e1, e2) at h in cc,
      λ h.
          let a = eq_iff m.kind "input" in
          let b = eq_iff m.kind "resize" in
          elim h [
            | inl x ↦ let q = x.0 in absurd (ground (arith, e1, a, q))
            | inr x ↦ let q = x.0 in absurd (ground (arith, e2, b, q))
          ],
    )
  ]
]

found_iff :
    (o : Option Message) (at_end : Bool) (m : Message)
    → (found o at_end ≡ some m) ↔ ((o ≡ some m) × (at_end ≡ true) × Proper m)
unfolding found
found_iff none at_end m = (λ h. cc, λ (h, k, v). cc)
found_iff (some x) false m = (λ h. cc, λ (h, k, v). cc)
found_iff (some x) true m = elim (Bool-cases (refused x)) [
  | inl bad ↦ (
    λ h. let k : none ≡ some m = rw bad at h in cc,
    λ (q, e, v).
        let p : m ≡ x = cc in
        let k = (refused_iff x).1 (subst (λ y. Proper y) p v) in absurd (ground (arith, bad, k)),
  )
  | inr good ↦ (
    λ h.
        let q : some x ≡ some m = rw good at h in
        let p : x ≡ m = cc in (q, refl, subst (λ y. Proper y) p ((refused_iff x).0 good)),
    λ (q, e, v). rw good q,
  )
]

-- A message is accepted exactly if it came as a text of at most 128 KiB that holds it and nothing more,
-- and it is either an input of at most 16 KiB without a geometry, or a resize to 1..500 columns and
-- 1..200 rows without an input.
pub decode_message_lem :
    (f : Frame) (m : Message)
    → (decode_message f ≡ some m) ↔ (
        (f.is_text ≡ true)
        × (f.size ≤ max_message_bytes)
        × (f.json.value ≡ some m)
        × (f.json.at_end ≡ true)
        × Proper m)
unfolding decode_message
decode_message_lem f m =
    let meaning = found_iff f.json.value f.json.at_end m in
    elim (Bool-cases (not f.is_text || ltb max_message_bytes f.size)) [
      | inl bad ↦ (
        λ h. let k : none ≡ some m = rw bad at h in cc,
        λ (t, n, v, e, p). absurd (ground (arith, bad, t, n)),
      )
      | inr good ↦ (
        λ h.
            let (v, e, p) = meaning.0 (rw good at h) in
            (ground (arith, good), ground (arith, good), v, e, p),
        λ (t, n, v, e, p). rw good (meaning.1 (v, e, p)),
      )
    ]

uint16_small :
    (limit : ℕ) (n : ℤ) → limit < 2 ^ 16 → (n ≡ pos 0) ⊎ Between limit n → pos (uint16 n) ≡ n
unfolding uint16
uint16_small limit (pos n) h (inl e) = let k : n % 2 ^ 16 ≡ n = ground (arith, e) in rw k refl
uint16_small limit (pos n) h (inr v) = let k : n % 2 ^ 16 ≡ n = omega (arith, v.1) in rw k refl
uint16_small limit (negsuc n) h (inl e) = cc
uint16_small limit (negsuc n) h (inr v) = absurd v

-- The geometry of an accepted message fits uint16: `resize` sets exactly its rows and columns.
pub winsize_lem :
    (f : Frame) (m : Message)
    → decode_message f ≡ some m
    → (pos (winsize m).0 ≡ m.rows) × (pos (winsize m).1 ≡ m.cols)
unfolding winsize
winsize_lem f m h =
    let (t, n, v, e, p) = (decode_message_lem f m).0 h in
    elim p [
      | inl (k, size, c, r) ↦ (
        uint16_small max_rows m.rows (omega arith) (inl r),
        uint16_small max_cols m.cols (omega arith) (inl c),
      )
      | inr (k, c, r, empty) ↦ (
        uint16_small max_rows m.rows (omega arith) (inr r),
        uint16_small max_cols m.cols (omega arith) (inr c),
      )
    ]
