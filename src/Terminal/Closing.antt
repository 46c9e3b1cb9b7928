-- ===== src/Terminal/Closing.antt =====
-- After `Close` the handlers come to their end, so that its wait is over.
use zth_sre.Prelude.{
  ℕ, zero, suc, ◌+◌, ◌*◌, ◌≤◌, ◌<◌, ◌≡◌, refl, ◌⊎◌, inl, inr, String, true, List, [], ◌∷◌, ◌++◌,
  length, arith, elem, ℕ_eq, All,
}
use zth_sre.Terminal.{unregister, release, close}
use zth_sre.Terminal.Sessions.{
  World, Step, enters, gives_up, registers, ends, leaves, closes, Reach, Inv, step-Inv,
  Reach-Bounded, serve_http-LetIn, register-open, length-without,
}

-- The critical sections that the handlers in between still have to come through, at most.
pub pending : World → ℕ
pending w = 3 * w.upgrading + (2 * length w.agent.sessions + w.leaving)

ℕ-cases : (n : ℕ) → (n ≡ 0) ⊎ ((k : ℕ) × (n ≡ k + 1))
ℕ-cases zero = inl refl
ℕ-cases (suc k) = inr (k, omega arith)

List-cases : (xs : List ℕ) → (xs ≡ []) ⊎ ((x : ℕ) × ((rest : List ℕ) × (xs ≡ x ∷ rest)))
List-cases [] = inl refl
List-cases (x ∷ rest) = inr (x, (rest, refl))

module _ (allowed : List String) where
  -- Each step of a closed agent is another call of `Close`, or leaves fewer sections to come.
  pub closed-Step :
      (w next : World)
      → Step allowed w next
      → w.agent.closed ≡ true
      → (next.agent.closed ≡ true)
        × ((pending next < pending w)
            ⊎ ((next.upgrading ≡ w.upgrading)
                × (next.agent.sessions ≡ w.agent.sessions)
                × (next.leaving ≡ w.leaving)))
  unfolding pending release unregister close
  closed-Step _ _ (enters w path method origins h) c =
      let (opened, room, e) = serve_http-LetIn allowed path method origins w.agent h in
      absurd (ground (arith, opened, c))
  closed-Step _ _ (gives_up w rest e) c = (c, inl (omega (arith, e)))
  closed-Step _ _ (registers w rest session a e r) c =
      let (opened, q) = register-open session w.agent a r in absurd (ground (arith, opened, c))
  closed-Step _ _ (ends w front back session e) c =
      let n = length-without front back session in
      let m : length w.agent.sessions ≡ length (front ++ session ∷ back) = rw e refl in
      (c, inl (omega (arith, n, m)))
  closed-Step _ _ (leaves w rest e) c = (c, inl (omega (arith, e)))
  closed-Step _ _ (closes w) c = (refl, inr (refl, refl, refl))

  -- What the handlers of a closed agent do by themselves: an upgrade is given up, a session ends whose
  -- context was cancelled, and a handler comes to its last critical section. No client has to go.
  pub data Forced : World → World → Type 0 where
    refuses :
        (w : World) (rest : ℕ)
        → w.upgrading ≡ rest + 1
        → Forced w (record w { agent = release w.agent; upgrading = rest })
    interrupts :
        (w : World) (front back : List ℕ) (session : ℕ)
        → w.agent.sessions ≡ front ++ session ∷ back
        → elem session w.cancelled ≡ true
        → Forced w (record w { agent = unregister front back w.agent; leaving = w.leaving + 1 })
    departs :
        (w : World) (rest : ℕ)
        → w.leaving ≡ rest + 1
        → Forced w (record w { agent = release w.agent; leaving = rest })

  Forced-Step : (w next : World) → Forced w next → Step allowed w next
  Forced-Step _ _ (refuses w rest e) = gives_up w rest e
  Forced-Step _ _ (interrupts w front back session e c) = ends w front back session e
  Forced-Step _ _ (departs w rest e) = leaves w rest e

  -- A number of such moves.
  pub data Run : ℕ → World → World → Type 0 where
    stop : (w : World) → Run 0 w w
    go : (n : ℕ) (w next last : World) → Forced w next → Run n next last → Run (suc n) w last

  decreases : (w next : World) → Forced w next → pending next < pending w
  unfolding pending release unregister
  decreases _ _ (refuses w rest e) = omega (arith, e)
  decreases _ _ (interrupts w front back session e c) =
      let n = length-without front back session in
      let m : length w.agent.sessions ≡ length (front ++ session ∷ back) = rw e refl in
      omega (arith, n, m)
  decreases _ _ (departs w rest e) = omega (arith, e)

  stays_closed : (w next : World) → Forced w next → w.agent.closed ≡ true → next.agent.closed ≡ true
  unfolding release unregister
  stays_closed _ _ (refuses w rest e) c = c
  stays_closed _ _ (interrupts w front back session e k) c = c
  stays_closed _ _ (departs w rest e) c = c

  -- The first session of a closed agent was cancelled.
  first_cancelled :
      (w : World) (session : ℕ) (rest : List ℕ)
      → w.agent.sessions ≡ session ∷ rest
      → w.agent.closed ≡ true
      → Inv w
      → elem session w.cancelled ≡ true
  first_cancelled w session rest e c v = elim v.cancelled [
    | inl opened ↦ absurd (ground (arith, opened, c))
    | inr all ↦ let k : All (λ n. elem n w.cancelled ≡ true) (session ∷ rest) = rw e at all in k.0
  ]

  -- Where a handler is left, one can go on.
  progress :
      (w : World)
      → w.agent.closed ≡ true
      → Inv w
      → (w.agent.active ≡ 0) ⊎ ((next : World) × Forced w next)
  progress w c v = elim (ℕ-cases w.upgrading) [
    | inr (k, u) ↦ inr (_, refuses w k u)
    | inl u ↦ elim (List-cases w.agent.sessions) [
      | inr (x, (xs, s)) ↦ inr (_, interrupts w [] xs x s (first_cancelled w x xs s c v))
      | inl s ↦ elim (ℕ-cases w.leaving) [
        | inr (k, l) ↦ inr (_, departs w k l)
        | inl l ↦
            let m : length w.agent.sessions ≡ 0 = rw s refl in
            inl (omega (arith, v.counted, u, m, l))
      ]
    ]
  ]

  drains :
      (n : ℕ) (w last : World)
      → Run n w last
      → w.agent.closed ≡ true
      → Inv w
      → (n + pending last ≤ pending w)
        × ((last.agent.active ≡ 0) ⊎ ((next : World) × Forced last next))
  drains _ _ _ (stop w) c v = (omega arith, progress w c v)
  drains _ _ _ (go n w next last s run) c v =
      let fewer = decreases w next s in
      let closed = stays_closed w next s c in
      let (bound, more) =
        drains n next last run closed (step-Inv allowed w next (Forced-Step w next s) v) in
      (omega (arith, fewer, bound), more)

  -- Once the agent is closed, however it came to be, its handlers come to their ends by themselves, in
  -- whatever order they move: they have at most three moves for each upgrade, two for each session and
  -- one for each handler that leaves, and as long as the count is not 0 one of them can move. A session
  -- moves only because its context was cancelled.
  pub closed-drains :
      (n : ℕ) (w last : World)
      → Reach allowed w
      → w.agent.closed ≡ true
      → Run n w last
      → (n ≤ pending w) × ((last.agent.active ≡ 0) ⊎ ((next : World) × Forced last next))
  closed-drains n w last r c run =
      let (bound, more) = drains n w last run c (Reach-Bounded allowed w r) in
      (omega (arith, bound), more)
