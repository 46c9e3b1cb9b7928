-- ===== src/Terminal/Sessions.antt =====
-- The sessions of the agent as a step relation: any requests, upgrades, ends and calls of `Close`, in
-- any order, one critical section at a time.
use zth_sre.Prelude.{
  ℕ, suc, ◌+◌, ◌≤◌, ◌<◌, ◌≡◌, refl, sym, ◌⊎◌, inl, inr, String, true, false, ◌&&◌, ◌||◌, not, none,
  some, List, [], ◌∷◌, ◌++◌, length, ◌==◌, String_eq, ℕ_eq, leb, elem, All, arith, Bool-cases,
}
use zth_sre.Http.{Method, is_get}
use zth_sre.Server.Origins.{allowed_origin}
use zth_sre.Terminal.{
  Agent, init, failed, ok, admitted, admit, serve_http, register, unregister, release, close,
  max_sessions,
}

-- The agent, the handlers between the first critical section and the second, those between the end of
-- their session and the last one, and the sessions whose context was cancelled by `Close`.
pub record World : Type 0 where
  pub agent : Agent
  pub upgrading : ℕ
  pub leaving : ℕ
  pub cancelled : List ℕ

unfoldable pub start : World
start = record { agent = init; upgrading = 0; leaving = 0; cancelled = [] }

pub data Step (allowed : List String) : World → World → Type 0 where
  enters :
      (w : World) (path : String) (method : Method) (origins : List String)
      → (serve_http allowed path method origins w.agent).1 ≡ admitted
      → Step allowed w (record w {
        agent = (serve_http allowed path method origins w.agent).0;
        upgrading = w.upgrading + 1;
      })
  -- The upgrade fails, or the agent was closed in the meantime.
  gives_up :
      (w : World) (rest : ℕ)
      → w.upgrading ≡ rest + 1
      → Step allowed w (record w { agent = release w.agent; upgrading = rest })
  registers :
      (w : World) (rest session : ℕ) (a : Agent)
      → w.upgrading ≡ rest + 1
      → register session w.agent ≡ some a
      → Step allowed w (record w { agent = a; upgrading = rest })
  ends :
      (w : World) (front back : List ℕ) (session : ℕ)
      → w.agent.sessions ≡ front ++ session ∷ back
      → Step allowed w (record w { agent = unregister front back w.agent; leaving = w.leaving + 1 })
  leaves :
      (w : World) (rest : ℕ)
      → w.leaving ≡ rest + 1
      → Step allowed w (record w { agent = release w.agent; leaving = rest })
  closes :
      (w : World)
      → Step allowed w
          (record w { agent = (close w.agent).0; cancelled = (close w.agent).1 ++ w.cancelled })

pub data Reach (allowed : List String) : World → Type 0 where
  here : Reach allowed start
  there : (w next : World) → Reach allowed w → Step allowed w next → Reach allowed next

abbrev Cancelled : World → Type 0
Cancelled w = (w.agent.closed ≡ false) ⊎ All (λ n. elem n w.cancelled ≡ true) w.agent.sessions

pub record Inv (w : World) : Type 0 where
  -- The count is that of the handlers in between.
  pub counted : w.agent.active ≡ w.upgrading + length w.agent.sessions + w.leaving
  pub limited : w.agent.active ≤ 2
  -- In a closed agent every session is cancelled.
  pub cancelled : Cancelled w

start-Inv : Inv start
unfolding start init
start-Inv = record { counted = omega arith; limited = omega arith; cancelled = inl refl }

abbrev LetIn : Agent → Agent → Type 0
LetIn a next = (a.closed ≡ false) × (a.active < 2) × (next ≡ record a { active = a.active + 1 })

admit-LetIn : (a : Agent) → (admit a).1 ≡ admitted → LetIn a (admit a).0
unfolding admit max_sessions
admit-LetIn a h = elim (Bool-cases (a.closed || leb 2 a.active)) [
  | inl bad ↦ let k : failed 503 ≡ admitted = rw bad at h in cc
  | inr good ↦ rw good (ground (arith, good), ground (arith, good), refl)
]

-- A request that was let in found the agent open, with a session left.
pub serve_http-LetIn :
    (allowed : List String) (path : String) (method : Method) (origins : List String) (a : Agent)
    → (serve_http allowed path method origins a).1 ≡ admitted
    → LetIn a (serve_http allowed path method origins a).0
unfolding serve_http
serve_http-LetIn allowed path method origins a h =
    elim (Bool-cases (not (path == "/healthz") && not (path == "/terminal"))) [
      | inl e ↦ let k : failed 404 ≡ admitted = rw e at h in cc
      | inr e1 ↦ elim (Bool-cases (not (is_get method))) [
        | inl e ↦ let k : failed 405 ≡ admitted = rw (e1, e) at h in cc
        | inr e2 ↦ elim (Bool-cases (path == "/healthz")) [
          | inl e ↦ let k : ok ≡ admitted = rw (e1, e2, e) at h in cc
          | inr e3 ↦ elim (Bool-cases (not (allowed_origin allowed origins))) [
            | inl e ↦ let k : failed 403 ≡ admitted = rw (e1, e2, e3, e) at h in cc
            | inr e4 ↦ rw (e1, e2, e3, e4) (admit-LetIn a (rw (e1, e2, e3, e4) at h))
          ]
        ]
      ]
    ]

All-map : {P Q : ℕ → Type 0} (xs : List ℕ) → ((n : ℕ) → P n → Q n) → All P xs → All Q xs
All-map [] f v = tt
All-map (x ∷ xs) f v = (f x v.0, All-map xs f v.1)

present : (xs ys : List ℕ) → All (λ n. elem n (xs ++ ys) ≡ true) xs
present [] ys = tt
present (x ∷ xs) ys =
    (ground (arith, ℕ_eq.same_iff x x), All-map xs (λ n h. ground (arith, h)) (present xs ys))

without_one :
    (P : ℕ → Type 0) (front back : List ℕ) (n : ℕ)
    → All P (front ++ n ∷ back)
    → All P (front ++ back)
without_one P [] back n v = v.1
without_one P (x ∷ front) back n v = (v.0, without_one P front back n v.1)

pub length-without :
    (front back : List ℕ) (n : ℕ) → length (front ++ n ∷ back) ≡ suc (length (front ++ back))
length-without [] back n = refl
length-without (x ∷ front) back n = omega (arith, length-without front back n)

pub register-open :
    (session : ℕ) (a next : Agent)
    → register session a ≡ some next
    → (a.closed ≡ false) × (next ≡ record a { closed = false; sessions = session ∷ a.sessions })
unfolding register
register-open session a next h = elim (Bool-cases a.closed) [
  | inl e ↦ let k : none ≡ some next = rw e at h in cc
  | inr e ↦
      let k : some (record a { closed = false; sessions = session ∷ a.sessions }) ≡ some next =
        rw e at h in
      (e, cc)
]

module _ (allowed : List String) where
  pub step-Inv : (w next : World) → Step allowed w next → Inv w → Inv next
  unfolding release unregister close
  step-Inv _ _ (enters w path method origins h) v =
      let (opened, room, e) = serve_http-LetIn allowed path method origins w.agent h in
      rw e (record {
        counted = omega (arith, v.counted);
        limited = omega (arith, room);
        cancelled = inl opened;
      })
  step-Inv _ _ (gives_up w rest e) v = record {
    counted = omega (arith, v.counted, e);
    limited = omega (arith, v.limited);
    cancelled = v.cancelled;
  }
  step-Inv _ _ (registers w rest session a e r) v =
      let (opened, q) = register-open session w.agent a r in
      rw q (record {
        counted = omega (arith, v.counted, e);
        limited = v.limited;
        cancelled = inl refl;
      })
  step-Inv _ _ (ends w front back session e) v =
      let n = length-without front back session in
      let m : w.agent.active ≡ w.upgrading + length (front ++ session ∷ back) + w.leaving =
        rw (sym e) v.counted in
      record {
        counted = omega (arith, m, n);
        limited = v.limited;
        cancelled = elim v.cancelled [
          | inl opened ↦ inl opened
          | inr all ↦
              let k : All (λ n. elem n w.cancelled ≡ true) (front ++ session ∷ back) =
                rw e at all in
              inr (without_one (λ n. elem n w.cancelled ≡ true) front back session k)
        ];
      }
  step-Inv _ _ (leaves w rest e) v = record {
    counted = omega (arith, v.counted, e);
    limited = omega (arith, v.limited);
    cancelled = v.cancelled;
  }
  step-Inv _ _ (closes w) v = record {
    counted = v.counted;
    limited = v.limited;
    cancelled = inr (present w.agent.sessions w.cancelled);
  }

  -- However requests, upgrades, ends of sessions and calls of `Close` follow each other: the agent's
  -- count is the number of the handlers between their first critical section and their last, these are
  -- at most two, and once the agent is closed every session that it still has was cancelled.
  pub Reach-Bounded : (w : World) → Reach allowed w → Inv w
  Reach-Bounded _ here = start-Inv
  Reach-Bounded _ (there w next r s) = step-Inv w next s (Reach-Bounded w r)
