-- ===== src/Demo/Failures.antt =====
-- The deterministic failures of `failure_every` over requests in a row.
use zth_sre.Prelude.{
  ℕ, zero, suc, ◌+◌, ◌/◌, ◌%◌, ◌<◌, ◌≡◌, refl, true, if◌then◌else◌, ◌==◌, String_eq, ℕ_eq, ltb,
  arith,
}
use zth_sre.Http.{get}
use zth_sre.Demo.{Role, is_api, Settings, Service}
use zth_sre.Demo.Burn.{burn_cpu}
use zth_sre.Demo.Handler.{
  u64_mod, Env, admissible, wait_latency, grow_memory, is_some, status_at, work, serve_counted,
}

-- Requests to `/` one after the other, and how many of them are answered 503.
pub failures : Settings → Env → ℕ → Service → ℕ
failures c env zero s = 0
failures c env (suc k) s =
    let (s', code) = serve_counted c env get "/" s in
    (if code == 503 then 1 else 0) + failures c env k s'

-- Nothing but the deterministic failure interferes.
pub record Quiet (c : Settings) (env : Env) (s : Service) : Type 0 where
  pub unlimited : c.max_concurrency ≡ 0
  pub in_time : wait_latency env c.latency_ms ≡ true
  pub burns : is_some (burn_cpu env.cancelled c.cpu_work) ≡ true
  pub leads : is_api s.role ≡ true

next_multiple : (m f : ℕ) → 0 < f → (m + 1) / f ≡ m / f + (if (m + 1) % f == 0 then 1 else 0)
next_multiple m f h = grind arith

admissible_unlimited : (c : Settings) (s : Service) → c.max_concurrency ≡ 0 → admissible c s ≡ true
unfolding admissible
admissible_unlimited c s h = rw h refl

grow_memory_keeps :
    (megabytes : ℕ) (s : Service)
    → ((grow_memory megabytes s).request_seq ≡ s.request_seq)
      × ((grow_memory megabytes s).role ≡ s.role)
unfolding grow_memory
grow_memory_keeps megabytes s = ground arith

status_quiet :
    (c : Settings) (env : Env) (role : Role) (n : ℕ)
    → is_some (burn_cpu env.cancelled c.cpu_work) ≡ true
    → is_api role ≡ true
    → 0 < c.failure_every
    → (status_at c env role n == 503) ≡ (n % c.failure_every == 0)
unfolding status_at
status_quiet c env role n b a f = ground arith

work_quiet :
    (c : Settings) (env : Env) (s : Service)
    → is_some (burn_cpu env.cancelled c.cpu_work) ≡ true
    → is_api s.role ≡ true
    → 0 < c.failure_every
    → s.request_seq + 1 < u64_mod
    → let (s', code) = work c env s in
      (s'.request_seq ≡ s.request_seq + 1)
      × (s'.role ≡ s.role)
      × ((code == 503) ≡ ((s.request_seq + 1) % c.failure_every == 0))
unfolding work
work_quiet c env s b a f h =
    let s1 = if ltb 0 c.memory_mb then grow_memory c.memory_mb s else s in
    let keeps : (s1.request_seq ≡ s.request_seq) × (s1.role ≡ s.role) =
      ground (arith, grow_memory_keeps c.memory_mb s) in
    let small : (s1.request_seq + 1) % u64_mod ≡ s.request_seq + 1 = omega (arith, keeps.0) in
    (small, keeps.1, rw (small, keeps.1) (status_quiet c env s.role (s.request_seq + 1) b a f))

request_step :
    (c : Settings) (env : Env) (s : Service)
    → Quiet c env s
    → 0 < c.failure_every
    → s.request_seq + 1 < u64_mod
    → let (s', code) = serve_counted c env get "/" s in
      (s'.request_seq ≡ s.request_seq + 1)
      × (s'.role ≡ s.role)
      × ((code == 503) ≡ ((s.request_seq + 1) % c.failure_every == 0))
unfolding serve_counted
request_step c env s q f h =
    rw (admissible_unlimited c s q.unlimited, q.in_time) (work_quiet c env s q.burns q.leads f h)

-- On the API service with no concurrency limit, no cancelled request and f > 0 as `failure_every`, k
-- requests in a row after request n have (n + k) / f - n / f failures with 503, as many as there are
-- multiples of f among their numbers, as long as the sequence does not wrap.
pub failures_lem :
    (c : Settings) (env : Env) (k : ℕ) (s : Service)
    → Quiet c env s
    → 0 < c.failure_every
    → s.request_seq + k < u64_mod
    → failures c env k s + s.request_seq / c.failure_every ≡ (s.request_seq + k) / c.failure_every
unfolding failures
failures_lem c env zero s q f h =
    let e : s.request_seq + 0 ≡ s.request_seq = omega arith in rw e (omega arith)
failures_lem c env (suc k) s q f h =
    let s' = (serve_counted c env get "/" s).0 in
    let (next, same, fails) = request_step c env s q f (omega arith) in
    let q' : Quiet c env s' = record {
      unlimited = q.unlimited;
      in_time = q.in_time;
      burns = q.burns;
      leads = rw same q.leads;
    } in
    let ih = failures_lem c env k s' q' f (omega arith) in
    let e : s'.request_seq + k ≡ s.request_seq + suc k = omega arith in
    let ih' : failures c env k s' + (s.request_seq + 1) / c.failure_every
        ≡ (s.request_seq + suc k) / c.failure_every =
      rw (← e, ← next) ih in
    rw fails (omega (arith, ih', next_multiple s.request_seq c.failure_every f))
