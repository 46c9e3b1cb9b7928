-- ===== src/Demo/Handler.antt =====
-- `ServeHTTP`: one request to `/`, the probes and the admin endpoint.
use zth_sre.Prelude.{
  ℕ, ◌+◌, ◌-◌, ◌*◌, ◌%◌, ◌^◌, ◌≤◌, ◌<◌, ◌≡◌, inl, inr, String, Bool, true, false, ◌&&◌, ◌||◌, not,
  Option, none, some, List, [], ◌∷◌, ◌++◌, length, length-append, All, All-append, if◌then◌else◌,
  ◌==◌, String_eq, ℕ_eq, ltb, arith, Bool-cases, elem, ltb→lt,
}
use zth_sre.Http.{Method, is_get, Body, status_of}
use zth_sre.Demo.{Role, is_api, Settings, Service, StateUpdate, serve_state}
use zth_sre.Demo.Burn.{burn_cpu}
use zth_sre.Demo.Dependency.{Attempt, call_dependency}

abbrev pub u64_mod : ℕ
u64_mod = 2 ^ 64

-- What one request meets: whether its latency timer fires before its context is done, where the
-- workload loop sees it done, and the attempts at the dependency.
pub record Env : Type 0 where
  pub timer_fires : Bool
  pub cancelled : ℕ → Bool
  pub attempts : ℕ → Attempt

-- `!(maxConcurrency > 0 && int(s.activeValue(runID)) > maxConcurrency)`
unfoldable pub admissible : Settings → Service → Bool
admissible c s = not (ltb 0 c.max_concurrency && ltb c.max_concurrency s.active_count)

-- `waitLatency` returns nil.
unfoldable pub wait_latency : Env → ℕ → Bool
wait_latency env milliseconds = milliseconds == 0 || env.timer_fires

unfoldable pub grow_memory : ℕ → Service → Service
grow_memory megabytes s =
    if ltb (length s.leak) 256 then record s { leak = s.leak ++ (megabytes * 2 ^ 20) ∷ [] } else s

abbrev pub is_some {ℓ} : {A : Type ℓ} → Option A → Bool
is_some none = false
is_some (some a) = true

-- `every > 0 && sequence%every == 0`
abbrev pub hits : ℕ → ℕ → Bool
hits every sequence = ltb 0 every && sequence % every == 0

-- The status of a request that has its sequence number.
unfoldable pub status_at : Settings → Env → Role → ℕ → ℕ
status_at c env role sequence =
    if not (is_api role) && hits c.dependency_failure_every sequence
    then 503
    else if hits c.failure_every sequence
    then 503
    else if not (is_some (burn_cpu env.cancelled c.cpu_work))
    then 503
    else if is_api role && not (call_dependency env.attempts c.retries).0
    then 502
    else 200

-- From the memory growth on.
unfoldable pub work : Settings → Env → Service → Service × ℕ
unfolding grow_memory status_at
work c env s =
    let s1 = if ltb 0 c.memory_mb then grow_memory c.memory_mb s else s in
    let sequence = (s1.request_seq + 1) % u64_mod in
    (record s1 { request_seq = sequence }, status_at c env s1.role sequence)

-- The counted part of a request, with the settings that it read. The service counts it already.
unfoldable pub serve_counted : Settings → Env → Method → String → Service → Service × ℕ
unfolding admissible wait_latency
serve_counted c env method path s =
    if not (path == "/")
    then (s, 404)
    else if not (is_get method)
    then (s, 405)
    else if not (admissible c s)
    then (s, 503)
    else if not (wait_latency env c.latency_ms)
    then (s, 503)
    else work c env s

-- `activeCount` is raised before and lowered after, on every return.
counted : Env → Method → String → Service → Service × ℕ
unfolding serve_counted
counted env method path s =
    let (s', code) =
      serve_counted s.settings env method path (record s { active_count = s.active_count + 1 }) in
    (record s' { active_count = s'.active_count - 1 }, code)

-- A whole request, with nothing else in between.
pub serve_http : Env → Bool → Body StateUpdate → Method → String → Service → Service × ℕ
unfolding counted
serve_http env internal body method path s =
    if path == "/healthz" || path == "/metrics"
    then (s, if is_get method then 200 else 405)
    else if path == "/admin/state"
    then (let (s', reply) = serve_state internal method body s in (s', status_of reply))
    else counted env method path s

-- The codes whose series `New` creates.
abbrev pub registered_codes : List ℕ
registered_codes = 200 ∷ 404 ∷ 405 ∷ 502 ∷ 503 ∷ []

-- Every counted request ends with one of the five codes whose counters exist from the start.
pub serve_counted_registered :
    (c : Settings) (env : Env) (method : Method) (path : String) (s : Service)
    → elem (serve_counted c env method path s).1 registered_codes ≡ true
unfolding serve_counted work status_at
serve_counted_registered c env method path s = ground arith

-- What the memory fault may hold.
pub record Bounded (s : Service) : Type 0 where
  pub slices : length s.leak ≤ 256
  pub sizes : All (λ n. n ≤ 2 ^ 30) s.leak
  pub sequence : s.request_seq < u64_mod

grow_memory-Bounded :
    (megabytes : ℕ) (s : Service) → megabytes ≤ 1024 → Bounded s → Bounded (grow_memory megabytes s)
unfolding grow_memory
grow_memory-Bounded megabytes s m v = elim (Bool-cases (ltb (length s.leak) 256)) [
  | inl room ↦ rw room (record {
    slices =
        omega (
          arith,
          length-append s.leak ((megabytes * 2 ^ 20) ∷ []),
          ltb→lt (length s.leak) 256 room,
        );
    sizes =
        All-append (λ n. n ≤ 2 ^ 30) s.leak ((megabytes * 2 ^ 20) ∷ []) v.sizes (omega arith, tt);
    sequence = v.sequence;
  })
  | inr full ↦ rw full v
]

work-Bounded :
    (c : Settings) (env : Env) (s : Service)
    → c.memory_mb ≤ 1024
    → Bounded s
    → Bounded (work c env s).0
unfolding work
work-Bounded c env s m v = elim (Bool-cases (ltb 0 c.memory_mb)) [
  | inl leaks ↦
      let b = grow_memory-Bounded c.memory_mb s m v in
      rw leaks (record { slices = b.slices; sizes = b.sizes; sequence = omega arith })
  | inr none_set ↦
      rw none_set (record { slices = v.slices; sizes = v.sizes; sequence = omega arith })
]

-- With at most 1024 megabytes set, a request keeps the memory fault at no more than 256 slices of at
-- most a gibibyte each, and the sequence within 64 bits.
pub serve_counted-Bounded :
    (c : Settings) (env : Env) (method : Method) (path : String) (s : Service)
    → c.memory_mb ≤ 1024
    → Bounded s
    → Bounded (serve_counted c env method path s).0
unfolding serve_counted
serve_counted-Bounded c env method path s m v = ground (arith, work-Bounded c env s m v)
