-- ===== src/Demo/Remote.antt =====
-- An update of all the settings, as the runtime sends it.
use zth_sre.Prelude.{ℕ, ◌≤◌, ◌≡◌, refl, true, false, some, arith}
use zth_sre.Prelude.Int.{pos}
use zth_sre.Http.{put, Body, status_of}
use zth_sre.Demo.{
  Settings, Service, StateUpdate, out_of_bounds, bad, write_state, put_decoded, serve_state,
  max_cpu_work, max_failure_every,
}
use zth_sre.Demo.Admin.{InBounds}

-- The body of the seven numbers.
pub whole : Settings → Body StateUpdate
whole c = record {
  value = some (record {
    cpu_work = some (pos c.cpu_work);
    failure_every = some (pos c.failure_every);
    latency_ms = some (pos c.latency_ms);
    dependency_failure_every = some (pos c.dependency_failure_every);
    retries = some (pos c.retries);
    max_concurrency = some (pos c.max_concurrency);
    memory_mb = some (pos c.memory_mb);
  });
  at_end = true;
}

bad_le : (limit n : ℕ) → n ≤ limit → bad limit (some (pos n)) ≡ false
bad_le limit n h = ground (arith, h)

-- Settings within the bounds are accepted, and they are then the service's settings.
pub serve_state-whole :
    (c : Settings) (s : Service)
    → InBounds c
    → ((serve_state true put (whole c) s).0.settings ≡ c)
      × (status_of (serve_state true put (whole c) s).1 ≡ 200)
unfolding serve_state put_decoded out_of_bounds write_state whole
serve_state-whole c s v =
    let e1 = bad_le max_cpu_work c.cpu_work v.cpu_work in
    let e2 = bad_le max_failure_every c.failure_every v.failure_every in
    let e3 = bad_le 10000 c.latency_ms v.latency_ms in
    let e4 = bad_le max_failure_every c.dependency_failure_every v.dependency_failure_every in
    let e5 = bad_le 10 c.retries v.retries in
    let e6 = bad_le 1000 c.max_concurrency v.max_concurrency in
    let e7 = bad_le 1024 c.memory_mb v.memory_mb in rw (e1, e2, e3, e4, e5, e6, e7) (refl, refl)
