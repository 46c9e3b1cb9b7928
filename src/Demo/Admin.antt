-- ===== src/Demo/Admin.antt =====
-- PUT /admin/state: what is refused, what is written, and the bounds that hold ever after.
use zth_sre.Prelude.{
  ap, ℕ, ◌≤◌, ◌≡◌, refl, ◌⊎◌, inl, inr, Bool, true, false, ◌&&◌, ◌||◌, not, Option, none, some,
  ℕ_eq, arith, Bool-cases,
}
use zth_sre.Prelude.Int.{ℤ, pos, negsuc}
use zth_sre.Http.{Method, get, put, Body, Response, refused, answered}
use zth_sre.Demo.{
  Settings, Gauges, Service, StateUpdate, StateResponse, out_of_bounds, bad, over, present,
  write_state, put_decoded, state_response, serve_state, max_cpu_work, max_failure_every,
}

pub record InBounds (c : Settings) : Type 0 where
  pub cpu_work : c.cpu_work ≤ max_cpu_work
  pub failure_every : c.failure_every ≤ max_failure_every
  pub latency_ms : c.latency_ms ≤ 10000
  pub dependency_failure_every : c.dependency_failure_every ≤ max_failure_every
  pub retries : c.retries ≤ 10
  pub max_concurrency : c.max_concurrency ≤ 1000
  pub memory_mb : c.memory_mb ≤ 1024

pub record Shown (c : Settings) (g : Gauges) : Type 0 where
  pub cpu_work : g.cpu_work_metric ≡ c.cpu_work
  pub failure_every : g.failure_every_metric ≡ c.failure_every
  pub latency : g.latency_metric ≡ c.latency_ms
  pub concurrency : g.concurrency_metric ≡ c.max_concurrency
  pub memory : g.memory_metric ≡ c.memory_mb

over_le :
    (limit : ℕ) (o : Option ℤ) (old : ℕ) → bad limit o ≡ false → old ≤ limit → over o old ≤ limit
over_le limit none old b h = h
over_le limit (some (pos n)) old b h = ground arith
over_le limit (some (negsuc n)) old b h = cc

or_false : (a b : Bool) → (a || b) ≡ false → (a ≡ false) × (b ≡ false)
or_false true b h = cc
or_false false b h = (refl, h)

write_state-InBounds :
    (u : StateUpdate) (s : Service)
    → out_of_bounds u ≡ false
    → InBounds s.settings
    → InBounds (write_state u s).settings
unfolding out_of_bounds write_state
write_state-InBounds u s h v =
    let (h1, t1) = or_false (bad max_cpu_work u.cpu_work) _ h in
    let (h2, t2) = or_false (bad max_failure_every u.failure_every) _ t1 in
    let (h3, t3) = or_false (bad 10000 u.latency_ms) _ t2 in
    let (h4, t4) = or_false (bad max_failure_every u.dependency_failure_every) _ t3 in
    let (h5, t5) = or_false (bad 10 u.retries) _ t4 in
    let (h6, h7) = or_false (bad 1000 u.max_concurrency) _ t5 in
    record {
      cpu_work = over_le max_cpu_work u.cpu_work s.settings.cpu_work h1 v.cpu_work;
      failure_every =
          over_le max_failure_every u.failure_every s.settings.failure_every h2 v.failure_every;
      latency_ms = over_le 10000 u.latency_ms s.settings.latency_ms h3 v.latency_ms;
      dependency_failure_every =
          over_le max_failure_every u.dependency_failure_every s.settings.dependency_failure_every
            h4 v.dependency_failure_every;
      retries = over_le 10 u.retries s.settings.retries h5 v.retries;
      max_concurrency =
          over_le 1000 u.max_concurrency s.settings.max_concurrency h6 v.max_concurrency;
      memory_mb = over_le 1024 u.memory_mb s.settings.memory_mb h7 v.memory_mb;
    }

write_state-Shown :
    (u : StateUpdate) (s : Service) → Shown (write_state u s).settings (write_state u s).gauges
unfolding write_state
write_state-Shown u s = record {
  cpu_work = refl;
  failure_every = refl;
  latency = refl;
  concurrency = refl;
  memory = refl;
}

write_state_keeps :
    (u : StateUpdate) (s : Service)
    → ((write_state u s).request_seq ≡ s.request_seq)
      × ((write_state u s).active_count ≡ s.active_count)
unfolding write_state
write_state_keeps u s = (refl, refl)

response_lem :
    (u : StateUpdate) (s : Service)
    → answered 200 (state_response (write_state u s))
      ≡ answered 200 (record { settings = (write_state u s).settings; request_seq = s.request_seq })
unfolding state_response write_state
response_lem u s = refl

-- The two outcomes of the handler once the body was read.
put_decoded_accepts :
    (u : StateUpdate) (s : Service)
    → present u.cpu_work ≡ true
    → present u.failure_every ≡ true
    → out_of_bounds u ≡ false
    → put_decoded (some u) true s
      ≡ (write_state u s, answered 200 (state_response (write_state u s)))
unfolding put_decoded
put_decoded_accepts u s c f o = rw (c, f, o) refl

put_decoded_refuses :
    (value : Option StateUpdate) (at_end : Bool) (s : Service)
    → ((u : StateUpdate)
        → ¬ (
            (value ≡ some u)
            × (at_end ≡ true)
            × (present u.cpu_work ≡ true)
            × (present u.failure_every ≡ true)
            × (out_of_bounds u ≡ false)))
    → put_decoded value at_end s ≡ (s, refused 400)
unfolding put_decoded
put_decoded_refuses none at_end s h = refl
put_decoded_refuses (some u) false s h = elim (Bool-cases (present u.cpu_work)) [
  | inl c ↦ elim (Bool-cases (present u.failure_every)) [
    | inl f ↦ rw (c, f) refl
    | inr f ↦ rw (c, f) refl
  ]
  | inr c ↦ rw c refl
]
put_decoded_refuses (some u) true s h = elim (Bool-cases (present u.cpu_work)) [
  | inl c ↦ elim (Bool-cases (present u.failure_every)) [
    | inl f ↦ elim (Bool-cases (out_of_bounds u)) [
      | inl o ↦ rw (c, f, o) refl
      | inr o ↦ absurd (h u (refl, refl, c, f, o))
    ]
    | inr f ↦ rw (c, f) refl
  ]
  | inr c ↦ rw c refl
]

-- Whether the handler writes or not.
put_decoded_cases :
    (value : Option StateUpdate) (at_end : Bool) (s : Service)
    → ((put_decoded value at_end s).0 ≡ s)
      ⊎ ((u : StateUpdate) × ((put_decoded value at_end s).0 ≡ write_state u s)
          × (out_of_bounds u ≡ false))
unfolding put_decoded
put_decoded_cases none at_end s = inl refl
put_decoded_cases (some u) at_end s =
    elim (Bool-cases (not (present u.cpu_work) || (not (present u.failure_every) || not at_end))) [
      | inl incomplete ↦ rw incomplete (inl refl)
      | inr complete ↦ elim (Bool-cases (out_of_bounds u)) [
        | inl o ↦ rw (complete, o) (inl refl)
        | inr o ↦ rw (complete, o) (inr (u, refl, o))
      ]
    ]

-- An update that the handler accepts.
abbrev pub Complete : Body StateUpdate → StateUpdate → Type 0
Complete body u =
    (body.value ≡ some u)
    × (body.at_end ≡ true)
    × (present u.cpu_work ≡ true)
    × (present u.failure_every ≡ true)
    × (out_of_bounds u ≡ false)

abbrev read_body : Bool → Option StateUpdate → Body StateUpdate
read_body at_end value = record { value = value; at_end = at_end }

abbrev or_update : StateUpdate → Option StateUpdate → StateUpdate
or_update u none = u
or_update u (some w) = w

Complete-cases :
    (at_end : Bool) (value : Option StateUpdate)
    → ((u : StateUpdate) × Complete (read_body at_end value) u)
      ⊎ ((u : StateUpdate) → ¬ Complete (read_body at_end value) u)
Complete-cases at_end none = inr (λ u (v, e, c, f, o). cc)
Complete-cases at_end (some u) =
    elim (Bool-cases
      (at_end && (present u.cpu_work && (present u.failure_every && not (out_of_bounds u))))) [
        | inl ok ↦ inl (u, (refl, ground arith, ground arith, ground arith, ground arith))
        | inr unfit ↦ inr (λ w (v, e, c, f, o).
            let same : u ≡ w = ap (or_update u) v in
            let u_unfit : (at_end
                  && (present w.cpu_work && (present w.failure_every && not (out_of_bounds w))))
                ≡ false =
              rw same at unfit in
            ground (arith, u_unfit, e, c, f, o))
      ]

abbrev pub Accepted : StateUpdate → Service → Service × Response StateResponse → Type 0
Accepted u s (s', reply) =
    (s' ≡ write_state u s)
    × (reply ≡ answered 200 (record { settings = s'.settings; request_seq = s.request_seq }))
    × Shown s'.settings s'.gauges
    × (s'.request_seq ≡ s.request_seq)
    × (s'.active_count ≡ s.active_count)

put-Accepted :
    (body : Body StateUpdate) (u : StateUpdate) (s : Service)
    → Complete body u
    → Accepted u s (serve_state true put body s)
unfolding serve_state
put-Accepted body u s (v, e, c, f, o) =
    rw (v, e, put_decoded_accepts u s c f o)
      (
        refl,
        response_lem u s,
        write_state-Shown u s,
        (write_state_keeps u s).0,
        (write_state_keeps u s).1,
      )

-- An update from an internal client is accepted exactly if it is complete: the two required numbers
-- are given, every number is in its range, and nothing follows the object. It then writes the
-- fields that are given, shows the new settings in the reply and the gauges, and leaves the counters
-- alone. Any other update is answered 400 and changes nothing.
pub put_lem :
    (body : Body StateUpdate) (s : Service)
    → ((u : StateUpdate) × Complete body u × Accepted u s (serve_state true put body s))
      ⊎ (((u : StateUpdate) → ¬ Complete body u) × (serve_state true put body s ≡ (s, refused 400)))
unfolding serve_state
put_lem body s = elim (Complete-cases body.at_end body.value) [
  | inl (u, c) ↦ inl (u, c, put-Accepted body u s c)
  | inr none_fits ↦ inr (none_fits, put_decoded_refuses body.value body.at_end s none_fits)
]

-- Where the settings are in their bounds and the gauges show them, both still hold after any request
-- to the admin endpoint, from any client and with any method and body.
pub serve_state-InBounds :
    (internal : Bool) (method : Method) (body : Body StateUpdate) (s : Service)
    → InBounds s.settings
    → Shown s.settings s.gauges
    → let s' = (serve_state internal method body s).0 in
      InBounds s'.settings × Shown s'.settings s'.gauges
unfolding serve_state
serve_state-InBounds false method body s b g = (b, g)
serve_state-InBounds true get body s b g = (b, g)
serve_state-InBounds true put body s b g = elim (put_decoded_cases body.value body.at_end s) [
  | inl same ↦ rw same (b, g)
  | inr (u, written, o) ↦ rw written (write_state-InBounds u s o b, write_state-Shown u s)
]
serve_state-InBounds true _ body s b g = (b, g)
