-- ===== src/ApiLb/Relay.antt =====
-- What the proxy sends on, and the life of the balancer.
use zth_sre.Prelude.{
  ℕ, ◌%◌, ◌≤◌, ◌<◌, ◌≡◌, refl, ◌⊎◌, inl, inr, Bool, false, ◌||◌, not, Option, none, some, List, [],
  ◌∷◌, ◌==◌, String_eq, arith, String, All, Bool-cases, lt→ltb,
}
use zth_sre.Prelude.Int.{ℤ}
use zth_sre.Http.{Method, get, put, is_get, Body}
use zth_sre.ApiLb.{
  Balancer, init, i64_max, state, proxy, pick, forward, answer, Upstream, Headers, Outcome, failed,
  relayed, panicked, copy_headers, any_fold, hop_by_hop,
}
use zth_sre.ApiLb.Rotation.{Inv, pick_lem}
use zth_sre.ApiLb.Admin.{update_state-Inv}

module _ (equal_fold : String → String → Bool) where
  abbrev pub EndToEnd : String × String → Type 0
  EndToEnd (key, value) = any_fold equal_fold key hop_by_hop ≡ false

  copy_headers-EndToEnd : (src : Headers) → All EndToEnd (copy_headers equal_fold src)
  unfolding copy_headers
  copy_headers-EndToEnd [] = tt
  copy_headers-EndToEnd ((key, value) ∷ src) =
      elim (Bool-cases (any_fold equal_fold key hop_by_hop)) [
        | inl hop ↦ rw hop (copy_headers-EndToEnd src)
        | inr end ↦ rw end (end, copy_headers-EndToEnd src)
      ]

module _ (equal_fold : String → String → Bool) (send : ℕ → String → Option Upstream) where
  -- What a client may see.
  abbrev pub Safe : Outcome → Type 0
  Safe (failed n) = (n ≡ 404) ⊎ (n ≡ 503)
  Safe (relayed status headers content) =
      ((status < 300) ⊎ (400 ≤ status)) × All (EndToEnd equal_fold) headers
  Safe panicked = ⊥

  answer-Safe : (r : Option Upstream) → Safe (answer equal_fold send r)
  unfolding answer
  answer-Safe none = inr refl
  answer-Safe (some r) = ground (arith, copy_headers-EndToEnd equal_fold r.headers)

  -- With one or two backends active and fewer than 2^63 requests counted, a request to the balancer
  -- does not panic: it fails with 404 or 503, or relays a reply that is no redirect and of whose headers
  -- none is hop-by-hop.
  pub proxy-Safe :
      (method : Method) (path query : String) (b : Balancer)
      → Inv b
      → b.next < i64_max
      → Safe (proxy equal_fold send method path query b).1
  unfolding proxy forward
  proxy-Safe method path query b v h =
      elim (Bool-cases (not (is_get method) || not (path == "/"))) [
        | inl bad ↦ rw bad (inl refl)
        | inr good ↦
            let (e, small) = pick_lem b v h in
            rw (good, e, forward, lt→ltb (b.next % b.active) 2 small)
              (answer-Safe (send (b.next % b.active) query))
      ]

  pub data Request : Type 0 where
    admin : Method → Body (Option ℤ) → Request
    forwarded : Method → String → String → Request

  -- The handlers change the balancer one request at a time.
  pub serve : Balancer → List Request → Balancer
  serve b [] = b
  serve b (admin method body ∷ rs) = serve (state method body b).0 rs
  serve b (forwarded method path query ∷ rs) =
      serve (proxy equal_fold send method path query b).0 rs

  state-Inv :
      (method : Method) (body : Body (Option ℤ)) (b : Balancer)
      → Inv b
      → Inv (state method body b).0
  unfolding state
  state-Inv get body b v = v
  state-Inv put body b v = update_state-Inv body b v
  state-Inv _ body b v = v

  proxy-Inv :
      (method : Method) (path query : String) (b : Balancer)
      → Inv b
      → Inv (proxy equal_fold send method path query b).0
  unfolding proxy pick
  proxy-Inv method path query b v = ground arith

  -- Any requests to the two handlers, in any order, keep the number of active backends at 1 or 2 and
  -- the counter within 64 bits.
  pub serve-Inv : (b : Balancer) (rs : List Request) → Inv b → Inv (serve b rs)
  unfolding serve
  serve-Inv b [] v = v
  serve-Inv b (admin method body ∷ rs) v =
      serve-Inv (state method body b).0 rs (state-Inv method body b v)
  serve-Inv b (forwarded method path query ∷ rs) v =
      serve-Inv (proxy equal_fold send method path query b).0 rs (proxy-Inv method path query b v)

pub init-Inv : Inv init
unfolding init
init-Inv = omega arith
