-- ===== src/Runtime/Composition.antt =====
-- The runtime with the services that it controls: `applyState` of internal/server/runtime.go sends its
-- requests to the handlers of internal/demo, internal/policy and internal/apilb.
use zth_sre.Prelude.{ℕ, ◌≡◌, refl, String, Bool, true, ◌&&◌, Option, leb, ltb}
use zth_sre.Http.{put, status_of}
use zth_sre.Demo
use zth_sre.Demo.{Settings, serve_state}
use zth_sre.Demo.Remote.{whole, serve_state-whole}
use zth_sre.Policy
use zth_sre.Policy.{serve}
use zth_sre.Policy.Denial.{updating, serve-updating}
use zth_sre.ApiLb.{Balancer, update_state}
use zth_sre.ApiLb.Admin as Admin
use zth_sre.Runtime.State.{RunState}
use zth_sre.Runtime.Control.{
  Request, put_api1, put_api2, put_dependency, put_policy, put_balancer, api_state,
  dependency_state, blocked_state, backends_for, state_requests, scenario_of, send_all, apply_state,
}
use zth_sre.Runtime.Fleet.{states_accepted}

-- The services; `T` is whatever the traffic controller is.
pub record World (T : Type 0) : Type 0 where
  pub api1 : Demo.Service
  pub api2 : Demo.Service
  pub dependency : Demo.Service
  pub policy : Policy.Service
  pub balancer : Balancer
  pub traffic : T

-- `requestJSON` returns nil.
abbrev pub is_2xx : ℕ → Bool
is_2xx status = leb 200 status && ltb status 300

-- The status of a reply of the policy gateway to an update.
policy_status : Policy.Reply → ℕ
policy_status (Policy.failed status) = status
policy_status (Policy.not_allowed allow) = 405
policy_status _ = 200

module _ {T : Type 0} (traffic : Request → T → T × Bool) where
  -- Each request goes to the handler of its service, from an internal address.
  unfoldable pub carry : Request → World T → World T × Bool
  unfolding policy_status
  carry (put_api1 c) w =
      let (s, reply) = serve_state true put (whole c) w.api1 in
      (record w { api1 = s }, is_2xx (status_of reply))
  carry (put_api2 c) w =
      let (s, reply) = serve_state true put (whole c) w.api2 in
      (record w { api2 = s }, is_2xx (status_of reply))
  carry (put_dependency c) w =
      let (s, reply) = serve_state true put (whole c) w.dependency in
      (record w { dependency = s }, is_2xx (status_of reply))
  carry (put_policy b) w =
      let answer = serve (updating b) w.policy in
      (record w { policy = answer.service }, is_2xx (policy_status answer.reply))
  carry (put_balancer n) w =
      let (b, reply) = update_state (Admin.whole n) w.balancer in
      (record w { balancer = b }, is_2xx (status_of reply))
  carry request w = let (t, done) = traffic request w.traffic in (record w { traffic = t }, done)

  -- What a phase of a scenario asks of the services.
  pub record Set (phase scenario : String) (w : World T) : Type 0 where
    pub api1 : w.api1.settings ≡ api_state phase scenario
    pub api2 : w.api2.settings ≡ api_state phase scenario
    pub dependency : w.dependency.settings ≡ dependency_state phase scenario
    pub policy : w.policy.blocked ≡ blocked_state phase scenario
    pub balancer : w.balancer.active ≡ backends_for scenario

  -- With the services at hand `applyState` succeeds, whatever they were set to: both API servers, the
  -- dependency, the policy gateway and the balancer accept what they are sent, and are then set as the
  -- phase and the scenario of the active run ask; the traffic is left alone.
  pub apply_state_lem :
      (phase : String) (active : Option RunState) (w : World T)
      → ((apply_state carry true phase active w).1 ≡ true)
        × Set phase (scenario_of active) (apply_state carry true phase active w).0
        × ((apply_state carry true phase active w).0.traffic ≡ w.traffic)
  unfolding apply_state state_requests send_all carry policy_status
  apply_state_lem phase active w =
      let scenario = scenario_of active in
      let (api, dependency, backends) = states_accepted phase scenario in
      let (a1, s1) = serve_state-whole (api_state phase scenario) w.api1 api in
      let (a2, s2) = serve_state-whole (api_state phase scenario) w.api2 api in
      let (a3, s3) = serve_state-whole (dependency_state phase scenario) w.dependency dependency in
      let p = serve-updating (blocked_state phase scenario) w.policy in
      let (a5, s5) = Admin.update_state-whole (backends_for scenario) w.balancer backends in
      rw (s1, s2, s3, p, s5)
        (refl, record { api1 = a1; api2 = a2; dependency = a3; policy = refl; balancer = a5 }, refl)
