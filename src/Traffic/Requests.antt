-- ===== src/Traffic/Requests.antt =====
-- Which start requests pass the validation.
use zth_sre.Prelude.{◌↔◌, ◌≡◌, refl, true, none, String_eq, arith, eq_iff}
use zth_sre.Prelude.Map.{get, lookup}
use zth_sre.Traffic.{profiles, StartRequest, valid_run_id, valid_request}

-- A request passes exactly if its id fits the pattern and its profile is the scenario's; a scenario
-- that the table does not name has the empty profile.
pub valid_request_iff :
    (r : StartRequest)
    → (valid_request r ≡ true)
      ↔ ((valid_run_id r.run_id ≡ true) × (get "" r.scenario profiles ≡ r.profile))
unfolding valid_request
valid_request_iff r = (
  λ h. ground (arith, eq_iff (get "" r.scenario profiles) r.profile),
  λ (h, e). ground (arith, eq_iff (get "" r.scenario profiles) r.profile),
)

-- A request for a scenario that the table does not name passes the validation where its id fits the
-- pattern and its profile is empty.
pub valid_request_unknown :
    (r : StartRequest)
    → lookup r.scenario profiles ≡ none
    → r.profile ≡ ""
    → valid_run_id r.run_id ≡ true
    → valid_request r ≡ true
valid_request_unknown r u p i = (valid_request_iff r).1 (i, rw (u, p) refl)
