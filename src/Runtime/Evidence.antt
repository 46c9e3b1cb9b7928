-- ===== src/Runtime/Evidence.antt =====
-- What the runtime asks of Prometheus: `query`, `serviceEvidence` and `evaluateAlert` of
-- internal/server/runtime.go. The HTTP client, the JSON and float parsers and the arithmetic of
-- float64 are parameters; `quote` is what fmt prints for %q.
use zth_sre.Prelude.{
  ℕ, String, Bool, true, false, ◌||◌, ◌&&◌, not, Option, none, some, List, [], ◌∷◌, if◌then◌else◌,
  ◌==◌, String_eq, ℕ_eq,
}
use Prim.Native.String.{◌++◌}
use zth_sre.Prelude.Strings.{replace_all}
use zth_sre.Runtime.Grading.{Floats, Evidence}
pub mod Outage

-- A response: its status, and the body where it decodes, which is the field `status` and the `value`
-- of each result.
pub record Response (V : Type 0) : Type 0 where
  pub status : ℕ
  pub body : Option (String × List (List V))

-- Whether the body is that of a query that succeeded.
abbrev succeeded : {V : Type 0} → Option (String × List (List V)) → Bool
succeeded none = false
succeeded (some (said, results)) = said == "success"

abbrev pub is_usable : {V : Type 0} → Option (Response V) → Bool
is_usable none = false
is_usable (some r) = r.status == 200 && succeeded r.body

body_results : {V : Type 0} → Option (String × List (List V)) → List (List V)
body_results none = []
body_results (some (said, results)) = results

results_of : {V : Type 0} → Option (Response V) → List (List V)
unfolding body_results
results_of none = []
results_of (some r) = body_results r.body

pub record Prometheus (F W V : Type 0) : Type 0 where
  pub fl : Floats F
  -- GET /api/v1/query with the expression: none where the request cannot be made or sent.
  pub ask : String → W → W × Option (Response V)
  -- `json.Unmarshal` into a string.
  pub text : V → Option String
  -- `strconv.ParseFloat`: the value, and whether the error is nil.
  pub parse_float : String → F × Bool
  pub quote : String → String
  -- `> 0`, `!= 0`, `/` and `* 1000` of float64.
  pub positive : F → Bool
  pub nonzero : F → Bool
  pub div : F → F → F
  pub thousandfold : F → F

module _ {F W V : Type 0} (p : Prometheus F W V) where
  open p use {ask, text, parse_float, quote, positive, nonzero, div, thousandfold}

  parsed : Option String → F × Bool
  parsed none = (p.fl.zero, false)
  parsed (some raw) = parse_float raw

  -- The second entry of the first result.
  first_value : List (List V) → F × Bool
  unfolding parsed
  first_value [] = (p.fl.zero, true)
  first_value ((at ∷ v ∷ rest) ∷ results) = parsed (text v)
  first_value (_ ∷ results) = (p.fl.zero, true)

  -- `query` once the response is there: the value, and whether the error is nil.
  pub value_of : Option (Response V) → F × Bool
  unfolding first_value results_of
  value_of answer = if is_usable answer then first_value (results_of answer) else (p.fl.zero, false)

  unfoldable pub query : String → W → W × F × Bool
  unfolding value_of
  query expression w =
      let (w', answer) = ask expression w in (w', (value_of answer).0, (value_of answer).1)

  pub good_requests : String → String
  good_requests run_id =
      "sum(increase(sre_lab_http_requests_total{run_id=" ++ quote run_id ++ ",code=\"200\"}[1m]))"

  pub all_requests : String → String
  all_requests run_id =
      "sum(increase(sre_lab_http_requests_total{run_id=" ++ quote run_id ++ "}[1m]))"

  slowest : String → String
  slowest run_id =
      "histogram_quantile(0.95, sum(rate(sre_lab_http_request_duration_seconds_bucket{run_id="
      ++ quote run_id
      ++ "}[1m])) by (le))"

  -- The values are used whatever the errors are.
  unfoldable pub service_evidence : String → W → W × Evidence F
  unfolding query good_requests all_requests slowest
  service_evidence run_id w =
      let (w1, good, _) = query (good_requests run_id) w in
      let (w2, total, _) = query (all_requests run_id) w1 in
      let (w3, p95, _) = query (slowest run_id) w2 in
      (
        w3,
        record {
          availability = if positive total then div good total else p.fl.zero;
          p95 = thousandfold p95;
          requests = total;
        },
      )

  -- The expression, kept to the metrics of the run.
  unfoldable pub scoped : String → String → String
  scoped expression run_id =
      replace_all "sre_lab_http_requests_total{"
        ("sre_lab_http_requests_total{run_id=" ++ quote run_id ++ ",") expression

  unfoldable pub evaluate_alert : String → String → W → W × Bool
  unfolding query scoped
  evaluate_alert expression run_id w =
      let (w', value, ok) = query (scoped expression run_id) w in
      if expression == "" then (w, false) else (w', ok && nonzero value)
