-- ===== src/Tests/Watchers.antt =====
-- Runs of the inspectors that watch clients, configurations, pools and endpoints.
use go_debug_agent.Prelude.{
  ℕ, refl, ◌+◌, ◌≡◌, ◌↔◌, List, [], ◌∷◌, map, Option, none, some, true, Bool, arith, All, length,
  not, select, get_elem?,
}
use go_debug_agent.Prelude.Map
use go_debug_agent.Prelude.Map.{text_key}
use go_debug_agent.Prelude.Int.{ℤ, pos}
use go_debug_agent.Prelude.Result.{ok}
use go_debug_agent.Prelude.Text.{Text, ascii, text_eq}
use go_debug_agent.Registry.Value.{str}
use go_debug_agent.Inspectors.Logs.Buffer.{Strings}
use go_debug_agent.Inspectors.Outbound.Transport.{
  OutboundRequest, Reply, RoundTripper, inner, tracking, no_calls, round_trip, round_trips,
  or_default, depth,
}
use go_debug_agent.Inspectors.Outbound.Totals.{IsTotalled, depths, round_trips-IsTotalled}
use go_debug_agent.Inspectors.Outbound.Clients.{
  Clients, IsWrapped, effective, register_http_clients, register_http_client, register_transport,
  add_client, transport_at, or_nil, registered_call,
}
use go_debug_agent.Inspectors.Config.Masking.{IsShown}
use go_debug_agent.Inspectors.Config.Flatten.{
  Reflected, string, ConfigField, struct, mapping, config_entries, flatten_config,
  flatten_config-IsShown,
}
use go_debug_agent.Inspectors.Security.Words.{contains_any, Occurs, contains_any_iff}
use go_debug_agent.Inspectors.Security.Words
use go_debug_agent.Inspectors.Security.Secrets
use go_debug_agent.Inspectors.Security.Secrets.{AuthField}
use go_debug_agent.Inspectors.Pool.Stats.{PoolStats, Databases}
use go_debug_agent.Inspectors.Pool.Leaks.{risk_text, overall_risk, risk_at, no_risk}
use go_debug_agent.Inspectors.Pool.Risk.{level_rank, worst, all_issues, rank-overall_risk}
use go_debug_agent.Inspectors.Endpoints.Client.{Http, Tested}
use go_debug_agent.Inspectors.Endpoints.Batch.{EndpointTest, BatchTally, run_tests}
use go_debug_agent.Inspectors.Endpoints.Marks.{IsMarked, IsTested, run_tests-IsTested}
use go_debug_agent.Inspectors.Endpoints.Coverage.{
  is_among, coverage, get_tested_endpoints, coverage-get_tested_endpoints,
}

abbrev tick : ℕ → ℕ × ℕ
tick w = (w, w + 1)

abbrev answer : ℕ → OutboundRequest → ℕ → Reply × ℕ
answer t req w = (record { status_code = some (pos 200); error = none }, w + 5)

abbrev request : OutboundRequest
request = record { url_host = some (ascii "a.org"); host = [] }

abbrev calls : List (RoundTripper ℕ × OutboundRequest)
calls = (tracking (inner 0), request) ∷ (tracking (tracking (inner 0)), request) ∷ []

no_calls-IsTotalled : IsTotalled no_calls
unfolding Map.total
no_calls-IsTotalled = record { calls = refl; errors = refl; latency = refl; statuses = omega arith }

round_trips-IsTotalled_example :
    IsTotalled (round_trips tick answer calls no_calls 0).0
    × ((round_trips tick answer calls no_calls 0).0.total_calls
        ≡ no_calls.total_calls + depths calls)
round_trips-IsTotalled_example =
    round_trips-IsTotalled tick answer calls no_calls 0 no_calls-IsTotalled

abbrev clients : Clients ℕ
clients = record { transports = []; registry = [] }

clients-IsWrapped : IsWrapped (inner 0) clients
unfolding effective transport_at or_nil or_default Map.lookup depth
clients-IsWrapped = (λ client. omega arith, λ name client h. absurd (ground (arith, h)))

abbrev registrations : List (Text × Option ℕ)
registrations = (ascii "api", some 7) ∷ (ascii "old", none) ∷ (ascii "api2", some 7) ∷ []

registered_call_example :
    let s = register_http_clients (inner 0) registrations clients in
    let after = (round_trip tick answer (effective (inner 0) 7 s) request no_calls 0).1 in
    (after.total_calls ≡ no_calls.total_calls + 1) × IsTotalled after
unfolding register_http_clients register_http_client register_transport add_client effective
    transport_at or_nil or_default Map.lookup Map.insert text_eq
registered_call_example =
    registered_call tick answer (inner 0) registrations clients (ascii "api2") 7 request no_calls 0
      clients-IsWrapped no_calls-IsTotalled refl

-- strings.ToLower, ToUpper, TrimSpace and %q on the texts of these runs, which they leave alone.
abbrev strings : Strings
strings = record { to_lower = λ s. s; to_upper = λ s. s; trim_space = λ s. s; quoted = λ s. s }

abbrev fields : List ConfigField
fields =
    record { name = ascii "Host"; json_tag = []; exported = true; value = string (ascii "a.org") }
    ∷ record {
      name = ascii "Key";
      json_tag = ascii "api_key,omitempty";
      exported = true;
      value = string (ascii "k1");
    }
    ∷ []

abbrev entries : List (Text × Reflected)
entries = (ascii "token", string (ascii "t")) ∷ (ascii "port", string (ascii "80")) ∷ []

flatten_config-IsShown_example :
    IsShown strings (config_entries (struct fields)) (flatten_config strings (struct fields))
    × IsShown strings (config_entries (mapping entries)) (flatten_config strings (mapping entries))
flatten_config-IsShown_example = flatten_config-IsShown strings fields entries

contains_any_iff_example :
    (contains_any (ascii "dbpassword") (ascii "secret" ∷ ascii "password" ∷ []) ≡ true) ↔ (
      (i : ℕ) × (sub : Text) × (get_elem? (ascii "secret" ∷ ascii "password" ∷ []) i ≡ some sub)
      × Occurs sub (ascii "dbpassword"))
contains_any_iff_example =
    contains_any_iff (ascii "dbpassword") (ascii "secret" ∷ ascii "password" ∷ [])

abbrev auth_field : Text → AuthField Unit
auth_field secret = record {
  name = ascii "JWTSecret";
  json_tag = [];
  exported = true;
  value = str secret;
  text = some secret;
  nested = none;
}

abbrev saturated : PoolStats
saturated = record {
  max_open_connections = 10;
  open_connections = 10;
  in_use = 10;
  idle = 0;
  wait_count = 50;
  wait_duration = 1000;
  max_idle_closed = 0;
  max_idle_time_closed = 0;
  max_lifetime_closed = 0;
}

abbrev databases : Databases
databases = (ascii "old", none) ∷ (ascii "main", some saturated) ∷ []

rank-overall_risk_example :
    level_rank
      (risk_text (overall_risk (map (risk_at databases) (ascii "main" ∷ ascii "old" ∷ [])) no_risk))
    ≡ worst (all_issues databases (ascii "main" ∷ ascii "old" ∷ []))
rank-overall_risk_example = rank-overall_risk databases (ascii "main" ∷ ascii "old" ∷ [])

-- Requests are their URLs, and each is answered with 200 after 3 ns.
abbrev http : Http Text ℕ
http = record {
  new_request = λ method url body. ok url;
  set_header = λ key value req. req;
  get_header = λ key req. [];
  do_request = λ req w. (
    ok (record { status_code = pos 200; status = ascii "200 OK"; headers = []; body = ascii "ok" }),
    3,
    w + 3,
  );
}

abbrev endpoint_test : ℤ → Option EndpointTest
endpoint_test status = some (record {
  args = record { method = []; path = ascii "/a"; headers = []; body = [] };
  expected_status = some status;
})

abbrev tests : List (Option EndpointTest)
tests = endpoint_test (pos 200) ∷ endpoint_test (pos 404) ∷ none ∷ []

run_tests-IsTested_example :
    let start : BatchTally Unit = record { results = []; pass_count = 0; fail_count = 0 } in
    let r = run_tests http (λ s. s) (λ n. ascii "3ns") [] 0 tests start [] 0 in
    (length r.0.results ≡ length tests)
    × (r.0.pass_count + r.0.fail_count ≡ length tests)
    × ((key : Text) → IsMarked key [] → IsMarked key r.1)
    × (r.0.fail_count ≡ 0 → All (λ test. IsTested (λ s. s) test r.1) tests)
run_tests-IsTested_example = run_tests-IsTested Unit http (λ s. s) (λ n. ascii "3ns") [] tests [] 0

abbrev marked : Tested
marked = (ascii "GET:/a", true) ∷ []

coverage-get_tested_endpoints_example :
    let is_marked : Text → Bool = λ r. is_among r (map (λ e. e.0) marked) in
    coverage (get_tested_endpoints (λ l. l) marked) (ascii "GET:/a" ∷ ascii "GET:/b" ∷ []) ≡ (
      select is_marked (ascii "GET:/a" ∷ ascii "GET:/b" ∷ []),
      select (λ r. not (is_marked r)) (ascii "GET:/a" ∷ ascii "GET:/b" ∷ []),
    )
coverage-get_tested_endpoints_example =
    coverage-get_tested_endpoints (λ l. l) marked (ascii "GET:/a" ∷ ascii "GET:/b" ∷ [])
      (λ p xs. refl)
