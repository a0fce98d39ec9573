-- ===== src/Inspectors/Outbound/Transport.antt =====
-- inspector_http_client.go: the statistics of outbound calls, and the transport that keeps them. The
-- inner transports and the clock act on a world; durations and counters are natural numbers.
use go_debug_agent.Prelude.{ℕ, ◌+◌, ◌-◌, List, [], ◌∷◌, Option, none, some, if◌then◌else◌, is_empty}
use go_debug_agent.Prelude.Map
use go_debug_agent.Prelude.Map.{text_key, int_key}
use go_debug_agent.Prelude.Int.{ℤ}
use go_debug_agent.Prelude.Text.{Text}

pub record HostCallStats : Type 0 where
  pub count : ℕ
  pub total_latency : ℕ
  pub error_count : ℕ

pub record OutboundStats : Type 0 where
  pub total_calls : ℕ
  pub total_errors : ℕ
  pub total_latency : ℕ
  pub per_host : List (Text × HostCallStats)
  pub status_codes : List (ℤ × ℕ)

abbrev pub no_calls : OutboundStats
no_calls = record {
  total_calls = 0;
  total_errors = 0;
  total_latency = 0;
  per_host = [];
  status_codes = [];
}

-- What is read of a request: the host of its URL, if it has one, and its own.
pub record OutboundRequest : Type 0 where
  pub url_host : Option Text
  pub host : Text

-- (resp, err): the status code of a response that is not nil, and an error.
pub record Reply : Type 0 where
  pub status_code : Option ℤ
  pub error : Option Text

-- A transport that is not nil: one of another package, or a trackingTransport around one. The
-- statistics of each are globalOutboundStats.
pub data RoundTripper (T : Type 0) : Type 0 where
  inner : T → RoundTripper T
  tracking : RoundTripper T → RoundTripper T

unfoldable pub host_of : OutboundRequest → Text
host_of req = elim req.url_host [
  | none ↦ req.host
  | some host ↦ if is_empty host then req.host else host
]

-- t.stats.perHost[host], made where it is nil.
unfoldable pub host_stats : Option HostCallStats → HostCallStats
host_stats none = record { count = 0; total_latency = 0; error_count = 0 }
host_stats (some hs) = hs

unfoldable pub failed : Reply → ℕ
failed reply = elim reply.error [ none ↦ 0 | some e ↦ 1 ]

unfoldable pub count_status : Reply → List (ℤ × ℕ) → List (ℤ × ℕ)
count_status reply codes = elim reply.error [
  | some e ↦ codes
  | none ↦ elim reply.status_code [
    | none ↦ codes
    | some code ↦ Map.insert code (Map.value_or_zero (λ n. n) (Map.lookup code codes) + 1) codes
  ]
]

-- What RoundTrip does under the lock.
unfoldable pub record_call : Text → ℕ → Reply → OutboundStats → OutboundStats
record_call host elapsed reply s =
    let hs = host_stats (Map.lookup host s.per_host) in
    let counted : HostCallStats = record {
      count = hs.count + 1;
      total_latency = hs.total_latency + elapsed;
      error_count = hs.error_count + failed reply;
    } in
    record {
      total_calls = s.total_calls + 1;
      total_errors = s.total_errors + failed reply;
      total_latency = s.total_latency + elapsed;
      per_host = Map.insert host counted s.per_host;
      status_codes = count_status reply s.status_codes;
    }

module _ {T W : Type 0} (now : W → ℕ × W) (send : T → OutboundRequest → W → Reply × W) where
  unfoldable pub round_trip :
      RoundTripper T → OutboundRequest → OutboundStats → W → Reply × OutboundStats × W
  round_trip (inner t) req s w = let (reply, w') = send t req w in (reply, s, w')
  round_trip (tracking rt) req s w =
      let (start, w1) = now w in
      let (reply, s', w2) = round_trip rt req s w1 in
      let (end, w3) = now w2 in (reply, record_call (host_of req) (end - start) reply s', w3)

  -- Calls one after the other, each through a transport.
  unfoldable pub round_trips :
      List (RoundTripper T × OutboundRequest) → OutboundStats → W → OutboundStats × W
  round_trips [] s w = (s, w)
  round_trips (call ∷ calls) s w =
      let (reply, s', w') = round_trip call.0 call.1 s w in round_trips calls s' w'

-- The number of trackingTransports around a transport.
unfoldable pub depth : {T : Type 0} → RoundTripper T → ℕ
depth (inner t) = 0
depth (tracking rt) = depth rt + 1

module _ {T : Type 0} (default_transport : RoundTripper T) where
  unfoldable pub or_default : Option (RoundTripper T) → RoundTripper T
  or_default none = default_transport
  or_default (some rt) = rt

  unfoldable pub wrap_http_client_transport : Option (RoundTripper T) → RoundTripper T
  wrap_http_client_transport rt = tracking (or_default rt)
