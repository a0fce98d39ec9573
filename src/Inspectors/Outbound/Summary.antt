-- ===== src/Inspectors/Outbound/Summary.antt =====
-- inspector_http_client.go: the tools get_outbound_summary and get_http_transport_stats. The order in
-- which a range meets the hosts and the clients is that of the maps' entries; the idle connections of
-- a transport, which are read by reflection, are `none` where they cannot be read.
use go_debug_agent.Prelude.{
  ℕ, ◌+◌, ◌/◌, Bool, true, false, ◌&&◌, not, List, [], ◌∷◌, ◌++◌, map, Option, none, some,
  if◌then◌else◌, length, is_empty, take, ltb, ◌==◌,
}
use go_debug_agent.Prelude.Int.{ℤ, decimal_int}
use go_debug_agent.Prelude.Text.{Text, ascii, text_eq}
use go_debug_agent.Registry.Value.{Value, str, bool, int}
use go_debug_agent.Inspectors.Base.{object, array, count_value}
use go_debug_agent.Inspectors.Outbound.Transport.{
  HostCallStats, OutboundStats, RoundTripper, inner, tracking, or_default,
}
use go_debug_agent.Inspectors.Outbound.Clients.{Clients, transport_at}

pub record DestEntry : Type 0 where
  pub host : Text
  pub calls : ℕ
  pub avg_latency : ℕ
  pub errors : ℕ

unfoldable pub average : ℕ → ℕ → ℕ
average total count = if ltb 0 count then total / count else 0

unfoldable pub dest_of : Text × HostCallStats → DestEntry
dest_of (host, hs) = record {
  host = host;
  calls = hs.count;
  avg_latency = average hs.total_latency hs.count;
  errors = hs.error_count;
}

-- dests[i].Calls > dests[j].Calls
unfoldable pub more_calls : DestEntry → DestEntry → Bool
more_calls y x = ltb x.calls y.calls

-- The sorted destinations, and the ten that are kept of them.
unfoldable pub all_destinations : List (Text × HostCallStats) → List DestEntry
all_destinations hosts = map dest_of hosts

unfoldable pub top_destinations :
    (List DestEntry → List DestEntry) → List (Text × HostCallStats) → List DestEntry
top_destinations sort hosts =
    let dests = sort (all_destinations hosts) in
    if ltb 10 (length dests) then take 10 dests else dests

module _ {X : Type 0} (duration : ℕ → Text) where
  unfoldable pub dest_value : DestEntry → Value X
  dest_value d = object (
      (ascii "host", str d.host)
      ∷ (ascii "calls", count_value d.calls)
      ∷ (ascii "avg_latency", str (duration d.avg_latency))
      ∷ (ascii "errors", count_value d.errors)
      ∷ [])

  -- The error rate is fmt.Sprintf("%.2f%%", float64(a) / float64(b) * 100).
  unfoldable pub get_outbound_summary :
      (ℕ → ℕ → Text) → (List DestEntry → List DestEntry) → OutboundStats → Value X
  get_outbound_summary percent sort s =
      if s.total_calls == 0
      then object (
          (
            ascii "message",
            str (
                ascii
                  "No outbound HTTP calls tracked yet. Call RegisterHttpClient(name, client) to "
                ++ ascii "enable tracking."),
          )
          ∷ (ascii "total_calls", count_value 0)
          ∷ [])
      else object (
          (ascii "total_calls", count_value s.total_calls)
          ∷ (ascii "total_errors", count_value s.total_errors)
          ∷ (ascii "avg_latency", str (duration (average s.total_latency s.total_calls)))
          ∷ (
            ascii "error_rate",
            str (if ltb 0 s.total_calls then percent s.total_errors s.total_calls else ascii "0%"),
          )
          ∷ (
            ascii "status_codes",
            object (map (λ c. (decimal_int c.0, count_value c.1)) s.status_codes),
          )
          ∷ (ascii "top_destinations", array (map dest_value (top_destinations sort s.per_host)))
          ∷ [])

-- What is read of an *http.Transport. The idle connections are the lengths of the hosts' lists.
pub record HttpTransport : Type 0 where
  pub max_idle_conns : ℤ
  pub max_idle_conns_per_host : ℤ
  pub max_conns_per_host : ℤ
  pub disable_keep_alives : Bool
  pub force_attempt_http2 : Bool
  pub tls_handshake_timeout : ℕ
  pub idle_conn_timeout : ℕ
  pub idle_conn : Option (List ℕ)

-- A transport that counts nothing, by its type: an *http.Transport, or the name of another type.
pub data PlainTransport : Type 0 where
  standard : HttpTransport → PlainTransport
  other : Text → PlainTransport

unfoldable pub sum : List ℕ → ℕ
sum [] = 0
sum (n ∷ ns) = n + sum ns

-- The numbers of hosts and of connections; `none` for (-1, -1).
unfoldable pub read_idle_conn_stats : HttpTransport → Option (ℕ × ℕ)
read_idle_conn_stats t = elim t.idle_conn [ none ↦ none | some idle ↦ some (length idle, sum idle) ]

-- A transport, whose tracking wrapper is taken off once.
unfoldable pub unwrap : {T : Type 0} → RoundTripper T → Bool × RoundTripper T
unwrap (inner t) = (false, inner t)
unwrap (tracking rt) = (true, rt)

module _ {X : Type 0} (duration : ℕ → Text) where
  unfoldable pub timeout_field : Text → ℕ → List (Text × Value X)
  timeout_field key timeout = if ltb 0 timeout then (key, str (duration timeout)) ∷ [] else []

  unfoldable pub idle_fields : Option (ℕ × ℕ) → List (Text × Value X)
  idle_fields none = []
  idle_fields (some (hosts, total)) =
      (ascii "idle_conn_hosts", count_value hosts)
      ∷ (ascii "total_idle_conns", count_value total)
      ∷ []

  unfoldable pub transport_fields : RoundTripper PlainTransport → List (Text × Value X)
  transport_fields (tracking rt) = (ascii "type", str (ascii "*debugagent.trackingTransport")) ∷ []
  transport_fields (inner (other name)) = (ascii "type", str name) ∷ []
  transport_fields (inner (standard t)) =
      (ascii "max_idle_conns", int t.max_idle_conns)
        ∷ (ascii "idle_conns_per_host", int t.max_idle_conns_per_host)
        ∷ (ascii "max_conns_per_host", int t.max_conns_per_host)
        ∷ (ascii "disable_keepalives", bool t.disable_keep_alives)
        ∷ (ascii "force_attempt_http2", bool t.force_attempt_http2)
        ∷ timeout_field (ascii "tls_handshake_timeout") t.tls_handshake_timeout
      ++ timeout_field (ascii "idle_conn_timeout") t.idle_conn_timeout
      ++ idle_fields (read_idle_conn_stats t)

  unfoldable pub inspect_transport : Text → Option (RoundTripper PlainTransport) → Value X
  inspect_transport name none =
      object ((ascii "name", str name) ∷ (ascii "error", str (ascii "nil transport")) ∷ [])
  inspect_transport name (some rt) =
      let (tracked, plain) = unwrap rt in
      object (
        (ascii "name", str name) ∷ (if tracked then (ascii "tracked", bool true) ∷ [] else [])
        ++ transport_fields plain)

  -- The registered clients that pass the filter, which is "" where it is missing.
  unfoldable pub inspect_clients :
      RoundTripper PlainTransport → Text → List (Text × ℕ) → Clients PlainTransport → List (Value X)
  inspect_clients default_transport filter [] s = []
  inspect_clients default_transport filter ((name, client) ∷ clients) s =
      let rest = inspect_clients default_transport filter clients s in
      if not (is_empty filter) && not (text_eq name filter)
      then rest
      else inspect_transport name (some (or_default default_transport (transport_at client s)))
        ∷ rest

  unfoldable pub get_http_transport_stats :
      RoundTripper PlainTransport → Text → Clients PlainTransport → Value X
  get_http_transport_stats default_transport filter s =
      let transports =
        inspect_transport (ascii "default") (some default_transport)
        ∷ inspect_clients default_transport filter s.registry s in
      object (
        (ascii "count", count_value (length transports))
        ∷ (ascii "transports", array transports)
        ∷ [])
