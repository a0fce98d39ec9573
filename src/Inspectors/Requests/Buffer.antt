-- ===== src/Inspectors/Requests/Buffer.antt =====
-- inspector_http.go: RecordHTTPRequest, and the tools get_recent_requests, get_slow_requests,
-- get_error_requests and get_request_stats. A duration is counted in any unit.
use go_debug_agent.Prelude.{
  ℕ, zero, suc, ◌-◌, ◌*◌, ◌/◌, Bool, List, [], ◌∷◌, map, Option, none, some, ltb, leb,
  if◌then◌else◌, length, take, drop, select, get_elem?, min,
}
use go_debug_agent.Prelude.Int.{ℤ, pos, negsuc}
use go_debug_agent.Prelude.Text.{Text, ascii}
use go_debug_agent.Registry.Value.{Value, str}
use go_debug_agent.Inspectors.Base.{Format, object, array, count_value, count_if, ◌>>=◌}
use go_debug_agent.Inspectors.Ring.{ring_push}
use go_debug_agent.Inspectors.Requests.Sorting.{sort_entries}

pub record HttpRecord : Type 0 where
  pub timestamp : ℕ
  pub method : Text
  pub path : Text
  pub status : ℕ
  pub duration_ms : ℕ
  pub client : Text

abbrev pub http_buffer_max_size : ℕ
http_buffer_max_size = 500

unfoldable pub record_http_request :
    ℕ → Text → Text → ℕ → ℕ → Text → List HttpRecord → List HttpRecord
record_http_request now method path status duration_ms client http_buffer =
    ring_push http_buffer_max_size
      (record {
        timestamp = now;
        method = method;
        path = path;
        status = status;
        duration_ms = duration_ms;
        client = client;
      })
      http_buffer

-- The loop that reverses a slice in place.
unfoldable pub reverse_onto : List HttpRecord → List HttpRecord → List HttpRecord
reverse_onto done [] = done
reverse_onto done (r ∷ rs) = reverse_onto (r ∷ done) rs

-- reqs[len(reqs)-int(limit):], with `none` for the panic of a negative limit, where the slice would
-- begin behind the end.
unfoldable pub recent_requests : Option ℤ → List HttpRecord → Option (List HttpRecord)
recent_requests none reqs = some (reverse_onto [] reqs)
recent_requests (some (negsuc n)) reqs = none
recent_requests (some (pos n)) reqs =
    some (reverse_onto [] (if ltb n (length reqs) then drop (length reqs - n) reqs else reqs))

-- if reqs[j].DurationMs > reqs[i].DurationMs
abbrev pub is_slower : HttpRecord → HttpRecord → Bool
is_slower y x = ltb x.duration_ms y.duration_ms

unfoldable pub at_least : Option ℕ → List HttpRecord → List HttpRecord
at_least none reqs = reqs
at_least (some threshold) reqs = select (λ r. leb threshold r.duration_ms) reqs

-- A threshold below 0 is 0: no duration is below either.
unfoldable pub slow_requests : Option ℕ → List HttpRecord → List HttpRecord
slow_requests threshold http_buffer =
    take 20 (sort_entries is_slower (at_least threshold http_buffer))

abbrev pub is_error : HttpRecord → Bool
is_error r = leb 400 r.status

unfoldable pub error_requests : List HttpRecord → List HttpRecord
error_requests http_buffer = select is_error http_buffer

-- if durations[j] < durations[i]
abbrev pub is_shorter : ℕ → ℕ → Bool
is_shorter y x = ltb y x

-- durations[min(k-1, n-1)], and `none` for the panic at index -1.
unfoldable pub value_at : List ℕ → ℕ → Option ℕ
value_at durations zero = none
value_at durations (suc k) = get_elem? durations (min k (length durations - 1))

-- pct(p), with p = num/100: the product is exact for the 0.5, 0.95 and 0.99 of the code and up to 500
-- entries.
unfoldable pub percentile : ℕ → List ℕ → Option ℕ
percentile num durations = value_at durations (length durations * num / 100)

-- Minimum, P50, P95, P99 and maximum of the sorted durations.
pub record Latency : Type 0 where
  pub min_ms : ℕ
  pub p50 : ℕ
  pub p95 : ℕ
  pub p99 : ℕ
  pub max_ms : ℕ

unfoldable pub latency_of : List ℕ → Option Latency
latency_of durations = do
  lowest ← get_elem? durations 0
  p50 ← percentile 50 durations
  p95 ← percentile 95 durations
  p99 ← percentile 99 durations
  highest ← get_elem? durations (length durations - 1)
  some (record { min_ms = lowest; p50 = p50; p95 = p95; p99 = p99; max_ms = highest })

unfoldable pub sorted_durations : List HttpRecord → List ℕ
sorted_durations reqs = sort_entries is_shorter (map (λ r. r.duration_ms) reqs)

module _ {X : Type 0} (encode : HttpRecord → Value X) where
  unfoldable pub get_recent_requests : Option ℤ → List HttpRecord → Option (Value X)
  get_recent_requests limit http_buffer = do
    reqs ← recent_requests limit http_buffer
    some (
        object (
          (ascii "total", count_value (length http_buffer))
          ∷ (ascii "requests", array (map encode reqs))
          ∷ []))

  unfoldable pub counted_requests : List HttpRecord → Value X
  counted_requests reqs = object (
      (ascii "count", count_value (length reqs)) ∷ (ascii "requests", array (map encode reqs)) ∷ [])

  unfoldable pub get_slow_requests : Option ℕ → List HttpRecord → Value X
  get_slow_requests threshold http_buffer = counted_requests (slow_requests threshold http_buffer)

  unfoldable pub get_error_requests : List HttpRecord → Value X
  get_error_requests http_buffer = counted_requests (error_requests http_buffer)

module _ {X : Type 0} (fmt : Format) (float : ℕ → Value X) where
  -- `none` is a panic.
  unfoldable pub get_request_stats : List HttpRecord → Option (Value X)
  get_request_stats [] =
      some (object ((ascii "message", str (ascii "No requests recorded yet")) ∷ []))
  get_request_stats (r ∷ rs) = do
    latency ← latency_of (sorted_durations (r ∷ rs))
    some (
        object (
          (ascii "total_requests", count_value (length (r ∷ rs)))
          ∷ (ascii "error_count", count_value (count_if is_error (r ∷ rs)))
          ∷ (ascii "error_rate", str (fmt.percent (count_if is_error (r ∷ rs)) (length (r ∷ rs))))
          ∷ (
            ascii "latency_ms",
            object (
                (ascii "min", float latency.min_ms)
                ∷ (ascii "p50", float latency.p50)
                ∷ (ascii "p95", float latency.p95)
                ∷ (ascii "p99", float latency.p99)
                ∷ (ascii "max", float latency.max_ms)
                ∷ []),
          )
          ∷ []))
