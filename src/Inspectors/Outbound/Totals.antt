-- ===== src/Inspectors/Outbound/Totals.antt =====
-- inspector_http_client.go: the statistics of all hosts add up to the totals.
use go_debug_agent.Prelude.{
  ℕ, ◌+◌, ◌≤◌, ◌≡◌, List, [], ◌∷◌, none, arith, Option-cases, inl, inr, ap, refl,
}
use go_debug_agent.Prelude.Map
use go_debug_agent.Prelude.Map.{text_key, int_key, total, value_or_zero, total-insert}
use go_debug_agent.Prelude.Text.{Text}
use go_debug_agent.Prelude.Int.{ℤ}
use go_debug_agent.Inspectors.Outbound.Transport.{
  HostCallStats, OutboundStats, OutboundRequest, Reply, RoundTripper, inner, tracking, host_stats,
  failed, count_status, record_call, round_trip, round_trips, depth,
}

-- The hosts' counts, errors and latencies sum to the totals, and no more calls have a status than
-- succeeded.
pub record IsTotalled (s : OutboundStats) : Type 0 where
  pub calls : total (λ (h : HostCallStats). h.count) s.per_host ≡ s.total_calls
  pub errors : total (λ (h : HostCallStats). h.error_count) s.per_host ≡ s.total_errors
  pub latency : total (λ (h : HostCallStats). h.total_latency) s.per_host ≡ s.total_latency
  pub statuses : total (λ n. n) s.status_codes + s.total_errors ≤ s.total_calls

-- A host's entry is replaced by one whose measure is larger by d.
total-grown :
    (f : HostCallStats → ℕ) (host : Text) (d : ℕ) (m : List (Text × HostCallStats))
    (counted : HostCallStats)
    → f (host_stats none) ≡ 0
    → f counted ≡ f (host_stats (Map.lookup host m)) + d
    → total f (Map.insert host counted m) ≡ total f m + d
unfolding host_stats value_or_zero
total-grown f host d m counted zero_stats h = elim (Option-cases (Map.lookup host m)) [
  | inl e ↦
      omega (arith, total-insert f host counted m, rw e at h, ap (value_or_zero f) e, zero_stats)
  | inr found ↦
      omega (arith, total-insert f host counted m, rw found.1 at h, ap (value_or_zero f) found.1)
]

total-count_status :
    (reply : Reply) (codes : List (ℤ × ℕ))
    → total (λ n. n) (count_status reply codes) + failed reply ≤ total (λ n. n) codes + 1
unfolding count_status failed
total-count_status reply codes = elim (Option-cases reply.error) [
  | inr e ↦ rw e.1 (omega arith)
  | inl e ↦ elim (Option-cases reply.status_code) [
    | inl n ↦ rw (e, n) (omega arith)
    | inr code ↦
        rw (e, code.1)
          (omega (
            arith,
            total-insert (λ n. n) code.0 (value_or_zero (λ n. n) (Map.lookup code.0 codes) + 1)
                codes,
          ))
  ]
]

record_call-IsTotalled :
    (host : Text) (elapsed : ℕ) (reply : Reply) (s : OutboundStats)
    → IsTotalled s
    → IsTotalled (record_call host elapsed reply s)
unfolding record_call host_stats
record_call-IsTotalled host elapsed reply s t = record {
  calls = omega (arith, t.calls, total-grown (λ h. h.count) host 1 s.per_host _ refl refl);
  errors = omega (
    arith,
    t.errors,
    total-grown (λ h. h.error_count) host (failed reply) s.per_host _ refl refl,
  );
  latency =
      omega
        (arith, t.latency, total-grown (λ h. h.total_latency) host elapsed s.per_host _ refl refl);
  statuses = omega (arith, t.statuses, total-count_status reply s.status_codes);
}

-- The wrappers around the transports of some calls.
unfoldable pub depths : {T : Type 0} → List (RoundTripper T × OutboundRequest) → ℕ
depths [] = 0
depths (call ∷ calls) = depth call.0 + depths calls

module _ {T W : Type 0} (now : W → ℕ × W) (send : T → OutboundRequest → W → Reply × W) where
  pub round_trip-IsTotalled :
      (rt : RoundTripper T) (req : OutboundRequest) (s : OutboundStats) (w : W)
      → IsTotalled s
      → IsTotalled (round_trip now send rt req s w).1
        × ((round_trip now send rt req s w).1.total_calls ≡ s.total_calls + depth rt)
  unfolding round_trip depth record_call
  round_trip-IsTotalled (inner t) req s w h = (h, omega arith)
  round_trip-IsTotalled (tracking rt) req s w h =
      let r = round_trip-IsTotalled rt req s (now w).1 h in
      (record_call-IsTotalled _ _ _ _ r.0, omega (arith, r.1))

  -- Calls through any transports keep the counts, errors and latencies of the hosts summing to the
  -- totals, with no more statuses than calls that succeeded; and each call is counted once by each
  -- trackingTransport around its transport.
  pub round_trips-IsTotalled :
      (calls : List (RoundTripper T × OutboundRequest)) (s : OutboundStats) (w : W)
      → IsTotalled s
      → IsTotalled (round_trips now send calls s w).0
        × ((round_trips now send calls s w).0.total_calls ≡ s.total_calls + depths calls)
  unfolding round_trips depths
  round_trips-IsTotalled [] s w h = (h, omega arith)
  round_trips-IsTotalled (call ∷ calls) s w h =
      let first = round_trip-IsTotalled call.0 call.1 s w h in
      let after = round_trip now send call.0 call.1 s w in
      let r = round_trips-IsTotalled calls after.1 after.2 first.0 in
      (r.0, omega (arith, first.1, r.1))
