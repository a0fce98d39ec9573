-- ===== src/Inspectors/Pool/Waits.antt =====
-- inspector_pool.go: get_pool_wait_stats and formatDurationNs. Products of durations are far below
-- 2^63 nanoseconds, which are 292 years, and are not wrapped around.
use go_debug_agent.Prelude.{
  ℕ, ◌+◌, ◌*◌, ◌/◌, ◌&&◌, List, [], ◌∷◌, ◌++◌, map, if◌then◌else◌, length, ltb, ◌==◌,
}
use go_debug_agent.Prelude.Text.{Text, ascii, decimal}
use go_debug_agent.Registry.Value.{Value, str}
use go_debug_agent.Inspectors.Base.{Format, object, array, count_value}
use go_debug_agent.Inspectors.Pool.Stats.{
  PoolStats, Databases, target_names, no_databases, database_entry,
}

unfoldable pub avg_wait_ns : PoolStats → ℕ
avg_wait_ns stats = if ltb 0 stats.wait_count then stats.wait_duration / stats.wait_count else 0

unfoldable pub max_wait_estimate_ns : PoolStats → ℕ
max_wait_estimate_ns stats =
    let estimate = avg_wait_ns stats * 5 in if estimate == 0 then stats.wait_duration else estimate

unfoldable pub timeout_estimate : PoolStats → ℕ
timeout_estimate stats =
    if ltb 0 stats.wait_count && ltb 1000000000 stats.wait_duration
    then stats.max_lifetime_closed
    else 0

-- fmt.Sprintf("%.2f", float64(ns) / float64(unit)) is a parameter.
unfoldable pub format_duration_ns : (ℕ → ℕ → Text) → ℕ → Text
format_duration_ns two_digits ns =
    if ns == 0
    then ascii "0s"
    else (if ltb ns 1000
        then decimal ns ++ ascii "ns"
        else (if ltb ns 1000000
            then two_digits ns 1000 ++ 194 ∷ 181 ∷ ascii "s"
            else (if ltb ns 1000000000
                then two_digits ns 1000000 ++ ascii "ms"
                else two_digits ns 1000000000 ++ ascii "s")))

module _ {X : Type 0} (format : Format) (two_digits : ℕ → ℕ → Text) where
  -- A ratio over 10 percent is one over a tenth.
  unfoldable pub wait_ratio_fields : PoolStats → List (Text × Value X)
  wait_ratio_fields stats =
      let total_approx = stats.wait_count + stats.open_connections in
      if ltb 0 stats.open_connections
      then (if ltb 0 total_approx
          then ((ascii "wait_ratio_pct", str (format.percent stats.wait_count total_approx))
              ∷ (
                ascii "assessment",
                str (
                    if ltb total_approx (stats.wait_count * 10)
                    then ascii "high_wait_ratio"
                    else ascii "normal"),
              )
              ∷ [])
          else [])
      else []

  unfoldable pub wait_fields : PoolStats → List (Text × Value X)
  wait_fields stats =
      let avg = avg_wait_ns stats in
      let p95 = avg * 5 / 2 in
      let longest = max_wait_estimate_ns stats in
      (ascii "wait_count", count_value stats.wait_count)
      ∷ (ascii "total_wait_duration", str (format.duration stats.wait_duration))
      ∷ (ascii "total_wait_ns", count_value stats.wait_duration)
      ∷ (ascii "avg_wait", str (format_duration_ns two_digits avg))
      ∷ (ascii "avg_wait_ns", count_value avg)
      ∷ (ascii "p95_wait_estimate", str (format_duration_ns two_digits p95))
      ∷ (ascii "p95_wait_ns", count_value p95)
      ∷ (ascii "max_wait_estimate", str (format_duration_ns two_digits longest))
      ∷ (ascii "max_wait_ns", count_value longest)
      ∷ (ascii "timeout_count_estimate", count_value (timeout_estimate stats))
      ∷ (
        ascii "note",
        str (
            ascii "P95 and max wait are estimates based on average. database/sql does not track "
            ++ ascii "per-request latency distribution."),
      )
      ∷ wait_ratio_fields stats

  -- The name of a database is "" where it is missing.
  unfoldable pub get_pool_wait_stats : (List Text → List Text) → Text → Databases → Value X
  get_pool_wait_stats sort_strings target [] = no_databases (ascii "wait stats.")
  get_pool_wait_stats sort_strings target (d ∷ ds) =
      let results =
        map (λ name. object (database_entry wait_fields (d ∷ ds) name))
          (target_names sort_strings target (d ∷ ds)) in
      object ((ascii "count", count_value (length results)) ∷ (ascii "stats", array results) ∷ [])
