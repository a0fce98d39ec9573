-- ===== src/Inspectors/Pool/Leaks.antt =====
-- inspector_pool.go: detect_pool_leaks. A quotient of counts is compared as a fraction, which agrees
-- with float64 as long as the counts are below 2^52.
use go_debug_agent.Prelude.{
  ℕ, ◌+◌, ◌*◌, Bool, ◌&&◌, List, [], ◌∷◌, ◌++◌, map, Option, none, some, if◌then◌else◌, length, ltb,
  ◌==◌,
}
use go_debug_agent.Prelude.Text.{Text, ascii, decimal}
use go_debug_agent.Registry.Value.{Value, str}
use go_debug_agent.Inspectors.Base.{Format, object, array, count_value}
use go_debug_agent.Inspectors.Pool.Stats.{
  PoolStats, Databases, database_at, target_names, no_databases, database_entry,
}

-- The values of risk_level: "none", "low", "elevated" and "high".
pub data Risk : Type 0 where
  no_risk : Risk
  low : Risk
  elevated : Risk
  high : Risk

-- The types of the issues.
pub data Issue : Type 0 where
  high_wait_ratio : Issue
  long_wait_duration : Issue
  pool_saturation : Issue
  high_connection_churn : Issue
  high_idle_churn : Issue
  no_leaks_detected : Issue

unfoldable pub risk_text : Risk → Text
risk_text no_risk = ascii "none"
risk_text low = ascii "low"
risk_text elevated = ascii "elevated"
risk_text high = ascii "high"

unfoldable pub issue_type : Issue → Text
issue_type high_wait_ratio = ascii "high_wait_ratio"
issue_type long_wait_duration = ascii "long_wait_duration"
issue_type pool_saturation = ascii "pool_saturation"
issue_type high_connection_churn = ascii "high_connection_churn"
issue_type high_idle_churn = ascii "high_idle_churn"
issue_type no_leaks_detected = ascii "no_leaks_detected"

unfoldable pub severity : Issue → Text
severity high_wait_ratio = ascii "warning"
severity long_wait_duration = ascii "warning"
severity pool_saturation = ascii "critical"
severity high_connection_churn = ascii "info"
severity high_idle_churn = ascii "info"
severity no_leaks_detected = ascii "none"

-- issues and riskLevel.
pub record Leaks : Type 0 where
  pub issues : List Issue
  pub risk_level : Risk

-- if riskLevel == "none" { riskLevel = risk }
unfoldable pub raise : Risk → Risk → Risk
raise risk no_risk = risk
raise risk current = current

unfoldable pub report : Bool → Issue → (Risk → Risk) → Leaks → Leaks
report found issue risk t =
    if found then record { issues = t.issues ++ issue ∷ []; risk_level = risk t.risk_level } else t

unfoldable pub is_wait_ratio_high : PoolStats → Bool
is_wait_ratio_high stats =
    ltb 0 stats.wait_count
    && ltb 0 stats.open_connections
    && ltb (stats.wait_count + stats.open_connections) (2 * stats.wait_count)

unfoldable pub is_wait_long : PoolStats → Bool
is_wait_long stats = ltb 30000000000 stats.wait_duration

unfoldable pub is_saturated : PoolStats → Bool
is_saturated stats =
    ltb 0 stats.max_open_connections
    && stats.in_use == stats.max_open_connections
    && ltb 0 stats.wait_count

-- More than ten closed for each open connection, of which there is one.
unfoldable pub is_churning : ℕ → PoolStats → Bool
is_churning closed stats = ltb (stats.open_connections * 10) closed && ltb 0 stats.open_connections

-- The five checks.
unfoldable pub run_checks : PoolStats → Leaks
run_checks stats = report (is_churning stats.max_idle_closed stats) high_idle_churn (raise low) (
    report (is_churning stats.max_lifetime_closed stats) high_connection_churn (raise low) (
      report (is_saturated stats) pool_saturation (λ risk. high)
        (report (is_wait_long stats) long_wait_duration (raise elevated) (
          report (is_wait_ratio_high stats) high_wait_ratio (λ risk. elevated)
            (record { issues = []; risk_level = no_risk })))))

unfoldable pub with_default : List Issue → List Issue
with_default [] = no_leaks_detected ∷ []
with_default (i ∷ is) = i ∷ is

-- The loop of the overall assessment, on the databases' risk levels, where a nil database has none.
unfoldable pub overall_risk : List (Option Risk) → Risk → Risk
overall_risk [] overall = overall
overall_risk (some high ∷ risks) overall = high
overall_risk (some elevated ∷ risks) high = overall_risk risks high
overall_risk (some elevated ∷ risks) overall = overall_risk risks elevated
overall_risk (some low ∷ risks) overall = overall_risk risks (raise low overall)
overall_risk (some no_risk ∷ risks) overall = overall_risk risks overall
overall_risk (none ∷ risks) overall = overall_risk risks overall

-- The risk level of a database, and of the one of a name.
unfoldable pub database_risk : Option PoolStats → Option Risk
database_risk none = none
database_risk (some stats) = some ((run_checks stats).risk_level)

unfoldable pub risk_at : Databases → Text → Option Risk
risk_at dbs name = database_risk (database_at name dbs)

-- "—" in UTF-8, between spaces.
abbrev dash : Text
dash = 32 ∷ 226 ∷ 128 ∷ 148 ∷ 32 ∷ []

module _ {X : Type 0} (format : Format) where
  unfoldable pub issue_fields : PoolStats → Issue → List (Text × Value X)
  issue_fields stats high_wait_ratio =
      let ratio = format.percent stats.wait_count (stats.wait_count + stats.open_connections) in
      (
        ascii "detail",
        str (
            ascii "Wait ratio "
            ++ ratio
            ++ ascii " (> 50%)"
            ++ dash
            ++ ascii "connections may be held too long"),
      )
      ∷ (ascii "wait_count", count_value stats.wait_count)
      ∷ (ascii "open_conns", count_value stats.open_connections)
      ∷ (ascii "wait_ratio", str ratio)
      ∷ []
  issue_fields stats long_wait_duration =
      (
        ascii "detail",
        str (
            ascii "Total wait duration "
            ++ format.duration stats.wait_duration
            ++ dash
            ++ ascii "connections may be leaking"),
      )
      ∷ (ascii "wait_duration", str (format.duration stats.wait_duration))
      ∷ []
  issue_fields stats pool_saturation =
      (
        ascii "detail",
        str (
            ascii "Pool saturated: "
            ++ decimal stats.in_use
            ++ ascii "/"
            ++ decimal stats.max_open_connections
            ++ ascii " connections in use with "
            ++ decimal stats.wait_count
            ++ ascii " waits"),
      )
      ∷ (ascii "in_use", count_value stats.in_use)
      ∷ (ascii "max_open", count_value stats.max_open_connections)
      ∷ (ascii "wait_count", count_value stats.wait_count)
      ∷ []
  issue_fields stats high_connection_churn =
      (
        ascii "detail",
        str (
            ascii "High connection churn: "
            ++ decimal stats.max_lifetime_closed
            ++ ascii " lifetime closed with "
            ++ decimal stats.open_connections
            ++ ascii " open"),
      )
      ∷ (ascii "lifetime_closed", count_value stats.max_lifetime_closed)
      ∷ []
  issue_fields stats high_idle_churn =
      (
        ascii "detail",
        str (
            ascii "High idle connection churn: "
            ++ decimal stats.max_idle_closed
            ++ ascii " idle closed with "
            ++ decimal stats.open_connections
            ++ ascii " open"),
      )
      ∷ (ascii "idle_closed", count_value stats.max_idle_closed)
      ∷ []
  issue_fields stats no_leaks_detected =
      (ascii "detail", str (ascii "No connection pool leak indicators detected.")) ∷ []

  unfoldable pub issue_value : PoolStats → Issue → Value X
  issue_value stats issue = object (
      (ascii "type", str (issue_type issue))
      ∷ (ascii "severity", str (severity issue))
      ∷ issue_fields stats issue)

  unfoldable pub leak_fields : PoolStats → List (Text × Value X)
  leak_fields stats =
      let t = run_checks stats in
      let issues = with_default t.issues in
      (ascii "risk_level", str (risk_text t.risk_level))
      ∷ (ascii "issue_count", count_value (length issues))
      ∷ (ascii "issues", array (map (issue_value stats) issues))
      ∷ (
        ascii "stats_summary",
        object (
            (ascii "open", count_value stats.open_connections)
            ∷ (ascii "in_use", count_value stats.in_use)
            ∷ (ascii "idle", count_value stats.idle)
            ∷ (ascii "max_open", count_value stats.max_open_connections)
            ∷ (ascii "wait_count", count_value stats.wait_count)
            ∷ (ascii "wait_duration", str (format.duration stats.wait_duration))
            ∷ (ascii "idle_closed", count_value stats.max_idle_closed)
            ∷ (ascii "lifetime_closed", count_value stats.max_lifetime_closed)
            ∷ []),
      )
      ∷ []

  unfoldable pub detect_pool_leaks : (List Text → List Text) → Text → Databases → Value X
  detect_pool_leaks sort_strings target [] = no_databases (ascii "pool leak detection.")
  detect_pool_leaks sort_strings target (d ∷ ds) =
      let names = target_names sort_strings target (d ∷ ds) in
      let results = map (λ name. object (database_entry leak_fields (d ∷ ds) name)) names in
      object (
        (ascii "count", count_value (length results))
        ∷ (
          ascii "overall_risk",
          str (risk_text (overall_risk (map (risk_at (d ∷ ds)) names) no_risk)),
        )
        ∷ (ascii "databases", array results)
        ∷ [])
