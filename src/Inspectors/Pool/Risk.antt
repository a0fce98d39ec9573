-- ===== src/Inspectors/Pool/Risk.antt =====
-- inspector_pool.go: the risk levels against the severities of the issues.
use go_debug_agent.Prelude.{
  ℕ, ◌≤◌, ◌≡◌, refl, Bool, true, false, List, [], ◌∷◌, ◌++◌, map, Option, none, some, arith,
  if◌then◌else◌,
}
use Prim.Native.Nat.{max}
use go_debug_agent.Prelude.Text.{Text, ascii, text_eq}
use go_debug_agent.Inspectors.Pool.Stats.{PoolStats, Databases, database_at}
use go_debug_agent.Inspectors.Pool.Leaks.{
  Risk, no_risk, low, elevated, high, Issue, high_wait_ratio, long_wait_duration, pool_saturation,
  high_connection_churn, severity, risk_text, Leaks, raise, report, run_checks, is_wait_ratio_high,
  is_wait_long, is_saturated, is_churning, overall_risk, risk_at, database_risk,
}

abbrev rank : Risk → ℕ
rank no_risk = 0
rank low = 1
rank elevated = 2
rank high = 3

-- The rank of a severity, by its text in the report.
abbrev pub severity_rank : Text → ℕ
severity_rank s =
    if text_eq s (ascii "critical")
    then 3
    else (if text_eq s (ascii "warning") then 2 else (if text_eq s (ascii "info") then 1 else 0))

abbrev pub issue_rank : Issue → ℕ
issue_rank issue = severity_rank (severity issue)

abbrev pub worst : List Issue → ℕ
worst [] = 0
worst (i ∷ is) = max (issue_rank i) (worst is)

worst-append : (xs ys : List Issue) → worst (xs ++ ys) ≡ max (worst xs) (worst ys)
worst-append [] ys = omega arith
worst-append (x ∷ xs) ys = omega (arith, worst-append xs ys)

-- A report that raises the risk level keeps it at the worst issue.
worst-report :
    (found : Bool) (issue : Issue) (risk : Risk → Risk) (t : Leaks)
    → rank t.risk_level ≡ worst t.issues
    → rank (risk t.risk_level) ≡ max (rank t.risk_level) (issue_rank issue)
    → rank (report found issue risk t).risk_level ≡ worst (report found issue risk t).issues
unfolding report
worst-report false issue risk t h r = h
worst-report true issue risk t h r = omega (arith, h, r, worst-append t.issues (issue ∷ []))

raise_low : (risk : Risk) → rank (raise low risk) ≡ max (rank risk) 1
unfolding raise
raise_low no_risk = omega arith
raise_low low = omega arith
raise_low elevated = omega arith
raise_low high = omega arith

set_high : (risk : Risk) → rank high ≡ max (rank risk) 3
set_high no_risk = omega arith
set_high low = omega arith
set_high elevated = omega arith
set_high high = omega arith

-- The first two checks, by what they find.
first_checks : Bool → Bool → Leaks
first_checks ratio long =
    report long long_wait_duration (raise elevated) (
      report ratio high_wait_ratio (λ risk. elevated)
        (record { issues = []; risk_level = no_risk }))

worst-first_checks :
    (ratio long : Bool)
    → rank (first_checks ratio long).risk_level ≡ worst (first_checks ratio long).issues
unfolding first_checks report raise severity text_eq
worst-first_checks true true = omega arith
worst-first_checks true false = omega arith
worst-first_checks false true = omega arith
worst-first_checks false false = omega arith

worst-run_checks :
    (stats : PoolStats) → rank (run_checks stats).risk_level ≡ worst (run_checks stats).issues
unfolding run_checks first_checks severity text_eq
worst-run_checks stats =
    let first = first_checks (is_wait_ratio_high stats) (is_wait_long stats) in
    let saturated = report (is_saturated stats) pool_saturation (λ risk. high) first in
    let churned =
      report (is_churning stats.max_lifetime_closed stats) high_connection_churn (raise low)
        saturated in
    worst-report _ _ _ churned
      (worst-report _ _ _ saturated
        (worst-report _ _ _ first
          (worst-first_checks (is_wait_ratio_high stats) (is_wait_long stats))
          (set_high first.risk_level))
        (raise_low saturated.risk_level))
      (raise_low churned.risk_level)

-- The largest rank of the databases that have one.
abbrev worst_risk : List (Option Risk) → ℕ
worst_risk [] = 0
worst_risk (none ∷ risks) = worst_risk risks
worst_risk (some risk ∷ risks) = max (rank risk) (worst_risk risks)

rank_le : (risk : Risk) → rank risk ≤ 3
rank_le no_risk = omega arith
rank_le low = omega arith
rank_le elevated = omega arith
rank_le high = omega arith

worst_risk_le : (risks : List (Option Risk)) → worst_risk risks ≤ 3
worst_risk_le [] = omega arith
worst_risk_le (none ∷ risks) = worst_risk_le risks
worst_risk_le (some risk ∷ risks) = omega (arith, rank_le risk, worst_risk_le risks)

rank-overall_risk_from :
    (risks : List (Option Risk)) (overall : Risk)
    → rank (overall_risk risks overall) ≡ max (rank overall) (worst_risk risks)
unfolding overall_risk
rank-overall_risk_from [] overall = omega arith
rank-overall_risk_from (none ∷ risks) overall = rank-overall_risk_from risks overall
rank-overall_risk_from (some no_risk ∷ risks) overall =
    omega (arith, rank-overall_risk_from risks overall)
rank-overall_risk_from (some low ∷ risks) overall =
    omega (arith, rank-overall_risk_from risks (raise low overall), raise_low overall)
rank-overall_risk_from (some high ∷ risks) overall =
    omega (arith, rank_le overall, worst_risk_le risks)
rank-overall_risk_from (some elevated ∷ risks) no_risk =
    omega (arith, rank-overall_risk_from risks elevated)
rank-overall_risk_from (some elevated ∷ risks) low =
    omega (arith, rank-overall_risk_from risks elevated)
rank-overall_risk_from (some elevated ∷ risks) elevated =
    omega (arith, rank-overall_risk_from risks elevated)
rank-overall_risk_from (some elevated ∷ risks) high =
    omega (arith, rank-overall_risk_from risks high)

-- The issues that the checks report of a database, none for a nil one, and those of all.
unfoldable pub issues_of : Option PoolStats → List Issue
issues_of none = []
issues_of (some stats) = (run_checks stats).issues

unfoldable pub all_issues : Databases → List Text → List Issue
all_issues dbs [] = []
all_issues dbs (name ∷ names) = issues_of (database_at name dbs) ++ all_issues dbs names

worst_risk-database_risk :
    (db : Option PoolStats) (risks : List (Option Risk)) (issues : List Issue)
    → worst_risk risks ≡ worst issues
    → worst_risk (database_risk db ∷ risks) ≡ worst (issues_of db ++ issues)
unfolding database_risk issues_of
worst_risk-database_risk none risks issues h = h
worst_risk-database_risk (some stats) risks issues h =
    omega (arith, h, worst-run_checks stats, worst-append (run_checks stats).issues issues)

worst_risk-map :
    (dbs : Databases) (names : List Text)
    → worst_risk (map (risk_at dbs) names) ≡ worst (all_issues dbs names)
unfolding risk_at all_issues
worst_risk-map dbs [] = refl
worst_risk-map dbs (name ∷ names) =
    worst_risk-database_risk (database_at name dbs) (map (risk_at dbs) names) (all_issues dbs names)
      (worst_risk-map dbs names)

-- The rank of a risk level, by its text in the report.
abbrev pub level_rank : Text → ℕ
level_rank s =
    if text_eq s (ascii "high")
    then 3
    else (if text_eq s (ascii "elevated") then 2 else (if text_eq s (ascii "low") then 1 else 0))

level_rank-risk_text : (risk : Risk) → level_rank (risk_text risk) ≡ rank risk
unfolding risk_text text_eq
level_rank-risk_text no_risk = refl
level_rank-risk_text low = refl
level_rank-risk_text elevated = refl
level_rank-risk_text high = refl

-- detect_pool_leaks: the overall risk of any databases, some of them nil, is the worst severity of
-- all issues that the checks report of them: high exactly if one is critical, elevated if none is but
-- one is a warning, low if there are only infos, and none without issues. Stopping at the first high
-- risk changes nothing.
pub rank-overall_risk :
    (dbs : Databases) (names : List Text)
    → level_rank (risk_text (overall_risk (map (risk_at dbs) names) no_risk))
      ≡ worst (all_issues dbs names)
rank-overall_risk dbs names = omega (
  arith,
  level_rank-risk_text (overall_risk (map (risk_at dbs) names) no_risk),
  rank-overall_risk_from (map (risk_at dbs) names) no_risk,
  worst_risk-map dbs names,
)
