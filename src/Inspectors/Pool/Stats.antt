-- ===== src/Inspectors/Pool/Stats.antt =====
-- inspector_pool.go: RegisterDatabase and get_pool_details. db.Stats() is what is registered of a
-- database, and its numbers are not negative.
use go_debug_agent.Prelude.{
  ℕ, ◌&&◌, not, List, [], ◌∷◌, ◌++◌, map, Option, none, some, if◌then◌else◌, length, is_empty, ltb,
  select,
}
use go_debug_agent.Prelude.Map
use go_debug_agent.Prelude.Map.{text_key}
use go_debug_agent.Prelude.Text.{Text, ascii, text_eq}
use go_debug_agent.Registry.Value.{Value, str}
use go_debug_agent.Inspectors.Base.{Format, object, array, count_value}

-- sql.DBStats, with the duration in nanoseconds.
pub record PoolStats : Type 0 where
  pub max_open_connections : ℕ
  pub open_connections : ℕ
  pub in_use : ℕ
  pub idle : ℕ
  pub wait_count : ℕ
  pub wait_duration : ℕ
  pub max_idle_closed : ℕ
  pub max_idle_time_closed : ℕ
  pub max_lifetime_closed : ℕ

-- A nil *sql.DB is `none`.
abbrev pub Databases : Type 0
Databases = List (Text × Option PoolStats)

unfoldable pub register_database : Text → Option PoolStats → Databases → Databases
register_database name db dbs = Map.insert name db dbs

-- registeredDBs[name]
unfoldable pub database_at : Text → Databases → Option PoolStats
database_at name dbs = elim (Map.lookup name dbs) [ none ↦ none | some db ↦ db ]

-- The sorted names without those that a target other than "" leaves out.
unfoldable pub target_names : (List Text → List Text) → Text → Databases → List Text
target_names sort_strings target dbs =
    select (λ name. not (not (is_empty target) && not (text_eq name target)))
      (sort_strings (map (λ d. d.0) dbs))

module _ {X : Type 0} where
  unfoldable pub no_databases : Text → Value X
  no_databases purpose = object (
      (
        ascii "message",
        str (
            ascii "No databases registered. Call debugagent.RegisterDatabase(name, db) to enable "
            ++ purpose),
      )
      ∷ (ascii "count", count_value 0)
      ∷ [])

  -- The entry of a database, by what a tool says of one that is not nil.
  unfoldable pub database_entry :
      (PoolStats → List (Text × Value X)) → Databases → Text → List (Text × Value X)
  database_entry fields dbs name = (ascii "name", str name) ∷ (elim (database_at name dbs) [
    | none ↦ (ascii "error", str (ascii "nil database")) ∷ []
    | some stats ↦ fields stats
  ])

module _ {X : Type 0} (format : Format) where
  unfoldable pub detail_fields : PoolStats → List (Text × Value X)
  detail_fields stats =
      (ascii "max_open_connections", count_value stats.max_open_connections)
        ∷ (ascii "open_connections", count_value stats.open_connections)
        ∷ (ascii "in_use", count_value stats.in_use)
        ∷ (ascii "idle", count_value stats.idle)
        ∷ (ascii "wait_count", count_value stats.wait_count)
        ∷ (ascii "wait_duration", str (format.duration stats.wait_duration))
        ∷ (ascii "wait_duration_ns", count_value stats.wait_duration)
        ∷ (ascii "max_idle_closed", count_value stats.max_idle_closed)
        ∷ (ascii "max_idle_time_closed", count_value stats.max_idle_time_closed)
        ∷ (ascii "max_lifetime_closed", count_value stats.max_lifetime_closed)
        ∷ (if ltb 0 stats.max_open_connections
            then ((
              ascii "utilization_pct",
              str (format.percent stats.in_use stats.max_open_connections),
            )
                ∷ (ascii "idle_pct", str (format.percent stats.idle stats.max_open_connections))
                ∷ [])
            else [])
      ++ (if ltb 0 stats.open_connections
          then (
            ascii "in_use_pct_of_open",
            str (format.percent stats.in_use stats.open_connections),
          )
            ∷ []
          else [])

  -- The name of a database is "" where it is missing.
  unfoldable pub get_pool_details : (List Text → List Text) → Text → Databases → Value X
  get_pool_details sort_strings target [] = no_databases (ascii "pool inspection.")
  get_pool_details sort_strings target (d ∷ ds) =
      let pools =
        map (λ name. object (database_entry detail_fields (d ∷ ds) name))
          (target_names sort_strings target (d ∷ ds)) in
      object ((ascii "count", count_value (length pools)) ∷ (ascii "pools", array pools) ∷ [])
