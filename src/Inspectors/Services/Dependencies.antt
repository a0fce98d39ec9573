-- ===== src/Inspectors/Services/Dependencies.antt =====
-- inspector_registry.go: buildDependencyGraph and the tool get_service_dependencies.
use go_debug_agent.Prelude.{List, [], ◌∷◌, ◌++◌, map, length}
use go_debug_agent.Prelude.Text.{Text, ascii}
use go_debug_agent.Registry.Value.{Value, str}
use go_debug_agent.Inspectors.Base.{object, array, count_value}

-- The names of what is registered, each in the order that its slice or the range over its map has.
pub record Registered : Type 0 where
  pub db_names : List Text
  pub gorm_registry : List Text
  pub registered_redis_clients : List Text
  pub cache_registry : List Text
  pub registered_gin_engines : List Text
  pub registered_echo_apps : List Text
  pub logger_registry : List Text
  pub http_client_registry : List Text

module _ {X : Type 0} where
  unfoldable pub dependency : Text → List Text → Text → Text → Value X
  dependency component depends_on type name = object (
      (ascii "component", str component)
      ∷ (ascii "name", str name)
      ∷ (ascii "depends_on", array (map str depends_on))
      ∷ (ascii "type", str type)
      ∷ [])

  unfoldable pub build_dependency_graph : Registered → List (Value X)
  build_dependency_graph r =
      map (dependency (ascii "database_pool") (ascii "network" ∷ []) (ascii "sql.DB")) r.db_names
      ++ map (dependency (ascii "gorm_db") (ascii "database_pool" ∷ []) (ascii "gorm.DB"))
          r.gorm_registry
      ++ map (dependency (ascii "redis_client") (ascii "network" ∷ []) (ascii "redis.Client"))
          r.registered_redis_clients
      ++ map (dependency (ascii "cache") [] (ascii "cache")) r.cache_registry
      ++ map (dependency (ascii "http_server") (ascii "network" ∷ []) (ascii "gin.Engine"))
          r.registered_gin_engines
      ++ map (dependency (ascii "http_server") (ascii "network" ∷ []) (ascii "echo.Echo"))
          r.registered_echo_apps
      ++ map (dependency (ascii "logger") [] (ascii "logger")) r.logger_registry
      ++ map (dependency (ascii "http_client") (ascii "network" ∷ []) (ascii "http.Client"))
          r.http_client_registry

  unfoldable pub get_service_dependencies : Registered → Value X
  get_service_dependencies r =
      let deps = build_dependency_graph r in
      object (
        (ascii "component_count", count_value (length deps))
        ∷ (ascii "dependencies", array deps)
        ∷ (
          ascii "note",
          str (
              ascii
                "Dependencies are inferred from registered components (DBs, caches, loggers, etc.)"),
        )
        ∷ [])
